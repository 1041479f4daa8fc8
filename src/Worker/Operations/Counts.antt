-- ===== src/Worker/Operations/Counts.antt =====
-- The counters of a run: each work is counted once, as finished or as failed, and its bytes are
-- counted whether it failed or not.
use fsbench.Prelude.{
  ℕ, ◌+◌, true, List, [], ◌∷◌, Option, none, some, Text, codes, text_eq, text_eq_iff, Outcome, ok,
  err, panic, All, length, ◌≡◌, ◌≢◌, refl, ap, ◌∙◌, arith,
}
use fsbench.Common.Types.{ℤ, Fsd, TestCaseConfiguration}
use fsbench.Worker.Disk.{OsError, Disk, Os}
use fsbench.Worker.Fs.{OsClient}
use fsbench.Worker.Queue.{BaseOperation, WorkItem, read, write, stat, delete, stopper, Work}
use fsbench.Worker.Operations.{
  Sample, latency, failed, finished, downloaded, uploaded, World, Result, io_client, bare_client,
  size_of_files, measured, with_client, item_do, ignoring, do_works,
}
use fsbench.Worker.Operations.Samples.{
  tally, tally-append, ended, bytes_of, NoError, io_client-NoError, bare_client-NoError,
}

-- A result that is no panic, and what it has added to a tally.
abbrev Adds : (Sample → ℕ) → List Sample → Result → ℕ → Type 0
Adds f before r n = r.0 ≢ panic → tally f r.1.samples ≡ tally f before + n

module _ (f : Sample → ℕ) (name method : Text) (bytes : List Sample) (n : ℕ) where
  -- What a call adds, be it finished or failed.
  abbrev Weighs : Type 0
  Weighs =
      (f (latency name method) + (f (finished name method) + tally f bytes) ≡ n)
      × (f (latency name method) + (f (failed name method) + tally f bytes) ≡ n)

  measured-Adds :
      {A : Type 0} (before : List Sample) (r : Outcome OsError A × Disk)
      → Weighs
      → Adds f before (measured name method bytes before r) n
  unfolding measured tally
  measured-Adds before (ok a, d) (h, k) no_panic =
      tally-append f before (latency name method ∷ finished name method ∷ bytes)
      ∙ ap (λ (m : ℕ). tally f before + m) h
  measured-Adds before (err e, d) (h, k) no_panic =
      tally-append f before (latency name method ∷ failed name method ∷ bytes)
      ∙ ap (λ (m : ℕ). tally f before + m) k
  measured-Adds before (panic, d) h no_panic = absurd (no_panic refl)

  with_client-Adds :
      {A : Type 0} (client : Outcome OsError OsClient) (action : OsClient → Os A) (w : World)
      → NoError client
      → Weighs
      → Adds f w.samples (with_client name method bytes client action w) n
  unfolding with_client
  with_client-Adds (ok c) action w sure h = measured-Adds w.samples (action c w.disk) h
  with_client-Adds (err e) action w sure h = absurd (sure e refl)
  with_client-Adds panic action w sure h = λ no_panic. absurd (no_panic refl)

-- The name of the test of an item; a stopper has none.
unfoldable pub test_of : WorkItem → Option Text
test_of (read b) = some b.test_name
test_of (write b) = some b.test_name
test_of (stat b) = some b.test_name
test_of (delete b) = some b.test_name
test_of stopper = none

-- The bytes that an item is counted with.
unfoldable pub volume : Option Fsd → WorkItem → ℕ
volume fsd (read b) = size_of_files fsd
volume fsd (write b) = size_of_files fsd
volume fsd (stat b) = 0
volume fsd (delete b) = 0
volume fsd stopper = 0

name_self : (name n : Text) → ◌≡◌ {A = Option Text} (some n) (some name) → text_eq n name ≡ true
name_self name n h = (text_eq_iff n name).1 (cc h)

ended-Weighs :
    (name n method : Text) (bytes : List Sample)
    → ◌≡◌ {A = Option Text} (some n) (some name)
    → tally (ended name) bytes ≡ 0
    → Weighs (ended name) n method bytes 1
unfolding ended
ended-Weighs name n method bytes h z = ground (arith, name_self name n h)

bytes-Weighs :
    (name n method : Text) (bytes : List Sample) (size : ℕ)
    → tally (bytes_of name) bytes ≡ size
    → Weighs (bytes_of name) n method bytes size
unfolding bytes_of
bytes-Weighs name n method bytes size h = (omega (arith, h), omega (arith, h))

abbrev pub IsOf : Text → Work → Type 0
IsOf name x = test_of x.item ≡ some name

abbrev read_sample : Option Fsd → BaseOperation → List Sample
read_sample fsd b = downloaded b.test_name (codes "READ") (size_of_files fsd) ∷ []

abbrev write_sample : Option Fsd → BaseOperation → List Sample
write_sample fsd b = uploaded b.test_name (codes "WRITE") (size_of_files fsd) ∷ []

module _ (name : Text) (draws : ℕ → ℕ) (conf : TestCaseConfiguration) (index : ℤ) (w : World) where
  item_do-ended :
      (item : WorkItem)
      → test_of item ≡ some name
      → Adds (ended name) w.samples (item_do draws conf item index w) 1
  unfolding test_of item_do tally ended
  item_do-ended (read b) h =
      with_client-Adds (ended name) b.test_name (codes "READ") (read_sample conf.fsd b) 1
        (io_client b.directory conf) _ w (io_client-NoError b.directory conf)
        (ended-Weighs name b.test_name (codes "READ") (read_sample conf.fsd b) h refl)
  item_do-ended (write b) h =
      with_client-Adds (ended name) b.test_name (codes "WRITE") (write_sample conf.fsd b) 1
        (io_client b.directory conf) _ w (io_client-NoError b.directory conf)
        (ended-Weighs name b.test_name (codes "WRITE") (write_sample conf.fsd b) h refl)
  item_do-ended (stat b) h =
      with_client-Adds (ended name) b.test_name (codes "STAT") [] 1 (bare_client b.directory conf) _
        w (bare_client-NoError b.directory conf)
        (ended-Weighs name b.test_name (codes "STAT") [] h refl)
  item_do-ended (delete b) h =
      with_client-Adds (ended name) b.test_name (codes "DELETE") [] 1 (bare_client b.directory conf)
        _ w (bare_client-NoError b.directory conf)
        (ended-Weighs name b.test_name (codes "DELETE") [] h refl)
  item_do-ended stopper h = cc

  item_do-bytes :
      (item : WorkItem)
      → test_of item ≡ some name
      → Adds (bytes_of name) w.samples (item_do draws conf item index w) (volume conf.fsd item)
  unfolding test_of item_do tally bytes_of volume
  item_do-bytes (read b) h =
      with_client-Adds (bytes_of name) b.test_name (codes "READ") (read_sample conf.fsd b)
        (size_of_files conf.fsd) (io_client b.directory conf) _ w
        (io_client-NoError b.directory conf)
        (bytes-Weighs name b.test_name (codes "READ") (read_sample conf.fsd b)
          (size_of_files conf.fsd) (ground (arith, name_self name b.test_name h)))
  item_do-bytes (write b) h =
      with_client-Adds (bytes_of name) b.test_name (codes "WRITE") (write_sample conf.fsd b)
        (size_of_files conf.fsd) (io_client b.directory conf) _ w
        (io_client-NoError b.directory conf)
        (bytes-Weighs name b.test_name (codes "WRITE") (write_sample conf.fsd b)
          (size_of_files conf.fsd) (ground (arith, name_self name b.test_name h)))
  item_do-bytes (stat b) h =
      with_client-Adds (bytes_of name) b.test_name (codes "STAT") [] 0
        (bare_client b.directory conf) _ w (bare_client-NoError b.directory conf)
        (bytes-Weighs name b.test_name (codes "STAT") [] 0 refl)
  item_do-bytes (delete b) h =
      with_client-Adds (bytes_of name) b.test_name (codes "DELETE") [] 0
        (bare_client b.directory conf) _ w (bare_client-NoError b.directory conf)
        (bytes-Weighs name b.test_name (codes "DELETE") [] 0 refl)
  item_do-bytes stopper h = cc

ignoring_passed :
    (r : Result) (k : World → Result)
    → (ignoring r k).0 ≢ panic
    → (r.0 ≢ panic) × (ignoring r k ≡ k r.1)
unfolding ignoring
ignoring_passed (ok u, w) k h = ((λ e. cc), refl)
ignoring_passed (err e, w) k h = ((λ e'. cc), refl)
ignoring_passed (panic, w) k h = absurd (h refl)

-- The bytes that all works are counted with.
unfoldable pub total_volume : Option Fsd → List Work → ℕ
total_volume fsd [] = 0
total_volume fsd (x ∷ xs) = volume fsd x.item + total_volume fsd xs

-- If no work panics, then the counters of finished and failed works of the test together have grown by
-- the number of works, and its byte counters by the size of a file for each work that reads or writes,
-- whether it failed or not, and by nothing for the others.
pub do_works-counted :
    (name : Text) (draws : ℕ → ℕ → ℕ) (conf : TestCaseConfiguration) (k : ℕ) (works : List Work)
    (w : World)
    → All (IsOf name) works
    → (do_works draws conf k works w).0 ≢ panic
    → (tally (ended name) (do_works draws conf k works w).1.samples
        ≡ tally (ended name) w.samples + length works)
      × (tally (bytes_of name) (do_works draws conf k works w).1.samples
          ≡ tally (bytes_of name) w.samples + total_volume conf.fsd works)
unfolding do_works total_volume
do_works-counted name draws conf k [] w of_test h = (omega arith, omega arith)
do_works-counted name draws conf k (x ∷ xs) w (of_x, of_xs) h =
    let r = item_do (draws k) conf x.item x.index w in
    let (calm, e) = ignoring_passed r (do_works draws conf (k + 1) xs) h in
    let ends = item_do-ended name (draws k) conf x.index w x.item of_x calm in
    let moves = item_do-bytes name (draws k) conf x.index w x.item of_x calm in
    let calm' : (do_works draws conf (k + 1) xs r.1).0 ≢ panic =
      λ p. h (ap (λ (q : Result). q.0) e ∙ p) in
    let rest = do_works-counted name draws conf (k + 1) xs r.1 of_xs calm' in
    (
      ap (λ (q : Result). tally (ended name) q.1.samples) e ∙ rest.0 ∙ omega (arith, ends),
      ap (λ (q : Result). tally (bytes_of name) q.1.samples) e ∙ rest.1 ∙ omega (arith, moves),
    )
