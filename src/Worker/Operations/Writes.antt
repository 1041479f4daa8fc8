-- ===== src/Worker/Operations/Writes.antt =====
-- A whole run of writes on a disk without faults.
use fsbench.Prelude.{
  ℕ, ◌+◌, ◌^◌, ◌≤◌, ◌<◌, Bool, List, [], ◌∷◌, none, some, Text, codes, Outcome, ok, err, panic,
  length, ◌≡◌, ◌≢◌, refl, sym, ap, ap₂, ◌∙◌, subst, arith,
}
use fsbench.Common.Types.{ℤ, pos, Fsd, Fwd, TestCaseConfiguration}
use fsbench.Common.Int.{to_int}
use fsbench.FilePath.{join}
use fsbench.Worker.Disk.{OsError, Disk, Bytes, lookup}
use fsbench.Worker.Fs.{
  OsClient, full_path, new_os_client, with_direct_io, with_payload_generator, with_test_name,
}
use fsbench.Worker.Fs
use fsbench.Worker.Fs.Size.{
  IsSized, with_direct_io-KeepsSize, with_payload_generator-KeepsSize, with_test_name-KeepsSize,
  new_os_client-IsSized,
}
use fsbench.Worker.Fs.Write.{write_leaves_blocks, write_other}
use fsbench.Worker.Fs.Fresh.{write_succeeds}
use fsbench.Worker.Queue.{BaseOperation, WorkItem, write, Work, file_name}
use fsbench.Worker.Queue.Apart.{directory_of, target}
use fsbench.Worker.Operations.{
  Sample, uploaded, World, Result, sizes_of, direct_of, io_client, size_of_files, measured,
  with_client, item_do,
}

-- A test whose defines are complete, with sizes that fit an `int`.
pub record IsRunnable (conf : TestCaseConfiguration) (size block : ℕ) : Type 0 where
  pub fsd : Fsd
  pub fwd : Fwd
  pub direct : Bool
  pub fsd_eq : conf.fsd ≡ some fsd
  pub fwd_eq : conf.fwd ≡ some fwd
  pub direct_eq : fsd.direct_io ≡ some direct
  pub size_eq : fsd.size ≡ size
  pub block_eq : fwd.block_size ≡ block
  pub some_block : 0 < block
  pub fits : size + block < 2 ^ 63

-- A file that has the size asked for, and less than a block more.
abbrev pub IsPresent : ℕ → ℕ → Disk → Text → Type 0
IsPresent size block d path =
    (content : Bytes) × (lookup path d.files ≡ some content)
    × (size ≤ length content)
    × (length content < size + block)

to_int-small : (n : ℕ) → n < 2 ^ 63 → to_int n ≡ pos n
unfolding to_int
to_int-small n h = ground arith

fits_size :
    {conf : TestCaseConfiguration} {size block : ℕ} → IsRunnable conf size block → size < 2 ^ 63
fits_size r = omega (arith, r.fits)

fits_block :
    {conf : TestCaseConfiguration} {size block : ℕ} → IsRunnable conf size block → block < 2 ^ 63
fits_block r = omega (arith, r.fits)

IsSized-client :
    (dir : Text) (conf : TestCaseConfiguration) (size block : ℕ)
    → IsRunnable conf size block
    → (c : OsClient) × (io_client dir conf ≡ ok c) × IsSized dir size block c
unfolding io_client direct_of sizes_of
IsSized-client dir conf size block r =
    let (c, e, sized) =
      new_os_client-IsSized dir size block
        (with_direct_io r.direct
          ∷ with_payload_generator conf.payload_generator
          ∷ with_test_name conf.name
          ∷ [])
        r.some_block r.fits
        (
          with_direct_io-KeepsSize r.direct,
          (
            with_payload_generator-KeepsSize conf.payload_generator,
            (with_test_name-KeepsSize conf.name, tt),
          ),
        ) in
    (
      c,
      rw
          (
            r.fsd_eq,
            r.fwd_eq,
            r.direct_eq,
            r.size_eq,
            r.block_eq,
            to_int-small size (fits_size r),
            to_int-small block (fits_block r),
          )
          e,
      sized,
    )

-- What one `Do` of a write leaves.
pub record Wrote (size block : ℕ) (path : Text) (d : Disk) (r : Result) : Type 0 where
  pub success : r.0 ≡ ok tt
  pub quiet : r.1.disk.faults ≡ []
  pub present : IsPresent size block r.1.disk path
  pub others : (other : Text) → path ≢ other → lookup other r.1.disk.files ≡ lookup other d.files

measured_ok :
    (name method : Text) (bytes before : List Sample) (r : Outcome OsError (Unit {0}) × Disk)
    → r.0 ≡ ok tt
    → ((measured name method bytes before r).0 ≡ ok tt)
      × ((measured name method bytes before r).1.disk ≡ r.1)
unfolding measured
measured_ok name method bytes before (ok a, d) h = (refl, refl)
measured_ok name method bytes before (err e, d) h = cc
measured_ok name method bytes before (panic, d) h = cc

module _ (draws : ℕ → ℕ) (conf : TestCaseConfiguration) (b : BaseOperation) (index : ℤ)
    (w : World) where
  abbrev result : Result
  result = item_do draws conf (write b) index w

  result_of :
      (c : OsClient)
      → io_client b.directory conf ≡ ok c
      → result
        ≡ measured b.test_name
            (codes "WRITE")
            (uploaded b.test_name (codes "WRITE") (size_of_files conf.fsd) ∷ [])
            w.samples
            (Fs.write c draws (file_name index) w.disk)
  unfolding item_do with_client
  result_of c e = rw e refl

  write_once :
      (size block : ℕ)
      → IsRunnable conf size block
      → w.disk.faults ≡ []
      → lookup (join b.directory (file_name index)) w.disk.files ≡ none
      → Wrote size block (join b.directory (file_name index)) w.disk result
  write_once size block runnable quiet absent =
      let (c, e, s) = IsSized-client b.directory conf size block runnable in
      let name = file_name index in
      let at : full_path c name ≡ join b.directory name =
        ap (λ (r : Text). join r name) s.root_eq in
      let (success, still) =
        write_succeeds c draws name s.size w.disk s.bsize_eq quiet
          (ap (λ (p : Text). lookup p w.disk.files) at ∙ absent) in
      let left =
        write_leaves_blocks c draws name w.disk s.size s.count s.bsize_eq s.bcount_eq success in
      let done =
        measured_ok b.test_name (codes "WRITE")
          (uploaded b.test_name (codes "WRITE") (size_of_files conf.fsd) ∷ []) w.samples
          (Fs.write c draws name w.disk) success in
      let disk_eq : result.1.disk ≡ (Fs.write c draws name w.disk).1 =
        ap (λ (r : Result). r.1.disk) (result_of c e) ∙ done.1 in
      record {
        success = ap (λ (r : Result). r.0) (result_of c e) ∙ done.0;
        quiet = ap (λ (d : Disk). d.faults) disk_eq ∙ still;
        present = (
          left.content,
          ap₂ (λ (p : Text) (d : Disk). lookup p d.files) (sym at) disk_eq ∙ left.there,
          omega (arith, left.sized, s.covers),
          omega (arith, left.sized, s.less_than_a_block_over),
        );
        others = λ other ne.
            ap (λ (d : Disk). lookup other d.files) disk_eq
            ∙ write_other c draws name w.disk other (λ same. ne (sym at ∙ same));
      }

-- A work that writes a file which is not there.
abbrev pub IsWriteOf : Work → Type 0
IsWriteOf x = (b : BaseOperation) × (x.item ≡ write b)

abbrev pub IsAbsent : Disk → Work → Type 0
IsAbsent d x = lookup (target x) d.files ≡ none

pub write_work :
    (draws : ℕ → ℕ) (conf : TestCaseConfiguration) (size block : ℕ) (x : Work) (w : World)
    → IsRunnable conf size block
    → w.disk.faults ≡ []
    → IsWriteOf x
    → IsAbsent w.disk x
    → Wrote size block (target x) w.disk (item_do draws conf x.item x.index w)
unfolding target
write_work draws conf size block x w runnable quiet (b, e) absent =
    subst
      (λ (item : WorkItem).
        lookup (join (directory_of item) (file_name x.index)) w.disk.files ≡ none
        → Wrote size block (join (directory_of item) (file_name x.index)) w.disk
            (item_do draws conf item x.index w))
      (sym e) (unfold directory_of in write_once draws conf b x.index w size block runnable quiet)
      absent
