-- ===== src/Worker/Operations/Samples.antt =====
-- What the works of a run hand to the metrics: each is counted once, as finished or as failed, and
-- its bytes are counted whether it failed or not.
use fsbench.Prelude.{
  ℕ, ◌+◌, Bool, List, [], ◌∷◌, ◌++◌, Option, none, some, Text, text_eq, Outcome, ok, err, panic,
  if◌then◌else◌, ◌==◌, ◌>>=◌, ◌≡◌, ◌≢◌, refl, arith, Bool-cases, inl, inr,
}
use fsbench.Common.Types.{ℤ, Fsd, Fwd, TestCaseConfiguration}
use fsbench.Common.Int.{to_int, div, magnitude, ◌≤?◌}
use fsbench.Worker.Disk.{OsError}
use fsbench.Worker.Fs.{OsClientOption, new_os_client}
use fsbench.Worker.Operations.{
  Sample, latency, failed, finished, downloaded, uploaded, sizes_of, direct_of, deref, io_client,
  bare_client,
}

-- Adds up what a function makes of each sample.
unfoldable pub tally : (Sample → ℕ) → List Sample → ℕ
tally f [] = 0
tally f (s ∷ ss) = f s + tally f ss

pub tally-append :
    (f : Sample → ℕ) (xs ys : List Sample) → tally f (xs ++ ys) ≡ tally f xs + tally f ys
unfolding tally
tally-append f [] ys = omega arith
tally-append f (x ∷ xs) ys = omega (arith, tally-append f xs ys)

-- 1 for a work of the test that has ended, be it well or not.
unfoldable pub ended : Text → Sample → ℕ
ended name (finished n m) = if text_eq n name then 1 else 0
ended name (failed n m) = if text_eq n name then 1 else 0
ended name (latency n m) = 0
ended name (downloaded n m b) = 0
ended name (uploaded n m b) = 0

-- The bytes that a sample adds to the total of the test.
unfoldable pub bytes_of : Text → Sample → ℕ
bytes_of name (downloaded n m b) = if text_eq n name then b else 0
bytes_of name (uploaded n m b) = if text_eq n name then b else 0
bytes_of name (finished n m) = 0
bytes_of name (failed n m) = 0
bytes_of name (latency n m) = 0

-- `NewOSClient` has no error to return.
new_os_client-ne-err :
    (root : Text) (f b : ℤ) (options : List OsClientOption) (e : OsError)
    → new_os_client root f b options ≢ err e
unfolding new_os_client div
new_os_client-ne-err root f b options e h = elim (Bool-cases (f ≤? b)) [
  | inl small ↦ absurd (cc (rw small at h))
  | inr large ↦ elim (Bool-cases (magnitude b == 0)) [
    | inl z ↦ absurd (cc (rw (large, z) at h))
    | inr nz ↦ absurd (cc (rw (large, nz) at h))
  ]
]

abbrev pub NoError : {A : Type 0} → Outcome OsError A → Type 0
NoError m = (e : OsError) → m ≢ err e

bind-NoError :
    {A B : Type 0} (m : Outcome OsError A) (k : A → Outcome OsError B)
    → NoError m
    → ((a : A) → NoError (k a))
    → NoError (m >>= k)
bind-NoError (ok a) k hm hk e h = hk a e h
bind-NoError (err e') k hm hk e h = hm e' refl
bind-NoError panic k hm hk e h = cc

sizes_of-NoError : (fsd : Option Fsd) (fwd : Option Fwd) → NoError (sizes_of fsd fwd)
unfolding sizes_of
sizes_of-NoError none w e h = cc
sizes_of-NoError (some d) none e h = cc
sizes_of-NoError (some d) (some w) e h = cc

deref-NoError : (o : Option Bool) → NoError (deref o)
deref-NoError none e h = cc
deref-NoError (some b) e h = cc

direct_of-NoError : (fsd : Option Fsd) → NoError (direct_of fsd)
unfolding direct_of
direct_of-NoError none e h = cc
direct_of-NoError (some d) e h = deref-NoError d.direct_io e h

pub io_client-NoError : (dir : Text) (conf : TestCaseConfiguration) → NoError (io_client dir conf)
unfolding io_client
io_client-NoError dir conf =
    bind-NoError (direct_of conf.fsd) _ (direct_of-NoError conf.fsd) (λ direct.
      bind-NoError (sizes_of conf.fsd conf.fwd) _ (sizes_of-NoError conf.fsd conf.fwd)
        (λ sizes. new_os_client-ne-err dir (to_int sizes.0) (to_int sizes.1) _))

pub bare_client-NoError :
    (dir : Text) (conf : TestCaseConfiguration) → NoError (bare_client dir conf)
unfolding bare_client
bare_client-NoError dir conf =
    bind-NoError (sizes_of conf.fsd conf.fwd) _ (sizes_of-NoError conf.fsd conf.fwd)
      (λ sizes. new_os_client-ne-err dir (to_int sizes.0) (to_int sizes.1) _)
