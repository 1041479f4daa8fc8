-- ===== src/Worker/Operations/WriteRun.antt =====
-- A whole run of writes on a disk without faults.
use fsbench.Prelude.{
  ℕ, ◌+◌, List, [], ◌∷◌, Text, ok, err, panic, All, All-imp, Pairwise, ◌≡◌, ◌≢◌, refl, sym, ◌∙◌,
  subst,
}
use fsbench.Common.Types.{TestCaseConfiguration}
use fsbench.Worker.Disk.{Disk, lookup}
use fsbench.Worker.Queue.{Work}
use fsbench.Worker.Queue.Apart.{target, TouchApart}
use fsbench.Worker.Operations.{World, Result, item_do, ignoring, do_works}
use fsbench.Worker.Operations.Writes.{IsRunnable, IsPresent, IsWriteOf, IsAbsent, write_work}

-- What the works of a run leave.
record Ran (size block : ℕ) (works : List Work) (d : Disk) (r : Result) : Type 0 where
  success : r.0 ≡ ok tt
  quiet : r.1.disk.faults ≡ []
  present : All (λ x. IsPresent size block r.1.disk (target x)) works
  others :
      (other : Text)
      → All (λ x. target x ≢ other) works
      → lookup other r.1.disk.files ≡ lookup other d.files

pub ignoring_ok : (r : Result) (k : World → Result) → r.0 ≡ ok tt → ignoring r k ≡ k r.1
unfolding ignoring
ignoring_ok (ok u, w) k h = refl
ignoring_ok (err e, w) k h = cc
ignoring_ok (panic, w) k h = cc

still-IsAbsent :
    (x : Work) (d d' : Disk) (ys : List Work)
    → ((other : Text) → target x ≢ other → lookup other d'.files ≡ lookup other d.files)
    → All (TouchApart x) ys
    → All (IsAbsent d) ys
    → All (IsAbsent d') ys
still-IsAbsent x d d' [] others apart absent = tt
still-IsAbsent x d d' (y ∷ ys) others (ne, apart) (e, absent) =
    (others (target y) ne ∙ e, still-IsAbsent x d d' ys others apart absent)

still-IsPresent :
    (size block : ℕ) (d d' : Disk) (path : Text)
    → lookup path d'.files ≡ lookup path d.files
    → IsPresent size block d path
    → IsPresent size block d' path
still-IsPresent size block d d' path same (content, there, le, lt) = (content, same ∙ there, le, lt)

module _ (draws : ℕ → ℕ → ℕ) (conf : TestCaseConfiguration) (size block : ℕ)
    (runnable : IsRunnable conf size block) where
  writes-Ran :
      (k : ℕ) (works : List Work) (w : World)
      → w.disk.faults ≡ []
      → All IsWriteOf works
      → Pairwise TouchApart works
      → All (IsAbsent w.disk) works
      → Ran size block works w.disk (do_works draws conf k works w)
  unfolding do_works
  writes-Ran k [] w quiet writes apart absent = record {
    success = refl;
    quiet = quiet;
    present = tt;
    others = λ other _. refl;
  }
  writes-Ran k (x ∷ xs) w quiet (is_write, writes) (x_apart, apart) (x_absent, absent) =
      let r = item_do (draws k) conf x.item x.index w in
      let one = write_work (draws k) conf size block x w runnable quiet is_write x_absent in
      let rest =
        writes-Ran (k + 1) xs r.1 one.quiet writes apart
          (still-IsAbsent x w.disk r.1.disk xs one.others x_apart absent) in
      let goes = ignoring_ok r (do_works draws conf (k + 1) xs) one.success in
      let back =
        All-imp (TouchApart x) (λ y. target y ≢ target x) xs (λ y ne e. ne (sym e)) x_apart in
      subst (Ran size block (x ∷ xs) w.disk) (sym goes) (record {
        success = rest.success;
        quiet = rest.quiet;
        present = (
          still-IsPresent size block r.1.disk (do_works draws conf (k + 1) xs r.1).1.disk (target x)
              (rest.others (target x) back) one.present,
          rest.present,
        );
        others = λ other ne. rest.others other ne.1 ∙ one.others other ne.0;
      })

  -- On a disk without faults, a run of writes to distinct files that are not there reports success for
  -- all of them, and leaves each file with the size that is configured, or less than a block more. The
  -- defines of the test must be complete, its block size positive, and its sizes together fit an `int`.
  pub writes-All :
      (k : ℕ) (works : List Work) (w : World)
      → w.disk.faults ≡ []
      → All IsWriteOf works
      → Pairwise TouchApart works
      → All (IsAbsent w.disk) works
      → ((do_works draws conf k works w).0 ≡ ok tt)
        × All (λ x. IsPresent size block (do_works draws conf k works w).1.disk (target x)) works
  writes-All k works w quiet writes apart absent =
      let ran = writes-Ran k works w quiet writes apart absent in (ran.success, ran.present)
