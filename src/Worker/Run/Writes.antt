-- ===== src/Worker/Run/Writes.antt =====
-- A run of writes by a pool of clients: `workOneShot` beside `DoWork` (pkg/worker/worker.go), and `Do` of
-- each work on the disk (pkg/worker/workItems.go).
use mathlib.Core.List.Permᴰ
use mathlib.Core.Logic.{∥∥₁_elim}
use mathlib.Core.HLevel.{Σ_prop_path}
use mathlib.Core.Option.{some-injective}
use native.Mathlib.Nat.{ℕ_set}
use native.Mathlib.Bridge.{le_prop}
use fsbench.Prelude.{
  ℕ, ◌+◌, ◌≤◌, ◌<◌, length, List, [], ◌∷◌, some, Text, ok, Outcome, All, ◌≡◌, ◌≢◌, sym, ap, ◌∙◌,
}
use fsbench.Common.OpType.{write_op}
use fsbench.Common.Types.{pos, Fsd, WorkerConf}
use fsbench.Common.Int.{to_int, rounds}
use fsbench.FilePath.{slash}
use fsbench.FilePath.Elements.{Lacks}
use fsbench.Worker.Disk.{OsError, Disk, Bytes, lookup}
use fsbench.Worker.Queue.{WorkItem, fill_workqueue, work_one_shot}
use fsbench.Worker.Queue.Apart.{target}
use fsbench.Worker.Pool.{Pool, perf_test, Run}
use fsbench.Worker.Pool.Once.{IsStuck}
use fsbench.Worker.Operations.{World, do_works}
use fsbench.Worker.Operations.Writes.{IsRunnable, IsPresent, IsAbsent}
use fsbench.Worker.Operations.FromConfig.{order-AllWritten}
use fsbench.Worker.Run.{run_works, does_each_work}

Outcome-IsSet : IsSet (Outcome OsError (Unit {0}))
Outcome-IsSet = hlevel (ℕ_set)

module _ (size block : ℕ) (d : Disk) (path : Text) where
  abbrev Sized : Bytes → Type 0
  Sized content =
      (lookup path d.files ≡ some content)
      × (size ≤ length content)
      × (length content < size + block)

  unpaired : (content : Bytes) × Sized content → IsPresent size block d path
  unpaired (content, (there, le, lt)) = (content, there, le, lt)

  -- The content of a file is what the disk has at its path, so there is one at most.
  IsPresent-IsProp : IsProp (IsPresent size block d path)
  unfolding unpaired
  IsPresent-IsProp (c, there, le, lt) (c', there', le', lt') = ap unpaired (
      Σ_prop_path {B = Sized} (λ content. hlevel (ℕ_set, le_prop)) {u = (c, (there, le, lt))}
        {v = (c', (there', le', lt'))} (some-injective c c' (sym there ∙ there')))

All-IsProp :
    {A : Type 0} (P : A → Type 0) (xs : List A) → ((x : A) → IsProp (P x)) → IsProp (All P xs)
All-IsProp P [] h = hlevel
All-IsProp P (x ∷ xs) h = let prop = All-IsProp P xs h in hlevel (h x, prop)

-- Whatever the schedule in which each `Do` returns, when a run of writes by at least one client can go no
-- further, the works that the clients have finished, done in that order, have all succeeded, and every
-- file of the queue is on the disk with the size configured or less than a block more. The defines must
-- be complete, the worker's ID without a slash, the anchor not empty, and the disk without faults and
-- without the run's files. Works that overlap in time are taken in the order in which they end.
pub pool_writes_all :
    (config : WorkerConf) (fsd : Fsd) (draws : ℕ → ℕ → ℕ) (size block n k : ℕ) (w : World)
    (queue : List WorkItem) (q : Pool)
    → config.test.fsd ≡ some fsd
    → config.op ≡ write_op
    → config.parallel_clients ≡ pos n
    → 0 < n
    → IsRunnable config.test size block
    → Lacks slash config.worker_id
    → fsd.anchor ≢ []
    → w.disk.faults ≡ []
    → fill_workqueue config [] ≡ ok queue
    → All (IsAbsent w.disk) (run_works fsd queue)
    → Run n (perf_test (work_one_shot fsd queue config.parallel_clients) n) k q
    → IsStuck n q
    → ((do_works draws config.test 0 q.done w).0 ≡ ok tt)
      × All
          (λ x. IsPresent size block (do_works draws config.test 0 q.done w).1.disk (target x))
          (run_works fsd queue)
pool_writes_all config fsd draws size block n k w queue q e is_write clients some_client runnable
      plain anchor quiet filled absent run stuck =
    let over = does_each_work config fsd queue n k q e clients some_client filled run stuck in
    let all_present =
      All-IsProp
        (λ x. IsPresent size block (do_works draws config.test 0 q.done w).1.disk (target x))
        (run_works fsd queue)
        (λ x.
          IsPresent-IsProp size block (do_works draws config.test 0 q.done w).1.disk (target x)) in
    ∥∥₁_elim (over.1) (hlevel (all_present, Outcome-IsSet)) (λ d.
      order-AllWritten config fsd draws size block (rounds (to_int fsd.files)) w e is_write runnable
        plain anchor quiet queue q.done filled (Permᴰ.symm d) absent)
