-- ===== src/Worker/Operations/FromConfig.antt =====
-- A run of writes from its configuration: `fillWorkqueue`, the works that `workOneShot` sends, and their
-- handlers.
use mathlib.Core.List.{Permᴰ}
use mathlib.Core.List.Permᴰ
use fsbench.Prelude.{
  ℕ, List, [], map, some, Text, ok, All, All-imp, All-map, All-of_forall, All-permuted,
  Pairwise-permuted, ◌≡◌, ◌≢◌, refl, sym, ap, ◌∙◌, subst,
}
use fsbench.Common.OpType.{write_op}
use fsbench.Common.Types.{Fsd, WorkerConf}
use fsbench.FilePath.{slash}
use fsbench.FilePath.Elements.{Lacks}
use fsbench.Worker.Populate.{populate_dirs}
use fsbench.Worker.Queue.{
  WorkItem, write, Work, new_item, append_items, fill_workqueue, file_works, queue_works,
}
use fsbench.Worker.Queue.Sequence.{ok_inj, fill_workqueue-some}
use fsbench.Worker.Queue.Apart.{target, TouchApart, IsFileFrom, file_works_from, queue_works-All}
use fsbench.Worker.Queue.Targets.{run_targets_apart}
use fsbench.Worker.Operations.{World, do_works}
use fsbench.Worker.Operations.Writes.{IsRunnable, IsPresent, IsWriteOf, IsAbsent}
use fsbench.Worker.Operations.WriteRun.{writes-All}

write_item : new_item write_op ≡ ok write
unfolding new_item
write_item = refl

abbrev pub item_at : Text → Text → WorkItem
item_at name dir = write (record { test_name = name; directory = dir })

pub write_queue :
    (config : WorkerConf) (fsd : Fsd)
    → config.test.fsd ≡ some fsd
    → config.op ≡ write_op
    → fill_workqueue config []
      ≡ ok (map (item_at config.test.name) (populate_dirs config.worker_id fsd))
write_queue config fsd e is_write =
    fill_workqueue-some config [] fsd e
    ∙ ap (append_items [] config.test.name (populate_dirs config.worker_id fsd))
        (ap new_item is_write ∙ write_item)

file_of_write :
    (name dir : Text) (files : ℕ) → All IsWriteOf (file_works (item_at name dir) 0 files)
file_of_write name dir files =
    All-imp (IsFileFrom (item_at name dir) 0) IsWriteOf (file_works (item_at name dir) 0 files)
      (λ w from. (record { test_name = name; directory = dir }, ap (λ (x : Work). x.item) from.1))
      (file_works_from (item_at name dir) 0 files)

each_writes :
    (name : Text) (dirs : List Text) (files : ℕ)
    → All IsWriteOf (queue_works (map (item_at name) dirs) files)
each_writes name dirs files = queue_works-All files IsWriteOf (map (item_at name) dirs) (
    All-map (λ y. All IsWriteOf (file_works y 0 files)) (item_at name) dirs
      (All-of_forall (λ dir. All IsWriteOf (file_works (item_at name dir) 0 files)) dirs
        (λ dir. file_of_write name dir files)))

-- The works of a run of writes, done in an order of any kind.
module _ (config : WorkerConf) (fsd : Fsd) (draws : ℕ → ℕ → ℕ) (size block files : ℕ) (w : World)
    (e : config.test.fsd ≡ some fsd) (is_write : config.op ≡ write_op)
    (runnable : IsRunnable config.test size block) (plain : Lacks slash config.worker_id)
    (anchor : fsd.anchor ≢ []) (quiet : w.disk.faults ≡ []) where
  -- The works of the order succeed, and the files of the queue are there.
  abbrev pub AllWritten : List WorkItem → List Work → Type 0
  AllWritten queue order =
      ((do_works draws config.test 0 order w).0 ≡ ok tt)
      × All (λ x. IsPresent size block (do_works draws config.test 0 order w).1.disk (target x))
          (queue_works queue files)

  pub order-AllWritten :
      (queue : List WorkItem) (order : List Work)
      → fill_workqueue config [] ≡ ok queue
      → Permᴰ (queue_works queue files) order
      → All (IsAbsent w.disk) (queue_works queue files)
      → AllWritten queue order
  order-AllWritten queue order filled permuted absent =
      let writes : All IsWriteOf (queue_works queue files) =
        subst (λ q. All IsWriteOf (queue_works q files))
          (ok_inj (sym (write_queue config fsd e is_write) ∙ filled))
          (each_writes config.test.name (populate_dirs config.worker_id fsd) files) in
      let (success, present) =
        writes-All draws config.test size block runnable 0 order w quiet
          (All-permuted IsWriteOf permuted writes)
          (Pairwise-permuted TouchApart (λ x y ne same. ne (sym same)) permuted
            (run_targets_apart config fsd queue files e plain anchor filled))
          (All-permuted (IsAbsent w.disk) permuted absent) in
      (
        success,
        All-permuted
            (λ x. IsPresent size block (do_works draws config.test 0 order w).1.disk (target x))
            (Permᴰ.symm permuted) present,
      )

-- A worker that is sent the configuration of a write run fills its queue, and on a disk without faults
-- and without the run's files its works succeed in whichever order they are done, and each leaves its
-- file with the size configured or less than a block more. The defines must be complete, the worker's
-- ID without a slash and the anchor not empty.
pub write_run :
    (config : WorkerConf) (fsd : Fsd) (draws : ℕ → ℕ → ℕ) (arrange : List Work → List Work)
    (size block files : ℕ) (w : World)
    → ((works : List Work) → Permᴰ works (arrange works))
    → config.test.fsd ≡ some fsd
    → config.op ≡ write_op
    → IsRunnable config.test size block
    → Lacks slash config.worker_id
    → fsd.anchor ≢ []
    → w.disk.faults ≡ []
    → ((queue : List WorkItem)
        → fill_workqueue config [] ≡ ok queue
        → All (IsAbsent w.disk) (queue_works queue files))
    → (queue : List WorkItem) × (fill_workqueue config [] ≡ ok queue)
      × ((do_works draws config.test 0 (arrange (queue_works queue files)) w).0 ≡ ok tt)
      × All
          (λ x.
            IsPresent size block
              (do_works draws config.test 0 (arrange (queue_works queue files)) w).1.disk
              (target x))
          (queue_works queue files)
write_run config fsd draws arrange size block files w permuted e is_write runnable plain anchor
      quiet absent =
    let queue = map (item_at config.test.name) (populate_dirs config.worker_id fsd) in
    let filled = write_queue config fsd e is_write in
    let works = queue_works queue files in
    let (success, present) =
      order-AllWritten config fsd draws size block files w e is_write runnable plain anchor quiet
        queue (arrange works) filled (permuted works) (absent queue filled) in
    (queue, filled, success, present)
