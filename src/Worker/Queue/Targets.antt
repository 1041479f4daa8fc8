-- ===== src/Worker/Queue/Targets.antt =====
-- The files that the works of one run touch: no two works touch the same file.
use fsbench.Prelude.{
  ℕ, List, [], map, some, Text, All, Pairwise, All-imp, All-map, Pairwise-map, Pairwise-imp,
  Outcome, ok, err, panic, ◌≡◌, ◌≢◌, refl, sym, subst, ap, ◌∙◌, arith,
}
use fsbench.Common.OpType.{OpType}
use fsbench.Common.Types.{Fsd, WorkerConf}
use fsbench.FilePath.{slash, parse}
use fsbench.FilePath.Elements.{Lacks}
use fsbench.Worker.Populate.{populate_dirs}
use fsbench.Worker.Populate.Tree.{populate_dirs-ne-nil}
use fsbench.Worker.Populate.Distinct.{populate_dirs_apart}
use fsbench.Worker.Queue.{
  WorkItem, BaseOperation, new_item, append_items, fill_workqueue, queue_works,
}
use fsbench.Worker.Queue.Sequence.{ok_inj, fill_workqueue-some}
use fsbench.Worker.Queue.Apart.{directory_of, Apart, HasDirectory, TouchApart, queue_works-Apart}

new_item_directory :
    (op : OpType) (new : BaseOperation → WorkItem) (b : BaseOperation)
    → new_item op ≡ ok new
    → directory_of (new b) ≡ b.directory
unfolding new_item directory_of
new_item_directory op new b h = ground arith

abbrev at_dir : Text → (BaseOperation → WorkItem) → Text → WorkItem
at_dir name new dir = new (record { test_name = name; directory = dir })

abbrev reads : Text → List Text
reads dir = (parse dir).stack

items-Apart :
    (name : Text) (new : BaseOperation → WorkItem)
    → ((b : BaseOperation) → directory_of (new b) ≡ b.directory)
    → (dirs : List Text) → All (λ dir. dir ≢ []) dirs
    → Pairwise (λ dir dir'. (parse dir).stack ≢ (parse dir').stack) dirs
    → All HasDirectory (map (at_dir name new) dirs) × Pairwise Apart (map (at_dir name new) dirs)
items-Apart name new h dirs some_dirs apart = (
  All-map HasDirectory (at_dir name new) dirs (
      All-imp (λ dir. dir ≢ []) (λ dir. HasDirectory (at_dir name new dir)) dirs
        (λ dir ne e. ne (sym (h (record { test_name = name; directory = dir })) ∙ e)) some_dirs),
  Pairwise-map Apart (at_dir name new) dirs (
      Pairwise-imp (λ dir dir'. (parse dir).stack ≢ (parse dir').stack)
        (λ dir dir'. Apart (at_dir name new dir) (at_dir name new dir')) dirs
        (λ dir dir' ne e. ne (
          ap reads (sym (h (record { test_name = name; directory = dir })))
          ∙ e
          ∙ ap reads (h (record { test_name = name; directory = dir' }))))
        apart),
)

append_items-Apart :
    (name : Text) (dirs : List Text) (r : Outcome Text (BaseOperation → WorkItem))
    (queue : List WorkItem)
    → ((new : BaseOperation → WorkItem)
        → r ≡ ok new
        → (b : BaseOperation) → directory_of (new b) ≡ b.directory)
    → append_items [] name dirs r ≡ ok queue
    → All (λ dir. dir ≢ []) dirs
    → Pairwise (λ dir dir'. (parse dir).stack ≢ (parse dir').stack) dirs
    → All HasDirectory queue × Pairwise Apart queue
append_items-Apart name dirs (ok new) queue f h some_dirs apart =
    subst (λ (q : List WorkItem). All HasDirectory q × Pairwise Apart q) (ok_inj h)
      (items-Apart name new (f new refl) dirs some_dirs apart)
append_items-Apart name dirs (err e) queue f h some_dirs apart = cc
append_items-Apart name dirs panic queue f h some_dirs apart = cc

-- No two works of a run touch the same file, whatever the number of files per directory, if the
-- worker's ID has no slash in it and the anchor is not empty.
pub run_targets_apart :
    (config : WorkerConf) (fsd : Fsd) (queue : List WorkItem) (files : ℕ)
    → config.test.fsd ≡ some fsd
    → Lacks slash config.worker_id
    → fsd.anchor ≢ []
    → fill_workqueue config [] ≡ ok queue
    → Pairwise TouchApart (queue_works queue files)
run_targets_apart config fsd queue files e plain h filled =
    let dirs = populate_dirs config.worker_id fsd in
    let (some_dirs, apart) =
      append_items-Apart config.test.name dirs (new_item config.op) queue
        (λ new k b. new_item_directory config.op new b k)
        (sym (fill_workqueue-some config [] fsd e) ∙ filled)
        (populate_dirs-ne-nil config.worker_id fsd plain h)
        (populate_dirs_apart config.worker_id fsd plain h) in
    queue_works-Apart files queue some_dirs apart
