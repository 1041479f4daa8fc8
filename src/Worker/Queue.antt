-- ===== src/Worker/Queue.antt =====
-- Work items (pkg/worker/workItems.go), and how pkg/worker/worker.go builds the queue of them and
-- the sequence that it sends to the clients. The proofs are in the modules below.
pub mod Sequence
pub mod Apart
pub mod Targets
use fsbench.Prelude.{
  ℕ, zero, suc, ◌+◌, ◌-◌, ◌^◌, Bool, true, false, List, [], ◌∷◌, ◌++◌, map, Option, none, some,
  Text, codes, Outcome, ok, panic, replicate, if◌then◌else◌, ltb, ◌==◌,
}
use fsbench.Common.OpType.{OpType, read_op, write_op, stat_op, delete_op}
use fsbench.Common.Types.{ℤ, pos, negsuc, Fsd, TestCaseConfiguration, WorkerConf}
use fsbench.Common.Int.{to_int, rounds}
use fsbench.FilePath.{decimal}
use fsbench.Worker.Populate.{populate_dirs}

pub record BaseOperation : Type 0 where
  pub test_name : Text
  pub directory : Text

pub data WorkItem : Type 0 where
  read : BaseOperation → WorkItem
  write : BaseOperation → WorkItem
  stat : BaseOperation → WorkItem
  delete : BaseOperation → WorkItem
  stopper : WorkItem

-- `fileName`
unfoldable pub file_name : ℤ → Text
file_name (pos n) = codes "bat." ++ decimal n
file_name (negsuc n) = codes "bat.-" ++ decimal (suc n)

pub record Work : Type 0 where
  pub item : WorkItem
  pub index : ℤ

-- The constructor that `fillWorkqueue` uses; an operation that is none of the four panics.
unfoldable pub new_item : OpType → Outcome Text (BaseOperation → WorkItem)
new_item op =
    if op == write_op
    then ok write
    else if op == read_op
    then ok read
    else if op == stat_op
    then ok stat
    else if op == delete_op
    then ok delete
    else panic

abbrev pub append_items :
    List WorkItem
    → Text
    → List Text
    → Outcome Text (BaseOperation → WorkItem)
    → Outcome Text (List WorkItem)
append_items queue name dirs (ok new) =
    ok (queue ++ map (λ dir. new (record { test_name = name; directory = dir })) dirs)
append_items queue name dirs (Outcome.err e) = Outcome.err e
append_items queue name dirs panic = panic

-- `fillWorkqueue`; reading a field of a nil `FSD` panics.
abbrev pub fill_from : WorkerConf → List WorkItem → Option Fsd → Outcome Text (List WorkItem)
fill_from config queue none = panic
fill_from config queue (some fsd) =
    append_items queue config.test.name (populate_dirs config.worker_id fsd) (new_item config.op)

unfoldable pub fill_workqueue : WorkerConf → List WorkItem → Outcome Text (List WorkItem)
unfolding new_item
fill_workqueue config queue = fill_from config queue config.test.fsd

-- `for i := 0; i < n; i++ { workChannel <- work{item, i} }` from `i` on
unfoldable pub file_works : WorkItem → ℕ → ℕ → List Work
file_works item i zero = []
file_works item i (suc left) = record { item = item; index = pos i } ∷ file_works item (i + 1) left

unfoldable pub queue_works : List WorkItem → ℕ → List Work
queue_works [] files = []
queue_works (item ∷ items) files = file_works item 0 files ++ queue_works items files

abbrev pub stop_work : Work
stop_work = record { item = stopper; index = negsuc 0 }

-- `workOneShot`: what it sends, in order.
unfoldable pub work_one_shot : Fsd → List WorkItem → ℤ → List Work
work_one_shot fsd queue parallel_clients =
    queue_works queue (rounds (to_int fsd.files)) ++ replicate (rounds parallel_clients) stop_work
