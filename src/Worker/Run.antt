-- ===== src/Worker/Run.antt =====
-- One run of a worker, from its configuration to the end of the clients: `fillWorkqueue`, then
-- `workOneShot` beside `DoWork` (pkg/worker/worker.go).
pub mod Writes
mod Examples
use fsbench.Prelude.{
  ℕ, zero, suc, ◌+◌, ◌<◌, false, List, [], ◌∷◌, ◌++◌, All, All-append, All-map, All-of_forall, some,
  Text, Outcome, ok, err, panic, ◌≡◌, refl, sym, ap, ◌∙◌, subst, arith, replicate, length, ◌*◌, ◌≤◌,
}
use fsbench.Common.OpType.{OpType}
use fsbench.Common.Types.{ℤ, pos, Fsd, WorkerConf}
use fsbench.Common.Int.{to_int, rounds}
use fsbench.Worker.Populate.{populate_dirs}
use fsbench.Worker.Queue.{
  WorkItem, BaseOperation, Work, new_item, append_items, fill_workqueue, file_works, queue_works,
  stop_work, work_one_shot,
}
use fsbench.Worker.Queue.Sequence.{ok_inj, fill_workqueue-some}
use fsbench.Worker.Pool.{Pool, is_stopper, perf_test, Run}
use fsbench.Worker.Pool.Invariant.{IsItem}
use fsbench.Worker.Pool.Once.{IsStuck, IsOver, stuck-Run-IsOver}
use fsbench.Worker.Pool.Process.{
  Process, running, Schedule, IsHalted, HasEnded, halted-HasEnded, Schedule-bounded,
}

abbrev NoStopper : WorkItem → Type 0
NoStopper item = is_stopper item ≡ false

file_works_items : (item : WorkItem) (i n : ℕ) → NoStopper item → All IsItem (file_works item i n)
unfolding file_works
file_works_items item i zero h = tt
file_works_items item i (suc n) h = (h, file_works_items item (i + 1) n h)

queue_works_items :
    (items : List WorkItem) (files : ℕ) → All NoStopper items → All IsItem (queue_works items files)
unfolding queue_works
queue_works_items [] files h = tt
queue_works_items (item ∷ items) files (h, hs) =
    All-append IsItem (file_works item 0 files) (queue_works items files)
      (file_works_items item 0 files h) (queue_works_items items files hs)

new_item-NoStopper :
    (op : OpType) (new : BaseOperation → WorkItem) (b : BaseOperation)
    → new_item op ≡ ok new
    → NoStopper (new b)
unfolding new_item is_stopper
new_item-NoStopper op new b h = ground arith

filled-NoStopper :
    (name : Text) (dirs : List Text) (op : OpType) (r : Outcome Text (BaseOperation → WorkItem))
    (queue : List WorkItem)
    → new_item op ≡ r
    → append_items [] name dirs r ≡ ok queue
    → All NoStopper queue
filled-NoStopper name dirs op (ok new) queue e h = subst (All NoStopper) (ok_inj h) (
    All-map NoStopper (λ dir. new (record { test_name = name; directory = dir })) dirs
      (All-of_forall (λ dir. NoStopper (new (record { test_name = name; directory = dir }))) dirs
        (λ dir. new_item-NoStopper op new (record { test_name = name; directory = dir }) e)))
filled-NoStopper name dirs op (err e') queue e h = cc
filled-NoStopper name dirs op panic queue e h = cc

filled_items :
    (config : WorkerConf) (fsd : Fsd) (queue : List WorkItem) (files : ℕ)
    → config.test.fsd ≡ some fsd
    → fill_workqueue config [] ≡ ok queue
    → All IsItem (queue_works queue files)
filled_items config fsd queue files e filled = queue_works_items queue files (
    filled-NoStopper config.test.name (populate_dirs config.worker_id fsd) config.op
      (new_item config.op) queue refl (sym (fill_workqueue-some config [] fsd e) ∙ filled))

-- The works of a run, without the stoppers.
abbrev pub run_works : Fsd → List WorkItem → List Work
run_works fsd queue = queue_works queue (rounds (to_int fsd.files))

sent_works :
    (fsd : Fsd) (queue : List WorkItem) (clients : ℤ) (n : ℕ)
    → clients ≡ pos n
    → work_one_shot fsd queue clients ≡ run_works fsd queue ++ replicate n stop_work
unfolding work_one_shot
sent_works fsd queue clients n e =
    ap (λ (z : ℤ). run_works fsd queue ++ replicate (rounds z) stop_work) e

-- With at least one client, whatever the schedule, a process that has halted has done each file of each
-- directory of its queue exactly once, has emptied its channel and has ended each client, if no `Do` has
-- panicked; if one has, the works done are some of these, none done twice. No schedule has more than
-- three events for each work and each client.
pub does_each_work_once :
    (config : WorkerConf) (fsd : Fsd) (queue : List WorkItem) (n k : ℕ) (s : Process)
    → config.test.fsd ≡ some fsd
    → config.parallel_clients ≡ pos n
    → 0 < n
    → fill_workqueue config [] ≡ ok queue
    → Schedule n (running (perf_test (work_one_shot fsd queue config.parallel_clients) n)) k s
    → (IsHalted n s → HasEnded (run_works fsd queue) s)
      × (k ≤ 3 * (length (run_works fsd queue) + n))
does_each_work_once config fsd queue n k s e clients some_client filled schedule =
    let items = filled_items config fsd queue (rounds (to_int fsd.files)) e filled in
    let schedule' =
      subst (λ (ws : List Work). Schedule n (running (perf_test ws n)) k s)
        (sent_works fsd queue config.parallel_clients n clients) schedule in
    (
      halted-HasEnded (run_works fsd queue) n items k s some_client schedule',
      Schedule-bounded (run_works fsd queue) n items k s schedule',
    )

-- The same of a schedule in which every `Do` returns.
pub does_each_work :
    (config : WorkerConf) (fsd : Fsd) (queue : List WorkItem) (n k : ℕ) (q : Pool)
    → config.test.fsd ≡ some fsd
    → config.parallel_clients ≡ pos n
    → 0 < n
    → fill_workqueue config [] ≡ ok queue
    → Run n (perf_test (work_one_shot fsd queue config.parallel_clients) n) k q
    → IsStuck n q
    → IsOver (run_works fsd queue) q
does_each_work config fsd queue n k q e clients some_client filled run =
    stuck-Run-IsOver (run_works fsd queue) n k q
      (filled_items config fsd queue (rounds (to_int fsd.files)) e filled) some_client
      (subst (λ (ws : List Work). Run n (perf_test ws n) k q)
        (sent_works fsd queue config.parallel_clients n clients) run)
