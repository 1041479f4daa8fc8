-- ===== src/Worker/Run/Examples.antt =====
-- A test of `perfTest` (pkg/worker/worker.go): two clients that write two files and end them in the other
-- order.
use fsbench.Prelude.{
  ℕ, zero, suc, ◌+◌, false, List, [], ◌∷◌, some, codes, ok, All, ◌≡◌, refl, arith,
}
use fsbench.Common.OpType.{write_op}
use fsbench.Common.Types.{pos, Fsd, Fwd, TestCaseConfiguration, WorkerConf}
use fsbench.Common.Int.{to_int}
use fsbench.FilePath.{slash}
use fsbench.FilePath.Elements.{Lacks}
use fsbench.Worker.Disk.{lookup}
use fsbench.Worker.Populate.{populate_dirs, populate_level}
use fsbench.Worker.Queue.{
  WorkItem, write, Work, fill_workqueue, queue_works, work_one_shot, file_works,
}
use fsbench.Worker.Queue.Apart.{target}
use fsbench.Worker.Pool.{
  Pool, stopped, send, receive, finish, notice, Run, here, next, perf_test, step,
}
use fsbench.Worker.Pool.Once.{IsStuck}
use fsbench.Worker.Operations.{World, do_works}
use fsbench.Worker.Operations.Writes.{IsRunnable, IsPresent, IsAbsent}
use fsbench.Worker.Run.{run_works}
use fsbench.Worker.Run.Writes.{pool_writes_all}

abbrev tree : Fsd
tree = record {
  anchor = codes "/mnt";
  direct_io = some false;
  depth = 0;
  width = 1;
  files = 2;
  size = 5;
}

abbrev load : Fwd
load = record { operations = codes "write" ∷ []; threads = 2 ∷ []; block_size = 3 }

abbrev test : TestCaseConfiguration
test = record {
  name = codes "t";
  fsd = some tree;
  fwd = some load;
  payload_generator = [];
  clear_dirs = false;
}

abbrev config : WorkerConf
config = record {
  test = test;
  worker_id = codes "w0";
  id = 0;
  op = write_op;
  parallel_clients = pos 2;
}

abbrev item : WorkItem
item = write (record { test_name = codes "t"; directory = codes "/mnt" })

abbrev queue : List WorkItem
queue = item ∷ []

abbrev work : ℕ → Work
work i = record { item = item; index = pos i }

abbrev start : World
start = record { disk = record { files = []; dirs = []; faults = [] }; samples = [] }

abbrev draws : ℕ → ℕ → ℕ
draws k i = k + i

runnable : IsRunnable test 5 3
runnable = record {
  fsd = tree;
  fwd = load;
  direct = false;
  fsd_eq = refl;
  fwd_eq = refl;
  direct_eq = refl;
  size_eq = refl;
  block_eq = refl;
  some_block = omega arith;
  fits = omega arith;
}

w0_plain : Lacks slash (codes "w0")
w0_plain = omega arith

filled : fill_workqueue config [] ≡ ok queue
unfolding fill_workqueue populate_dirs populate_level
filled = refl

none_there : All (IsAbsent start.disk) (run_works tree queue)
unfolding lookup queue_works file_works to_int
none_there = (refl, (refl, tt))

abbrev last_pool : Pool
last_pool = record {
  pending = [];
  channel = [];
  clients = stopped ∷ stopped ∷ [];
  done = work 1 ∷ work 0 ∷ [];
  notified = false;
}

-- Both clients take a work, the second ends first, and each takes a stopper.
crossed : Run 2 (perf_test (work_one_shot tree queue (pos 2)) 2) 10 last_pool
unfolding perf_test work_one_shot step queue_works file_works to_int
crossed =
    let taken =
      next (receive 1) (next (receive 0) (next send (next send here refl) refl) refl) refl in
    let ended = next (finish 0) (next (finish 1) taken refl) refl in
    next (receive 1) (next (receive 0) (next send (next send ended refl) refl) refl) refl

no_move : IsStuck 2 last_pool
unfolding step
no_move send = refl
no_move (receive zero) = refl
no_move (receive (suc zero)) = refl
no_move (receive (suc (suc i))) = refl
no_move (finish zero) = refl
no_move (finish (suc zero)) = refl
no_move (finish (suc (suc i))) = refl
no_move (notice zero) = refl
no_move (notice (suc zero)) = refl
no_move (notice (suc (suc i))) = refl

pool_writes_all_example :
    ((do_works draws test 0 (work 1 ∷ work 0 ∷ []) start).0 ≡ ok tt)
    × All
        (λ x. IsPresent 5 3 (do_works draws test 0 (work 1 ∷ work 0 ∷ []) start).1.disk (target x))
        (run_works tree queue)
pool_writes_all_example =
    pool_writes_all config tree draws 5 3 2 10 start queue last_pool refl refl refl (omega arith)
      runnable w0_plain (λ e. cc) refl filled none_there crossed no_move
