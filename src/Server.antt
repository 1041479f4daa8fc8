-- ===== src/Server.antt =====
-- cmd/server/main.go: the runs that `scheduleTests` makes of the tests, and which worker gets which
-- data. The proofs are in the modules below.
pub mod Assign
pub mod Protocol
pub mod Results
pub mod Accept
pub mod Csv
pub mod Report
pub mod Schedule
pub mod Execute
mod Examples
use fsbench.Prelude.{
  ℕ, zero, suc, ◌+◌, ◌%◌, Bool, true, false, not, ◌&&◌, List, [], ◌∷◌, ◌++◌, map, Option, none,
  some, Text, codes, text_eq, Outcome, ok, err, panic, ◌>>=◌, if◌then◌else◌,
}
use fsbench.Common.OpType.{OpType, write_op, op_string, to_op_type}
use fsbench.Common.Types.{ℤ, Fwd, TestCaseConfiguration, GlobalConfiguration, TestConf, WorkerConf}
use fsbench.Common.Int.{to_int}
use fsbench.FilePath.{decimal}

-- `fmt.Sprintf("w%d", i)`
unfoldable pub worker_name : ℕ → Text
worker_name i = codes "w" ++ decimal i

-- Whether the read and the stat of a run go to other workers than the write.
unfoldable pub reorder_tasks : Option GlobalConfiguration → Bool
reorder_tasks none = true
reorder_tasks (some g) = g.reorder_tasks

-- The ID that a worker gets for a run; it names the directories that the worker uses.
unfoldable pub worker_id : Bool → Text → ℕ → ℕ → Text
unfolding worker_name
worker_id reorder op workers worker =
    if not (text_eq op (op_string write_op)) && reorder
    then worker_name ((worker + 1) % workers)
    else worker_name worker

-- `fmt.Sprintf("%s-%s-t%d", name, op, thread)`
unfoldable pub run_name : Text → Text → ℕ → Text
run_name name op thread = name ++ (codes "-" ++ (op ++ (codes "-t" ++ decimal thread)))

-- The configuration that is sent to a worker; `ToOpType` panics at an unknown operation.
unfoldable pub worker_config :
    Bool → TestCaseConfiguration → Text → ℕ → ℕ → ℕ → Outcome Text WorkerConf
unfolding worker_id run_name
worker_config reorder test op thread workers worker = do
  t ← to_op_type op
  ok (record {
    test = record test { name = run_name test.name op thread };
    worker_id = worker_id reorder op workers worker;
    id = worker;
    op = t;
    parallel_clients = to_int thread;
  })
