-- ===== src/Server/Schedule/Examples.antt =====
-- Tests of the loops of `scheduleTests` (cmd/server/main.go), with one worker.
use fsbench.Prelude.{
  suc, ap, ok, ◌++◌, ℕ, ◌+◌, ◌/◌, ◌==◌, true, false, List, [], ◌∷◌, map, none, some, Text, codes,
  text_eq, All, Pairwise, length, ◌≡◌, ◌≢◌, refl, arith, cons_head,
}
use mathlib.Core.Option
use fsbench.Common.OpType.{to_op_type}
use fsbench.Common.Types.{
  pos, Fsd, WorkerConf, TestCaseConfiguration, GlobalConfiguration, TestConf,
}
use fsbench.FilePath.{decimal}
use fsbench.Worker.Metrics.{Numbers}
use fsbench.Server.{worker_config, worker_id, worker_name, run_name, reorder_tasks}
use fsbench.Server.Results.{run_result, sum_benchmark_results, add_results}
use fsbench.Server.Csv.{write_result_to_csv, get_csv_file_handle}
use fsbench.Server.Schedule.{
  Field, Done, schedule_tests, each_test, each_thread, each_op, run_op, run_configs, worker_configs,
}
use fsbench.Server.Schedule.Order.{all_names, names, Follows}
use fsbench.Server.Schedule.Distinct.{IsPlannedTest}
use fsbench.Common.Config.{
  check_set_config, accepted, is_nil, check_test_case, is_empty, check_tests, check_one,
  with_defines, check_defines, bad_payload,
}
use fsbench.Server.Schedule.Completes.{IsKnownTest}
use fsbench.Server.Schedule.Accepted.{accepted_runs_all}
use fsbench.Server.Schedule.Runs.{schedule_tests_runs}

abbrev naturals : Numbers ℕ
naturals = record {
  plus = λ a b. a + b;
  divide = λ a b. a / b;
  naught = 0;
  minus_one = 0;
  of_count = λ n. n;
  is_naught = λ n. n == 0;
}

abbrev field : Field ℕ
field = record {
  numbers = naturals;
  seconds = λ n. n;
  outcome = λ k configs.
      map
        (λ c. record {
          test_name = c.test.name;
          successful_operations = 2;
          failed_operations = 0;
          workers = 0;
          parallel_clients = 0;
          bytes = 10;
          bandwidth_avg = 5;
          latency_avg = 1;
          gen_bytes_latency_avg = 1;
          duration = 0;
          op = 0;
          file_size = 0;
          depth = 0;
          width = 0;
          block_size = 0;
        })
        configs;
  elapsed = λ k. 7;
}

abbrev global : GlobalConfiguration
global = record {
  reorder_tasks = false;
  anchor = [];
  direct_io = none;
  threads = [];
  operations = [];
  workers = pos 1;
}

abbrev tree : Fsd
tree = record {
  anchor = codes "/mnt";
  direct_io = some false;
  depth = 1;
  width = 1;
  files = 2;
  size = 5;
}

abbrev test_named : Text → List Text → TestCaseConfiguration
test_named name ops = record {
  name = name;
  fsd = some tree;
  fwd = some (record { operations = ops; threads = 1 ∷ 8 ∷ []; block_size = 3 });
  payload_generator = [];
  clear_dirs = false;
}

abbrev config : TestConf
config = record {
  report_config = none;
  global_config = some global;
  tests =
      some (test_named (codes "a") (codes "write" ∷ codes "read" ∷ []))
      ∷ some (test_named (codes "b") (codes "stat" ∷ []))
      ∷ [];
}

abbrev nothing_done : Done ℕ
nothing_done = record {
  runs = [];
  results = [];
  csv = record {
    here = record { lines = none; may_append = true; may_create = true };
    tmp = record { lines = none; may_append = true; may_create = true };
  };
}

abbrev run_names : List Text
run_names =
    codes "a-write-t1"
    ∷ codes "a-read-t1"
    ∷ codes "a-write-t8"
    ∷ codes "a-read-t8"
    ∷ codes "b-stat-t1"
    ∷ codes "b-stat-t8"
    ∷ []

-- Six runs, and a CSV file with a header and a line for each.
six_runs :
    (names (schedule_tests field (some global) config nothing_done).0 ≡ run_names)
    × (Option.map length (schedule_tests field (some global) config nothing_done).0.csv.here.lines
        ≡ some 7)
unfolding schedule_tests each_test each_thread each_op run_op run_configs worker_configs
    worker_config worker_id worker_name run_name reorder_tasks run_result sum_benchmark_results
    add_results write_result_to_csv get_csv_file_handle to_op_type text_eq decimal
six_runs = (refl, refl)

config-IsPlanned : All IsPlannedTest config.tests
unfolding to_op_type text_eq
config-IsPlanned = (
  (
    ((_, refl), ((_, refl), tt)),
    (((λ e. cc), tt), (tt, tt)),
    (((λ e. omega (arith, e)), tt), (tt, tt)),
  ),
  ((((_, refl), tt), (tt, tt), (((λ e. omega (arith, e)), tt), (tt, tt))), tt),
)

schedule_tests_runs_example :
    Follows
      (all_names config.tests)
      nothing_done
      (schedule_tests field (some global) config nothing_done)
    × Pairwise ◌≢◌ (names (schedule_tests field (some global) config nothing_done).0)
schedule_tests_runs_example =
    schedule_tests_runs field global config nothing_done refl config-IsPlanned
      (((λ e. let letters = cons_head e in omega (arith, letters)), tt), (tt, tt))

config-IsAccepted : check_set_config config ≡ accepted config
unfolding check_set_config is_nil check_test_case is_empty check_tests check_one with_defines
    check_defines bad_payload text_eq
config-IsAccepted = refl

config-IsKnown : All IsKnownTest config.tests
unfolding to_op_type text_eq
config-IsKnown = (((_, refl), ((_, refl), tt)), (((_, refl), tt), tt))

all_report : (k : ℕ) (cs : List WorkerConf) → length (field.outcome k cs) ≡ length cs
all_report k [] = refl
all_report k (c ∷ cs) = ap suc (all_report k cs)

accepted_runs_all_example :
    ((schedule_tests field (some global) config nothing_done).1 ≡ ok tt)
    × (names (schedule_tests field (some global) config nothing_done).0
        ≡ [] ++ all_names config.tests)
accepted_runs_all_example =
    accepted_runs_all field config config nothing_done config-IsAccepted (omega arith)
      config-IsKnown all_report
