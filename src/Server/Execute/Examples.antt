-- ===== src/Server/Execute/Examples.antt =====
-- Tests of `executeTestOnWorker` (cmd/server/main.go) with workers that answer out of turn.
use fsbench.Prelude.{false, ℕ, List, [], ◌∷◌, Option, none, some, Text, codes, text_eq, ◌≡◌, refl}
use fsbench.Common.OpType.{write_op}
use fsbench.Common.Types.{pos, WorkerConf, BenchmarkResult, WorkerMessage}
use fsbench.Server.Execute.{
  encodes, puts_done, takes_continue, closes, start_work, init, on_response, responses,
  execute_test_on_worker,
}
use fsbench.Server.Execute.Balance.{tally, IsBalanced, execute_test_on_worker-IsBalanced}

abbrev nothing : BenchmarkResult ℕ
nothing = record {
  test_name = [];
  successful_operations = 0;
  failed_operations = 0;
  workers = 0;
  parallel_clients = 0;
  bytes = 0;
  bandwidth_avg = 0;
  latency_avg = 0;
  gen_bytes_latency_avg = 0;
  duration = 0;
  op = 0;
  file_size = 0;
  depth = 0;
  width = 0;
  block_size = 0;
}

abbrev config : WorkerConf
config = record {
  test = record {
    name = codes "t";
    fsd = none;
    fwd = none;
    payload_generator = [];
    clear_dirs = false;
  };
  worker_id = codes "w0";
  id = 0;
  op = write_op;
  parallel_clients = pos 1;
}

abbrev says : Text → Option (WorkerMessage ℕ)
says text = some (record { message = text; config = none; bench_result = nothing })

-- Preparations that are announced twice, a message of no kind, and one that cannot be decoded.
abbrev confused : List (Option (WorkerMessage ℕ))
confused =
    says (codes "preparations done")
    ∷ says (codes "preparations done")
    ∷ says (codes "hello")
    ∷ none
    ∷ says (codes "work done")
    ∷ []

-- The second announcement is one more value on `doneChannel`, on which another worker may be counted.
announced_twice :
    execute_test_on_worker nothing config confused
    ≡ encodes (init nothing config)
      ∷ puts_done
      ∷ takes_continue
      ∷ encodes (start_work nothing)
      ∷ puts_done
      ∷ takes_continue
      ∷ encodes (start_work nothing)
      ∷ closes
      ∷ []
unfolding execute_test_on_worker responses on_response text_eq
announced_twice = refl

execute_test_on_worker-IsBalanced_example :
    IsBalanced 1 (tally (execute_test_on_worker nothing config confused))
execute_test_on_worker-IsBalanced_example =
    execute_test_on_worker-IsBalanced nothing config confused
