-- ===== src/Server/Examples.antt =====
-- Tests of cmd/server/main.go with three workers.
use fsbench.Prelude.{
  All, ℕ, ◌*◌, ◌≤◌, ◌+◌, ◌/◌, ◌<◌, ◌==◌, true, List, [], ◌∷◌, none, codes, text_eq, ok, panic,
  Across, ◌≡◌, ◌≢◌, ◌⊎◌, refl, arith, cons_head,
}
use fsbench.Common.OpType.{op_string, write_op}
use fsbench.Common.Types.{Fsd, BenchmarkResult}
use fsbench.Worker.Metrics.{Numbers}
use fsbench.Worker.Populate.{populate_dirs}
use fsbench.Server.{worker_id}
use fsbench.FilePath.{decimal}
use fsbench.Server.Assign.{workers_apart, reorder_rotates}
use fsbench.Server.Protocol.{
  preparing, announced, started, reported, dropped, awaiting_prepared, continuing, awaiting_done,
  Session, schedule, advance, drop, take_turn, start_run, Reaches, at_start, after_turn,
}
use fsbench.Server.Protocol.Ends.{run_bounded, turns}
use fsbench.Server.Protocol.Enabled.{GoesOn}
use fsbench.Server.Protocol.Progress.{run_ends}
use fsbench.Server.Protocol.Totals.{was_announced, was_signalled}
use fsbench.Server.Protocol.Barrier.{no_early_start, dropped_blocks, each_done_at_end}
use fsbench.Server.Results.{sum_benchmark_results, IsTotalOf, sum_benchmark_results-totals}

-- The last worker reads what the first one wrote.
last_reads_first : worker_id true (codes "read") 3 2 ≡ codes "w0"
unfolding worker_id text_eq op_string decimal
last_reads_first = refl

abbrev tree : Fsd
tree = record { anchor = codes "/mnt"; direct_io = none; depth = 1; width = 2; files = 1; size = 1 }

workers_apart_example :
    Across
      (λ dir dir'. dir ≢ dir')
      (populate_dirs (worker_id true (codes "read") 3 0) tree)
      (populate_dirs (worker_id true (codes "read") 3 2) tree)
workers_apart_example =
    workers_apart true (codes "read") 3 0 2 tree (omega arith) (omega arith) (omega arith) (λ e. cc)
      (omega arith)

read_not_write : codes "read" ≢ op_string write_op
unfolding op_string
read_not_write e = let letters = cons_head e in omega (arith, letters)

reorder_rotates_example :
    ((i : ℕ)
      → i < 3
      → (j : ℕ) × (j < 3)
        × (j ≢ i)
        × (worker_id true (codes "read") 3 i ≡ worker_id true (op_string write_op) 3 j))
    × ((j : ℕ)
        → j < 3
        → (i : ℕ) × (i < 3)
          × (worker_id true (codes "read") 3 i ≡ worker_id true (op_string write_op) 3 j))
reorder_rotates_example = reorder_rotates (codes "read") 3 read_not_write (omega arith)

abbrev naturals : Numbers ℕ
naturals = record {
  plus = λ a b. a + b;
  divide = λ a b. a / b;
  naught = 0;
  minus_one = 0;
  of_count = λ n. n;
  is_naught = λ n. n == 0;
}

abbrev result_of : ℕ → BenchmarkResult ℕ
result_of n = record {
  test_name = codes "t";
  successful_operations = n;
  failed_operations = 1;
  workers = 0;
  parallel_clients = 0;
  bytes = 100;
  bandwidth_avg = 50;
  latency_avg = n;
  gen_bytes_latency_avg = n;
  duration = 9;
  op = 2;
  file_size = 0;
  depth = 0;
  width = 0;
  block_size = 0;
}

abbrev two_results : List (BenchmarkResult ℕ)
two_results = result_of 3 ∷ result_of 5 ∷ []

sum_benchmark_results-totals_example :
    ((two_results ≡ []) × (sum_benchmark_results naturals two_results ≡ panic))
    ⊎ ((s : BenchmarkResult ℕ) × (sum_benchmark_results naturals two_results ≡ ok s)
        × IsTotalOf naturals two_results s)
sum_benchmark_results-totals_example = sum_benchmark_results-totals naturals two_results

abbrev half_started : Session
half_started = record {
  stages = started ∷ announced ∷ [];
  phase = continuing 1;
  done_channel = 0;
  continue_workers = 0;
  result_channel = 0;
  returns = true;
}

-- Both workers prepare, the server takes both signals, and the first worker starts.
half_started-Reaches : Reaches 2 half_started
unfolding take_turn start_run
half_started-Reaches =
    let both =
      after_turn (advance 1)
        (after_turn (advance 1)
          (after_turn (advance 0) (after_turn (advance 0) (at_start true) refl) refl) refl)
        refl in
    let told =
      after_turn schedule
        (after_turn schedule (after_turn schedule (after_turn schedule both refl) refl) refl)
        refl in
    after_turn (advance 0) told refl

no_early_start_example : All (λ y. was_announced y ≡ 1) half_started.stages
no_early_start_example = no_early_start 2 half_started 0 started half_started-Reaches refl refl

abbrev one_dropped : Session
one_dropped = record {
  stages = preparing ∷ dropped ∷ [];
  phase = awaiting_prepared 0;
  done_channel = 0;
  continue_workers = 0;
  result_channel = 0;
  returns = true;
}

one_dropped-Reaches : Reaches 2 one_dropped
unfolding take_turn start_run
one_dropped-Reaches = after_turn (drop 1) (at_start true) refl

dropped_blocks_example : (k : ℕ) × (one_dropped.phase ≡ awaiting_prepared k) × (k < 2)
dropped_blocks_example = dropped_blocks 2 one_dropped 1 one_dropped-Reaches refl

abbrev run_over : Session
run_over = record {
  stages = reported ∷ [];
  phase = awaiting_done 1;
  done_channel = 0;
  continue_workers = 0;
  result_channel = 0;
  returns = true;
}

-- One worker prepares, is told to start, works and reports.
run_over-Reaches : Reaches 1 run_over
unfolding take_turn start_run
run_over-Reaches =
    let ready =
      after_turn schedule
        (after_turn (advance 0) (after_turn (advance 0) (at_start true) refl) refl) refl in
    let working =
      after_turn schedule
        (after_turn (advance 0) (after_turn schedule (after_turn schedule ready refl) refl) refl)
        refl in
    let done =
      after_turn (advance 0) (after_turn (advance 0) (after_turn (advance 0) working refl) refl)
        refl in
    after_turn schedule (after_turn schedule done refl) refl

each_done_at_end_example : All (λ y. was_signalled y ≡ 1) run_over.stages
each_done_at_end_example = each_done_at_end 1 run_over run_over-Reaches refl

run_ends_example :
    ((half_started.phase ≡ awaiting_done 2) ⊎ GoesOn 2 half_started)
    × (turns half_started-Reaches ≤ 10 * 2 + 2)
run_ends_example = run_ends 2 half_started half_started-Reaches (tt, (tt, tt)) refl

run_bounded_example : turns one_dropped-Reaches ≤ 10 * 2 + 2
run_bounded_example = run_bounded 2 one_dropped one_dropped-Reaches
