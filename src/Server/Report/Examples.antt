-- ===== src/Server/Report/Examples.antt =====
-- Tests of the report and of the accepting of workers (cmd/server/main.go).
use fsbench.Prelude.{
  ℕ, ◌+◌, ◌*◌, ◌/◌, ◌^◌, ◌==◌, true, [], ◌∷◌, none, some, codes, text_eq, length, ◌≡◌, refl,
}
use fsbench.Common.OpType.{write_op}
use fsbench.Common.Types.{BenchmarkResult, ReportConfiguration}
use fsbench.FilePath.{decimal}
use fsbench.Worker.Metrics.{Numbers}
use fsbench.Server.Csv.{csv_header, csv_row}
use fsbench.Server.Report.{
  markdown, results_table, rendering_of, report_upload, table_header, table_row, round_seconds,
}
use fsbench.Server.Accept.{on_connection, ready_workers, take_workers, shut_down}

abbrev naturals : Numbers ℕ
naturals = record {
  plus = λ a b. a + b;
  divide = λ a b. a / b;
  naught = 0;
  minus_one = 0;
  of_count = λ n. n;
  is_naught = λ n. n == 0;
}

abbrev result : BenchmarkResult ℕ
result = record {
  test_name = codes "t";
  successful_operations = 3;
  failed_operations = 1;
  workers = 2;
  parallel_clients = 4;
  bytes = 5 * 2 ^ 20;
  bandwidth_avg = 3 * 2 ^ 20;
  latency_avg = 7;
  gen_bytes_latency_avg = 1;
  duration = 1499999999;
  op = write_op;
  file_size = 4096;
  depth = 1;
  width = 2;
  block_size = 1024;
}

abbrev config : ReportConfiguration
config = record { format = codes "MD"; bucket = codes "b"; s3_config = none }

-- A row has a cell for each column of its header.
columns :
    (length (table_row naturals result) ≡ length table_header)
    × (length (csv_row naturals (λ d. d) result) ≡ length (csv_header {F = ℕ}))
columns = (refl, refl)

to_markdown :
    (results_table naturals (λ file. true) 17 (some config) (result ∷ [])).rendering ≡ markdown
unfolding results_table rendering_of text_eq decimal
to_markdown = refl

named_by_time :
    (results_table naturals (λ file. true) 17 (some config) (result ∷ [])).file
    ≡ some (codes "/tmp/fsbench_results_17.MD")
unfolding results_table decimal
named_by_time = refl

rounds_down : round_seconds 1499999999 ≡ 10 ^ 9
rounds_down = refl

not_uploaded : report_upload true true 17 (some config) ≡ none
unfolding report_upload
not_uploaded = refl

-- Two workers are taken of three that are ready; the last one is shut down at the end.
first_two :
    take_workers 2 (
      ready_workers (
        (1, some (codes "ready for work"))
        ∷ (2, none)
        ∷ (3, some (codes "ready for work"))
        ∷ (4, some (codes "hello"))
        ∷ (5, some (codes "ready for work"))
        ∷ []))
    ≡ some (1 ∷ 3 ∷ [], 5 ∷ [])
unfolding take_workers ready_workers on_connection text_eq
first_two = refl

told_to_stop : shut_down (5 ∷ []) ≡ (5, codes "shutdown") ∷ []
unfolding shut_down
told_to_stop = refl
