-- ===== src/Server/Results.antt =====
-- `sumBenchmarkResults` of cmd/server/main.go, and what `scheduleTests` adds to its result.
use fsbench.Prelude.{
  ℕ, List, [], ◌∷◌, map, Text, Outcome, ok, panic, length, ◌≡◌, ◌⊎◌, inl, inr, refl, ap, ◌∙◌, ◌>>=◌,
}
use fsbench.Common.OpType.{to_op_type}
use fsbench.Common.Types.{Fsd, Fwd, BenchmarkResult}
use fsbench.Worker.Metrics.{Numbers}
use fsbench.Worker.Metrics.Sums.{add_up}

-- The running totals of the loop.
pub record Totals (F : Type 0) : Type 0 where
  pub bytes : F
  pub successful_operations : F
  pub failed_operations : F
  pub latency_averages : F
  pub gen_bytes_latency_averages : F
  pub bandwidth_averages : F

module _ {F : Type 0} (num : Numbers F) where
  abbrev no_totals : Totals F
  no_totals = record {
    bytes = num.naught;
    successful_operations = num.naught;
    failed_operations = num.naught;
    latency_averages = num.naught;
    gen_bytes_latency_averages = num.naught;
    bandwidth_averages = num.naught;
  }

  abbrev add_result : Totals F → BenchmarkResult F → Totals F
  add_result t r = record {
    bytes = num.plus t.bytes r.bytes;
    successful_operations = num.plus t.successful_operations r.successful_operations;
    failed_operations = num.plus t.failed_operations r.failed_operations;
    latency_averages = num.plus t.latency_averages r.latency_avg;
    gen_bytes_latency_averages = num.plus t.gen_bytes_latency_averages r.gen_bytes_latency_avg;
    bandwidth_averages = num.plus t.bandwidth_averages r.bandwidth_avg;
  }

  unfoldable pub add_results : Totals F → List (BenchmarkResult F) → Totals F
  add_results t [] = t
  add_results t (r ∷ rs) = add_results (add_result t r) rs

  abbrev summed : Text → ℕ → Totals F → BenchmarkResult F
  summed name count t = record {
    test_name = name;
    successful_operations = t.successful_operations;
    failed_operations = t.failed_operations;
    workers = num.naught;
    parallel_clients = num.naught;
    bytes = t.bytes;
    bandwidth_avg = t.bandwidth_averages;
    latency_avg = num.divide t.latency_averages (num.of_count count);
    gen_bytes_latency_avg = num.divide t.gen_bytes_latency_averages (num.of_count count);
    duration = 0;
    op = 0;
    file_size = 0;
    depth = 0;
    width = 0;
    block_size = 0;
  }

  -- `results[0]` panics where there is no result.
  unfoldable pub sum_benchmark_results : List (BenchmarkResult F) → Outcome Text (BenchmarkResult F)
  unfolding add_results
  sum_benchmark_results [] = panic
  sum_benchmark_results (r ∷ rs) =
      ok (summed r.test_name (length (r ∷ rs)) (add_results no_totals (r ∷ rs)))

  -- What `scheduleTests` fills in.
  unfoldable pub run_result :
      List (BenchmarkResult F) → ℕ → ℕ → ℕ → Fsd → Fwd → Text → Outcome Text (BenchmarkResult F)
  unfolding sum_benchmark_results
  run_result results duration thread workers fsd fwd op = do
    sum ← sum_benchmark_results results
    t ← to_op_type op
    ok (record sum {
      duration = duration;
      parallel_clients = num.of_count thread;
      workers = num.of_count workers;
      file_size = fsd.size;
      op = t;
      width = fsd.width;
      depth = fsd.depth;
      block_size = fwd.block_size;
    })

  add_results-each :
      (get : BenchmarkResult F → F) (total : Totals F → F)
      → ((t : Totals F) (r : BenchmarkResult F)
          → total (add_result t r) ≡ num.plus (total t) (get r))
      → (t : Totals F) (rs : List (BenchmarkResult F))
      → total (add_results t rs) ≡ add_up num.plus (total t) (map get rs)
  unfolding add_results add_up
  add_results-each get total h t [] = refl
  add_results-each get total h t (r ∷ rs) =
      add_results-each get total h (add_result t r) rs
      ∙ ap (λ (x : F). add_up num.plus x (map get rs)) (h t r)

  abbrev total_of : (BenchmarkResult F → F) → List (BenchmarkResult F) → F
  total_of get rs = add_up num.plus num.naught (map get rs)

  pub record IsTotalOf (rs : List (BenchmarkResult F)) (s : BenchmarkResult F) : Type 0 where
    pub bytes : s.bytes ≡ total_of (λ r. r.bytes) rs
    pub successful : s.successful_operations ≡ total_of (λ r. r.successful_operations) rs
    pub failed : s.failed_operations ≡ total_of (λ r. r.failed_operations) rs
    pub bandwidth : s.bandwidth_avg ≡ total_of (λ r. r.bandwidth_avg) rs
    pub latency :
        s.latency_avg ≡ num.divide (total_of (λ r. r.latency_avg) rs) (num.of_count (length rs))
    pub gen_bytes_latency :
        s.gen_bytes_latency_avg
        ≡ num.divide (total_of (λ r. r.gen_bytes_latency_avg) rs) (num.of_count (length rs))

  summed-IsTotalOf :
      (name : Text) (rs : List (BenchmarkResult F))
      → IsTotalOf rs (summed name (length rs) (add_results no_totals rs))
  summed-IsTotalOf name rs =
      let average = λ (x : F). num.divide x (num.of_count (length rs)) in
      record {
        bytes = add_results-each (λ r. r.bytes) (λ t. t.bytes) (λ t r. refl) no_totals rs;
        successful =
            add_results-each (λ r. r.successful_operations) (λ t. t.successful_operations)
              (λ t r. refl) no_totals rs;
        failed =
            add_results-each (λ r. r.failed_operations) (λ t. t.failed_operations) (λ t r. refl)
              no_totals rs;
        bandwidth =
            add_results-each (λ r. r.bandwidth_avg) (λ t. t.bandwidth_averages) (λ t r. refl)
              no_totals rs;
        latency = ap average (
            add_results-each (λ r. r.latency_avg) (λ t. t.latency_averages) (λ t r. refl) no_totals
              rs);
        gen_bytes_latency = ap average (
            add_results-each (λ r. r.gen_bytes_latency_avg) (λ t. t.gen_bytes_latency_averages)
              (λ t r. refl) no_totals rs);
      }

  -- The result of a run adds up the workers' bytes, operations and bandwidths, in the workers' order, and
  -- divides the sums of their latencies by their number; without workers there is none, and it panics.
  pub sum_benchmark_results-totals :
      (rs : List (BenchmarkResult F))
      → ((rs ≡ []) × (sum_benchmark_results rs ≡ panic))
        ⊎ ((s : BenchmarkResult F) × (sum_benchmark_results rs ≡ ok s) × IsTotalOf rs s)
  unfolding sum_benchmark_results
  sum_benchmark_results-totals [] = inl (refl, refl)
  sum_benchmark_results-totals (r ∷ rs) = inr (_, refl, summed-IsTotalOf r.test_name (r ∷ rs))
