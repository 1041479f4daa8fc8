-- ===== src/Worker/Metrics.antt =====
-- What a worker reports of its metrics (pkg/worker/prometheus.go), over any type of numbers: the code
-- uses 64-bit floating point. The proofs are in the module below.
pub mod Sums
mod Examples
use fsbench.Prelude.{
  ℕ, Bool, true, false, ◌&&◌, List, [], ◌∷◌, Option, none, some, Text, codes, text_eq,
  if◌then◌else◌,
}
use fsbench.Common.OpType.{OpType}
use fsbench.Common.Types.{BenchmarkResult}

-- A metric as the Prometheus library hands it out: a counter, or a histogram's sum and count.
pub record Metric (F : Type 0) : Type 0 where
  pub labels : List (Text × Text)
  pub counter : F
  pub sample_sum : F
  pub sample_count : ℕ

unfoldable pub names_test : Text → Text × Text → Bool
names_test test_name label = text_eq label.0 (codes "testName") && text_eq label.1 test_name

abbrev pub Families : Type 0 → Type 0
Families F = List (Text × List (Metric F))

-- `resultmap[name]`, the last family of the name; nil where there is none.
unfoldable pub family : {F : Type 0} → Text → Families F → List (Metric F) → List (Metric F)
family name [] found = found
family name ((n, metrics) ∷ families) found =
    family name families (if text_eq n name then metrics else found)

-- The arithmetic of float64.
pub record Numbers (F : Type 0) : Type 0 where
  pub plus : F → F → F
  pub divide : F → F → F
  pub naught : F
  pub minus_one : F
  pub of_count : ℕ → F
  pub is_naught : F → Bool

module _ {F : Type 0} (num : Numbers F) (test_name : Text) where
  -- The inner loop of `sumCounterForTest`, then the outer one.
  unfoldable pub add_counter : F → List (Text × Text) → F → F
  unfolding names_test
  add_counter value [] sum = sum
  add_counter value (label ∷ labels) sum =
      add_counter value labels (if names_test test_name label then num.plus sum value else sum)

  unfoldable pub sum_counters : List (Metric F) → F → F
  unfolding add_counter
  sum_counters [] sum = sum
  sum_counters (m ∷ metrics) sum = sum_counters metrics (add_counter m.counter m.labels sum)

  unfoldable pub sum_counter_for_test : List (Metric F) → F
  unfolding sum_counters
  sum_counter_for_test metrics = sum_counters metrics num.naught

  unfoldable pub add_histogram : Metric F → List (Text × Text) → F × F → F × F
  unfolding names_test
  add_histogram m [] acc = acc
  add_histogram m (label ∷ labels) acc = add_histogram m labels (
      if names_test test_name label
      then (num.plus acc.0 m.sample_sum, num.plus acc.1 (num.of_count m.sample_count))
      else acc)

  unfoldable pub add_histograms : List (Metric F) → F × F → F × F
  unfolding add_histogram
  add_histograms [] acc = acc
  add_histograms (m ∷ metrics) acc = add_histograms metrics (add_histogram m m.labels acc)

  -- The average, or -1 where there is no sample.
  unfoldable pub average_histogram_for_test : List (Metric F) → F
  unfolding add_histograms
  average_histogram_for_test metrics =
      let (sum, count) = add_histograms metrics (num.naught, num.naught) in
      if num.is_naught count then num.minus_one else num.divide sum count

  -- `getCurrentPromValues`; the fields that it leaves alone are zero.
  unfoldable pub current_prom_values : Families F → BenchmarkResult F
  unfolding family sum_counter_for_test average_histogram_for_test
  current_prom_values families = record {
    test_name = test_name;
    successful_operations =
        sum_counter_for_test (family (codes "fsbench_finished_ops") families []);
    failed_operations = sum_counter_for_test (family (codes "fsbench_failed_ops") families []);
    workers = num.naught;
    parallel_clients = num.naught;
    bytes =
        num.plus (sum_counter_for_test (family (codes "fsbench_uploaded_bytes") families []))
          (sum_counter_for_test (family (codes "fsbench_downloaded_bytes") families []));
    bandwidth_avg = num.naught;
    latency_avg = average_histogram_for_test (family (codes "fsbench_ops_latency") families []);
    gen_bytes_latency_avg =
        average_histogram_for_test (family (codes "fsbench_gen_bytes_latency") families []);
    duration = 0;
    op = 0;
    file_size = 0;
    depth = 0;
    width = 0;
    block_size = 0;
  }
