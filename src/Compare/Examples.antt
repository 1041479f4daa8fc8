-- ===== src/Compare/Examples.antt =====
-- Tests of cmd/compare/main.go with rows over whole numbers.
use fsbench.Prelude.{
  ℕ, true, false, List, [], ◌∷◌, map, none, some, Text, codes, text_eq, Outcome, ok, panic, ◌==◌,
  find, contains, is_some, All₂, IsMap, IsRangeOf, IsAscending, sort_numbers, insert_number, put,
  ◌≡◌, refl, inl,
}
use fsbench.Common.Types.{ℤ, pos, negsuc}
use fsbench.Compare.{
  Row, ClientMap, WorkerMap, index_rows, add_row, row_of, sorted_keys, shared_keys, choose_clients,
  first_map,
}
use fsbench.Compare.Charts.{Pages, no_series, collect, generate_bar, generate_bar_items, add_charts}
use fsbench.Compare.Pages.{
  Orders, IsFair, compare_results, compare_ops, compare_op, compare_sizes, compare_workers,
  compare_clients, run,
}
use fsbench.Compare.Keys.{shares, sorted_keys-common}
use fsbench.Compare.Values.{IsRowAt, IsSeriesOf, collect_shared}
use fsbench.Compare.Index.{update_all, no_rows, last_row, index_rows_refines}
use fsbench.Compare.Choice.{choose_clients-any}
use fsbench.Compare.Total.{Makes, compare_results-Makes}

abbrev row : Text → ℕ → ℕ → ℕ → Row ℕ
row op workers clients value = record {
  op = op;
  object_kb_size = 4;
  workers = workers;
  parallel_clients = clients;
  avg_mb_bandwidth = value;
  ops = value;
  avg_latency_ms = value;
  gen_bytes_avg_latency_ms = value;
  io_copy_avg_latency_ms = value;
  successful_ops = value;
  failed_ops = 0;
  duration = pos value;
  total_mbytes = value;
  name = op;
}

abbrev before : List (Row ℕ)
before =
    row (codes "write") 2 8 5
    ∷ row (codes "write") 2 1 6
    ∷ row (codes "delete") 2 1 9
    ∷ row (codes "write") 2 8 7
    ∷ []

abbrev after : List (Row ℕ)
after =
    row (codes "write") 3 8 50
    ∷ row (codes "write") 2 8 20
    ∷ row (codes "write") 2 1 30
    ∷ row (codes "delete") 2 1 9
    ∷ []

abbrev in_order : Orders ℕ
in_order = record {
  ops = λ m. m;
  sizes = λ op m. m;
  workers = λ op size m. m;
  others = λ op size w1 m. m;
  clients = λ op size w1 m. m;
}

in_order-IsFair : IsFair in_order
in_order-IsFair = record {
  ops = λ m h. (λ k. refl, h);
  sizes = λ op m h. (λ k. refl, h);
  workers = λ op size m h. (λ k. refl, h);
  others = λ op size w1 m h. (λ k. refl, h);
  clients = λ op size w1 m h. (λ k. refl, h);
}

abbrev whole : ℤ → ℕ
whole (pos n) = n
whole (negsuc n) = 0

-- The later row of the same keys stays.
later_row : row_of (index_rows [] before) (codes "write") 4 2 8 ≡ some (row (codes "write") 2 8 7)
unfolding row_of index_rows add_row find put text_eq
later_row = refl

-- Two workers of the first file are set beside three of the second, though it has two workers too.
abbrev bandwidths : Outcome {0, 0} Text (Pages ℕ) → List (List ℕ)
bandwidths (ok pages) = map (λ bar. bar.axis) pages.bandwidth
bandwidths _ = []

wrong_workers : bandwidths (compare_results whole false in_order before after) ≡ (8 ∷ []) ∷ []
unfolding compare_results compare_ops compare_op compare_sizes compare_workers compare_clients
    index_rows add_row find put text_eq sorted_keys shared_keys choose_clients first_map collect
    add_charts generate_bar generate_bar_items sort_numbers insert_number
wrong_workers = refl

-- A file without a name is a panic.
no_file :
    run whole in_order (λ file. some before) (λ file. true) (codes "a.csv") [] false ≡ ([], panic)
unfolding run text_eq
no_file = refl

index_rows_refines_example :
    (row_of (index_rows [] before) ≡ update_all no_rows before)
    × ((op : Text) (size workers clients : ℕ)
        → row_of (index_rows [] before) op size workers clients
          ≡ last_row none before op size workers clients)
index_rows_refines_example = index_rows_refines before

abbrev clients_before : ClientMap ℕ
clients_before = (8, row (codes "write") 2 8 7) ∷ (1, row (codes "write") 2 1 6) ∷ []

abbrev clients_after : ClientMap ℕ
clients_after =
    (1, row (codes "write") 2 1 30)
    ∷ (9, row (codes "write") 2 9 30)
    ∷ (8, row (codes "write") 2 8 20)
    ∷ []

clients_before-IsRange : IsRangeOf ◌==◌ clients_before clients_before
unfolding find
clients_before-IsRange = (λ k. refl, (refl, (refl, tt)))

sorted_keys-common_example :
    IsAscending (sorted_keys clients_before clients_after)
    × ((k : ℕ)
        → contains k (sorted_keys clients_before clients_after)
          ≡ shares clients_before clients_after k)
    × ((ranged' : ClientMap ℕ)
        → IsRangeOf ◌==◌ clients_before ranged'
        → sorted_keys ranged' clients_after ≡ sorted_keys clients_before clients_after)
sorted_keys-common_example =
    sorted_keys-common clients_before clients_before clients_after clients_before-IsRange

collect_shared_example :
    (rs1 rs2 : List (Row ℕ)) × (s1 s2 : _) × All₂
      (IsRowAt whole clients_before)
      (sorted_keys clients_before clients_after)
      rs1
    × All₂ (IsRowAt whole clients_after) (sorted_keys clients_before clients_after) rs2
    × (collect whole
          (sorted_keys clients_before clients_after)
          clients_before
          clients_after
          no_series
          no_series
        ≡ ok (s1, s2))
    × IsSeriesOf whole rs1 s1
    × IsSeriesOf whole rs2 s2
collect_shared_example =
    collect_shared whole clients_before clients_before clients_after clients_before-IsRange

abbrev two_counts : WorkerMap ℕ
two_counts = (3, clients_before) ∷ (2, clients_after) ∷ []

two_counts-IsMap : IsMap ◌==◌ two_counts
unfolding find
two_counts-IsMap = (refl, (refl, tt))

two_counts-has : is_some (find ◌==◌ 2 two_counts) ≡ true
unfolding find
two_counts-has = refl

choose_clients-any_example :
    ((ranged : WorkerMap ℕ)
      → IsRangeOf ◌==◌ two_counts ranged
      → (v : ClientMap ℕ) → choose_clients false ranged 2 two_counts ≡ some v
      → (k : ℕ) × (find ◌==◌ k two_counts ≡ some v))
    × ((k : ℕ) (v : ClientMap ℕ)
        → find ◌==◌ k two_counts ≡ some v
        → (ranged : WorkerMap ℕ) × IsRangeOf ◌==◌ two_counts ranged
          × (choose_clients false ranged 2 two_counts ≡ some v))
choose_clients-any_example =
    choose_clients-any false 2 two_counts two_counts-IsMap (inl two_counts-has)

compare_results-Makes_example : Makes (compare_results whole false in_order before after)
compare_results-Makes_example =
    compare_results-Makes whole false in_order in_order-IsFair before after
