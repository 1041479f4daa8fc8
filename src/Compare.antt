-- ===== src/Compare.antt =====
-- cmd/compare/main.go: the rows of two result files, indexed by operation, object size, worker count
-- and client count, and the charts that set them side by side. The proofs are in the modules below.
pub mod Charts
pub mod Pages
pub mod Index
pub mod Keys
pub mod Values
pub mod Shape
pub mod Total
mod Examples
pub mod Choice
pub mod Wellformed
use fsbench.Prelude.{
  ℕ, Bool, true, false, not, ◌&&◌, List, [], ◌∷◌, ◌++◌, map, Option, none, some, Text, codes,
  text_eq, Outcome, ok, err, panic, ◌>>=◌, if◌then◌else◌, ◌==◌, is_some, or_empty, find, put,
  sort_numbers,
}
use fsbench.Common.Types.{ℤ}
use fsbench.FilePath.{decimal}

-- A row of a result file; the duration is in nanoseconds.
pub record Row (F : Type 0) : Type 0 where
  pub op : Text
  pub object_kb_size : ℕ
  pub workers : ℕ
  pub parallel_clients : ℕ
  pub avg_mb_bandwidth : F
  pub ops : F
  pub avg_latency_ms : F
  pub gen_bytes_avg_latency_ms : F
  pub io_copy_avg_latency_ms : F
  pub successful_ops : F
  pub failed_ops : F
  pub duration : ℤ
  pub total_mbytes : F
  pub name : Text

-- The maps from client counts, worker counts, object sizes and operations.
abbrev pub ClientMap : Type 0 → Type 0
ClientMap F = List (ℕ × Row F)

abbrev pub WorkerMap : Type 0 → Type 0
WorkerMap F = List (ℕ × ClientMap F)

abbrev pub SizeMap : Type 0 → Type 0
SizeMap F = List (ℕ × WorkerMap F)

abbrev pub OpMap : Type 0 → Type 0
OpMap F = List (Text × SizeMap F)

module _ {F : Type 0} where
  -- One round of the loop over the rows: a map that is missing is made, and the row is written.
  unfoldable pub add_row : OpMap F → Row F → OpMap F
  add_row index r =
      let sizes = or_empty (find text_eq r.op index) in
      let workers = or_empty (find ◌==◌ r.object_kb_size sizes) in
      let clients = or_empty (find ◌==◌ r.workers workers) in
      put text_eq r.op
        (put ◌==◌ r.object_kb_size
          (put ◌==◌ r.workers (put ◌==◌ r.parallel_clients r clients) workers) sizes)
        index

  unfoldable pub index_rows : OpMap F → List (Row F) → OpMap F
  unfolding add_row
  index_rows index [] = index
  index_rows index (r ∷ rs) = index_rows (add_row index r) rs

  -- `index[op][size][workers][clients]`; a map that is missing reads as an empty one.
  unfoldable pub row_of : OpMap F → Text → ℕ → ℕ → ℕ → Option (Row F)
  row_of index op size workers clients =
      find ◌==◌ clients (
        or_empty (find ◌==◌ workers (or_empty (find ◌==◌ size (or_empty (find text_eq op index))))))

-- The loop over one map that keeps the keys of the other one, in the order of the range.
unfoldable pub shared_keys : {A B : Type 0} → List (ℕ × A) → List (ℕ × B) → List ℕ
shared_keys [] other = []
shared_keys ((k, v) ∷ ranged) other =
    let rest = shared_keys ranged other in if is_some (find ◌==◌ k other) then k ∷ rest else rest

-- `sortedOs` and `sortedPcs`
unfoldable pub sorted_keys : {A B : Type 0} → List (ℕ × A) → List (ℕ × B) → List ℕ
unfolding shared_keys
sorted_keys ranged other = sort_numbers (shared_keys ranged other)

-- A pointer that is nil, a file that cannot be read: the code panics.
abbrev pub or_panic : {A : Type 0} → Option A → Outcome Text A
or_panic none = panic
or_panic (some a) = ok a

-- `pcMap2`: the map found for the worker count, then overwritten by the first one of the range; nil
-- if there is none. The maps that are stored are not nil.
unfoldable pub first_map : {A : Type 0} → List (ℕ × A) → Option A → Option A
first_map [] found = found
first_map ((k, m) ∷ ranged) found = some m

unfoldable pub choose_clients : {A : Type 0} → Bool → List (ℕ × A) → ℕ → List (ℕ × A) → Option A
unfolding first_map
choose_clients ignore_mismatch ranged w1 workers2 =
    let found = find ◌==◌ w1 workers2 in
    if not (is_some found) && not ignore_mismatch then none else first_map ranged found
