-- ===== src/Server/Csv.antt =====
-- `writeResultToCSV` and `getCSVFileHandle` of cmd/server/main.go.
use fsbench.Prelude.{
  ℕ, Bool, true, false, not, ◌&&◌, List, [], ◌∷◌, ◌++◌, Option, none, some, Text, codes,
  if◌then◌else◌,
}
use fsbench.Common.Types.{BenchmarkResult}
use fsbench.Worker.Metrics.{Numbers}

-- What is printed in a column: a number with so many digits after the point, or with "%v" where there
-- is no such count, a whole number, a duration in nanoseconds, or text.
pub data Cell (F : Type 0) : Type 0 where
  fixed : ℕ → F → Cell F
  plain : F → Cell F
  whole : ℕ → Cell F
  lasting : ℕ → Cell F
  written : Text → Cell F

-- A file: its lines if it is there, and whether the system lets it be appended to or created.
pub record Place (F : Type 0) : Type 0 where
  pub lines : Option (List (List (Cell F)))
  pub may_append : Bool
  pub may_create : Bool

-- "fsbench_results.csv" in the current directory, and in /tmp.
pub record Places (F : Type 0) : Type 0 where
  pub here : Place F
  pub tmp : Place F

pub record Handle : Type 0 where
  pub in_tmp : Bool
  pub created : Bool

module _ {F : Type 0} where
  abbrev pub has_lines : Option (List (List (Cell F))) → Bool
  has_lines none = false
  has_lines (some lines) = true

  abbrev pub opens : Place F → Bool
  opens p = has_lines p.lines && p.may_append

  abbrev pub creates : Place F → Bool
  creates p = not (has_lines p.lines) && p.may_create

  -- `getCSVFileHandle`
  unfoldable pub get_csv_file_handle : Places F → Option Handle
  get_csv_file_handle ps =
      if opens ps.here
      then some (record { in_tmp = false; created = false })
      else if opens ps.tmp
      then some (record { in_tmp = true; created = false })
      else if creates ps.here
      then some (record { in_tmp = false; created = true })
      else if creates ps.tmp
      then some (record { in_tmp = true; created = true })
      else none

  abbrev pub csv_header : List (Cell F)
  csv_header =
      written (codes "testName")
      ∷ written (codes "Successful Operations")
      ∷ written (codes "Failed Operations")
      ∷ written (codes "Total Bytes")
      ∷ written (codes "Average Bandwidth in Bytes/s")
      ∷ written (codes "Op/s")
      ∷ written (codes "Average Latency in ms")
      ∷ written (codes "Gen Bytes Average Latency in ms")
      ∷ written (codes "Workers")
      ∷ written (codes "Parallel clients")
      ∷ written (codes "Width")
      ∷ written (codes "Depth")
      ∷ written (codes "Block size")
      ∷ written (codes "Test duration seen by server in seconds")
      ∷ []

  abbrev pub csv_row : Numbers F → (ℕ → F) → BenchmarkResult F → List (Cell F)
  csv_row num seconds r =
      written r.test_name
      ∷ fixed 0 r.successful_operations
      ∷ fixed 0 r.failed_operations
      ∷ fixed 0 r.bytes
      ∷ fixed 6 r.bandwidth_avg
      ∷ fixed 2 (num.divide r.bandwidth_avg (num.of_count r.file_size))
      ∷ fixed 6 r.latency_avg
      ∷ fixed 6 r.gen_bytes_latency_avg
      ∷ fixed 6 r.workers
      ∷ fixed 6 r.parallel_clients
      ∷ whole r.width
      ∷ whole r.depth
      ∷ whole r.block_size
      ∷ fixed 6 (seconds r.duration)
      ∷ []

  abbrev pub lines_of : Option (List (List (Cell F))) → List (List (Cell F))
  lines_of none = []
  lines_of (some lines) = lines

  abbrev pub add_lines : List (List (Cell F)) → Place F → Place F
  add_lines new p = record p { lines = some (lines_of p.lines ++ new) }

  abbrev pub write_at : Bool → List (List (Cell F)) → Places F → Places F
  write_at true new ps = record ps { tmp = add_lines new ps.tmp }
  write_at false new ps = record ps { here = add_lines new ps.here }

  abbrev pub write_lines : Option Handle → List (Cell F) → Places F → Places F
  write_lines none row ps = ps
  write_lines (some h) row ps =
      write_at h.in_tmp (if h.created then csv_header ∷ row ∷ [] else row ∷ []) ps

  -- `writeResultToCSV`
  unfoldable pub write_result_to_csv : Numbers F → (ℕ → F) → BenchmarkResult F → Places F → Places F
  unfolding get_csv_file_handle
  write_result_to_csv num seconds r ps =
      write_lines (get_csv_file_handle ps) (csv_row num seconds r) ps
