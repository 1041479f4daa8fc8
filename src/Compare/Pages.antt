-- ===== src/Compare/Pages.antt =====
-- The loops of `run` of cmd/compare/main.go over the two indexes, and the files that it writes.
use fsbench.Prelude.{
  ℕ, Bool, ◌||◌, List, [], ◌∷◌, ◌++◌, Option, none, some, Text, codes, text_eq, Outcome, ok, err,
  panic, ◌>>=◌, if◌then◌else◌, ◌==◌, or_empty, find, IsMap, IsRangeOf,
}
use fsbench.Common.Types.{ℤ}
use fsbench.FilePath.{decimal}
use fsbench.Compare.{
  Row, ClientMap, WorkerMap, SizeMap, OpMap, index_rows, sorted_keys, choose_clients, or_panic,
}
use fsbench.Compare.Charts.{Page, Pages, no_series, no_pages, collect, add_charts}

-- The order in which each `range` over a map visits it; a place is visited once, so that the order may
-- depend on it.
pub record Orders (F : Type 0) : Type 0 where
  pub ops : OpMap F → OpMap F
  pub sizes : Text → SizeMap F → SizeMap F
  pub workers : Text → ℕ → WorkerMap F → WorkerMap F
  pub others : Text → ℕ → ℕ → WorkerMap F → WorkerMap F
  pub clients : Text → ℕ → ℕ → ClientMap F → ClientMap F

-- What Go promises of them, for maps whose keys are apart.
pub record IsFair {F : Type 0} (orders : Orders F) : Type 0 where
  pub ops : (m : OpMap F) → IsMap text_eq m → IsRangeOf text_eq m (orders.ops m)
  pub sizes : (op : Text) (m : SizeMap F) → IsMap ◌==◌ m → IsRangeOf ◌==◌ m (orders.sizes op m)
  pub workers :
      (op : Text) (size : ℕ) (m : WorkerMap F)
      → IsMap ◌==◌ m
      → IsRangeOf ◌==◌ m (orders.workers op size m)
  pub others :
      (op : Text) (size w1 : ℕ) (m : WorkerMap F)
      → IsMap ◌==◌ m
      → IsRangeOf ◌==◌ m (orders.others op size w1 m)
  pub clients :
      (op : Text) (size w1 : ℕ) (m : ClientMap F)
      → IsMap ◌==◌ m
      → IsRangeOf ◌==◌ m (orders.clients op size w1 m)

-- `fmt.Sprintf("%s-%dKB-%dw", t, os, w1)`
unfoldable pub chart_title : Text → ℕ → ℕ → Text
chart_title op size w1 =
    op ++ (codes "-" ++ (decimal size ++ (codes "KB-" ++ (decimal w1 ++ codes "w"))))

module _ {F : Type 0} (seconds : ℤ → F) (ignore_mismatch : Bool) (orders : Orders F) where
  -- The charts for one worker count, once its other map is chosen.
  unfoldable pub compare_clients :
      Text → ℕ → ℕ → ClientMap F → Option (ClientMap F) → Pages F → Outcome Text (Pages F)
  unfolding chart_title sorted_keys add_charts
  compare_clients op size w1 clients1 none pages = ok pages
  compare_clients op size w1 clients1 (some clients2) pages =
      let pcs = sorted_keys (orders.clients op size w1 clients1) clients2 in
      collect seconds pcs clients1 clients2 no_series no_series >>= λ series.
      ok (add_charts op (chart_title op size w1) pcs series pages)

  unfoldable pub compare_workers :
      Text → ℕ → WorkerMap F → WorkerMap F → Pages F → Outcome Text (Pages F)
  unfolding compare_clients choose_clients
  compare_workers op size [] workers2 pages = ok pages
  compare_workers op size ((w1, clients1) ∷ ranged) workers2 pages =
      compare_clients op size w1 clients1
        (choose_clients ignore_mismatch (orders.others op size w1 workers2) w1 workers2) pages
      >>= λ pages'. compare_workers op size ranged workers2 pages'

  unfoldable pub compare_sizes :
      Text → List ℕ → SizeMap F → SizeMap F → Pages F → Outcome Text (Pages F)
  unfolding compare_workers
  compare_sizes op [] sizes1 sizes2 pages = ok pages
  compare_sizes op (size ∷ sorted) sizes1 sizes2 pages =
      compare_workers op size (orders.workers op size (or_empty (find ◌==◌ size sizes1)))
        (or_empty (find ◌==◌ size sizes2)) pages
      >>= λ pages'. compare_sizes op sorted sizes1 sizes2 pages'

  -- A round of the outer loop: deletions, and operations that the second file has not, are skipped.
  unfoldable pub compare_op :
      Text → SizeMap F → Option (SizeMap F) → Pages F → Outcome Text (Pages F)
  unfolding compare_sizes
  compare_op op sizes1 none pages = ok pages
  compare_op op sizes1 (some sizes2) pages =
      if text_eq op (codes "delete")
      then ok pages
      else compare_sizes op (sorted_keys (orders.sizes op sizes1) sizes2) sizes1 sizes2 pages

  unfoldable pub compare_ops : OpMap F → OpMap F → Pages F → Outcome Text (Pages F)
  unfolding compare_op
  compare_ops [] second pages = ok pages
  compare_ops ((op, sizes1) ∷ ranged) second pages =
      compare_op op sizes1 (find text_eq op second) pages >>= λ pages'.
      compare_ops ranged second pages'

  -- What the comparison makes of the rows of the two files.
  unfoldable pub compare_results : List (Row F) → List (Row F) → Outcome Text (Pages F)
  unfolding compare_ops index_rows
  compare_results first second =
      compare_ops (orders.ops (index_rows [] first)) (index_rows [] second) no_pages

-- The pages with their files, in the order in which they are written.
abbrev pub page_files : {F : Type 0} → Pages F → List (Text × Page F)
page_files pages =
    (codes "examples/html/bandwidth-bar.html", pages.bandwidth)
    ∷ (codes "examples/html/avg-latency-bar.html", pages.avg_latency)
    ∷ (codes "examples/html/genbytes-avg-latency-bar.html", pages.gen_bytes)
    ∷ (codes "examples/html/iocopy-avg-latency-bar.html", pages.io_copy)
    ∷ (codes "examples/html/duration-bar.html", pages.duration)
    ∷ (codes "examples/html/successful-ops-bar.html", pages.successful)
    ∷ (codes "examples/html/failed-ops-bar.html", pages.failed)
    ∷ (codes "examples/html/ops-bar.html", pages.ops)
    ∷ []

-- What is written before a file cannot be created stays; then the code panics.
unfoldable pub write_pages :
    {F : Type 0}
    → (Text → Bool)
    → List (Text × Page F)
    → List (Text × Page F) × Outcome {0, 0} Text Unit
write_pages creates [] = ([], ok tt)
write_pages creates ((file, page) ∷ files) =
    let (written, result) = write_pages creates files in
    if creates file then ((file, page) ∷ written, result) else ([], panic)

unfoldable pub write_result :
    {F : Type 0}
    → (Text → Bool)
    → Outcome Text (Pages F)
    → List (Text × Page F) × Outcome {0, 0} Text Unit
unfolding write_pages
write_result creates (ok pages) = write_pages creates (page_files pages)
write_result creates (err e) = ([], err e)
write_result creates panic = ([], panic)

-- `run`: the rows that can be read of a file, and the files that can be created, are parameters.
unfoldable pub run :
    {F : Type 0}
    → (ℤ → F)
    → Orders F
    → (Text → Option (List (Row F)))
    → (Text → Bool)
    → Text
    → Text
    → Bool
    → List (Text × Page F) × Outcome {0, 0} Text Unit
unfolding write_result compare_results
run seconds orders rows creates first second ignore_mismatch =
    if text_eq first [] || text_eq second []
    then ([], panic)
    else write_result creates (
        or_panic (rows first) >>= λ rows1. or_panic (rows second) >>= λ rows2.
        compare_results seconds ignore_mismatch orders rows1 rows2)
