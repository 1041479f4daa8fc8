-- ===== src/Compare/Total.antt =====
-- The comparison of two files of results in cmd/compare/main.go comes to its end.
use fsbench.Prelude.{
  ℕ, Bool, List, [], ◌∷◌, Option, none, some, Text, codes, text_eq, text_eq_iff, ◌==◌, ==_iff,
  Outcome, ok, ◌>>=◌, All, find, or_empty, Bool-cases, ◌≡◌, inl, inr, refl,
}
use fsbench.Common.Types.{ℤ}
use fsbench.Compare.{Row, ClientMap, WorkerMap, SizeMap, OpMap, sorted_keys, index_rows}
use fsbench.Compare.Keys.{sorted_keys-common}
use fsbench.Compare.Values.{IsRowAt, collect_shared}
use fsbench.Compare.Wellformed.{
  IsClientMap, IsWorkerMap, IsSizeMap, or_empty_holds, none_map, range-All, index_rows-IsOpMap,
}
use fsbench.Compare.Charts.{Pages, no_pages, add_charts}
use fsbench.Compare.Shape.{IsPages, length-rows, add_charts-IsPages, no_pages-IsPages}
use fsbench.Compare.Pages.{
  Orders, IsFair, chart_title, compare_clients, compare_workers, compare_sizes, compare_op,
  compare_ops, compare_results,
}

module _ {F : Type 0} where
  abbrev pub Makes : Outcome {0, 0} Text (Pages F) → Type 0
  Makes o = (pages : Pages F) × (o ≡ ok pages) × IsPages pages

  then_Makes :
      (o : Outcome {0, 0} Text (Pages F)) (f : Pages F → Outcome {0, 0} Text (Pages F))
      → Makes o
      → ((pages : Pages F) → IsPages pages → Makes (f pages))
      → Makes (o >>= f)
  then_Makes o f (pages, e, h) k = rw e (k pages h)

module _ {F : Type 0} (seconds : ℤ → F) (ignore_mismatch : Bool) (orders : Orders F)
    (fair : IsFair orders) where
  compare_clients-Makes :
      (op : Text) (size w1 : ℕ) (clients1 : ClientMap F) (other : Option (ClientMap F))
      (pages : Pages F)
      → IsClientMap clients1
      → IsPages pages
      → Makes (compare_clients seconds ignore_mismatch orders op size w1 clients1 other pages)
  unfolding compare_clients
  compare_clients-Makes op size w1 clients1 none pages hm h = (pages, refl, h)
  compare_clients-Makes op size w1 clients1 (some clients2) pages hm h =
      let ranged = orders.clients op size w1 clients1 in
      let in_range = fair.clients op size w1 clients1 hm in
      let pcs = sorted_keys ranged clients2 in
      let (rs1, rs2, s1, s2, at1, at2, e, h1, h2) =
        collect_shared seconds clients1 ranged clients2 in_range in
      let title = chart_title op size w1 in
      (
        add_charts op title pcs (s1, s2) pages,
        rw e refl,
        add_charts-IsPages seconds op title pcs rs1 rs2 s1 s2 pages
            ((sorted_keys-common clients1 ranged clients2 in_range).0)
            (length-rows (IsRowAt seconds clients1) pcs rs1 at1)
            (length-rows (IsRowAt seconds clients2) pcs rs2 at2) h1 h2 h,
      )

  compare_workers-Makes :
      (op : Text) (size : ℕ) (ranged workers2 : WorkerMap F) (pages : Pages F)
      → All (λ e. IsClientMap (e.1)) ranged
      → IsPages pages
      → Makes (compare_workers seconds ignore_mismatch orders op size ranged workers2 pages)
  unfolding compare_workers
  compare_workers-Makes op size [] workers2 pages hm h = (pages, refl, h)
  compare_workers-Makes op size ((w1, clients1) ∷ ranged) workers2 pages (hm, hms) h =
      then_Makes _ _ (compare_clients-Makes op size w1 clients1 _ pages hm h)
        (λ pages'. compare_workers-Makes op size ranged workers2 pages' hms)

  compare_sizes-Makes :
      (op : Text) (sorted : List ℕ) (sizes1 sizes2 : SizeMap F) (pages : Pages F)
      → IsSizeMap sizes1
      → IsPages pages
      → Makes (compare_sizes seconds ignore_mismatch orders op sorted sizes1 sizes2 pages)
  unfolding compare_sizes
  compare_sizes-Makes op [] sizes1 sizes2 pages hm h = (pages, refl, h)
  compare_sizes-Makes op (size ∷ sorted) sizes1 sizes2 pages hm h =
      let workers1 = or_empty (find ◌==◌ size sizes1) in
      let checked =
        or_empty_holds ◌==◌ ==_iff IsWorkerMap size sizes1 (none_map ◌==◌ IsClientMap) (hm.1) in
      then_Makes _ _
        (compare_workers-Makes op size _ _ pages
          (range-All ◌==◌ ==_iff IsClientMap workers1 (orders.workers op size workers1)
            (fair.workers op size workers1 (checked.0)) (checked.1))
          h)
        (λ pages'. compare_sizes-Makes op sorted sizes1 sizes2 pages' hm)

  compare_op-Makes :
      (op : Text) (sizes1 : SizeMap F) (other : Option (SizeMap F)) (pages : Pages F)
      → IsSizeMap sizes1
      → IsPages pages
      → Makes (compare_op seconds ignore_mismatch orders op sizes1 other pages)
  unfolding compare_op
  compare_op-Makes op sizes1 none pages hm h = (pages, refl, h)
  compare_op-Makes op sizes1 (some sizes2) pages hm h =
      elim (Bool-cases (text_eq op (codes "delete"))) [
        | inl e ↦ simp e (pages, refl, h)
        | inr e ↦ simp e (compare_sizes-Makes op _ sizes1 sizes2 pages hm h)
      ]

  compare_ops-Makes :
      (ranged second : OpMap F) (pages : Pages F)
      → All (λ e. IsSizeMap (e.1)) ranged
      → IsPages pages
      → Makes (compare_ops seconds ignore_mismatch orders ranged second pages)
  unfolding compare_ops
  compare_ops-Makes [] second pages hm h = (pages, refl, h)
  compare_ops-Makes ((op, sizes1) ∷ ranged) second pages (hm, hms) h =
      then_Makes _ _ (compare_op-Makes op sizes1 (find text_eq op second) pages hm h)
        (λ pages'. compare_ops-Makes ranged second pages' hms)

  -- Whichever way the maps are ranged over, the comparison of the rows of two files never panics. Each
  -- chart has ascending client counts on its axis and a value of either file for each of them; the pages
  -- of gen-bytes and iocopy together have no more charts than the page of bandwidths, and the others
  -- have as many.
  pub compare_results-Makes :
      (first second : List (Row F))
      → Makes (compare_results seconds ignore_mismatch orders first second)
  unfolding compare_results
  compare_results-Makes first second =
      let index = index_rows [] first in
      let (h, hv) = index_rows-IsOpMap [] first (none_map text_eq IsSizeMap) in
      compare_ops-Makes (orders.ops index) (index_rows [] second) no_pages
        (range-All text_eq text_eq_iff IsSizeMap index (orders.ops index) (fair.ops index h) hv)
        no_pages-IsPages
