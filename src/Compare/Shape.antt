-- ===== src/Compare/Shape.antt =====
-- The shape of the pages of charts that cmd/compare/main.go makes.
use fsbench.Prelude.{
  ℕ, suc, ◌+◌, ◌≤◌, Bool, true, false, ◌&&◌, List, [], ◌∷◌, ◌++◌, map, Text, codes, text_eq,
  text_eq_iff, length, length-append, length-map, All, All-append, All₂, IsAscending, if◌then◌else◌,
  Bool-cases, ◌≡◌, inl, inr, refl, ap, ◌∙◌, arith,
}
use fsbench.Common.Types.{ℤ}
use fsbench.Compare.{Row}
use fsbench.Compare.Values.{IsSeriesOf}
use fsbench.Compare.Charts.{
  Bar, Page, Pages, Series, no_pages, generate_bar, generate_bar_items, add_charts,
}

module _ {F : Type 0} where
  -- The counts on the axis ascend, and each has a value of either file.
  abbrev pub IsBar : Bar F → Type 0
  IsBar bar =
      IsAscending bar.axis × (length bar.r1 ≡ length bar.axis) × (length bar.r2 ≡ length bar.axis)

  -- Every bar chart is one, six pages have as many of them, and the two others together no more.
  pub record IsPages (pages : Pages F) : Type 0 where
    pub bandwidth : All IsBar pages.bandwidth
    pub avg_latency :
        All IsBar pages.avg_latency × (length pages.avg_latency ≡ length pages.bandwidth)
    pub gen_bytes : All IsBar pages.gen_bytes
    pub io_copy : All IsBar pages.io_copy
    pub some_ops : length pages.gen_bytes + length pages.io_copy ≤ length pages.bandwidth
    pub duration : All IsBar pages.duration × (length pages.duration ≡ length pages.bandwidth)
    pub successful : All IsBar pages.successful × (length pages.successful ≡ length pages.bandwidth)
    pub failed : All IsBar pages.failed × (length pages.failed ≡ length pages.bandwidth)
    pub ops : All IsBar pages.ops × (length pages.ops ≡ length pages.bandwidth)

  length-generate_bar_items : (vals : List F) → length (generate_bar_items vals) ≡ length vals
  unfolding generate_bar_items
  length-generate_bar_items [] = refl
  length-generate_bar_items (v ∷ vals) = ap suc (length-generate_bar_items vals)

  pub length-rows :
      (R : ℕ → Row F → Type 0) (pcs : List ℕ) (rs : List (Row F))
      → All₂ R pcs rs
      → length rs ≡ length pcs
  length-rows R [] [] h = refl
  length-rows R [] (r ∷ rs) h = absurd h
  length-rows R (pc ∷ pcs) [] h = absurd h
  length-rows R (pc ∷ pcs) (r ∷ rs) (h, hs) = ap suc (length-rows R pcs rs hs)

  module _ (pcs : List ℕ) (rs1 rs2 : List (Row F)) (sorted : IsAscending pcs)
      (same1 : length rs1 ≡ length pcs) (same2 : length rs2 ≡ length pcs) where
    length-values :
        (get : Row F → F) (vals : List F) (rs : List (Row F))
        → vals ≡ map get rs
        → length (generate_bar_items vals) ≡ length rs
    length-values get vals rs e =
        length-generate_bar_items vals ∙ ap (λ (vs : List F). length vs) e ∙ length-map get rs

    values_match :
        (get : Row F → F) {vals1 vals2 : List F}
        → vals1 ≡ map get rs1
        → vals2 ≡ map get rs2
        → IsAscending pcs
          × (length (generate_bar_items vals1) ≡ length pcs)
          × (length (generate_bar_items vals2) ≡ length pcs)
    values_match get {vals1} {vals2} e1 e2 =
        (sorted, length-values get vals1 rs1 e1 ∙ same1, length-values get vals2 rs2 e2 ∙ same2)

  -- One more bar on a page.
  more :
      (page other : Page F) (bar bar' : Bar F)
      → All IsBar page
      → length page ≡ length other
      → IsBar bar
      → All IsBar (page ++ bar ∷ []) × (length (page ++ bar ∷ []) ≡ length (other ++ bar' ∷ []))
  more page other bar bar' h e hb = (
    All-append IsBar page (bar ∷ []) h (hb, tt),
    omega (arith, length-append page (bar ∷ []), length-append other (bar' ∷ []), e),
  )

  -- One more bar where the test holds.
  maybe_more :
      (b : Bool) (page : Page F) (bar : Bar F)
      → All IsBar page
      → IsBar bar
      → All IsBar (if b then page ++ bar ∷ [] else page)
  maybe_more true page bar h hb = All-append IsBar page (bar ∷ []) h (hb, tt)
  maybe_more false page bar h hb = h

  one_of_two :
      (b b' : Bool) (page1 page2 page : Page F) (bar1 bar2 bar : Bar F)
      → b && b' ≡ false
      → length page1 + length page2 ≤ length page
      → length (if b then page1 ++ bar1 ∷ [] else page1)
          + length (if b' then page2 ++ bar2 ∷ [] else page2)
        ≤ length (page ++ bar ∷ [])
  one_of_two true true page1 page2 page bar1 bar2 bar h le = cc
  one_of_two true false page1 page2 page bar1 bar2 bar h le =
      omega (arith, length-append page1 (bar1 ∷ []), length-append page (bar ∷ []), le)
  one_of_two false true page1 page2 page bar1 bar2 bar h le =
      omega (arith, length-append page2 (bar2 ∷ []), length-append page (bar ∷ []), le)
  one_of_two false false page1 page2 page bar1 bar2 bar h le =
      omega (arith, length-append page (bar ∷ []), le)

not_both : (op : Text) → text_eq op (codes "write") && text_eq op (codes "read") ≡ false
unfolding text_eq
not_both op = elim (Bool-cases (text_eq op (codes "write"))) [
  | inl e ↦ rw ((text_eq_iff op (codes "write")).0 e) refl
  | inr e ↦ simp e refl
]

module _ {F : Type 0} (seconds : ℤ → F) where
  pub add_charts-IsPages :
      (op title : Text) (pcs : List ℕ) (rs1 rs2 : List (Row F)) (s1 s2 : Series F) (pages : Pages F)
      → IsAscending pcs
      → length rs1 ≡ length pcs
      → length rs2 ≡ length pcs
      → IsSeriesOf seconds rs1 s1
      → IsSeriesOf seconds rs2 s2
      → IsPages pages
      → IsPages (add_charts op title pcs (s1, s2) pages)
  unfolding add_charts generate_bar
  add_charts-IsPages op title pcs rs1 rs2 s1 s2 pages sorted l1 l2 h1 h2 h =
      let bar1 = values_match pcs rs1 rs2 sorted l1 l2 _ h1.bandwidth h2.bandwidth in
      record {
        bandwidth = All-append IsBar pages.bandwidth _ h.bandwidth (bar1, tt);
        avg_latency =
            more pages.avg_latency pages.bandwidth _ _ h.avg_latency.0 h.avg_latency.1
              (values_match pcs rs1 rs2 sorted l1 l2 _ h1.latency h2.latency);
        gen_bytes =
            maybe_more (text_eq op (codes "write")) pages.gen_bytes _ h.gen_bytes
              (values_match pcs rs1 rs2 sorted l1 l2 _ h1.gen_bytes h2.gen_bytes);
        io_copy =
            maybe_more (text_eq op (codes "read")) pages.io_copy _ h.io_copy
              (values_match pcs rs1 rs2 sorted l1 l2 _ h1.io_copy h2.io_copy);
        some_ops =
            one_of_two (text_eq op (codes "write")) (text_eq op (codes "read")) pages.gen_bytes
              pages.io_copy pages.bandwidth _ _ _ (not_both op) h.some_ops;
        duration =
            more pages.duration pages.bandwidth _ _ h.duration.0 h.duration.1
              (values_match pcs rs1 rs2 sorted l1 l2 _ h1.duration h2.duration);
        successful =
            more pages.successful pages.bandwidth _ _ h.successful.0 h.successful.1
              (values_match pcs rs1 rs2 sorted l1 l2 _ h1.successful h2.successful);
        failed =
            more pages.failed pages.bandwidth _ _ h.failed.0 h.failed.1
              (values_match pcs rs1 rs2 sorted l1 l2 _ h1.failed h2.failed);
        ops =
            more pages.ops pages.bandwidth _ _ h.ops.0 h.ops.1
              (values_match pcs rs1 rs2 sorted l1 l2 _ h1.ops h2.ops);
      }

pub no_pages-IsPages : {F : Type 0} → IsPages (no_pages {F = F})
no_pages-IsPages = record {
  bandwidth = tt;
  avg_latency = (tt, refl);
  gen_bytes = tt;
  io_copy = tt;
  some_ops = omega arith;
  duration = (tt, refl);
  successful = (tt, refl);
  failed = (tt, refl);
  ops = (tt, refl);
}
