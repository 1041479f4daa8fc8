-- ===== src/Worker/Populate/Distinct.antt =====
-- No two directories of a worker are alike, and no two workers share one.
use mathlib.Core.List.{List, [], ◌∷◌}
use fsbench.Prelude.{
  ℕ, cons_head, cons_tail, ◌+◌, ◌≤◌, Text, All, All₂-All, All₂-Pairwise, Pairwise-imp, Pairwise,
  Across, length, ◌≡◌, ◌≢◌, refl, sym, ap, ap₂, Bool, ◌∙◌, arith,
}
use fsbench.Common.Types.{Fsd}
use fsbench.FilePath.{Parsed, parse, slash}
use fsbench.FilePath.Elements.{Lacks}
use fsbench.Worker.Populate.{sub_dir, populate_dirs}
use fsbench.Worker.Populate.Names.{sub_dir-index, sub_dir-worker}
use fsbench.Worker.Populate.Tuples.{Differ, index_tuples, index_tuples-Differ, index_tuples-length}
use fsbench.Worker.Populate.Tree.{elements, LiesAt, populate_dirs_lie}

module _ (worker_id other : Text) where
  -- Below tuples of one length the same elements show the same base.
  elements_base :
      (depth : ℕ) (is js : List ℕ) (base base' : List Text)
      → length is ≡ length js
      → elements worker_id depth is base ≡ elements other depth js base'
      → base ≡ base'
  elements_base depth [] [] base base' l e = e
  elements_base depth [] (j ∷ js) base base' l e = absurd (omega arith)
  elements_base depth (i ∷ is) [] base base' l e = absurd (omega arith)
  elements_base depth (i ∷ is) (j ∷ js) base base' l e = cons_tail (
      elements_base (depth + 1) is js (sub_dir worker_id depth i ∷ base)
        (sub_dir other depth j ∷ base') (omega arith) e)

  elements_head :
      (depth i j : ℕ) (is js : List ℕ) (base base' : List Text)
      → length (i ∷ is) ≡ length (j ∷ js)
      → elements worker_id depth (i ∷ is) base ≡ elements other depth (j ∷ js) base'
      → sub_dir worker_id depth i ≡ sub_dir other depth j
  elements_head depth i j is js base base' l e = cons_head (
      elements_base (depth + 1) is js (sub_dir worker_id depth i ∷ base)
        (sub_dir other depth j ∷ base') (omega arith) e)

elements_indices :
    (worker_id : Text) (depth : ℕ) (is js : List ℕ) (base base' : List Text)
    → length is ≡ length js
    → elements worker_id depth is base ≡ elements worker_id depth js base'
    → is ≡ js
elements_indices worker_id depth [] [] base base' l e = refl
elements_indices worker_id depth [] (j ∷ js) base base' l e = absurd (omega arith)
elements_indices worker_id depth (i ∷ is) [] base base' l e = absurd (omega arith)
elements_indices worker_id depth (i ∷ is) (j ∷ js) base base' l e =
    let same =
      sub_dir-index worker_id worker_id depth i j
        (elements_head worker_id worker_id depth i j is js base base' l e) in
    ap₂ ◌∷◌ same (
      elements_indices worker_id (depth + 1) is js (sub_dir worker_id depth i ∷ base)
        (sub_dir worker_id depth j ∷ base') (omega arith) e)

elements_worker :
    (worker_id other : Text) (is js : List ℕ) (base base' : List Text)
    → length is ≡ length js
    → 1 ≤ length is
    → elements worker_id 0 is base ≡ elements other 0 js base'
    → worker_id ≡ other
elements_worker worker_id other [] js base base' l h e = absurd (omega arith)
elements_worker worker_id other (i ∷ is) [] base base' l h e = absurd (omega arith)
elements_worker worker_id other (i ∷ is) (j ∷ js) base base' l h e =
    sub_dir-worker worker_id other i j (elements_head worker_id other 0 i j is js base base' l e)

-- No two directories read alike.
pub populate_dirs_apart :
    (worker_id : Text) (fsd : Fsd)
    → Lacks slash worker_id
    → fsd.anchor ≢ []
    → Pairwise (λ dir dir'. (parse dir).stack ≢ (parse dir').stack) (populate_dirs worker_id fsd)
populate_dirs_apart worker_id fsd plain h =
    All₂-Pairwise (LiesAt worker_id 0 rooted base) Differ
      (λ dir dir'. (parse dir).stack ≢ (parse dir').stack)
      (λ is js dir dir' at at' d e. d.1 (
        elements_indices worker_id 0 is js base base d.0
          (ap (λ (q : Parsed). q.stack) (sym at) ∙ e ∙ ap (λ (q : Parsed). q.stack) at')))
      (index_tuples fsd.width fsd.depth) (populate_dirs worker_id fsd)
      (populate_dirs_lie worker_id fsd plain h) (index_tuples-Differ fsd.width fsd.depth)
  where
    rooted : Bool
    rooted = (parse fsd.anchor).rooted

    base : List Text
    base = (parse fsd.anchor).stack

-- The directories of a worker are pairwise distinct, if its ID has no slash in it and the anchor is
-- not empty.
pub populate_dirs_distinct :
    (worker_id : Text) (fsd : Fsd)
    → Lacks slash worker_id
    → fsd.anchor ≢ []
    → Pairwise (λ dir dir'. dir ≢ dir') (populate_dirs worker_id fsd)
populate_dirs_distinct worker_id fsd plain h =
    Pairwise-imp (λ dir dir'. (parse dir).stack ≢ (parse dir').stack) (λ dir dir'. dir ≢ dir')
      (populate_dirs worker_id fsd)
      (λ dir dir' apart e. apart (ap (λ (d : Text). (parse d).stack) e))
      (populate_dirs_apart worker_id fsd plain h)

-- Workers with different IDs, without a slash in them, share no directory, if the depth is at least
-- 1 and the anchor is not empty.
pub populate_dirs_disjoint :
    (worker_id other : Text) (fsd : Fsd)
    → Lacks slash worker_id
    → Lacks slash other
    → worker_id ≢ other
    → fsd.anchor ≢ []
    → 1 ≤ fsd.depth
    → Across (λ dir dir'. dir ≢ dir') (populate_dirs worker_id fsd) (populate_dirs other fsd)
populate_dirs_disjoint worker_id other fsd plain plain' ne h deep =
    All₂-All (LiesAt worker_id 0 rooted base) (λ is. length is ≡ fsd.depth)
      (λ dir. All (λ dir'. dir ≢ dir') (populate_dirs other fsd))
      (λ is dir at l.
        All₂-All (LiesAt other 0 rooted base) (λ js. length js ≡ fsd.depth) (λ dir'. dir ≢ dir')
          (λ js dir' at' l' e. ne (
            elements_worker worker_id other is js base base (omega arith) (omega arith)
              (ap (λ (q : Parsed). q.stack) (sym at ∙ ap parse e ∙ at'))))
          (index_tuples fsd.width fsd.depth) (populate_dirs other fsd)
          (populate_dirs_lie other fsd plain' h) (index_tuples-length fsd.width fsd.depth))
      (index_tuples fsd.width fsd.depth) (populate_dirs worker_id fsd)
      (populate_dirs_lie worker_id fsd plain h) (index_tuples-length fsd.width fsd.depth)
  where
    rooted : Bool
    rooted = (parse fsd.anchor).rooted

    base : List Text
    base = (parse fsd.anchor).stack
