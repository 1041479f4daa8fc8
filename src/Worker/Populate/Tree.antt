-- ===== src/Worker/Populate/Tree.antt =====
-- Where the directories lie: one below the anchor for each tuple of indices, no two alike.
use fsbench.Prelude.{
  All, All-append, ℕ, zero, suc, ◌+◌, Bool, subst, List, [], ◌∷◌, map, Text, All₂, All₂-append,
  All₂-map, ◌≡◌, ◌≢◌, refl,
}
use fsbench.Common.Types.{Fsd}
use fsbench.FilePath.{Parsed, parse, join, slash}
use fsbench.FilePath.Elements.{Lacks}
use fsbench.FilePath.Join.{parsed, parse-join, join-ne-nil}
use fsbench.Worker.Populate.{sub_dir, each_sub_dir, populate_level, populate_dirs}
use fsbench.Worker.Populate.Tuples.{each_index, index_tuples}
use fsbench.Worker.Populate.Names.{sub_dir-IsPlain}

-- The elements of a directory, the last one first, above those of `base`.
abbrev pub elements : Text → ℕ → List ℕ → List Text → List Text
elements worker_id depth [] base = base
elements worker_id depth (i ∷ is) base =
    elements worker_id (depth + 1) is (sub_dir worker_id depth i ∷ base)

abbrev pub LiesAt : Text → ℕ → Bool → List Text → List ℕ → Text → Type 0
LiesAt worker_id depth rooted base is dir =
    parse dir ≡ parsed rooted (elements worker_id depth is base)

module _ (worker_id : Text) (plain : Lacks slash worker_id) where
  each_sub_dir_lies :
      (level : Text → List Text) (tails : List (List ℕ)) (path : Text) (depth : ℕ)
      → path ≢ []
      → ((path' : Text)
          → path' ≢ []
          → All₂
              (LiesAt worker_id (depth + 1) (parse path').rooted (parse path').stack)
              tails
              (level path'))
      → (i rounds : ℕ)
      → All₂
          (LiesAt worker_id depth (parse path).rooted (parse path).stack)
          (each_index tails i rounds)
          (each_sub_dir level worker_id path depth i rounds)
  unfolding each_index each_sub_dir
  each_sub_dir_lies level tails path depth h below i zero = tt
  each_sub_dir_lies level tails path depth h below i (suc rounds) =
      let name = sub_dir worker_id depth i in
      let name_plain = sub_dir-IsPlain worker_id depth i plain in
      let p = join path name in
      All₂-append (LiesAt worker_id depth (parse path).rooted (parse path).stack)
        (map (λ is. i ∷ is) tails) (level p) (each_index tails (i + 1) rounds)
        (each_sub_dir level worker_id path depth (i + 1) rounds)
        (All₂-map (LiesAt worker_id depth (parse path).rooted (parse path).stack) (λ is. i ∷ is)
          tails (level p)
          (subst
            (λ (q : Parsed). All₂ (LiesAt worker_id (depth + 1) q.rooted q.stack) tails (level p))
            (parse-join path name h name_plain) (below p (join-ne-nil path name h name_plain))))
        (each_sub_dir_lies level tails path depth h below (i + 1) rounds)

  populate_level_lies :
      (width left depth : ℕ) (path : Text)
      → path ≢ []
      → All₂
          (LiesAt worker_id depth (parse path).rooted (parse path).stack)
          (index_tuples width left)
          (populate_level worker_id width left depth path)
  unfolding index_tuples populate_level
  populate_level_lies width zero depth path h = (refl, tt)
  populate_level_lies width (suc left) depth path h =
      each_sub_dir_lies (populate_level worker_id width left (depth + 1)) (index_tuples width left)
        path depth h (populate_level_lies width left (depth + 1)) 0 width

-- The directories of a worker, in order, are those with the elements of the anchor and below them
-- one name for each index of a tuple, over all tuples of `Depth` indices below `Width`; the
-- worker's ID must have no slash in it, and the anchor must not be empty.
pub populate_dirs_lie :
    (worker_id : Text) (fsd : Fsd)
    → Lacks slash worker_id
    → fsd.anchor ≢ []
    → All₂
        (LiesAt worker_id 0 (parse fsd.anchor).rooted (parse fsd.anchor).stack)
        (index_tuples fsd.width fsd.depth)
        (populate_dirs worker_id fsd)
unfolding populate_dirs
populate_dirs_lie worker_id fsd plain h =
    populate_level_lies worker_id plain fsd.width fsd.depth 0 fsd.anchor h

module _ (worker_id : Text) (plain : Lacks slash worker_id) where
  each_sub_dir-ne-nil :
      (level : Text → List Text) (path : Text) (depth : ℕ)
      → path ≢ []
      → ((path' : Text) → path' ≢ [] → All (λ dir. dir ≢ []) (level path'))
      → (i rounds : ℕ) → All (λ dir. dir ≢ []) (each_sub_dir level worker_id path depth i rounds)
  unfolding each_sub_dir
  each_sub_dir-ne-nil level path depth h below i zero = tt
  each_sub_dir-ne-nil level path depth h below i (suc rounds) =
      let name = sub_dir worker_id depth i in
      All-append (λ dir. dir ≢ []) (level (join path name))
        (each_sub_dir level worker_id path depth (i + 1) rounds)
        (below (join path name) (join-ne-nil path name h (sub_dir-IsPlain worker_id depth i plain)))
        (each_sub_dir-ne-nil level path depth h below (i + 1) rounds)

  pub populate_level-ne-nil :
      (width left depth : ℕ) (path : Text)
      → path ≢ []
      → All (λ dir. dir ≢ []) (populate_level worker_id width left depth path)
  unfolding populate_level
  populate_level-ne-nil width zero depth path h = (h, tt)
  populate_level-ne-nil width (suc left) depth path h =
      each_sub_dir-ne-nil (populate_level worker_id width left (depth + 1)) path depth h
        (populate_level-ne-nil width left (depth + 1)) 0 width

pub populate_dirs-ne-nil :
    (worker_id : Text) (fsd : Fsd)
    → Lacks slash worker_id
    → fsd.anchor ≢ []
    → All (λ dir. dir ≢ []) (populate_dirs worker_id fsd)
unfolding populate_dirs
populate_dirs-ne-nil worker_id fsd plain h =
    populate_level-ne-nil worker_id plain fsd.width fsd.depth 0 fsd.anchor h
