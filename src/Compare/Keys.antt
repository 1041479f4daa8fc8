-- ===== src/Compare/Keys.antt =====
-- The sorted numbers that two maps of cmd/compare/main.go have both.
use fsbench.Prelude.{
  ℕ, Bool, ◌&&◌, List, [], ◌∷◌, Option, ◌==◌, ==_iff, find, is_some, contains, IsOnce, IsMap,
  IsRangeOf, IsAscending, sort_numbers-IsAscending, contains-sort_numbers, ascending_unique,
  Bool-cases, ◌≡◌, inl, inr, refl, sym, ap, ◌∙◌,
}
use fsbench.Compare.{shared_keys, sorted_keys}

module _ {A B : Type 0} where
  abbrev pub shares : List (ℕ × A) → List (ℕ × B) → ℕ → Bool
  shares m other k = is_some (find ◌==◌ k m) && is_some (find ◌==◌ k other)

  contains-shared_keys :
      (k : ℕ) (ranged : List (ℕ × A)) (other : List (ℕ × B))
      → IsMap ◌==◌ ranged
      → contains k (shared_keys ranged other) ≡ shares ranged other k
  unfolding contains shared_keys find
  contains-shared_keys k [] other h = refl
  contains-shared_keys k ((j, v) ∷ ranged) other (h, hs) =
      let rest = contains-shared_keys k ranged other hs in
      elim (Bool-cases (k == j)) [
        | inl e ↦
            let keys = (==_iff k j).0 e in
            let missing = ap (λ (x : ℕ). find ◌==◌ x ranged) keys ∙ h in
            let other_keys = ap (λ (x : ℕ). is_some (find ◌==◌ x other)) keys in
            elim (Bool-cases (is_some (find ◌==◌ j other))) [
              | inl f ↦ simp (f, e, other_keys) refl
              | inr f ↦
                  simp (f, e, other_keys)
                    (rest ∙ ap (λ (o : Option A). is_some o && is_some (find ◌==◌ k other)) missing)
            ]
        | inr e ↦ elim (Bool-cases (is_some (find ◌==◌ j other))) [
          | inl f ↦ simp (f, e) rest
          | inr f ↦ simp (f, e) rest
        ]
      ]

  shared_keys-IsOnce :
      (ranged : List (ℕ × A)) (other : List (ℕ × B))
      → IsMap ◌==◌ ranged
      → IsOnce (shared_keys ranged other)
  unfolding shared_keys
  shared_keys-IsOnce [] other h = tt
  shared_keys-IsOnce ((j, v) ∷ ranged) other (h, hs) =
      let rest = contains-shared_keys j ranged other hs in
      let missing = rest ∙ ap (λ (o : Option A). is_some o && is_some (find ◌==◌ j other)) h in
      elim (Bool-cases (is_some (find ◌==◌ j other))) [
        | inl f ↦ simp f (missing, shared_keys-IsOnce ranged other hs)
        | inr f ↦ simp f (shared_keys-IsOnce ranged other hs)
      ]

  contains-sorted_keys :
      (m ranged : List (ℕ × A)) (other : List (ℕ × B))
      → IsRangeOf ◌==◌ m ranged
      → (k : ℕ) → contains k (sorted_keys ranged other) ≡ shares m other k
  unfolding sorted_keys
  contains-sorted_keys m ranged other (found, h) k =
      contains-sort_numbers k (shared_keys ranged other)
      ∙ contains-shared_keys k ranged other h
      ∙ ap (λ (o : Option A). is_some o && is_some (find ◌==◌ k other)) (found k)

  sorted_keys-IsAscending :
      (ranged : List (ℕ × A)) (other : List (ℕ × B))
      → IsMap ◌==◌ ranged
      → IsAscending (sorted_keys ranged other)
  unfolding sorted_keys
  sorted_keys-IsAscending ranged other h =
      sort_numbers-IsAscending (shared_keys ranged other) (shared_keys-IsOnce ranged other h)

  -- Whichever order the first map is ranged in, the sorted keys are in ascending order, they are those
  -- that both maps have, and the order of the range does not change them.
  pub sorted_keys-common :
      (m ranged : List (ℕ × A)) (other : List (ℕ × B))
      → IsRangeOf ◌==◌ m ranged
      → IsAscending (sorted_keys ranged other)
        × ((k : ℕ) → contains k (sorted_keys ranged other) ≡ shares m other k)
        × ((ranged' : List (ℕ × A))
            → IsRangeOf ◌==◌ m ranged'
            → sorted_keys ranged' other ≡ sorted_keys ranged other)
  sorted_keys-common m ranged other (found, h) = (
    sorted_keys-IsAscending ranged other h,
    contains-sorted_keys m ranged other (found, h),
    λ ranged' (found', h').
        ascending_unique (sorted_keys ranged' other) (sorted_keys ranged other)
          (sorted_keys-IsAscending ranged' other h') (sorted_keys-IsAscending ranged other h)
          (λ k.
            contains-sorted_keys m ranged' other (found', h') k
            ∙ sym (contains-sorted_keys m ranged other (found, h) k)),
  )
