-- ===== src/Prelude/Maps.antt =====
-- Go maps as lists of entries: what `m[k]` and `m[k] = v` do, and the ways to range over a map.
use mathlib.Core.Path.{◌≡◌, refl, sym, ap, ◌∙◌}
use mathlib.Core.Logic.{◌↔◌, inl, inr}
use mathlib.Core.Bool.{Bool, true, false, ◌&&◌}
use mathlib.Core.Option.{Option, none, some}
use mathlib.Core.List.{List, [], ◌∷◌}
use fsbench.Prelude.Tests.{if◌then◌else◌, Bool-cases}

abbrev pub is_some {ℓ} : {A : Type ℓ} → Option A → Bool
is_some none = false
is_some (some a) = true

-- A map that is nil reads as an empty one.
abbrev pub or_empty {ℓ} : {A : Type ℓ} → Option (List A) → List A
or_empty none = []
or_empty (some m) = m

module _ {K V : Type 0} (same : K → K → Bool) where
  unfoldable pub find : K → List (K × V) → Option V
  find k [] = none
  find k ((j, v) ∷ m) = if same k j then some v else find k m

  -- An entry that is there keeps its place.
  unfoldable pub put : K → V → List (K × V) → List (K × V)
  put k v [] = (k, v) ∷ []
  put k v ((j, u) ∷ m) = let rest = put k v m in if same k j then (j, v) ∷ m else (j, u) ∷ rest

  -- No key comes twice.
  abbrev pub IsMap : List (K × V) → Type 0
  IsMap [] = Unit
  IsMap ((k, v) ∷ m) = (find k m ≡ none) × IsMap m

  -- `range m` may visit the entries in any order, each of them once.
  abbrev pub IsRangeOf : List (K × V) → List (K × V) → Type 0
  IsRangeOf m ranged = ((k : K) → find k ranged ≡ find k m) × IsMap ranged

apart : {b : Bool} → b ≡ false → b ≡ true → ⊥
apart e h = cc

module _ {K V : Type 0} (same : K → K → Bool)
    (same_iff : (k j : K) → (same k j ≡ true) ↔ (k ≡ j)) where
  pub find-put :
      (k j : K) (v : V) (m : List (K × V))
      → find same k (put same j v m) ≡ (if same k j then some v else find same k m)
  unfolding find put
  find-put k j v [] = refl
  find-put k j v ((i, u) ∷ m) = elim (Bool-cases (same j i)) [
    | inl e ↦
        let keys = ap (same k) ((same_iff j i).0 e) in
        elim (Bool-cases (same k i)) [
          | inl h ↦ let h' = keys ∙ h in simp (e, h, h') refl
          | inr h ↦ let h' = keys ∙ h in simp (e, h, h') refl
        ]
    | inr e ↦ elim (Bool-cases (same k i)) [
      | inl h ↦ elim (Bool-cases (same k j)) [
        | inl g ↦
            absurd (apart e ((same_iff j i).1 (sym ((same_iff k j).0 g) ∙ (same_iff k i).0 h)))
        | inr g ↦ simp (e, h, g) refl
      ]
      | inr h ↦ simp (e, h) (find-put k j v m)
    ]
  ]

-- What a lookup `h` finds below one level of nested maps, once `f` has written below it.
pub nested_put :
    {K A C : Type 0} (same : K → K → Bool)
    → ((k j : K) → (same k j ≡ true) ↔ (k ≡ j))
    → (k j : K) (m : List (K × List A)) (h : List A → Option C) (f : List A → List A) (b : Bool)
      (x : C)
    → ((w : List A) → h (f w) ≡ (if b then some x else h w))
    → h (or_empty (find same k (put same j (f (or_empty (find same j m))) m)))
      ≡ (if same k j && b then some x else h (or_empty (find same k m)))
nested_put same same_iff k j m h f b x below = elim (Bool-cases (same k j)) [
  | inl e ↦
      let there = find-put same same_iff k j (f (or_empty (find same j m))) m in
      let keys = (same_iff k j).0 e in rw (there, e, keys) (below (or_empty (find same j m)))
  | inr e ↦
      let there = find-put same same_iff k j (f (or_empty (find same j m))) m in rw (there, e) refl
]
