-- ===== src/Compare/Choice.antt =====
-- Which clients of the second file cmd/compare/main.go sets beside those of a worker count.
use fsbench.Prelude.{
  ℕ, Bool, true, false, List, [], ◌∷◌, Option, none, some, ◌==◌, ==_iff, find, is_some, IsMap,
  IsRangeOf, if◌then◌else◌, Bool-cases, ◌≡◌, ◌⊎◌, inl, inr, refl, sym, ap, ◌∙◌, arith,
}
use fsbench.Compare.{choose_clients, first_map}

flip : (k i : ℕ) → (i == k) ≡ false → (k == i) ≡ false
flip k i h = ground arith

module _ {A : Type 0} where
  -- The map with the entry of a key first.
  abbrev without : ℕ → List (ℕ × A) → List (ℕ × A)
  without k [] = []
  without k ((j, v) ∷ m) = let rest = without k m in if k == j then rest else (j, v) ∷ rest

  find-without :
      (k i : ℕ) (m : List (ℕ × A))
      → find ◌==◌ i (without k m) ≡ (if k == i then none else find ◌==◌ i m)
  unfolding find
  find-without k i [] = ground arith
  find-without k i ((j, v) ∷ m) = ground (arith, find-without k i m)

  without-IsMap : (k : ℕ) (m : List (ℕ × A)) → IsMap ◌==◌ m → IsMap ◌==◌ (without k m)
  without-IsMap k [] h = tt
  without-IsMap k ((j, v) ∷ m) (h, hs) =
      let rest = find-without k j m in ground (arith, rest, without-IsMap k m hs)

  first_in_range :
      (k : ℕ) (v : A) (m : List (ℕ × A))
      → IsMap ◌==◌ m
      → find ◌==◌ k m ≡ some v
      → IsRangeOf ◌==◌ m ((k, v) ∷ without k m)
  unfolding find
  first_in_range k v m h e = (
    λ i. elim (Bool-cases (i == k)) [
      | inl f ↦ simp f (sym (ap (λ (x : ℕ). find ◌==◌ x m) ((==_iff i k).0 f) ∙ e))
      | inr f ↦ let rest = find-without k i m in let g = flip k i f in simp f (rw g at rest)
    ],
    (let rest = find-without k k m in ground (arith, rest), without-IsMap k m h),
  )

  choose_first :
      (ignore_mismatch : Bool) (w1 : ℕ) (m ranged : List (ℕ × A))
      → (is_some (find ◌==◌ w1 m) ≡ true) ⊎ (ignore_mismatch ≡ true)
      → choose_clients ignore_mismatch ranged w1 m ≡ first_map ranged (find ◌==◌ w1 m)
  unfolding choose_clients
  choose_first ignore_mismatch w1 m ranged (inl e) = simp e refl
  choose_first ignore_mismatch w1 m ranged (inr e) = elim (Bool-cases (is_some (find ◌==◌ w1 m))) [
    | inl f ↦ simp (e, f) refl
    | inr f ↦ simp (e, f) refl
  ]

  self : (k : ℕ) (u : A) (o : Option A) → (if k == k then some u else o) ≡ some u
  self k u o = ground arith

  first_map-entry :
      (w1 : ℕ) (m ranged : List (ℕ × A))
      → IsRangeOf ◌==◌ m ranged
      → (v : A) → first_map ranged (find ◌==◌ w1 m) ≡ some v
      → (k : ℕ) × (find ◌==◌ k m ≡ some v)
  unfolding first_map find
  first_map-entry w1 m [] h v e = (w1, e)
  first_map-entry w1 m ((k, u) ∷ ranged) (found, h) v e =
      (k, sym (found k) ∙ (self k u (find ◌==◌ k ranged) ∙ e))

  -- Where the code goes on with a worker count, the clients that it sets beside it are those of some
  -- worker count of the second file, and those of any worker count of that file are set beside it if
  -- the range over the map happens to begin there, even if the file has the worker count itself.
  pub choose_clients-any :
      (ignore_mismatch : Bool) (w1 : ℕ) (m : List (ℕ × A))
      → IsMap ◌==◌ m
      → (is_some (find ◌==◌ w1 m) ≡ true) ⊎ (ignore_mismatch ≡ true)
      → ((ranged : List (ℕ × A))
          → IsRangeOf ◌==◌ m ranged
          → (v : A) → choose_clients ignore_mismatch ranged w1 m ≡ some v
          → (k : ℕ) × (find ◌==◌ k m ≡ some v))
        × ((k : ℕ) (v : A)
            → find ◌==◌ k m ≡ some v
            → (ranged : List (ℕ × A)) × IsRangeOf ◌==◌ m ranged
              × (choose_clients ignore_mismatch ranged w1 m ≡ some v))
  unfolding first_map
  choose_clients-any ignore_mismatch w1 m h possible = (
    λ ranged hr v e.
        first_map-entry w1 m ranged hr v
          (sym (choose_first ignore_mismatch w1 m ranged possible) ∙ e),
    λ k v e. (
      (k, v) ∷ without k m,
      first_in_range k v m h e,
      choose_first ignore_mismatch w1 m ((k, v) ∷ without k m) possible,
    ),
  )
