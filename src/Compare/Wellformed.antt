-- ===== src/Compare/Wellformed.antt =====
-- The maps that cmd/compare/main.go fills have no key twice, at any level.
use fsbench.Prelude.{
  Bool, true, false, List, [], ◌∷◌, Option, some, text_eq, text_eq_iff, ◌==◌, ==_iff, find, put,
  find-put, or_empty, IsMap, IsRangeOf, All, none, if◌then◌else◌, Bool-cases, Option-cases, ◌≡◌,
  ◌↔◌, inl, inr, refl, sym, ap, subst, ◌∙◌,
}
use fsbench.Compare.{Row, ClientMap, WorkerMap, SizeMap, OpMap, add_row, index_rows}

some_inj : {A : Type 0} {a b : A} → some a ≡ some b → a ≡ b
some_inj e = cc

not_both : {A : Type 0} {a : A} (o : Option A) → o ≡ none → o ≡ some a → ⊥
not_both o e e' = cc

apart : {b : Bool} → b ≡ false → b ≡ true → ⊥
apart e h = cc

module _ {K V : Type 0} (same : K → K → Bool) where
  -- What holds of every value that a map has.
  abbrev pub Values : (V → Type 0) → List (K × V) → Type 0
  Values P m = (k : K) (v : V) → find same k m ≡ some v → P v

  -- A map whose values satisfy `P`.
  abbrev pub IsMapOf : (V → Type 0) → List (K × V) → Type 0
  IsMapOf P m = IsMap same m × Values P m

module _ {K V : Type 0} (same : K → K → Bool)
    (same_iff : (k j : K) → (same k j ≡ true) ↔ (k ≡ j)) where
  put-IsMap : (k : K) (v : V) (m : List (K × V)) → IsMap same m → IsMap same (put same k v m)
  unfolding put find
  put-IsMap k v [] h = (refl, tt)
  put-IsMap k v ((j, u) ∷ m) (h, hs) = elim (Bool-cases (same k j)) [
    | inl e ↦ simp e (h, hs)
    | inr e ↦ simp e (
      find-put same same_iff j k v m ∙ elim (Bool-cases (same j k)) [
        | inl f ↦ absurd (apart e ((same_iff k j).1 (sym ((same_iff j k).0 f))))
        | inr f ↦ simp f h
      ],
      put-IsMap k v m hs,
    )
  ]

  Values-put :
      (P : V → Type 0) (k : K) (v : V) (m : List (K × V))
      → P v
      → Values same P m
      → Values same P (put same k v m)
  Values-put P k v m hv h j u e = elim (Bool-cases (same j k)) [
    | inl f ↦
        subst P
          (some_inj (
            ap (λ b. if b then some v else find same j m) (sym f)
            ∙ sym (find-put same same_iff j k v m)
            ∙ e))
          hv
    | inr f ↦ h j u (
        ap (λ b. if b then some v else find same j m) (sym f)
        ∙ sym (find-put same same_iff j k v m)
        ∙ e)
  ]

-- The invariants of the maps, from the inner one to the outer one.
abbrev pub IsClientMap : {F : Type 0} → ClientMap F → Type 0
IsClientMap = IsMap ◌==◌

abbrev pub IsWorkerMap : {F : Type 0} → WorkerMap F → Type 0
IsWorkerMap = IsMapOf ◌==◌ IsClientMap

abbrev pub IsSizeMap : {F : Type 0} → SizeMap F → Type 0
IsSizeMap = IsMapOf ◌==◌ IsWorkerMap

abbrev pub IsOpMap : {F : Type 0} → OpMap F → Type 0
IsOpMap = IsMapOf text_eq IsSizeMap

module _ {K A : Type 0} (same : K → K → Bool) (same_iff : (k j : K) → (same k j ≡ true) ↔ (k ≡ j))
    (P : List A → Type 0) where
  pub or_empty_holds :
      (k : K) (m : List (K × List A)) → P [] → Values same P m → P (or_empty (find same k m))
  or_empty_holds k m none_holds h = elim (Option-cases (find same k m)) [
    | inl e ↦ subst (λ (o : Option (List A)). P (or_empty o)) (sym e) none_holds
    | inr (w, e) ↦ subst (λ (o : Option (List A)). P (or_empty o)) (sym e) (h k w e)
  ]

  keeps_map :
      (f : List A → List A) (k : K) (m : List (K × List A))
      → P []
      → ((w : List A) → P w → P (f w))
      → IsMapOf same P m
      → IsMapOf same P (put same k (f (or_empty (find same k m))) m)
  keeps_map f k m none_holds keeps (h, hs) = (
    put-IsMap same same_iff k (f (or_empty (find same k m))) m h,
    Values-put same same_iff P k (f (or_empty (find same k m))) m
        (keeps _ (or_empty_holds k m none_holds hs)) hs,
  )

pub none_map : {K V : Type 0} (same : K → K → Bool) (P : V → Type 0) → IsMapOf same P []
unfolding find
none_map same P = (tt, λ k v e. cc)

module _ {F : Type 0} where
  add_row-IsOpMap : (index : OpMap F) (r : Row F) → IsOpMap index → IsOpMap (add_row index r)
  unfolding add_row
  add_row-IsOpMap index r h =
      keeps_map text_eq text_eq_iff IsSizeMap _ r.op index (none_map ◌==◌ IsWorkerMap)
        (λ sizes.
          keeps_map ◌==◌ ==_iff IsWorkerMap _ r.object_kb_size sizes (none_map ◌==◌ IsClientMap)
            (λ workers.
              keeps_map ◌==◌ ==_iff IsClientMap _ r.workers workers tt
                (put-IsMap ◌==◌ ==_iff r.parallel_clients r)))
        h

  pub index_rows-IsOpMap :
      (index : OpMap F) (rs : List (Row F)) → IsOpMap index → IsOpMap (index_rows index rs)
  unfolding index_rows
  index_rows-IsOpMap index [] h = h
  index_rows-IsOpMap index (r ∷ rs) h =
      index_rows-IsOpMap (add_row index r) rs (add_row-IsOpMap index r h)

module _ {K V : Type 0} (same : K → K → Bool) (same_iff : (k j : K) → (same k j ≡ true) ↔ (k ≡ j))
    (P : V → Type 0) where
  All-of_Values : (m : List (K × V)) → IsMap same m → Values same P m → All (λ e. P (e.1)) m
  unfolding find
  All-of_Values [] h hv = tt
  All-of_Values ((k, v) ∷ m) (h, hs) hv = (
    hv k v (ap (λ b. if b then some v else find same k m) ((same_iff k k).1 refl)),
    All-of_Values m hs (λ j u e. hv j u (elim (Bool-cases (same j k)) [
      | inl f ↦
          absurd
            (not_both (find same k m) h (ap (λ x. find same x m) (sym ((same_iff j k).0 f)) ∙ e))
      | inr f ↦ simp f e
    ])),
  )

  -- A range over a map visits values of the map only.
  pub range-All :
      (m ranged : List (K × V))
      → IsRangeOf same m ranged
      → Values same P m
      → All (λ e. P (e.1)) ranged
  range-All m ranged (found, h) hv = All-of_Values ranged h (λ k v e. hv k v (sym (found k) ∙ e))
