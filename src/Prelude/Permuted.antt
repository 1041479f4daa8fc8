-- ===== src/Prelude/Permuted.antt =====
-- What a rearrangement of a list keeps.
use mathlib.Core.Path.{◌≡◌, subst}
use mathlib.Core.List.{List, Permᴰ}
use fsbench.Prelude.Lists.{All, Pairwise}

module _ {A : Type 0} where
  pub All-permuted : (P : A → Type 0) {xs ys : List A} → Permᴰ xs ys → All P xs → All P ys
  All-permuted P Permᴰ.nil h = tt
  All-permuted P (Permᴰ.cons e d) (h, hs) = (subst P e h, All-permuted P d hs)
  All-permuted P (Permᴰ.swap e e') (h, (h', hs)) = (subst P e' h', (subst P e h, hs))
  All-permuted P (Permᴰ.trans d d') h = All-permuted P d' (All-permuted P d h)

  module _ (R : A → A → Type 0) (symmetric : (x y : A) → R x y → R y x) where
    subst_both : {x x' y y' : A} → x ≡ x' → y ≡ y' → R x y → R x' y'
    subst_both {x} {x'} {y} {y'} e f r = subst (λ z. R z y') e (subst (R x) f r)

    pub Pairwise-permuted : {xs ys : List A} → Permᴰ xs ys → Pairwise R xs → Pairwise R ys
    Pairwise-permuted Permᴰ.nil h = tt
    Pairwise-permuted (Permᴰ.cons {b = b} {l₁ = l₁} e d) (h, hs) =
        (All-permuted (R b) d (subst (λ x. All (R x) l₁) e h), Pairwise-permuted d hs)
    Pairwise-permuted (Permᴰ.swap {a = a} {b = b} {l = l} e e') ((r, h), (h', hs)) = (
      (subst_both e' e (symmetric a b r), subst (λ x. All (R x) l) e' h'),
      (subst (λ x. All (R x) l) e h, hs),
    )
    Pairwise-permuted (Permᴰ.trans d d') h = Pairwise-permuted d' (Pairwise-permuted d h)
