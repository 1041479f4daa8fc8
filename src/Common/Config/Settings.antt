-- ===== src/Common/Config/Settings.antt =====
-- What the tests of `checkTestCase` ask of a configuration.
use fsbench.Prelude.{
  false, ◌&&◌, List, [], ◌∷◌, Option, none, some, Text, codes, text_eq_iff, ◌≡◌, ◌≢◌, ◌⊎◌, inl, inr,
  refl, arith,
}
use fsbench.Common.Types.{TestCaseConfiguration, GlobalConfiguration, Fsd, Fwd}
use fsbench.Common.Config.{is_empty, is_nil, bad_payload}

abbrev pub IsGenerator : Text → Type 0
IsGenerator p = (p ≡ []) ⊎ ((p ≡ codes "random") ⊎ (p ≡ codes "empty"))

-- Each setting comes from the test or from the global configuration.
abbrev pub HasSettings : Option GlobalConfiguration → Option Fsd → Option Fwd → Type 0
HasSettings (some g) (some d) (some w) =
    ((g.anchor ≢ []) ⊎ (d.anchor ≢ []))
    × ((g.direct_io ≢ none) ⊎ (d.direct_io ≢ none))
    × ((g.operations ≢ []) ⊎ (w.operations ≢ []))
    × ((g.threads ≢ []) ⊎ (w.threads ≢ []))
HasSettings none _ _ = ⊥
HasSettings (some g) none _ = ⊥
HasSettings (some g) (some d) none = ⊥

-- A test that the check has nothing against.
abbrev pub IsAcceptable : Option GlobalConfiguration → Option TestCaseConfiguration → Type 0
IsAcceptable g none = ⊥
IsAcceptable g (some t) = IsGenerator t.payload_generator × HasSettings g t.fsd t.fwd

pub some_not_empty {ℓ} :
    {A : Type ℓ} (a b : List A) → (is_empty a && is_empty b) ≡ false → (a ≢ []) ⊎ (b ≢ [])
unfolding is_empty
some_not_empty [] [] h = cc
some_not_empty [] (x ∷ xs) h = inr (λ e. cc)
some_not_empty (x ∷ xs) b h = inl (λ e. cc)

pub not_both_empty {ℓ} :
    {A : Type ℓ} (a b : List A) → (a ≢ []) ⊎ (b ≢ []) → (is_empty a && is_empty b) ≡ false
unfolding is_empty
not_both_empty [] [] (inl h) = absurd (h refl)
not_both_empty [] [] (inr h) = absurd (h refl)
not_both_empty [] (x ∷ xs) h = refl
not_both_empty (x ∷ xs) b h = refl

pub some_not_nil {ℓ} :
    {A : Type ℓ} (a b : Option A) → (is_nil a && is_nil b) ≡ false → (a ≢ none) ⊎ (b ≢ none)
unfolding is_nil
some_not_nil none none h = cc
some_not_nil none (some x) h = inr (λ e. cc)
some_not_nil (some x) b h = inl (λ e. cc)

pub not_both_nil {ℓ} :
    {A : Type ℓ} (a b : Option A) → (a ≢ none) ⊎ (b ≢ none) → (is_nil a && is_nil b) ≡ false
unfolding is_nil
not_both_nil none none (inl h) = absurd (h refl)
not_both_nil none none (inr h) = absurd (h refl)
not_both_nil none (some x) h = refl
not_both_nil (some x) b h = refl

pub IsGenerator-of_payload : (p : Text) → bad_payload p ≡ false → IsGenerator p
unfolding bad_payload
IsGenerator-of_payload p h =
    ground (arith, text_eq_iff p [], text_eq_iff p (codes "random"), text_eq_iff p (codes "empty"))

pub payload_of_generator : (p : Text) → IsGenerator p → bad_payload p ≡ false
unfolding bad_payload
payload_of_generator p h =
    ground (arith, text_eq_iff p [], text_eq_iff p (codes "random"), text_eq_iff p (codes "empty"))
