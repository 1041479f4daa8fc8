-- ===== src/Prelude/Lists.antt =====
-- Lists measured by native numbers, predicates on their elements, and repetition.
use Prim.Native.Nat.{ℕ, zero, suc, ◌+◌}
use mathlib.Core.Path.{◌≡◌, refl, ap}
use mathlib.Core.List.{List, [], ◌∷◌, ◌++◌, map}
use mathlib.Core.Option.{Option, none, some}
use native.Mathlib.Omega.{arith}

module _ {ℓ} {A : Type ℓ} where
  abbrev pub length : List A → ℕ
  length [] = 0
  length (x ∷ xs) = suc (length xs)

  abbrev pub replicate : ℕ → A → List A
  replicate zero a = []
  replicate (suc n) a = a ∷ replicate n a

  abbrev pub get_elem? : List A → ℕ → Option A
  get_elem? [] i = none
  get_elem? (x ∷ xs) zero = some x
  get_elem? (x ∷ xs) (suc i) = get_elem? xs i

  abbrev pub take : ℕ → List A → List A
  take zero xs = []
  take (suc n) [] = []
  take (suc n) (x ∷ xs) = x ∷ take n xs

  -- A write out of bounds changes nothing.
  abbrev pub set : List A → ℕ → A → List A
  set [] i v = []
  set (x ∷ xs) zero v = v ∷ xs
  set (x ∷ xs) (suc i) v = x ∷ set xs i v

  pub length-append : (xs ys : List A) → length (xs ++ ys) ≡ length xs + length ys
  length-append [] ys = omega arith
  length-append (x ∷ xs) ys = omega (arith, length-append xs ys)

  pub length-replicate : (n : ℕ) (a : A) → length (replicate n a) ≡ n
  length-replicate zero a = refl
  length-replicate (suc n) a = ap suc (length-replicate n a)

  pub length-set : (xs : List A) (i : ℕ) (v : A) → length (set xs i v) ≡ length xs
  length-set [] i v = refl
  length-set (x ∷ xs) zero v = refl
  length-set (x ∷ xs) (suc i) v = ap suc (length-set xs i v)

module _ {ℓ κ} {A : Type ℓ} {B : Type κ} where
  pub length-map : (f : A → B) (xs : List A) → length (map f xs) ≡ length xs
  length-map f [] = refl
  length-map f (x ∷ xs) = ap suc (length-map f xs)

module _ {ℓ κ} {A : Type ℓ} where
  -- Every element satisfies `P`; it computes to a tuple.
  abbrev pub All : (A → Type κ) → List A → Type κ
  All P [] = Unit
  All P (x ∷ xs) = P x × All P xs

  pub All-append : (P : A → Type κ) (xs ys : List A) → All P xs → All P ys → All P (xs ++ ys)
  All-append P [] ys hx hy = hy
  All-append P (x ∷ xs) ys (h, hx) hy = (h, All-append P xs ys hx hy)

module _ {ℓ κ} {A : Type ℓ} {B : Type κ} where
  -- The lists have one length, and `R` relates their elements place by place.
  abbrev pub All₂ : (A → B → Type 0) → List A → List B → Type 0
  All₂ R [] [] = Unit
  All₂ R [] (y ∷ ys) = ⊥
  All₂ R (x ∷ xs) [] = ⊥
  All₂ R (x ∷ xs) (y ∷ ys) = R x y × All₂ R xs ys

module _ {ℓ} {A : Type ℓ} where
  -- Every two elements, in the order of the list, are related.
  abbrev pub Pairwise : (A → A → Type ℓ) → List A → Type ℓ
  Pairwise R [] = Unit
  Pairwise R (x ∷ xs) = All (R x) xs × Pairwise R xs

  -- Every element of the first list is related to every element of the second.
  abbrev pub Across {κ} : {B : Type κ} → (A → B → Type ℓ) → List A → List B → Type ℓ
  Across R xs ys = All (λ x. All (R x) ys) xs

  pub Pairwise-append :
      (R : A → A → Type ℓ) (xs ys : List A)
      → Pairwise R xs
      → Pairwise R ys
      → Across R xs ys
      → Pairwise R (xs ++ ys)
  Pairwise-append R [] ys hx hy c = hy
  Pairwise-append R (x ∷ xs) ys (h, hx) hy (c, cs) =
      (All-append (R x) xs ys h c, Pairwise-append R xs ys hx hy cs)

  pub All-map {κ} :
      {B : Type κ} (P : B → Type ℓ) (f : A → B) (xs : List A)
      → All (λ x. P (f x)) xs
      → All P (map f xs)
  All-map P f [] h = tt
  All-map P f (x ∷ xs) (h, hs) = (h, All-map P f xs hs)

  pub All-of_forall : (P : A → Type ℓ) (xs : List A) → ((x : A) → P x) → All P xs
  All-of_forall P [] h = tt
  All-of_forall P (x ∷ xs) h = (h x, All-of_forall P xs h)

  pub All-imp : (P Q : A → Type ℓ) (xs : List A) → ((x : A) → P x → Q x) → All P xs → All Q xs
  All-imp P Q [] f h = tt
  All-imp P Q (x ∷ xs) f (h, hs) = (f x h, All-imp P Q xs f hs)

module _ {A B : Type 0} (R : A → B → Type 0) where
  pub All₂-append :
      (xs : List A) (ys : List B) (xs' : List A) (ys' : List B)
      → All₂ R xs ys
      → All₂ R xs' ys'
      → All₂ R (xs ++ xs') (ys ++ ys')
  All₂-append [] [] xs' ys' h k = k
  All₂-append [] (y ∷ ys) xs' ys' h k = absurd h
  All₂-append (x ∷ xs) [] xs' ys' h k = absurd h
  All₂-append (x ∷ xs) (y ∷ ys) xs' ys' (h, hs) k = (h, All₂-append xs ys xs' ys' hs k)

  pub All₂-map :
      {C : Type 0} (f : C → A) (xs : List C) (ys : List B)
      → All₂ (λ x y. R (f x) y) xs ys
      → All₂ R (map f xs) ys
  All₂-map f [] [] h = tt
  All₂-map f [] (y ∷ ys) h = absurd h
  All₂-map f (x ∷ xs) [] h = absurd h
  All₂-map f (x ∷ xs) (y ∷ ys) (h, hs) = (h, All₂-map f xs ys hs)

module _ {A B : Type 0} (R : A → B → Type 0) where
  pub All₂-All :
      (P : A → Type 0) (Q : B → Type 0)
      → ((x : A) (y : B) → R x y → P x → Q y)
      → (xs : List A) (ys : List B) → All₂ R xs ys
      → All P xs
      → All Q ys
  All₂-All P Q f [] [] h k = tt
  All₂-All P Q f [] (y ∷ ys) h k = absurd h
  All₂-All P Q f (x ∷ xs) [] h k = absurd h
  All₂-All P Q f (x ∷ xs) (y ∷ ys) (h, hs) (k, ks) = (f x y h k, All₂-All P Q f xs ys hs ks)

  pub All₂-Pairwise :
      (S : A → A → Type 0) (T : B → B → Type 0)
      → ((x x' : A) (y y' : B) → R x y → R x' y' → S x x' → T y y')
      → (xs : List A) (ys : List B) → All₂ R xs ys
      → Pairwise S xs
      → Pairwise T ys
  All₂-Pairwise S T f [] [] h k = tt
  All₂-Pairwise S T f [] (y ∷ ys) h k = absurd h
  All₂-Pairwise S T f (x ∷ xs) [] h k = absurd h
  All₂-Pairwise S T f (x ∷ xs) (y ∷ ys) (h, hs) (k, ks) = (
    All₂-All (S x) (T y) (λ x' y' h' k'. f x x' y y' h h' k') xs ys hs k,
    All₂-Pairwise S T f xs ys hs ks,
  )

module _ {A : Type 0} where
  pub Pairwise-map :
      {B : Type 0} (R : B → B → Type 0) (f : A → B) (xs : List A)
      → Pairwise (λ x y. R (f x) (f y)) xs
      → Pairwise R (map f xs)
  Pairwise-map R f [] h = tt
  Pairwise-map R f (x ∷ xs) (h, hs) = (All-map (R (f x)) f xs h, Pairwise-map R f xs hs)

  pub Pairwise-imp :
      (R S : A → A → Type 0) (xs : List A)
      → ((x y : A) → R x y → S x y)
      → Pairwise R xs
      → Pairwise S xs
  Pairwise-imp R S [] f h = tt
  Pairwise-imp R S (x ∷ xs) f (h, hs) = (All-imp (R x) (S x) xs (f x) h, Pairwise-imp R S xs f hs)

pub cons_tail {ℓ} : {A : Type ℓ} {x y : A} {xs ys : List A} → x ∷ xs ≡ y ∷ ys → xs ≡ ys
cons_tail e = cc

pub cons_head {ℓ} : {A : Type ℓ} {x y : A} {xs ys : List A} → x ∷ xs ≡ y ∷ ys → x ≡ y
cons_head e = cc
