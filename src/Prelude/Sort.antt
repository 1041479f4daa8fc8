-- ===== src/Prelude/Sort.antt =====
-- `sort.Slice` of numbers by `<`, as an insertion sort, and why an ascending list of given members is
-- the only one.
use Prim.Native.Nat.{ℕ, ◌<◌, ◌≤◌}
use mathlib.Core.Path.{◌≡◌, refl, sym, subst, ap, ap₂, ◌∙◌}
use mathlib.Core.Bool.{Bool, true, false, ◌||◌}
use mathlib.Core.List.{List, [], ◌∷◌}
use native.Mathlib.Omega.{arith}
use fsbench.Prelude.Tests.{if◌then◌else◌, ltb, ◌==◌}
use fsbench.Prelude.Lists.{All, Pairwise, All-imp}

unfoldable pub insert_number : ℕ → List ℕ → List ℕ
insert_number k [] = k ∷ []
insert_number k (x ∷ xs) = let rest = insert_number k xs in if ltb k x then k ∷ x ∷ xs else x ∷ rest

unfoldable pub sort_numbers : List ℕ → List ℕ
unfolding insert_number
sort_numbers [] = []
sort_numbers (x ∷ xs) = insert_number x (sort_numbers xs)

unfoldable pub contains : ℕ → List ℕ → Bool
contains k [] = false
contains k (x ∷ xs) = (k == x) || contains k xs

-- No number comes twice.
abbrev pub IsOnce : List ℕ → Type 0
IsOnce [] = Unit
IsOnce (x ∷ xs) = (contains x xs ≡ false) × IsOnce xs

abbrev pub IsAscending : List ℕ → Type 0
IsAscending = Pairwise ◌<◌

contains-insert_number :
    (k j : ℕ) (xs : List ℕ) → contains k (insert_number j xs) ≡ ((k == j) || contains k xs)
unfolding contains insert_number
contains-insert_number k j [] = refl
contains-insert_number k j (x ∷ xs) = ground (arith, contains-insert_number k j xs)

pub contains-sort_numbers : (k : ℕ) (xs : List ℕ) → contains k (sort_numbers xs) ≡ contains k xs
unfolding contains sort_numbers
contains-sort_numbers k [] = refl
contains-sort_numbers k (x ∷ xs) =
    contains-insert_number k x (sort_numbers xs)
    ∙ ap (λ (b : Bool). (k == x) || b) (contains-sort_numbers k xs)

All-insert_number :
    (y k : ℕ) (xs : List ℕ) → y < k → All (◌<◌ y) xs → All (◌<◌ y) (insert_number k xs)
unfolding insert_number
All-insert_number y k [] h hs = (h, tt)
All-insert_number y k (x ∷ xs) h (h', hs) = ground (arith, All-insert_number y k xs h hs)

insert_number-IsAscending :
    (k : ℕ) (xs : List ℕ)
    → contains k xs ≡ false
    → IsAscending xs
    → IsAscending (insert_number k xs)
unfolding insert_number contains
insert_number-IsAscending k [] h hs = (tt, tt)
insert_number-IsAscending k (x ∷ xs) h (below, hs) =
    let after = All-imp (◌<◌ x) (◌<◌ k) xs in
    ground (arith, insert_number-IsAscending k xs, All-insert_number x k xs, after)

pub sort_numbers-IsAscending : (xs : List ℕ) → IsOnce xs → IsAscending (sort_numbers xs)
unfolding sort_numbers
sort_numbers-IsAscending [] h = tt
sort_numbers-IsAscending (x ∷ xs) (h, hs) =
    insert_number-IsAscending x (sort_numbers xs) (contains-sort_numbers x xs ∙ h)
      (sort_numbers-IsAscending xs hs)

not_contains-below : (k : ℕ) (xs : List ℕ) → All (◌<◌ k) xs → contains k xs ≡ false
unfolding contains
not_contains-below k [] h = refl
not_contains-below k (x ∷ xs) (h, hs) = ground (arith, not_contains-below k xs hs)

-- An ascending list has its least member first.
head-le :
    (x : ℕ) (xs : List ℕ) (y : ℕ) (ys : List ℕ)
    → All (◌<◌ y) ys
    → contains x (x ∷ xs) ≡ contains x (y ∷ ys)
    → y ≤ x
unfolding contains
head-le x xs y ys below e =
    let after = All-imp (◌<◌ y) (◌<◌ x) ys in ground (arith, not_contains-below x ys, after)

same_tail :
    (x : ℕ) (xs ys : List ℕ)
    → All (◌<◌ x) xs
    → All (◌<◌ x) ys
    → ((k : ℕ) → contains k (x ∷ xs) ≡ contains k (x ∷ ys))
    → (k : ℕ) → contains k xs ≡ contains k ys
unfolding contains
same_tail x xs ys hx hy e k =
    let e' = e k in ground (arith, not_contains-below k xs, not_contains-below k ys, e')

antisymm : (x y : ℕ) → x ≤ y → y ≤ x → x ≡ y
antisymm x y h k = omega arith

pub ascending_unique :
    (xs ys : List ℕ)
    → IsAscending xs
    → IsAscending ys
    → ((k : ℕ) → contains k xs ≡ contains k ys)
    → xs ≡ ys
unfolding contains
ascending_unique [] [] hx hy e = refl
ascending_unique [] (y ∷ ys) hx hy e = let e' = e y in ground (arith, e')
ascending_unique (x ∷ xs) [] hx hy e = let e' = e x in ground (arith, e')
ascending_unique (x ∷ xs) (y ∷ ys) (bx, hx) (by, hy) e =
    let head = antisymm x y (head-le y ys x xs bx (sym (e y))) (head-le x xs y ys by (e x)) in
    let by' = subst (λ n. All (◌<◌ n) ys) (sym head) by in
    let e' = subst (λ n. (k : ℕ) → contains k (x ∷ xs) ≡ contains k (n ∷ ys)) (sym head) e in
    ap₂ ◌∷◌ head (ascending_unique xs ys hx hy (same_tail x xs ys bx by' e'))

pub All-of_contains {ℓ} :
    (P : ℕ → Type ℓ) (xs : List ℕ) → ((k : ℕ) → contains k xs ≡ true → P k) → All P xs
unfolding contains
All-of_contains P [] h = tt
All-of_contains P (x ∷ xs) h =
    (h x (ground arith), All-of_contains P xs (λ k c. h k (later k x xs c)))
  where
    later : (k x : ℕ) (xs : List ℕ) → contains k xs ≡ true → ((k == x) || contains k xs) ≡ true
    later k x xs c = ground arith
