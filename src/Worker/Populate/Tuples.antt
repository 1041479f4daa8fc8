-- ===== src/Worker/Populate/Tuples.antt =====
-- The index tuples that number the leaves of a tree of one width.
use fsbench.Prelude.{
  ℕ, zero, suc, ◌+◌, ◌≤◌, List, [], ◌∷◌, ◌++◌, map, All, All-map, All-append, All-imp, Pairwise,
  Pairwise-map, Pairwise-imp, Pairwise-append, length, ◌≡◌, ◌≢◌, refl, ap, arith,
}

-- The tuples of `left` indices below `width`, in lexicographic order.
unfoldable pub each_index : List (List ℕ) → ℕ → ℕ → List (List ℕ)
each_index tails i zero = []
each_index tails i (suc rounds) = map (λ is. i ∷ is) tails ++ each_index tails (i + 1) rounds

unfoldable pub index_tuples : ℕ → ℕ → List (List ℕ)
unfolding each_index
index_tuples width zero = [] ∷ []
index_tuples width (suc left) = each_index (index_tuples width left) 0 width

-- A tuple of `k + 1` indices of which the first is at least `i`.
abbrev StartsFrom : ℕ → ℕ → List ℕ → Type 0
StartsFrom i k [] = ⊥
StartsFrom i k (j ∷ js) = (i ≤ j) × (length js ≡ k)

StartsFrom-le : (i j k : ℕ) (is : List ℕ) → i ≤ j → StartsFrom j k is → StartsFrom i k is
StartsFrom-le i j k [] h s = absurd s
StartsFrom-le i j k (l ∷ is) h s = omega arith

each_index_starts :
    (k : ℕ) (tails : List (List ℕ))
    → All (λ is. length is ≡ k) tails
    → (i rounds : ℕ) → All (StartsFrom i k) (each_index tails i rounds)
unfolding each_index
each_index_starts k tails h i zero = tt
each_index_starts k tails h i (suc rounds) =
    All-append (StartsFrom i k) (map (λ is. i ∷ is) tails) (each_index tails (i + 1) rounds)
      (All-map (StartsFrom i k) (λ is. i ∷ is) tails
        (All-imp (λ is. length is ≡ k) (λ is. StartsFrom i k (i ∷ is)) tails (λ is e. omega arith)
          h))
      (All-imp (StartsFrom (i + 1) k) (StartsFrom i k) (each_index tails (i + 1) rounds)
        (λ is. StartsFrom-le i (i + 1) k is (omega arith))
        (each_index_starts k tails h (i + 1) rounds))

length_of_starts : (i k : ℕ) (is : List ℕ) → StartsFrom i k is → length is ≡ suc k
length_of_starts i k [] h = absurd h
length_of_starts i k (j ∷ js) h = omega arith

pub index_tuples-length : (width left : ℕ) → All (λ is. length is ≡ left) (index_tuples width left)
unfolding index_tuples
index_tuples-length width zero = (refl, tt)
index_tuples-length width (suc left) =
    All-imp (StartsFrom 0 left) (λ is. length is ≡ suc left)
      (each_index (index_tuples width left) 0 width) (length_of_starts 0 left)
      (each_index_starts left (index_tuples width left) (index_tuples-length width left) 0 width)

-- Two tuples of one length that differ.
abbrev pub Differ : List ℕ → List ℕ → Type 0
Differ is js = (length is ≡ length js) × (is ≢ js)

Differ-cons : (i : ℕ) (is js : List ℕ) → Differ is js → Differ (i ∷ is) (i ∷ js)
Differ-cons i is js (l, d) = (ap suc l, λ e. d (ground arith))

starts-Differ :
    (i k : ℕ) (is js : List ℕ) → length is ≡ k → StartsFrom (i + 1) k js → Differ (i ∷ is) js
starts-Differ i k is [] e s = absurd s
starts-Differ i k is (j ∷ js) e s = (omega arith, λ h. ground arith)

each_index-Differ :
    (k : ℕ) (tails : List (List ℕ))
    → All (λ is. length is ≡ k) tails
    → Pairwise Differ tails
    → (i rounds : ℕ) → Pairwise Differ (each_index tails i rounds)
unfolding each_index
each_index-Differ k tails h d i zero = tt
each_index-Differ k tails h d i (suc rounds) =
    Pairwise-append Differ (map (λ is. i ∷ is) tails) (each_index tails (i + 1) rounds)
      (Pairwise-map Differ (λ is. i ∷ is) tails
        (Pairwise-imp Differ (λ is js. Differ (i ∷ is) (i ∷ js)) tails (Differ-cons i) d))
      (each_index-Differ k tails h d (i + 1) rounds)
      (All-map (λ is. All (Differ is) (each_index tails (i + 1) rounds)) (λ is. i ∷ is) tails
        (All-imp (λ is. length is ≡ k)
          (λ is. All (Differ (i ∷ is)) (each_index tails (i + 1) rounds)) tails
          (λ is e.
            All-imp (StartsFrom (i + 1) k) (Differ (i ∷ is)) (each_index tails (i + 1) rounds)
              (λ js s. starts-Differ i k is js e s) (each_index_starts k tails h (i + 1) rounds))
          h))

-- All tuples have one length, and no two are alike.
pub index_tuples-Differ : (width left : ℕ) → Pairwise Differ (index_tuples width left)
unfolding index_tuples
index_tuples-Differ width zero = (tt, tt)
index_tuples-Differ width (suc left) =
    each_index-Differ left (index_tuples width left) (index_tuples-length width left)
      (index_tuples-Differ width left) 0 width
