-- ===== src/Worker/Populate/Names.antt =====
-- The names of the sub-directories: each is plain, and it tells its index and its worker.
use mathlib.Core.List.{append_cancel_right}
use fsbench.Prelude.{
  ℕ, ◌≤◌, [], ◌∷◌, ◌++◌, append_assoc, Text, codes, All-append, All-imp, length, length-append, ◌≡◌,
  ◌≢◌, refl, sym, ap, ◌∙◌, arith, if◌then◌else◌, ◌==◌, Bool-cases, inl, inr,
}
use fsbench.FilePath.{slash, decimal}
use fsbench.FilePath.Elements.{Lacks, IsPlain}
use fsbench.FilePath.Decimal.{IsDigit, decimal-IsDigit, decimal-injective}
use fsbench.Worker.Populate.{sub_dir}

-- All but the last number of a name.
abbrev stem : ℕ → Text
stem depth = codes "fsb." ++ decimal depth

digits_lack : (x : ℕ) → x ≤ b'/' → (n : ℕ) → Lacks x (decimal n)
digits_lack x h n =
    All-imp IsDigit (λ c. c ≢ x) (decimal n) (λ c d. omega arith) (decimal-IsDigit n)

digits_lack_underscore : (n : ℕ) → Lacks b'_' (decimal n)
digits_lack_underscore n =
    All-imp IsDigit (λ c. c ≢ b'_') (decimal n) (λ c d. omega arith) (decimal-IsDigit n)

-- A name without the worker's ID.
abbrev bare : ℕ → ℕ → Text
bare depth i = codes "fsb." ++ (decimal depth ++ (codes "_" ++ decimal i))

bare-Lacks : (depth i : ℕ) → Lacks slash (bare depth i)
bare-Lacks depth i =
    All-append (λ c. c ≢ slash) (codes "fsb.") (decimal depth ++ (codes "_" ++ decimal i))
      (omega arith)
      (All-append (λ c. c ≢ slash) (decimal depth) (codes "_" ++ decimal i)
        (digits_lack slash (omega arith) depth) (omega arith, digits_lack slash (omega arith) i))

sub_dir_long : (worker_id : Text) (depth i : ℕ) → 4 ≤ length (sub_dir worker_id depth i)
unfolding sub_dir
sub_dir_long worker_id depth i = elim (Bool-cases (depth == 0)) [
  | inl first ↦ rw first (omega (arith, length-append worker_id (codes "." ++ bare depth i)))
  | inr below ↦ rw below (omega arith)
]

sub_dir-Lacks :
    (worker_id : Text) (depth i : ℕ)
    → Lacks slash worker_id
    → Lacks slash (sub_dir worker_id depth i)
unfolding sub_dir
sub_dir-Lacks worker_id depth i h = elim (Bool-cases (depth == 0)) [
  | inl first ↦ rw first (
      All-append (λ c. c ≢ slash) worker_id (codes "." ++ bare depth i) h
        (omega arith, bare-Lacks depth i))
  | inr below ↦ rw below (bare-Lacks depth i)
]

pub sub_dir-IsPlain :
    (worker_id : Text) (depth i : ℕ) → Lacks slash worker_id → IsPlain (sub_dir worker_id depth i)
sub_dir-IsPlain worker_id depth i h = record {
  no_slash = sub_dir-Lacks worker_id depth i h;
  not_empty = λ e. absurd (omega (arith, sub_dir_long worker_id depth i, ap length e));
  not_dot = λ e. absurd (omega (arith, sub_dir_long worker_id depth i, ap length e));
  not_dot_dot = λ e. absurd (omega (arith, sub_dir_long worker_id depth i, ap length e));
}

not_inside : (u y v : Text) → Lacks b'_' u → u ≢ y ++ b'_' ∷ v
not_inside [] [] v h e = cc
not_inside [] (d ∷ y) v h e = cc
not_inside (c ∷ u) [] v (h, hs) e = h (ground arith)
not_inside (c ∷ u) (d ∷ y) v (h, hs) e = not_inside u y v hs (ground arith)

-- A text is cut in one way at its last underscore.
last_cut :
    (x y u v : Text)
    → Lacks b'_' u
    → Lacks b'_' v
    → x ++ b'_' ∷ u ≡ y ++ b'_' ∷ v
    → (x ≡ y) × (u ≡ v)
last_cut [] [] u v hu hv e = (refl, ground arith)
last_cut [] (d ∷ y) u v hu hv e = absurd (not_inside u y v hu (ground arith))
last_cut (c ∷ x) [] u v hu hv e = absurd (not_inside v x u hv (ground arith))
last_cut (c ∷ x) (d ∷ y) u v hu hv e =
    let (ex, eu) = last_cut x y u v hu hv (ground arith) in (ground arith, eu)

-- What stands before the last underscore.
front : Text → ℕ → Text
front worker_id depth = if depth == 0 then worker_id ++ (codes "." ++ stem depth) else stem depth

sub_dir-front :
    (worker_id : Text) (depth i : ℕ)
    → sub_dir worker_id depth i ≡ front worker_id depth ++ b'_' ∷ decimal i
unfolding sub_dir front
sub_dir-front worker_id depth i = elim (Bool-cases (depth == 0)) [
  | inl first ↦ rw first (
      ap (λ (t : Text). worker_id ++ (codes "." ++ t))
        (sym (append_assoc (codes "fsb.") (decimal depth) (b'_' ∷ decimal i)))
      ∙ sym (append_assoc worker_id (codes "." ++ stem depth) (b'_' ∷ decimal i)))
  | inr below ↦ rw below (sym (append_assoc (codes "fsb.") (decimal depth) (b'_' ∷ decimal i)))
]

module _ (worker_id other : Text) (depth i j : ℕ) where
  same_cut :
      sub_dir worker_id depth i ≡ sub_dir other depth j
      → (front worker_id depth ≡ front other depth) × (decimal i ≡ decimal j)
  same_cut e =
      last_cut (front worker_id depth) (front other depth) (decimal i) (decimal j)
        (digits_lack_underscore i) (digits_lack_underscore j)
        (sym (sub_dir-front worker_id depth i) ∙ e ∙ sub_dir-front other depth j)

  -- The last number of a name is its index.
  pub sub_dir-index : sub_dir worker_id depth i ≡ sub_dir other depth j → i ≡ j
  sub_dir-index e = decimal-injective i j (same_cut e).1

-- On the first level the name tells the worker.
pub sub_dir-worker :
    (worker_id other : Text) (i j : ℕ)
    → sub_dir worker_id 0 i ≡ sub_dir other 0 j
    → worker_id ≡ other
sub_dir-worker worker_id other i j e =
    append_cancel_right worker_id other (codes "." ++ stem 0)
      (unfold front in (same_cut worker_id other 0 i j e).0)
