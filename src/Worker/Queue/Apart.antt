-- ===== src/Worker/Queue/Apart.antt =====
-- The files of items in different directories: no two works touch the same file.
use mathlib.Core.List.{append_cancel_left}
use fsbench.Prelude.{
  ℕ, zero, suc, ◌+◌, ◌≤◌, List, [], ◌∷◌, Text, codes, All, Pairwise, All-imp, All-append,
  Pairwise-append, Across, ◌≡◌, ◌≢◌, refl, sym, subst, cons_head, cons_tail, ap, ◌∙◌, arith,
}
use fsbench.Common.Types.{pos}
use fsbench.FilePath.{slash, decimal, parse, join, Parsed}
use fsbench.FilePath.Elements.{IsPlain}
use fsbench.FilePath.Join.{parse-join}
use fsbench.FilePath.Decimal.{IsDigit, decimal-IsDigit, decimal-injective}
use fsbench.Worker.Queue.{
  WorkItem, read, write, stat, delete, stopper, Work, file_name, file_works, queue_works,
}

-- The directory of an item; a stopper has none.
unfoldable pub directory_of : WorkItem → Text
directory_of (read b) = b.directory
directory_of (write b) = b.directory
directory_of (stat b) = b.directory
directory_of (delete b) = b.directory
directory_of stopper = []

-- The path that `Do` hands to the file system.
unfoldable pub target : Work → Text
target w = join (directory_of w.item) (file_name w.index)

file_name-IsPlain : (n : ℕ) → IsPlain (file_name (pos n))
unfolding file_name
file_name-IsPlain n = record {
  no_slash =
      All-append (λ c. c ≢ slash) (codes "bat.") (decimal n) (omega arith)
        (All-imp IsDigit (λ c. c ≢ slash) (decimal n) (λ c d. omega arith) (decimal-IsDigit n));
  not_empty = λ e. cc;
  not_dot = λ e. cc;
  not_dot_dot = λ e. cc;
}

file_name-injective : (m n : ℕ) → file_name (pos m) ≡ file_name (pos n) → m ≡ n
unfolding file_name
file_name-injective m n e =
    decimal-injective m n (append_cancel_left (codes "bat.") (decimal m) (decimal n) e)

-- A work on file `j` of the item, `j` being at least `i`.
abbrev pub IsFileFrom : WorkItem → ℕ → Work → Type 0
IsFileFrom item i w = (j : ℕ) × (w ≡ record { item = item; index = pos j }) × (i ≤ j)

pub file_works_from : (item : WorkItem) (i n : ℕ) → All (IsFileFrom item i) (file_works item i n)
unfolding file_works
file_works_from item i zero = tt
file_works_from item i (suc n) = (
  (i, refl, omega arith),
  All-imp (IsFileFrom item (i + 1)) (IsFileFrom item i) (file_works item (i + 1) n)
      (λ w f. (f.0, f.1, omega arith)) (file_works_from item (i + 1) n),
)

stack_of_target :
    (item : WorkItem) (j : ℕ)
    → directory_of item ≢ []
    → (parse (target (record { item = item; index = pos j }))).stack
      ≡ file_name (pos j) ∷ (parse (directory_of item)).stack
unfolding target
stack_of_target item j h =
    ap (λ (q : Parsed). q.stack)
      (parse-join (directory_of item) (file_name (pos j)) h (file_name-IsPlain j))

abbrev pub Apart : WorkItem → WorkItem → Type 0
Apart x y = (parse (directory_of x)).stack ≢ (parse (directory_of y)).stack

abbrev pub TouchApart : Work → Work → Type 0
TouchApart w w' = target w ≢ target w'

same_target :
    (x y : WorkItem) (i j : ℕ)
    → directory_of x ≢ []
    → directory_of y ≢ []
    → target (record { item = x; index = pos i }) ≡ target (record { item = y; index = pos j })
    → file_name (pos i) ∷ (parse (directory_of x)).stack
      ≡ file_name (pos j) ∷ (parse (directory_of y)).stack
same_target x y i j hx hy e =
    sym (stack_of_target x i hx) ∙ ap (λ (t : Text). (parse t).stack) e ∙ stack_of_target y j hy

other_file :
    (item : WorkItem) (i : ℕ)
    → directory_of item ≢ []
    → (w : Work) → IsFileFrom item (i + 1) w
    → TouchApart (record { item = item; index = pos i }) w
other_file item i h w (j, e, le) same =
    let equal = file_name-injective i j (
      cons_head (
        same_target item item i j h h (
          subst (λ (v : Work). target (record { item = item; index = pos i }) ≡ target v) e
            same))) in
    absurd (omega arith)

file_works_apart :
    (item : WorkItem) (i n : ℕ) → directory_of item ≢ [] → Pairwise TouchApart (file_works item i n)
unfolding file_works
file_works_apart item i zero h = tt
file_works_apart item i (suc n) h = (
  All-imp (IsFileFrom item (i + 1)) (TouchApart (record { item = item; index = pos i }))
      (file_works item (i + 1) n) (other_file item i h) (file_works_from item (i + 1) n),
  file_works_apart item (i + 1) n h,
)

abbrev pub HasDirectory : WorkItem → Type 0
HasDirectory item = directory_of item ≢ []

module _ (files : ℕ) where
  pub queue_works-All :
      (P : Work → Type 0) (items : List WorkItem)
      → All (λ y. All P (file_works y 0 files)) items
      → All P (queue_works items files)
  unfolding queue_works
  queue_works-All P [] h = tt
  queue_works-All P (y ∷ items) (h, hs) =
      All-append P (file_works y 0 files) (queue_works items files) h (queue_works-All P items hs)

  -- The files of items in different directories differ.
  other_item :
      (x y : WorkItem)
      → directory_of x ≢ []
      → directory_of y ≢ []
      → Apart x y
      → (w w' : Work) → IsFileFrom x 0 w
      → IsFileFrom y 0 w'
      → TouchApart w w'
  other_item x y hx hy apart w w' (i, e, _) (j, e', _) same =
      apart (cons_tail (same_target x y i j hx hy (ap target (sym e) ∙ same ∙ ap target e')))

  one-Apart :
      (x : WorkItem) (items : List WorkItem)
      → HasDirectory x
      → (w : Work) → IsFileFrom x 0 w
      → All HasDirectory items
      → All (Apart x) items
      → All (λ y. All (TouchApart w) (file_works y 0 files)) items
  one-Apart x [] hx w f hs apart = tt
  one-Apart x (y ∷ items) hx w f (hy, hs) (a, more) = (
    All-imp (IsFileFrom y 0) (TouchApart w) (file_works y 0 files)
        (λ w' f'. other_item x y hx hy a w w' f f') (file_works_from y 0 files),
    one-Apart x items hx w f hs more,
  )

  others-Apart :
      (x : WorkItem) (items : List WorkItem)
      → HasDirectory x
      → All HasDirectory items
      → All (Apart x) items
      → Across TouchApart (file_works x 0 files) (queue_works items files)
  others-Apart x items hx hs apart =
      All-imp (IsFileFrom x 0) (λ w. All (TouchApart w) (queue_works items files))
        (file_works x 0 files)
        (λ w f. queue_works-All (TouchApart w) items (one-Apart x items hx w f hs apart))
        (file_works_from x 0 files)

  pub queue_works-Apart :
      (items : List WorkItem)
      → All HasDirectory items
      → Pairwise Apart items
      → Pairwise TouchApart (queue_works items files)
  unfolding queue_works
  queue_works-Apart [] h p = tt
  queue_works-Apart (x ∷ items) (h, hs) (p, ps) =
      Pairwise-append TouchApart (file_works x 0 files) (queue_works items files)
        (file_works_apart x 0 files h) (queue_works-Apart items hs ps) (others-Apart x items h hs p)
