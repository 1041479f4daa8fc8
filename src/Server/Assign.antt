-- ===== src/Server/Assign.antt =====
-- Which worker gets which directories in a run.
use native.Mathlib.Nat.{mod-eq_of_lt, mod_self}
use fsbench.Prelude.{
  ℕ, zero, suc, ◌+◌, ◌-◌, ◌%◌, ◌≤◌, ◌<◌, Bool, true, false, not, ◌&&◌, [], Text, codes, text_eq,
  text_eq_iff, Across, ◌≡◌, ◌≢◌, ◌⊎◌, refl, sym, ap, ◌∙◌, subst, arith, Bool-cases, inl, inr, ltb,
  cons_tail, All-append, All-imp,
}
use fsbench.Common.OpType.{write_op, op_string}
use fsbench.Common.Types.{Fsd}
use fsbench.FilePath.{decimal, slash}
use fsbench.FilePath.Elements.{Lacks}
use fsbench.FilePath.Decimal.{IsDigit, decimal-IsDigit, decimal-injective}
use fsbench.Worker.Populate.{populate_dirs}
use fsbench.Worker.Populate.Distinct.{populate_dirs_disjoint}
use fsbench.Server.{worker_name, worker_id}

worker_name-injective : (i j : ℕ) → worker_name i ≡ worker_name j → i ≡ j
unfolding worker_name
worker_name-injective i j e = decimal-injective i j (cons_tail e)

worker_name-Lacks : (i : ℕ) → Lacks slash (worker_name i)
unfolding worker_name
worker_name-Lacks i =
    All-append (λ c. c ≢ slash) (codes "w") (decimal i) (omega arith)
      (All-imp IsDigit (λ c. c ≢ slash) (decimal i) (λ c d. omega arith) (decimal-IsDigit i))

-- The worker whose name a worker gets, where the tasks are rotated and where they are not.
abbrev source : Bool → ℕ → ℕ → ℕ
source true n i = (i + 1) % n
source false n i = i

worker_id-source :
    (reorder : Bool) (op : Text) (n i : ℕ)
    → worker_id reorder op n i
      ≡ worker_name (source (not (text_eq op (op_string write_op)) && reorder) n i)
unfolding worker_id
worker_id-source reorder op n i =
    elim (Bool-cases (not (text_eq op (op_string write_op)) && reorder)) [
      | inl e ↦ rw e refl
      | inr e ↦ rw e refl
    ]

next_worker :
    (i n : ℕ) → i < n → ((i + 1 < n) × ((i + 1) % n ≡ i + 1)) ⊎ ((i + 1 ≡ n) × ((i + 1) % n ≡ 0))
next_worker i n h = elim (Bool-cases (ltb (i + 1) n)) [
  | inl e ↦ let less : i + 1 < n = ground arith in inl (less, mod-eq_of_lt less)
  | inr e ↦
      let last : i + 1 ≡ n = ground arith in
      inr (last, subst (λ (m : ℕ). (i + 1) % m ≡ 0) last (mod_self (i + 1)))
]

source-injective :
    (rotated : Bool) (n i j : ℕ) → i < n → j < n → source rotated n i ≡ source rotated n j → i ≡ j
source-injective true n i j hi hj e = ground (arith, next_worker i n hi, next_worker j n hj)
source-injective false n i j hi hj e = e

source_below : (rotated : Bool) (n i : ℕ) → i < n → source rotated n i < n
source_below true n i h = ground (arith, next_worker i n h)
source_below false n i h = h

source-surjective :
    (rotated : Bool) (n j : ℕ) → j < n → (i : ℕ) × (i < n) × (source rotated n i ≡ j)
source-surjective true n zero h = (n - 1, omega arith, ground (arith, next_worker (n - 1) n))
source-surjective true n (suc j) h = (j, omega arith, ground (arith, next_worker j n))
source-surjective false n j h = (j, h, refl)

source_other : (n i : ℕ) → i < n → 2 ≤ n → source true n i ≢ i
source_other n i h two e = ground (arith, next_worker i n h)

-- In one run no two workers get the same ID, whatever the operation and whether tasks are reordered.
pub worker_id-injective :
    (reorder : Bool) (op : Text) (n i j : ℕ)
    → i < n
    → j < n
    → worker_id reorder op n i ≡ worker_id reorder op n j
    → i ≡ j
worker_id-injective reorder op n i j hi hj e =
    source-injective (not (text_eq op (op_string write_op)) && reorder) n i j hi hj (
      worker_name-injective _ _
        (sym (worker_id-source reorder op n i) ∙ e ∙ worker_id-source reorder op n j))

-- In one run no two workers use the same directory, if the depth is at least 1 and the anchor is not
-- empty.
pub workers_apart :
    (reorder : Bool) (op : Text) (n i j : ℕ) (fsd : Fsd)
    → i < n
    → j < n
    → i ≢ j
    → fsd.anchor ≢ []
    → 1 ≤ fsd.depth
    → Across
        (λ dir dir'. dir ≢ dir')
        (populate_dirs (worker_id reorder op n i) fsd)
        (populate_dirs (worker_id reorder op n j) fsd)
workers_apart reorder op n i j fsd hi hj ne anchor deep =
    populate_dirs_disjoint (worker_id reorder op n i) (worker_id reorder op n j) fsd (plain i)
      (plain j) (λ e. ne (worker_id-injective reorder op n i j hi hj e)) anchor deep
  where
    plain : (k : ℕ) → Lacks slash (worker_id reorder op n k)
    plain k = subst (Lacks slash) (sym (worker_id-source reorder op n k)) (worker_name-Lacks _)

write_source : (n i : ℕ) → worker_id true (op_string write_op) n i ≡ worker_name i
write_source n i =
    worker_id-source true (op_string write_op) n i
    ∙ rw ((text_eq_iff (op_string write_op) (op_string write_op)).1 refl) refl

not_write : (op : Text) → op ≢ op_string write_op → text_eq op (op_string write_op) ≡ false
not_write op ne = elim (Bool-cases (text_eq op (op_string write_op))) [
  | inl e ↦ absurd (ne ((text_eq_iff op (op_string write_op)).0 e))
  | inr e ↦ e
]

rotated_source :
    (op : Text) (n i : ℕ)
    → op ≢ op_string write_op
    → worker_id true op n i ≡ worker_name (source true n i)
rotated_source op n i ne = worker_id-source true op n i ∙ rw (not_write op ne) refl

-- With tasks reordered and at least two workers, an operation that is not a write gives each worker
-- the directories that another worker has written, and each worker's directories to some worker.
pub reorder_rotates :
    (op : Text) (n : ℕ)
    → op ≢ op_string write_op
    → 2 ≤ n
    → ((i : ℕ)
        → i < n
        → (j : ℕ) × (j < n)
          × (j ≢ i)
          × (worker_id true op n i ≡ worker_id true (op_string write_op) n j))
      × ((j : ℕ)
          → j < n
          → (i : ℕ) × (i < n) × (worker_id true op n i ≡ worker_id true (op_string write_op) n j))
reorder_rotates op n ne two = (
  (λ i h. (
    source true n i,
    source_below true n i h,
    source_other n i h two,
    rotated_source op n i ne ∙ sym (write_source n (source true n i)),
  )),
  (λ j h.
      let (i, below, e) = source-surjective true n j h in
      (i, below, rotated_source op n i ne ∙ ap worker_name e ∙ sym (write_source n j))),
)
