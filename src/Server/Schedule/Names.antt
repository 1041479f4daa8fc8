-- ===== src/Server/Schedule/Names.antt =====
-- The names of runs: they tell the operation and the threads, so that no two runs share one
-- (`scheduleTests` of cmd/server/main.go).
use fsbench.Prelude.{
  ℕ, [], ◌∷◌, ◌++◌, append_assoc, Text, ok, All-imp, ◌≡◌, ◌≢◌, inl, inr, refl, sym, ◌∙◌, subst,
  arith, cons_head, cons_tail,
}
use fsbench.Common.OpType.{OpType, IsOp, op_string, to_op_type, to_op_type_iff}
use fsbench.FilePath.{decimal}
use fsbench.FilePath.Elements.{Lacks}
use fsbench.FilePath.Decimal.{IsDigit, decimal-IsDigit, decimal-injective}
use fsbench.Server.{run_name}

abbrev dash : ℕ
dash = b'-'

-- An operation that `ToOpType` knows.
abbrev pub IsKnown : Text → Type 0
IsKnown op = (t : OpType) × (to_op_type op ≡ ok t)

-- A text is split in one way at its last dash.
not_inside : (c : ℕ) (x b y : Text) → Lacks c x → x ≢ b ++ c ∷ y
not_inside c [] [] y h e = cc
not_inside c [] (d ∷ b) y h e = cc
not_inside c (d ∷ x) [] y (h, hs) e = h (cons_head e)
not_inside c (d ∷ x) (d' ∷ b) y (h, hs) e = not_inside c x b y hs (cons_tail e)

last_split :
    (c : ℕ) (a b x y : Text) → Lacks c x → Lacks c y → a ++ c ∷ x ≡ b ++ c ∷ y → (a ≡ b) × (x ≡ y)
last_split c [] [] x y hx hy e = (refl, cons_tail e)
last_split c [] (d ∷ b) x y hx hy e = absurd (not_inside c x b y hx (cons_tail e))
last_split c (d ∷ a) [] x y hx hy e = absurd (not_inside c y a x hy (sym (cons_tail e)))
last_split c (d ∷ a) (d' ∷ b) x y hx hy e =
    let (same, tails) = last_split c a b x y hx hy (cons_tail e) in
    let head = cons_head e in (cc (head, same), tails)

op_string-Lacks : (t : OpType) → IsOp t → Lacks dash (op_string t)
unfolding op_string
op_string-Lacks t (inl e) = rw e (omega arith)
op_string-Lacks t (inr (inl e)) = rw e (omega arith)
op_string-Lacks t (inr (inr (inl e))) = rw e (omega arith)
op_string-Lacks t (inr (inr (inr e))) = rw e (omega arith)

known-Lacks : (op : Text) → IsKnown op → Lacks dash op
known-Lacks op (t, e) =
    let (known, named) = (to_op_type_iff op t).0 e in
    subst (Lacks dash) (sym named) (op_string-Lacks t known)

thread-Lacks : (thread : ℕ) → Lacks dash (b't' ∷ decimal thread)
thread-Lacks thread = (
  omega arith,
  All-imp IsDigit (λ c. c ≢ dash) (decimal thread) (λ c d. omega arith) (decimal-IsDigit thread),
)

split_name :
    (name op : Text) (thread : ℕ)
    → run_name name op thread ≡ (name ++ dash ∷ op) ++ dash ∷ b't' ∷ decimal thread
unfolding run_name
split_name name op thread = sym (append_assoc name (dash ∷ op) (dash ∷ b't' ∷ decimal thread))

pub run_name-injective :
    (name name' op op' : Text) (thread thread' : ℕ)
    → IsKnown op
    → IsKnown op'
    → run_name name op thread ≡ run_name name' op' thread'
    → (name ≡ name') × (op ≡ op') × (thread ≡ thread')
run_name-injective name name' op op' thread thread' known known' e =
    let (front, back) =
      last_split dash (name ++ dash ∷ op) (name' ++ dash ∷ op') (b't' ∷ decimal thread)
        (b't' ∷ decimal thread') (thread-Lacks thread) (thread-Lacks thread')
        (sym (split_name name op thread) ∙ e ∙ split_name name' op' thread') in
    let (names, ops) =
      last_split dash name name' op op' (known-Lacks op known) (known-Lacks op' known') front in
    (names, ops, decimal-injective thread thread' (cons_tail back))
