-- ===== src/Common/OpType.antt =====
-- `OpType` of pkg/common/configFile.go: operation types as flags of an `int`, their names, and the
-- way back from a name.
use Prim.Native.Nat.{bit_and}
use fsbench.Prelude.{
  ℕ, not, List, [], ◌∷◌, ◌++◌, ◌≡◌, ◌⊎◌, ◌≢◌, inl, inr, refl, arith, Text, codes, text_eq,
  text_eq_iff, Outcome, ok, panic, if◌then◌else◌, ◌==◌, ◌↔◌,
}

-- Values are flags of a Go `int`; the program only builds the four below.
abbrev pub OpType : Type 0
OpType = ℕ

abbrev pub read_op : OpType
read_op = 1

abbrev pub write_op : OpType
write_op = 2

abbrev pub stat_op : OpType
stat_op = 4

abbrev pub delete_op : OpType
delete_op = 8

-- strings.Join(parts, ",")
join_rest : List Text → Text
join_rest [] = []
join_rest (p ∷ ps) = codes "," ++ (p ++ join_rest ps)

join_comma : List Text → Text
unfolding join_rest
join_comma [] = []
join_comma (p ∷ ps) = p ++ join_rest ps

-- One `if t&flag != 0 { types = append(types, name) }`.
add_flag : OpType → OpType → Text → List Text → List Text
add_flag t flag name types = if not (bit_and t flag == 0) then types ++ name ∷ [] else types

unfoldable pub op_string : OpType → Text
unfolding join_comma add_flag
op_string t = join_comma (
    add_flag t delete_op (codes "delete") (
      add_flag t stat_op (codes "stat")
        (add_flag t write_op (codes "write") (add_flag t read_op (codes "read") []))))

-- `ToOpType`; the default case panics.
unfoldable pub to_op_type : Text → Outcome Text OpType
to_op_type op =
    if text_eq op (codes "write")
    then ok write_op
    else if text_eq op (codes "read")
    then ok read_op
    else if text_eq op (codes "stat")
    then ok stat_op
    else if text_eq op (codes "delete")
    then ok delete_op
    else panic

-- The operations that the program knows.
abbrev pub IsOp : OpType → Type 0
IsOp t = (t ≡ read_op) ⊎ ((t ≡ write_op) ⊎ ((t ≡ stat_op) ⊎ (t ≡ delete_op)))

named_op : (op : Text) (t : OpType) → to_op_type op ≡ ok t → IsOp t × (op ≡ op_string t)
unfolding to_op_type op_string
named_op op t h = ground (
  arith,
  text_eq_iff op (codes "write"),
  text_eq_iff op (codes "read"),
  text_eq_iff op (codes "stat"),
  text_eq_iff op (codes "delete"),
)

to_op_type-op_string : (t : OpType) → IsOp t → to_op_type (op_string t) ≡ ok t
unfolding to_op_type op_string text_eq
to_op_type-op_string t (inl e) = rw e
to_op_type-op_string t (inr (inl e)) = rw e
to_op_type-op_string t (inr (inr (inl e))) = rw e
to_op_type-op_string t (inr (inr (inr e))) = rw e

-- `ToOpType` returns `t` exactly if `t` is one of the four operations and the text is the name that
-- `String` prints for it; so the two are inverse to each other on the four operations.
pub to_op_type_iff :
    (op : Text) (t : OpType) → (to_op_type op ≡ ok t) ↔ (IsOp t × (op ≡ op_string t))
to_op_type_iff op t = (named_op op t, λ h. rw h.1 (to_op_type-op_string t h.0))

to_op_type_unknown :
    (op : Text) → ((t : OpType) → IsOp t → op ≢ op_string t) → to_op_type op ≡ panic
unfolding to_op_type op_string
to_op_type_unknown op h = ground (
  arith,
  h read_op (inl refl),
  h write_op (inr (inl refl)),
  h stat_op (inr (inr (inl refl))),
  h delete_op (inr (inr (inr refl))),
  text_eq_iff op (codes "write"),
  text_eq_iff op (codes "read"),
  text_eq_iff op (codes "stat"),
  text_eq_iff op (codes "delete"),
)

-- `ToOpType` panics exactly for a text that names none of the four operations.
pub to_op_type-panic_iff :
    (op : Text) → (to_op_type op ≡ panic) ↔ ((t : OpType) → IsOp t → op ≢ op_string t)
to_op_type-panic_iff op =
    ((λ h t known e. cc (to_op_type-op_string t known, h, e)), to_op_type_unknown op)
