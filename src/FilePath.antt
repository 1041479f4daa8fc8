-- ===== src/FilePath.antt =====
-- `filepath.Clean` and `filepath.Join` of the Go library on Unix, which pkg/worker builds its paths
-- with, and `fmt.Sprintf("%d", n)` for a natural number. The proofs are in the modules below.
pub mod Elements
pub mod Join
pub mod Decimal
use fsbench.Prelude.{
  ℕ, zero, suc, ◌+◌, ◌/◌, ◌%◌, Bool, true, false, ◌||◌, List, [], ◌∷◌, ◌++◌, Text, codes, text_eq,
  if◌then◌else◌, ltb, ◌==◌,
}
use mathlib.Core.List.{reverse}

abbrev pub slash : ℕ
slash = b'/'

abbrev pub dot : Text
dot = b'.' ∷ []

abbrev pub dot_dot : Text
dot_dot = b'.' ∷ b'.' ∷ []

-- The elements between the slashes; there is always one.
abbrev pub prepend : ℕ → List Text → List Text
prepend c [] = (c ∷ []) ∷ []
prepend c (p ∷ ps) = (c ∷ p) ∷ ps

unfoldable pub split_slash : Text → List Text
split_slash [] = [] ∷ []
split_slash (c ∷ s) = if c == slash then [] ∷ split_slash s else prepend c (split_slash s)

join_rest : List Text → Text
join_rest [] = []
join_rest (p ∷ ps) = slash ∷ (p ++ join_rest ps)

unfoldable pub join_slash : List Text → Text
unfolding join_rest
join_slash [] = []
join_slash (p ∷ ps) = p ++ join_rest ps

-- A cleaned path: whether it is rooted, and its elements, the last one first.
pub record Parsed : Type 0 where
  pub rooted : Bool
  pub stack : List Text

-- `..` takes the element before it away, except at the root or behind another `..`.
unfoldable pub go_up : Bool → List Text → List Text
go_up rooted [] = if rooted then [] else dot_dot ∷ []
go_up rooted (e ∷ stack) = if text_eq e dot_dot then dot_dot ∷ e ∷ stack else stack

unfoldable pub add_element : Bool → List Text → Text → List Text
add_element rooted stack e =
    if text_eq e [] || text_eq e dot
    then stack
    else if text_eq e dot_dot
    then go_up rooted stack
    else e ∷ stack

unfoldable pub add_elements : Bool → List Text → List Text → List Text
add_elements rooted stack [] = stack
add_elements rooted stack (e ∷ es) = add_elements rooted (add_element rooted stack e) es

unfoldable pub is_rooted : Text → Bool
is_rooted [] = false
is_rooted (c ∷ s) = c == slash

unfoldable pub parse : Text → Parsed
unfolding is_rooted
parse path = record {
  rooted = is_rooted path;
  stack = add_elements (is_rooted path) [] (split_slash path);
}

unfoldable pub render_stack : Bool → List Text → Text
render_stack true stack = slash ∷ join_slash (reverse stack)
render_stack false [] = dot
render_stack false (e ∷ stack) = join_slash (reverse (e ∷ stack))

-- `Clean("")` is `.`, as for the path with no element.
unfoldable pub clean : Text → Text
clean path = render_stack (parse path).rooted (parse path).stack

-- `Join` of two elements drops an empty one.
unfoldable pub join : Text → Text → Text
join [] [] = []
join [] (c ∷ s) = clean (c ∷ s)
join (c ∷ p) [] = clean (c ∷ p)
join (c ∷ p) (d ∷ s) = clean ((c ∷ p) ++ slash ∷ d ∷ s)

-- `%d`, on fuel: each round but the last divides by ten.
pub digits : ℕ → ℕ → Text
digits zero n = []
digits (suc f) n =
    let rest = digits f (n / 10) in
    if ltb n 10 then (b'0' + n) ∷ [] else rest ++ (b'0' + n % 10) ∷ []

unfoldable pub decimal : ℕ → Text
unfolding digits
decimal n = digits (suc n) n
