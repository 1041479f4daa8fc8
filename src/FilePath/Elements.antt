-- ===== src/FilePath/Elements.antt =====
-- The elements of a path: splitting at slashes, and the stack that `Clean` keeps.
use mathlib.Core.List.{reverse, reverse-cons}
use fsbench.Prelude.{
  ℕ, Bool, true, false, ◌||◌, List, [], ◌∷◌, ◌++◌, Text, All, text_eq, text_eq_iff, ◌≡◌, ◌≢◌, ◌⊎◌,
  inl, inr, refl, sym, ap, ◌∙◌, arith, ◌==◌, Bool-cases,
}
use fsbench.FilePath.{
  slash, dot, dot_dot, prepend, split_slash, go_up, add_element, add_elements, is_rooted, parse,
}

-- The text has no slash.
abbrev pub Lacks : ℕ → Text → Type 0
Lacks x = All (λ c. c ≢ x)

-- A name that stands for itself in a path.
pub record IsPlain (e : Text) : Type 0 where
  pub no_slash : Lacks slash e
  pub not_empty : e ≢ []
  pub not_dot : e ≢ dot
  pub not_dot_dot : e ≢ dot_dot

prepend-append : (c : ℕ) (ps qs : List Text) → ps ≢ [] → prepend c ps ++ qs ≡ prepend c (ps ++ qs)
prepend-append c [] qs h = absurd (h refl)
prepend-append c (p ∷ ps) qs h = refl

prepend-ne-nil : (c : ℕ) (ps : List Text) → prepend c ps ≢ []
prepend-ne-nil c [] e = cc
prepend-ne-nil c (p ∷ ps) e = cc

split_slash-ne-nil : (s : Text) → split_slash s ≢ []
unfolding split_slash
split_slash-ne-nil [] e = cc
split_slash-ne-nil (c ∷ s) e = ground (arith, prepend-ne-nil c (split_slash s))

pub split_slash-append :
    (s t : Text) → split_slash (s ++ slash ∷ t) ≡ split_slash s ++ split_slash t
unfolding split_slash
split_slash-append [] t = refl
split_slash-append (c ∷ s) t = elim (Bool-cases (c == slash)) [
  | inl e ↦ rw (e, split_slash-append s t)
  | inr e ↦
      rw (e, split_slash-append s t)
        (sym (prepend-append c (split_slash s) (split_slash t) (split_slash-ne-nil s)))
]

pub split_slash-Lacks : (s : Text) → Lacks slash s → split_slash s ≡ s ∷ []
unfolding split_slash
split_slash-Lacks [] h = refl
split_slash-Lacks (c ∷ s) (h, hs) = ground (arith, split_slash-Lacks s hs)

prepend-Lacks :
    (c : ℕ) (ps : List Text) → c ≢ slash → All (Lacks slash) ps → All (Lacks slash) (prepend c ps)
prepend-Lacks c [] h hs = ((h, tt), tt)
prepend-Lacks c (p ∷ ps) h (hp, hs) = ((h, hp), hs)

split_slash_parts : (s : Text) → All (Lacks slash) (split_slash s)
unfolding split_slash
split_slash_parts [] = (tt, tt)
split_slash_parts (c ∷ s) = elim (Bool-cases (c == slash)) [
  | inl e ↦ rw e (tt, split_slash_parts s)
  | inr e ↦ rw e (prepend-Lacks c (split_slash s) (ground arith) (split_slash_parts s))
]

pub add_elements-append :
    (r : Bool) (stack es fs : List Text)
    → add_elements r stack (es ++ fs) ≡ add_elements r (add_elements r stack es) fs
unfolding add_elements
add_elements-append r stack [] fs = refl
add_elements-append r stack (e ∷ es) fs = add_elements-append r (add_element r stack e) es fs

pub add_element-IsPlain :
    (r : Bool) (stack : List Text) (e : Text) → IsPlain e → add_element r stack e ≡ e ∷ stack
unfolding add_element
add_element-IsPlain r stack e h =
    ground (arith, text_eq_iff e [], text_eq_iff e dot, text_eq_iff e dot_dot)

-- A stack of `..` alone.
abbrev pub OnlyUps : List Text → Type 0
OnlyUps = All (λ e. e ≡ dot_dot)

-- What the parse leaves: plain names, over `..` at the start of a path that is not rooted.
abbrev pub IsNormal : Bool → List Text → Type 0
IsNormal r [] = Unit
IsNormal r (e ∷ stack) =
    (IsPlain e × IsNormal r stack) ⊎ ((e ≡ dot_dot) × (r ≡ false) × OnlyUps stack)

go_up-IsNormal : (r : Bool) (stack : List Text) → IsNormal r stack → IsNormal r (go_up r stack)
unfolding go_up
go_up-IsNormal true [] n = tt
go_up-IsNormal false [] n = inr (refl, refl, tt)
go_up-IsNormal r (e ∷ stack) (inl (plain, n)) = elim (Bool-cases (text_eq e dot_dot)) [
  | inl up ↦ absurd (plain.not_dot_dot ((text_eq_iff e dot_dot).0 up))
  | inr name ↦ rw name n
]
go_up-IsNormal r (e ∷ stack) (inr (up, unrooted, ups)) =
    rw ((text_eq_iff e dot_dot).1 up) (inr (refl, unrooted, (up, ups)))

IsPlain-of_tests :
    (e : Text)
    → Lacks slash e
    → (text_eq e [] || text_eq e dot) ≡ false
    → text_eq e dot_dot ≡ false
    → IsPlain e
IsPlain-of_tests e h k u = record {
  no_slash = h;
  not_empty = ground (arith, text_eq_iff e []);
  not_dot = ground (arith, text_eq_iff e dot);
  not_dot_dot = ground (arith, text_eq_iff e dot_dot);
}

add_element-IsNormal :
    (r : Bool) (stack : List Text) (e : Text)
    → Lacks slash e
    → IsNormal r stack
    → IsNormal r (add_element r stack e)
unfolding add_element
add_element-IsNormal r stack e h n = elim (Bool-cases (text_eq e [] || text_eq e dot)) [
  | inl skip ↦ rw skip n
  | inr k ↦ elim (Bool-cases (text_eq e dot_dot)) [
    | inl up ↦ rw (k, up) (go_up-IsNormal r stack n)
    | inr name ↦ rw (k, name) (inl (IsPlain-of_tests e h k name, n))
  ]
]

add_elements-IsNormal :
    (r : Bool) (stack es : List Text)
    → All (Lacks slash) es
    → IsNormal r stack
    → IsNormal r (add_elements r stack es)
unfolding add_elements
add_elements-IsNormal r stack [] h n = n
add_elements-IsNormal r stack (e ∷ es) (h, hs) n =
    add_elements-IsNormal r (add_element r stack e) es hs (add_element-IsNormal r stack e h n)

pub parse-IsNormal : (path : Text) → IsNormal (parse path).rooted (parse path).stack
unfolding parse
parse-IsNormal path =
    add_elements-IsNormal (is_rooted path) [] (split_slash path) (split_slash_parts path) tt

go_up-OnlyUps : (stack : List Text) → OnlyUps stack → go_up false stack ≡ dot_dot ∷ stack
unfolding go_up
go_up-OnlyUps [] h = refl
go_up-OnlyUps (e ∷ stack) (h, hs) = rw ((text_eq_iff e dot_dot).1 h)

add_element-dot_dot : (r : Bool) (stack : List Text) → add_element r stack dot_dot ≡ go_up r stack
unfolding add_element text_eq
add_element-dot_dot r stack = refl

add_element_top :
    (r : Bool) (e : Text) (stack : List Text)
    → IsNormal r (e ∷ stack)
    → add_element r stack e ≡ e ∷ stack
add_element_top r e stack (inl (plain, n)) = add_element-IsPlain r stack e plain
add_element_top r e stack (inr (up, unrooted, ups)) =
    rw (up, unrooted) (add_element-dot_dot false stack ∙ go_up-OnlyUps stack ups)

IsNormal-below :
    (r : Bool) (e : Text) (stack : List Text) → IsNormal r (e ∷ stack) → IsNormal r stack
IsNormal-below r e stack (inl (plain, n)) = n
IsNormal-below r e [] (inr h) = tt
IsNormal-below r e (f ∷ stack) (inr (up, unrooted, (h, hs))) = inr (h, unrooted, hs)

add_one :
    (r : Bool) (e : Text) (stack : List Text)
    → add_element r stack e ≡ e ∷ stack
    → add_elements r stack (e ∷ []) ≡ e ∷ stack
unfolding add_elements
add_one r e stack h = h

pub add_elements-reverse :
    (r : Bool) (stack : List Text) → IsNormal r stack → add_elements r [] (reverse stack) ≡ stack
add_elements-reverse r [] n = unfold add_elements in refl
add_elements-reverse r (e ∷ stack) n =
    ap (add_elements r []) (reverse-cons e stack)
    ∙ add_elements-append r [] (reverse stack) (e ∷ [])
    ∙ ap (λ (st : List Text). add_elements r st (e ∷ []))
        (add_elements-reverse r stack (IsNormal-below r e stack n))
    ∙ add_one r e stack (add_element_top r e stack n)
