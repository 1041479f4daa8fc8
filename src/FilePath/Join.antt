-- ===== src/FilePath/Join.antt =====
-- `Join` adds its second argument, where that is one plain name, as the last element of the path.
use mathlib.Core.List.{reverse, reverse-cons, concat-ne-nil}
use fsbench.Prelude.{
  Bool, true, false, List, [], ◌∷◌, ◌++◌, Text, All, All-append, text_eq, ◌≡◌, ◌≢◌, inl, inr, refl,
  sym, ap, ap₂, ◌∙◌, arith, append-nil,
}
use fsbench.FilePath.{
  slash, split_slash, join_rest, join_slash, Parsed, add_element, add_elements, is_rooted, parse,
  render_stack, clean, join,
}
use fsbench.FilePath.Elements.{
  Lacks, IsPlain, IsNormal, OnlyUps, split_slash-append, split_slash-Lacks, add_elements-append,
  add_element-IsPlain, parse-IsNormal, add_elements-reverse,
}

split_slash-join_rest :
    (p : Text) (ps : List Text)
    → Lacks slash p
    → All (Lacks slash) ps
    → split_slash (p ++ join_rest ps) ≡ p ∷ ps
unfolding join_rest
split_slash-join_rest p [] h hs = rw append-nil (split_slash-Lacks p h)
split_slash-join_rest p (q ∷ qs) h (hq, hs) =
    split_slash-append p (q ++ join_rest qs)
    ∙ ap₂ ◌++◌ (split_slash-Lacks p h) (split_slash-join_rest q qs hq hs)

split_slash-join_slash :
    (es : List Text) → es ≢ [] → All (Lacks slash) es → split_slash (join_slash es) ≡ es
unfolding join_slash
split_slash-join_slash [] h hs = absurd (h refl)
split_slash-join_slash (p ∷ ps) h (hp, hs) = split_slash-join_rest p ps hp hs

abbrev IsName : Text → Type 0
IsName e = Lacks slash e × (e ≢ [])

ups_names : (stack : List Text) → OnlyUps stack → All IsName stack
ups_names [] h = tt
ups_names (e ∷ stack) (h, hs) = (rw h (omega arith, λ k. cc), ups_names stack hs)

normal_names : (r : Bool) (stack : List Text) → IsNormal r stack → All IsName stack
normal_names r [] n = tt
normal_names r (e ∷ stack) (inl (plain, n)) =
    ((plain.no_slash, plain.not_empty), normal_names r stack n)
normal_names r (e ∷ stack) (inr (up, unrooted, ups)) = ups_names (e ∷ stack) (up, ups)

reverse-All : (P : Text → Type 0) (es : List Text) → All P es → All P (reverse es)
reverse-All P [] h = tt
reverse-All P (e ∷ es) (h, hs) =
    rw reverse-cons (All-append P (reverse es) (e ∷ []) (reverse-All P es hs) (h, tt))

reverse-ne-nil : (e : Text) (es : List Text) → reverse (e ∷ es) ≢ []
reverse-ne-nil e es h = concat-ne-nil e (reverse es) (sym (reverse-cons e es) ∙ h)

names_lack : (es : List Text) → All IsName es → All (Lacks slash) es
names_lack [] h = tt
names_lack (e ∷ es) (h, hs) = (h.0, names_lack es hs)

abbrev pub parsed : Bool → List Text → Parsed
parsed r stack = record { rooted = r; stack = stack }

parse_parts :
    (path : Text) (r : Bool) (es stack : List Text)
    → is_rooted path ≡ r
    → split_slash path ≡ es
    → add_elements r [] es ≡ stack
    → parse path ≡ parsed r stack
unfolding parse
parse_parts path r es stack hr hs ha = rw (hr, hs, ha)

is_rooted-append : (p s : Text) → p ≢ [] → is_rooted (p ++ s) ≡ is_rooted p
unfolding is_rooted
is_rooted-append [] s h = absurd (h refl)
is_rooted-append (c ∷ p) s h = refl

is_rooted-join_slash :
    (es : List Text) → es ≢ [] → All IsName es → is_rooted (join_slash es) ≡ false
is_rooted-join_slash [] h hs = absurd (h refl)
is_rooted-join_slash ([] ∷ es) h (hp, hs) = absurd (hp.1 refl)
is_rooted-join_slash ((c ∷ p) ∷ es) h (hp, hs) =
    unfold is_rooted join_slash in ground (arith, hp.0.0)

split_slash_rooted : (s : Text) → split_slash (slash ∷ s) ≡ [] ∷ split_slash s
unfolding split_slash
split_slash_rooted s = refl

add_elements_empty :
    (r : Bool) (stack es : List Text) → add_elements r stack ([] ∷ es) ≡ add_elements r stack es
unfolding add_elements add_element text_eq
add_elements_empty r stack es = refl

-- Printing a cleaned path and reading it again gives the same path.
parse-render_stack :
    (r : Bool) (stack : List Text)
    → IsNormal r stack
    → parse (render_stack r stack) ≡ parsed r stack
parse-render_stack true [] n =
    unfold parse render_stack add_elements add_element split_slash join_slash text_eq in refl
parse-render_stack false [] n =
    unfold parse render_stack add_elements add_element split_slash text_eq in refl
parse-render_stack true (e ∷ stack) n =
    let names = reverse-All IsName (e ∷ stack) (normal_names true (e ∷ stack) n) in
    let es = reverse (e ∷ stack) in
    unfold render_stack in
    parse_parts (slash ∷ join_slash es) true ([] ∷ es) (e ∷ stack) (unfold is_rooted in refl)
      (split_slash_rooted (join_slash es)
        ∙ ap (λ (l : List Text). [] ∷ l)
            (split_slash-join_slash es (reverse-ne-nil e stack) (names_lack es names)))
      (add_elements_empty true [] es ∙ add_elements-reverse true (e ∷ stack) n)
parse-render_stack false (e ∷ stack) n =
    let names = reverse-All IsName (e ∷ stack) (normal_names false (e ∷ stack) n) in
    let es = reverse (e ∷ stack) in
    unfold render_stack in
    parse_parts (join_slash es) false es (e ∷ stack)
      (is_rooted-join_slash es (reverse-ne-nil e stack) names)
      (split_slash-join_slash es (reverse-ne-nil e stack) (names_lack es names))
      (add_elements-reverse false (e ∷ stack) n)

-- Cleaning a path does not change how it reads.
pub parse-clean : (path : Text) → parse (clean path) ≡ parse path
unfolding clean
parse-clean path = parse-render_stack (parse path).rooted (parse path).stack (parse-IsNormal path)

join_nonempty : (p s : Text) → p ≢ [] → s ≢ [] → join p s ≡ clean (p ++ slash ∷ s)
unfolding join
join_nonempty [] s h k = absurd (h refl)
join_nonempty (c ∷ p) [] h k = absurd (k refl)
join_nonempty (c ∷ p) (d ∷ s) h k = refl

add_last :
    (r : Bool) (es stack : List Text) (s : Text)
    → add_elements r [] es ≡ stack
    → IsPlain s
    → add_elements r (add_elements r [] es) (s ∷ []) ≡ s ∷ stack
add_last r es stack s e plain = rw e (unfold add_elements in add_element-IsPlain r stack s plain)

-- A plain name that is joined to a path becomes its last element.
pub parse-join :
    (p s : Text)
    → p ≢ []
    → IsPlain s
    → parse (join p s) ≡ parsed (parse p).rooted (s ∷ (parse p).stack)
parse-join p s h plain =
    ap parse (join_nonempty p s h plain.not_empty)
    ∙ parse-clean (p ++ slash ∷ s)
    ∙ parse_parts (p ++ slash ∷ s) (parse p).rooted (split_slash p ++ s ∷ []) (s ∷ (parse p).stack)
        (is_rooted-append p (slash ∷ s) h ∙ unfold parse in refl)
        (split_slash-append p s
          ∙ ap (λ (l : List Text). split_slash p ++ l) (split_slash-Lacks s plain.no_slash))
        (add_elements-append (parse p).rooted [] (split_slash p) (s ∷ [])
          ∙ add_last (parse p).rooted (split_slash p) (parse p).stack s (unfold parse in refl)
              plain)

parse_empty : parse [] ≡ parsed false []
unfolding parse add_elements add_element split_slash text_eq
parse_empty = refl

pub join-ne-nil : (p s : Text) → p ≢ [] → IsPlain s → join p s ≢ []
join-ne-nil p s h plain e =
    let stacks : s ∷ (parse p).stack ≡ [] =
      ap (λ (q : Parsed). q.stack) (sym (parse-join p s h plain) ∙ ap parse e ∙ parse_empty) in
    cc stacks
