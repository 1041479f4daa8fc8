-- ===== src/Worker/Metrics/Sums.antt =====
-- What the sums over the metrics are made of.
use fsbench.Prelude.{
  ℕ, suc, true, false, List, [], ◌∷◌, Text, codes, text_eq, text_eq_iff, ◌≡◌, ◌≢◌, ◌↔◌, ◌⊎◌, refl,
  ap, ap₂, subst, arith, Bool-cases, inl, inr,
}
use fsbench.Worker.Metrics.{
  Metric, Numbers, names_test, add_counter, sum_counters, sum_counter_for_test,
}

-- How often a label stands in a list.
abbrev pub Occurs : Text × Text → List (Text × Text) → ℕ → Type 0
Occurs l [] n = n ≡ 0
Occurs l (label ∷ labels) n =
    ((label ≡ l) × ((k : ℕ) × (n ≡ suc k) × Occurs l labels k)) ⊎ ((label ≢ l) × Occurs l labels n)

-- The label of the metrics of a test.
abbrev pub test_label : Text → Text × Text
test_label test_name = (codes "testName", test_name)

-- The values are those of the metrics that have the label of the test, in their order; no metric has it
-- twice, since Prometheus has no two labels of one name.
abbrev pub AreValues : {F : Type 0} → Text → List (Metric F) → List F → Type 0
AreValues test_name [] values = values ≡ []
AreValues {F} test_name (m ∷ metrics) values =
    (Occurs (test_label test_name) m.labels 0 × AreValues test_name metrics values)
    ⊎ (Occurs (test_label test_name) m.labels 1
        × ((rest : List F) × (values ≡ m.counter ∷ rest) × AreValues test_name metrics rest))

unfoldable pub add_up : {F : Type 0} → (F → F → F) → F → List F → F
add_up plus sum [] = sum
add_up plus sum (v ∷ vs) = add_up plus (plus sum v) vs

names_test-label :
    (test_name : Text) (label : Text × Text)
    → (names_test test_name label ≡ true) ↔ (label ≡ test_label test_name)
unfolding names_test
names_test-label test_name (name, value) = (
  (λ h.
      let same_name : text_eq name (codes "testName") ≡ true = ground arith in
      let same_value : text_eq value test_name ≡ true = ground arith in
      ap₂ (λ (n v : Text). (n, v)) ((text_eq_iff name (codes "testName")).0 same_name)
        ((text_eq_iff value test_name).0 same_value)),
  (λ e.
      rw
        (
          (text_eq_iff name (codes "testName")).1 (ap (λ (l : Text × Text). l.0) e),
          (text_eq_iff value test_name).1 (ap (λ (l : Text × Text). l.1) e),
        )
        refl),
)

unnamed :
    (test_name : Text) (label : Text × Text)
    → label ≢ test_label test_name
    → names_test test_name label ≡ false
unnamed test_name label ne = elim (Bool-cases (names_test test_name label)) [
  | inl e ↦ absurd (ne ((names_test-label test_name label).0 e))
  | inr e ↦ e
]

module _ {F : Type 0} (num : Numbers F) (test_name : Text) where
  not_named :
      (value : F) (labels : List (Text × Text)) (sum : F)
      → Occurs (test_label test_name) labels 0
      → add_counter num test_name value labels sum ≡ sum
  unfolding add_counter
  not_named value [] sum h = refl
  not_named value (label ∷ labels) sum (inl (e, (k, z, h))) = absurd (omega (arith, z))
  not_named value (label ∷ labels) sum (inr (ne, h)) =
      rw (unnamed test_name label ne) (not_named value labels sum h)

  named_once :
      (value : F) (labels : List (Text × Text)) (sum : F)
      → Occurs (test_label test_name) labels 1
      → add_counter num test_name value labels sum ≡ num.plus sum value
  unfolding add_counter
  named_once value [] sum h = absurd (omega (arith, h))
  named_once value (label ∷ labels) sum (inl (e, (k, z, h))) =
      let none_left : Occurs (test_label test_name) labels 0 =
        subst (Occurs (test_label test_name) labels) (omega (arith, z)) h in
      rw ((names_test-label test_name label).1 e)
        (not_named value labels (num.plus sum value) none_left)
  named_once value (label ∷ labels) sum (inr (ne, h)) =
      rw (unnamed test_name label ne) (named_once value labels sum h)

  sum_counters-values :
      (metrics : List (Metric F)) (sum : F) (values : List F)
      → AreValues test_name metrics values
      → sum_counters num test_name metrics sum ≡ add_up num.plus sum values
  unfolding sum_counters add_up
  sum_counters-values [] sum values h = rw h refl
  sum_counters-values (m ∷ metrics) sum values (inl (none_named, h)) =
      rw (not_named m.counter m.labels sum none_named) (sum_counters-values metrics sum values h)
  sum_counters-values (m ∷ metrics) sum values (inr (once, (rest, e, h))) =
      rw (e, named_once m.counter m.labels sum once)
        (sum_counters-values metrics (num.plus sum m.counter) rest h)

  -- The sum for a test adds up, in their order, the values of exactly the metrics that have a label
  -- "testName" with the name of the test, each once. No metric may have that label twice.
  pub sum_counter_for_test-values :
      (metrics : List (Metric F)) (values : List F)
      → AreValues test_name metrics values
      → sum_counter_for_test num test_name metrics ≡ add_up num.plus num.naught values
  unfolding sum_counter_for_test
  sum_counter_for_test-values metrics values h = sum_counters-values metrics num.naught values h
