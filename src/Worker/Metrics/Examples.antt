-- ===== src/Worker/Metrics/Examples.antt =====
-- Tests of pkg/worker/prometheus.go: the counters of two tests and two methods.
use fsbench.Prelude.{
  ℕ, ◌+◌, ◌/◌, ◌==◌, List, [], ◌∷◌, Text, codes, text_eq, ◌≡◌, ◌≢◌, inl, inr, ap, cons_head, refl,
  arith,
}
use fsbench.Worker.Metrics.{Metric, Numbers, sum_counter_for_test, names_test}
use fsbench.Worker.Metrics.Sums.{Occurs, test_label, AreValues, add_up, sum_counter_for_test-values}

abbrev naturals : Numbers ℕ
naturals = record {
  plus = λ a b. a + b;
  divide = λ a b. a / b;
  naught = 0;
  minus_one = 0;
  of_count = λ n. n;
  is_naught = λ n. n == 0;
}

abbrev counter_of : Text → Text → ℕ → Metric ℕ
counter_of test method n = record {
  labels = (codes "method", method) ∷ (codes "testName", test) ∷ [];
  counter = n;
  sample_sum = 0;
  sample_count = 0;
}

abbrev counters : List (Metric ℕ)
counters =
    counter_of (codes "a") (codes "READ") 2
    ∷ counter_of (codes "b") (codes "READ") 5
    ∷ counter_of (codes "a") (codes "MKDIR") 3
    ∷ []

sums_test_a : sum_counter_for_test naturals (codes "a") counters ≡ 5
unfolding sum_counter_for_test names_test text_eq
sums_test_a = refl

not_a_name :
    {test method : Text} → ◌≢◌ {A = Text × Text} (codes "method", method) (codes "testName", test)
not_a_name e = let letters = cons_head (ap (λ (l : Text × Text). l.0) e) in omega (arith, letters)

of_test_a :
    (method : Text)
    → Occurs
        (test_label (codes "a"))
        ((codes "method", method) ∷ (codes "testName", codes "a") ∷ [])
        1
of_test_a method = inr (not_a_name, inl (refl, (0, refl, refl)))

of_test_b :
    (method : Text)
    → Occurs
        (test_label (codes "a"))
        ((codes "method", method) ∷ (codes "testName", codes "b") ∷ [])
        0
of_test_b method = inr (
  not_a_name,
  inr (
    (λ e. let letters = cons_head (ap (λ (l : Text × Text). l.1) e) in omega (arith, letters)),
    refl,
  ),
)

values_of_a : AreValues (codes "a") counters (2 ∷ 3 ∷ [])
values_of_a = inr (
  of_test_a (codes "READ"),
  (3 ∷ [], refl, inl (of_test_b (codes "READ"), inr (of_test_a (codes "MKDIR"), ([], refl, refl)))),
)

sum_counter_for_test-values_example :
    sum_counter_for_test naturals (codes "a") counters
    ≡ add_up naturals.plus naturals.naught (2 ∷ 3 ∷ [])
sum_counter_for_test-values_example =
    sum_counter_for_test-values naturals (codes "a") counters (2 ∷ 3 ∷ []) values_of_a
