-- ===== src/Server/Schedule/Order.antt =====
-- The order of the runs that `scheduleTests` of cmd/server/main.go makes.
use fsbench.Prelude.{
  length, ◌==◌, Bool-cases, inl, inr, ℕ, Bool, List, [], ◌∷◌, ◌++◌, map, map-append, append_assoc,
  append-nil, Option, none, some, Text, Outcome, ok, err, panic, ◌≡◌, refl, sym, ap, ◌∙◌,
}
use fsbench.Common.Types.{Fwd, TestCaseConfiguration, WorkerConf, BenchmarkResult}
use fsbench.Server.{run_name}
use fsbench.Server.Schedule.{
  Field, Run, Done, Step, add_summary, run_configs, run_op, worker_configs, then_next, each_op,
  each_thread, one_test, each_test,
}

abbrev pub op_names : Text → ℕ → List Text → List Text
op_names name thread [] = []
op_names name thread (op ∷ ops) = run_name name op thread ∷ op_names name thread ops

abbrev pub thread_names : Text → List Text → List ℕ → List Text
thread_names name ops [] = []
thread_names name ops (thread ∷ threads) = op_names name thread ops ++ thread_names name ops threads

abbrev pub test_names : Text → Option Fwd → List Text
test_names name none = []
test_names name (some fwd) = thread_names name fwd.operations fwd.threads

-- The names of the runs of all tests: for each test, for each thread count, for each operation.
abbrev pub all_names : List (Option TestCaseConfiguration) → List Text
all_names [] = []
all_names (none ∷ tests) = all_names tests
all_names (some test ∷ tests) = test_names test.name test.fwd ++ all_names tests

module _ {F : Type 0} where
  abbrev pub names : Done F → List Text
  names s = map (λ r. r.name) s.runs

  -- The runs that were made are the first ones of those expected, and all of them if the server has come
  -- to the end.
  abbrev pub Follows : List Text → Done F → Step F → Type 0
  Follows expected before h =
      (made rest : List Text) × (expected ≡ made ++ rest)
      × (names h.0 ≡ names before ++ made)
      × ((h.1 ≡ ok tt) → rest ≡ [])

  nothing_left :
      (before s : Done F) (expected : List Text)
      → names s ≡ names before ++ expected
      → Follows expected before (s, ok tt)
  nothing_left before s expected e = (expected, [], sym (append-nil expected), e, λ h. refl)

  next-Follows :
      (first second : List Text) (before : Done F) (h : Step F) (k : Done F → Step F)
      → Follows first before h
      → ((s : Done F) → Follows second s (k s))
      → Follows (first ++ second) before (then_next h k)
  next-Follows first second before (s, ok u) k (made, rest, split, said, all) later =
      let (made', rest', split', said', all') = later s in
      let done = all refl in
      (
        made ++ made',
        rest',
        ap (λ (ts : List Text). ts ++ second)
              (split ∙ ap (λ (ts : List Text). made ++ ts) done ∙ append-nil made)
            ∙ ap (λ (ts : List Text). made ++ ts) split'
            ∙ sym (append_assoc made made' rest'),
        said' ∙ ap (λ (ts : List Text). ts ++ made') said ∙ append_assoc (names before) made made',
        all',
      )
  next-Follows first second before (s, err e) k (made, rest, split, said, all) later = (
    made,
    rest ++ second,
    ap (λ (ts : List Text). ts ++ second) split ∙ append_assoc made rest second,
    said,
    λ h. cc,
  )
  next-Follows first second before (s, panic) k (made, rest, split, said, all) later = (
    made,
    rest ++ second,
    ap (λ (ts : List Text). ts ++ second) split ∙ append_assoc made rest second,
    said,
    λ h. cc,
  )

module _ {F : Type 0} (field : Field F) (reorder : Bool) (workers : ℕ) where
  add_summary-Follows :
      (r : Outcome Text (BenchmarkResult F)) (before s : Done F) (name : Text)
      → names s ≡ names before ++ name ∷ []
      → Follows (name ∷ []) before (add_summary field reorder workers r s)
  add_summary-Follows (ok r) before s name e = (name ∷ [], [], refl, e, λ h. refl)
  add_summary-Follows (err x) before s name e = (name ∷ [], [], refl, e, λ h. refl)
  add_summary-Follows panic before s name e = (name ∷ [], [], refl, e, λ h. refl)

  run_configs-Follows :
      (test : TestCaseConfiguration) (fwd : Fwd) (thread : ℕ) (op : Text)
      (r : Outcome Text (List WorkerConf)) (s : Done F)
      → Follows
          (run_name test.name op thread ∷ [])
          s
          (run_configs field reorder workers test fwd thread op r s)
  unfolding run_configs
  run_configs-Follows test fwd thread op (ok configs) s =
      let number = length s.runs in
      let run : Run = record { name = run_name test.name op thread; configs = configs } in
      let said = map-append (λ (r : Run). r.name) s.runs (run ∷ []) in
      elim (Bool-cases (length (field.outcome number configs) == length configs)) [
        | inl e ↦ simp e (add_summary-Follows _ s _ (run_name test.name op thread) said)
        | inr e ↦ simp e (run_name test.name op thread ∷ [], [], refl, said, λ h. refl)
      ]
  run_configs-Follows test fwd thread op (err e) s =
      ([], _, refl, sym (append-nil (names s)), λ h. cc)
  run_configs-Follows test fwd thread op panic s =
      ([], _, refl, sym (append-nil (names s)), λ h. cc)

  each_op-Follows :
      (test : TestCaseConfiguration) (fwd : Fwd) (thread : ℕ) (ops : List Text) (s : Done F)
      → Follows
          (op_names test.name thread ops)
          s
          (each_op field reorder workers test fwd thread ops s)
  unfolding each_op run_op
  each_op-Follows test fwd thread [] s = nothing_left s s [] (sym (append-nil (names s)))
  each_op-Follows test fwd thread (op ∷ ops) s =
      next-Follows (run_name test.name op thread ∷ []) (op_names test.name thread ops) s _
        (each_op field reorder workers test fwd thread ops)
        (run_configs-Follows test fwd thread op
          (worker_configs reorder test op thread workers workers 0) s)
        (each_op-Follows test fwd thread ops)

  each_thread-Follows :
      (test : TestCaseConfiguration) (fwd : Fwd) (threads : List ℕ) (s : Done F)
      → Follows
          (thread_names test.name fwd.operations threads)
          s
          (each_thread field reorder workers test fwd threads s)
  unfolding each_thread
  each_thread-Follows test fwd [] s = nothing_left s s [] (sym (append-nil (names s)))
  each_thread-Follows test fwd (thread ∷ threads) s =
      next-Follows (op_names test.name thread fwd.operations)
        (thread_names test.name fwd.operations threads) s _
        (each_thread field reorder workers test fwd threads)
        (each_op-Follows test fwd thread fwd.operations s) (each_thread-Follows test fwd threads)

  one_test-Follows :
      (test : TestCaseConfiguration) (fwd : Option Fwd) (s : Done F)
      → Follows (test_names test.name fwd) s (one_test field reorder workers test fwd s)
  one_test-Follows test none s = ([], [], refl, sym (append-nil (names s)), λ h. refl)
  one_test-Follows test (some fwd) s = each_thread-Follows test fwd fwd.threads s

  pub each_test-Follows :
      (tests : List (Option TestCaseConfiguration)) (s : Done F)
      → Follows (all_names tests) s (each_test field reorder workers tests s)
  unfolding each_test
  each_test-Follows [] s = nothing_left s s [] (sym (append-nil (names s)))
  each_test-Follows (none ∷ tests) s =
      ([], all_names tests, refl, sym (append-nil (names s)), λ h. cc)
  each_test-Follows (some test ∷ tests) s =
      next-Follows (test_names test.name test.fwd) (all_names tests) s _
        (each_test field reorder workers tests) (one_test-Follows test test.fwd s)
        (each_test-Follows tests)
