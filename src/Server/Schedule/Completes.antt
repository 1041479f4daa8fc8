-- ===== src/Server/Schedule/Completes.antt =====
-- The loops of `scheduleTests` (cmd/server/main.go) without a panic: what they ask of the tests.
use fsbench.Prelude.{
  true, ◌==◌, if◌then◌else◌, ℕ, zero, suc, ◌+◌, ◌<◌, Bool, List, [], ◌∷◌, ◌++◌, Option, none, some,
  Text, Outcome, ok, err, panic, ◌>>=◌, length, All, ◌≡◌, ◌≢◌, refl, ap, ◌∙◌, arith,
}
use fsbench.Common.Types.{Fsd, Fwd, TestCaseConfiguration, WorkerConf, BenchmarkResult}
use fsbench.Common.Config.{Tests}
use fsbench.Worker.Metrics.{Numbers}
use fsbench.Common.OpType.{to_op_type}
use fsbench.Server.{run_name, worker_config}
use fsbench.Server.Results.{sum_benchmark_results, run_result}
use fsbench.Server.Schedule.{
  Field, Done, Step, or_panic, worker_configs, add_summary, run_configs, run_op, then_next, each_op,
  each_thread, one_test, each_test,
}
use fsbench.Server.Schedule.Names.{IsKnown}

-- Both defines are there.
abbrev pub HasDefines : Option Fsd → Option Fwd → Type 0
HasDefines none w = ⊥
HasDefines (some d) none = ⊥
HasDefines (some d) (some w) = Unit

abbrev pub IsDefined : Option TestCaseConfiguration → Type 0
IsDefined none = ⊥
IsDefined (some t) = HasDefines t.fsd t.fwd

-- `ToOpType` knows each operation.
abbrev pub KnowsAll : Option Fwd → Type 0
KnowsAll none = Unit
KnowsAll (some w) = All IsKnown w.operations

abbrev pub IsKnownTest : Option TestCaseConfiguration → Type 0
IsKnownTest none = Unit
IsKnownTest (some t) = KnowsAll t.fwd

then_ok :
    {A B : Type 0} (r : Outcome Text A) (a : A) (f : A → B)
    → r ≡ ok a
    → (b : B) × ((r >>= λ x. ok (f x)) ≡ ok b)
then_ok r a f e = (f a, ap (λ o. o >>= λ x. ok (f x)) e)

config_made :
    (reorder : Bool) (test : TestCaseConfiguration) (op : Text) (thread workers worker : ℕ)
    → IsKnown op
    → (c : WorkerConf) × (worker_config reorder test op thread workers worker ≡ ok c)
unfolding worker_config
config_made reorder test op thread workers worker (t, e) = then_ok (to_op_type op) t _ e

configs_made :
    (reorder : Bool) (test : TestCaseConfiguration) (op : Text) (thread workers : ℕ)
    → IsKnown op
    → (left worker : ℕ)
    → (cs : List WorkerConf) × (worker_configs reorder test op thread workers left worker ≡ ok cs)
      × (0 < left → cs ≢ [])
unfolding worker_configs
configs_made reorder test op thread workers known zero worker = ([], refl, λ h. omega (arith, h))
configs_made reorder test op thread workers known (suc left) worker =
    let (c, e) = config_made reorder test op thread workers worker known in
    let (cs, f, _) = configs_made reorder test op thread workers known left (worker + 1) in
    (c ∷ cs, rw (e, f) refl, λ h g. cc)

result_made :
    {F : Type 0} (num : Numbers F) (results : List (BenchmarkResult F))
    (duration thread workers : ℕ) (fsd : Fsd) (fwd : Fwd) (op : Text)
    → results ≢ []
    → IsKnown op
    → (r : BenchmarkResult F) × (run_result num results duration thread workers fsd fwd op ≡ ok r)
unfolding run_result sum_benchmark_results
result_made num [] duration thread workers fsd fwd op h known = absurd (h refl)
result_made num (r ∷ rs) duration thread workers fsd fwd op h (t, e) = then_ok (to_op_type op) t _ e

module _ {F : Type 0} where
  -- The server has come to the end: it has not panicked and does not wait for a worker.
  abbrev pub Completes : Step F → Type 0
  Completes h = h.1 ≡ ok tt

  next-Completes :
      (h : Step F) (k : Done F → Step F)
      → Completes h
      → ((s : Done F) → Completes (k s))
      → Completes (then_next h k)
  next-Completes (s, ok u) k e later = later s
  next-Completes (s, err x) k e later = cc
  next-Completes (s, panic) k e later = cc

none_missing :
    {A B : Type 0} (xs : List A) (ys : List B) → length xs ≡ length ys → ys ≢ [] → xs ≢ []
none_missing xs [] e h = absurd (h refl)
none_missing [] (y ∷ ys) e h = absurd (omega (arith, e))
none_missing (x ∷ xs) (y ∷ ys) e h = λ f. cc

-- Once all have reported, the run goes on.
all_there :
    {F : Type 0} (m n : ℕ) (summed waiting : Step F)
    → m ≡ n
    → (if m == n then summed else waiting).1 ≡ summed.1
all_there m n summed waiting e = let same : (m == n) ≡ true = ground arith in rw same refl

module _ {F : Type 0} (field : Field F) (reorder : Bool) (workers : ℕ) (some_worker : 0 < workers)
    (reports : (k : ℕ) (cs : List WorkerConf) → length (field.outcome k cs) ≡ length cs) where
  run_op-Completes :
      (test : TestCaseConfiguration) (fsd : Fsd) (fwd : Fwd) (thread : ℕ) (op : Text) (s : Done F)
      → test.fsd ≡ some fsd
      → IsKnown op
      → Completes (run_op field reorder workers test fwd thread op s)
  unfolding run_op run_configs
  run_op-Completes test fsd fwd thread op s e known =
      let (cs, made, some_config) = configs_made reorder test op thread workers known workers 0 in
      let (r, summed) =
        result_made field.numbers (field.outcome (length s.runs) cs) (field.elapsed (length s.runs))
          thread workers fsd fwd op
          (none_missing (field.outcome (length s.runs) cs) cs (reports (length s.runs) cs)
            (some_config some_worker))
          known in
      let next = record s {
        runs = s.runs ++ record { name = run_name test.name op thread; configs = cs } ∷ [];
      } in
      ap (λ o. (run_configs field reorder workers test fwd thread op o s).1) made
      ∙ all_there (length (field.outcome (length s.runs) cs)) (length cs) _ _
          (reports (length s.runs) cs)
      ∙ ap
          (λ o.
            (add_summary field reorder workers
              (or_panic o >>= λ d.
                run_result field.numbers (field.outcome (length s.runs) cs)
                  (field.elapsed (length s.runs)) thread workers d fwd op)
              next).1)
          e
      ∙ ap (λ o. (add_summary field reorder workers o next).1) summed

  each_op-Completes :
      (test : TestCaseConfiguration) (fsd : Fsd) (fwd : Fwd) (thread : ℕ) (ops : List Text)
      (s : Done F)
      → test.fsd ≡ some fsd
      → All IsKnown ops
      → Completes (each_op field reorder workers test fwd thread ops s)
  unfolding each_op
  each_op-Completes test fsd fwd thread [] s e known = refl
  each_op-Completes test fsd fwd thread (op ∷ ops) s e (h, hs) =
      next-Completes _ (each_op field reorder workers test fwd thread ops)
        (run_op-Completes test fsd fwd thread op s e h)
        (λ s'. each_op-Completes test fsd fwd thread ops s' e hs)

  each_thread-Completes :
      (test : TestCaseConfiguration) (fsd : Fsd) (fwd : Fwd) (threads : List ℕ) (s : Done F)
      → test.fsd ≡ some fsd
      → All IsKnown fwd.operations
      → Completes (each_thread field reorder workers test fwd threads s)
  unfolding each_thread
  each_thread-Completes test fsd fwd [] s e known = refl
  each_thread-Completes test fsd fwd (thread ∷ threads) s e known =
      next-Completes _ (each_thread field reorder workers test fwd threads)
        (each_op-Completes test fsd fwd thread fwd.operations s e known)
        (λ s'. each_thread-Completes test fsd fwd threads s' e known)

  one_test-Completes :
      (test : TestCaseConfiguration) (fsd : Option Fsd) (fwd : Option Fwd) (s : Done F)
      → test.fsd ≡ fsd
      → HasDefines fsd fwd
      → KnowsAll fwd
      → Completes (one_test field reorder workers test fwd s)
  one_test-Completes test none fwd s e h known = absurd h
  one_test-Completes test (some d) none s e h known = absurd h
  one_test-Completes test (some d) (some w) s e h known =
      each_thread-Completes test d w w.threads s e known

  pub each_test-Completes :
      (tests : Tests) (s : Done F)
      → All IsDefined tests
      → All IsKnownTest tests
      → Completes (each_test field reorder workers tests s)
  unfolding each_test
  each_test-Completes [] s h known = refl
  each_test-Completes (none ∷ tests) s (h, hs) known = absurd h
  each_test-Completes (some test ∷ tests) s (h, hs) (known, others) =
      next-Completes _ (each_test field reorder workers tests)
        (one_test-Completes test test.fsd test.fwd s refl h known)
        (λ s'. each_test-Completes tests s' hs others)
