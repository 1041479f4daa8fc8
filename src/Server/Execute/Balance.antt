-- ===== src/Server/Execute/Balance.antt =====
-- What `executeTestOnWorker` (cmd/server/main.go) puts on the channels, whatever the worker sends.
use fsbench.Prelude.{
  ℕ, suc, ◌+◌, ◌≤◌, List, [], ◌∷◌, Option, none, some, codes, text_eq, Bool-cases, ◌≡◌, inl, inr,
  refl, arith,
}
use fsbench.Common.Types.{WorkerConf, BenchmarkResult, WorkerMessage}
use fsbench.Server.Execute.{
  Action, encodes, puts_done, takes_continue, puts_result, closes, on_response, responses,
  execute_test_on_worker,
}

-- How often each thing is done.
pub record Tally : Type 0 where
  pub messages : ℕ
  pub done_values : ℕ
  pub continues : ℕ
  pub results : ℕ
  pub closings : ℕ

unfoldable pub tally : {F : Type 0} → List (Action F) → Tally
tally [] = record { messages = 0; done_values = 0; continues = 0; results = 0; closings = 0 }
tally (encodes m ∷ actions) = let t = tally actions in record t { messages = suc t.messages }
tally (puts_done ∷ actions) = let t = tally actions in record t { done_values = suc t.done_values }
tally (takes_continue ∷ actions) = let t = tally actions in record t { continues = suc t.continues }
tally (puts_result r ∷ actions) = let t = tally actions in record t { results = suc t.results }
tally (closes ∷ actions) = let t = tally actions in record t { closings = suc t.closings }

-- With `sent` messages besides those that answer a `continueWorkers`.
abbrev pub IsBalanced : ℕ → Tally → Type 0
IsBalanced sent t =
    (t.messages ≡ sent + t.continues)
    × (t.done_values ≡ t.continues + t.results)
    × (t.results + t.closings ≤ 1)

module _ {F : Type 0} (no_result : BenchmarkResult F) where
  response-IsBalanced :
      (m : WorkerMessage F) (later : List (Action F))
      → IsBalanced 0 (tally later)
      → IsBalanced 0 (tally (on_response no_result m later))
  unfolding tally on_response
  response-IsBalanced m later h =
      elim (Bool-cases (text_eq m.message (codes "preparations done"))) [
        | inl e ↦ simp e (omega (arith, h.0), omega (arith, h.1), h.2)
        | inr e ↦ elim (Bool-cases (text_eq m.message (codes "work done"))) [
          | inl f ↦ simp (e, f) (refl, refl, omega arith)
          | inr f ↦ simp (e, f) h
        ]
      ]

  responses-IsBalanced :
      (incoming : List (Option (WorkerMessage F)))
      → IsBalanced 0 (tally (responses no_result incoming))
  unfolding tally responses
  responses-IsBalanced [] = (refl, refl, omega arith)
  responses-IsBalanced (none ∷ rest) = (refl, refl, omega arith)
  responses-IsBalanced (some m ∷ rest) =
      response-IsBalanced m (responses no_result rest) (responses-IsBalanced rest)

  -- Whatever a worker sends, its goroutine sends one message and then one for each value that it takes
  -- from `continueWorkers`; it puts on `doneChannel` one value for each of these and one for a result;
  -- and it puts one result at most, and none if it closes the connection.
  pub execute_test_on_worker-IsBalanced :
      (config : WorkerConf) (incoming : List (Option (WorkerMessage F)))
      → IsBalanced 1 (tally (execute_test_on_worker no_result config incoming))
  unfolding tally execute_test_on_worker
  execute_test_on_worker-IsBalanced config incoming =
      let (messages, done_values, results) = responses-IsBalanced incoming in
      (omega (arith, messages), done_values, results)
