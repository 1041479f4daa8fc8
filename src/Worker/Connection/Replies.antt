-- ===== src/Worker/Connection/Replies.antt =====
-- What a worker answers to the messages of the server (pkg/worker/worker.go).
use fsbench.Prelude.{
  List, [], ◌∷◌, ◌++◌, map, map-append, append_assoc, append-nil, Option, none, some, Text, codes,
  text_eq, Outcome, ok, err, panic, if◌then◌else◌, length, Bool-cases, ◌≡◌, ◌⊎◌, inl, inr, refl,
  sym, ap, ◌∙◌,
}
use fsbench.Common.Types.{WorkerConf, WorkerMessage}
use fsbench.Worker.Queue.{WorkItem, fill_workqueue}
use fsbench.Worker.Operations.{Result, prepare_queue}
use fsbench.Worker.Connection.{
  Surroundings, Worker, State, Outgoing, hello, sent_message, Ending, Performed, finished, crashed,
  hangs, stopped, failed, panicked, blocked, Handled, send, prepared, fill_and_prepare, on_init,
  after_test, on_start, perform, handle, serve, unless_ended,
}

abbrev pub heard : {F : Type 0} → Outgoing F → Text
heard hello = codes "ready for work"
heard (sent_message m) = m.message

-- The one answer to a message, or none.
unfoldable pub answer : {F : Type 0} → Option (WorkerMessage F) → List Text
answer none = []
answer (some m) =
    if text_eq m.message (codes "init")
    then codes "preparations done" ∷ []
    else if text_eq m.message (codes "start work")
    then codes "work done" ∷ []
    else []

unfoldable pub answers : {F : Type 0} → List (Option (WorkerMessage F)) → List Text
unfolding answer
answers [] = []
answers (m ∷ ms) = answer m ++ answers ms

module _ {F : Type 0} (env : Surroundings F) where
  -- Either the loop goes on and `said` has been sent, or it ends and nothing has been.
  abbrev Sends : List (Outgoing F) → List Text → Handled env → Type 0
  Sends before said h =
      ((h.1 ≡ none) × (map heard h.0.sent ≡ map heard before ++ said))
      ⊎ ((e : Ending) × (h.1 ≡ some e) × (h.0.sent ≡ before))

  send-Sends :
      (m : WorkerMessage F) (reason : Text) (s : State F)
      → Sends s.sent (m.message ∷ []) (send env m reason s)
  unfolding send
  send-Sends m reason s = elim (Bool-cases (env.sends (length s.sent))) [
    | inl e ↦ simp e (inl (refl, map-append heard s.sent (sent_message m ∷ [])))
    | inr e ↦ simp e (inr (failed reason, refl, refl))
  ]

  prepared-Sends :
      (worker : Worker) (sent : List (Outgoing F)) (r : Result)
      → Sends sent (codes "preparations done" ∷ []) (prepared env worker sent r)
  unfolding prepared
  prepared-Sends worker sent (ok u, w) = send-Sends _ _ _
  prepared-Sends worker sent (err e, w) = send-Sends _ _ _
  prepared-Sends worker sent (panic, w) = inr (panicked, refl, refl)

  filled-Sends :
      (config : WorkerConf) (s : State F) (r : Outcome Text (List WorkItem))
      → Sends s.sent (codes "preparations done" ∷ []) (fill_and_prepare env config s r)
  unfolding fill_and_prepare
  filled-Sends config s (ok queue) = prepared-Sends _ s.sent (prepare_queue config queue s.world)
  filled-Sends config s (err e) = inr (panicked, refl, refl)
  filled-Sends config s panic = inr (panicked, refl, refl)

  on_init-Sends :
      (config : Option WorkerConf) (s : State F)
      → Sends s.sent (codes "preparations done" ∷ []) (on_init env config s)
  unfolding on_init
  on_init-Sends none s = inr (panicked, refl, refl)
  on_init-Sends (some config) s = filled-Sends config s (fill_workqueue config [])

  after_test-Sends :
      (config : WorkerConf) (s : State F) (r : Performed)
      → Sends s.sent (codes "work done" ∷ []) (after_test env config s r)
  unfolding after_test
  after_test-Sends config s (finished w) = send-Sends _ _ _
  after_test-Sends config s (crashed w) = inr (panicked, refl, refl)
  after_test-Sends config s (hangs w) = inr (blocked, refl, refl)

  on_start-Sends :
      (queue : Option (List WorkItem)) (config : Option WorkerConf) (s : State F)
      → Sends s.sent (codes "work done" ∷ []) (on_start env queue config s)
  unfolding on_start
  on_start-Sends none config s = inr (panicked, refl, refl)
  on_start-Sends (some []) config s = inr (stopped, refl, refl)
  on_start-Sends (some (item ∷ items)) none s = inr (panicked, refl, refl)
  on_start-Sends (some (item ∷ items)) (some config) s =
      after_test-Sends config s
        (perform env config (item ∷ items) s.worker.parallel_clients s.world)

  handle-Sends :
      (m : Option (WorkerMessage F)) (s : State F) → Sends s.sent (answer m) (handle env m s)
  unfolding handle answer
  handle-Sends none s = inr (_, refl, refl)
  handle-Sends (some m) s = elim (Bool-cases (text_eq m.message (codes "init"))) [
    | inl e ↦ simp e (on_init-Sends m.config s)
    | inr e ↦ elim (Bool-cases (text_eq m.message (codes "start work"))) [
      | inl f ↦ simp (e, f) (on_start-Sends s.worker.work_queue s.worker.config s)
      | inr f ↦ elim (Bool-cases (text_eq m.message (codes "shutdown"))) [
        | inl g ↦ simp (e, f, g) (inr (stopped, refl, refl))
        | inr g ↦ simp (e, f, g) (inl (refl, sym (append-nil (map heard s.sent))))
      ]
    ]
  ]

  -- What a connection does with what comes in: it handles the first part of it, and it has handled all
  -- of it unless it has ended.
  abbrev pub Answers : List (Option (WorkerMessage F)) → List (Outgoing F) → Handled env → Type 0
  Answers incoming before h =
      (handled rest : List (Option (WorkerMessage F))) × (incoming ≡ handled ++ rest)
      × (map heard h.0.sent ≡ map heard before ++ answers handled)
      × ((h.1 ≡ none) → rest ≡ [])

  round-Answers :
      (m : Option (WorkerMessage F)) (ms : List (Option (WorkerMessage F)))
      → ((s : State F) → Answers ms s.sent (serve env ms s))
      → (before : List (Outgoing F)) (h : Handled env) → Sends before (answer m) h
      → Answers (m ∷ ms) before (unless_ended env h (serve env ms))
  unfolding answers
  round-Answers m ms later before (s, none) (inl (e, said)) =
      let (handled, rest, split, says, all) = later s in
      (
        m ∷ handled,
        rest,
        ap (◌∷◌ m) split,
        says
            ∙ ap (λ (said : List Text). said ++ answers handled) said
            ∙ append_assoc (map heard before) (answer m) (answers handled),
        all,
      )
  round-Answers m ms later before (s, none) (inr (e, ended, same)) = cc
  round-Answers m ms later before (s, some e') (inl (going, said)) = cc
  round-Answers m ms later before (s, some e') (inr (e, ended, same)) =
      ([], m ∷ ms, refl, ap (map heard) same ∙ sym (append-nil (map heard before)), λ h. cc)

  -- A worker answers the messages that it handles one for one and in their order, "init" by
  -- "preparations done" and "start work" by "work done", and says nothing else; while the connection has
  -- not ended, it has handled every message.
  pub serve-Answers :
      (incoming : List (Option (WorkerMessage F))) (s : State F)
      → Answers incoming s.sent (serve env incoming s)
  unfolding serve answers
  serve-Answers [] s = ([], [], refl, sym (append-nil (map heard s.sent)), λ h. refl)
  serve-Answers (m ∷ ms) s =
      round-Answers m ms (serve-Answers ms) s.sent (handle env m s) (handle-Sends m s)
