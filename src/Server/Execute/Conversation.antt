-- ===== src/Server/Execute/Conversation.antt =====
-- A test of writes between the goroutine `executeTestOnWorker` (cmd/server/main.go) and a worker
-- (pkg/worker/worker.go): each gets what the other sends.
use mathlib.Core.List.{Permᴰ}
use fsbench.Prelude.{
  ℕ, suc, true, List, [], ◌∷◌, Option, some, Text, text_eq, ok, All, ◌≡◌, ◌≢◌, refl,
}
use fsbench.Common.OpType.{write_op}
use fsbench.Common.Types.{pos, Fsd, WorkerConf, BenchmarkResult, WorkerMessage}
use fsbench.Common.Encoding.Wire.{Wire, deliver_config, deliver}
use fsbench.FilePath.{slash}
use fsbench.FilePath.Elements.{Lacks}
use fsbench.Worker.Populate.{populate_dirs}
use fsbench.Worker.Run.{run_works}
use fsbench.Worker.Queue.{WorkItem, Work, fill_workqueue}
use fsbench.Worker.Operations.{World}
use fsbench.Worker.Operations.Writes.{IsRunnable, IsAbsent}
use fsbench.Worker.Connection.{
  Surroundings, State, Outgoing, hello, sent_message, no_result, report, serve,
}
use fsbench.Worker.Connection.WriteTest.{IsTested, write_test-IsTested}
use fsbench.Server.Execute.{
  Action, encodes, puts_done, takes_continue, puts_result, start_work, init, on_response, responses,
  execute_test_on_worker, requests,
}

-- What the server decodes of what a worker sends in a run; "ready for work" comes before it. These
-- messages have no configuration, and the numbers and the text of a result are kept.
unfoldable pub replies : {F : Type 0} → List (Outgoing F) → List (Option (WorkerMessage F))
replies [] = []
replies (hello ∷ sent) = replies sent
replies (sent_message m ∷ sent) = some m ∷ replies sent

module _ {D E F : Type 0} (wire : Wire D E) (env : Surroundings F) where
  -- The two messages, with the worker's preparations and its result in between and at the end.
  abbrev pub whole_run : WorkerConf → BenchmarkResult F → List (Action F)
  whole_run config result =
      encodes (init (no_result env) config)
      ∷ puts_done
      ∷ takes_continue
      ∷ encodes (start_work (no_result env))
      ∷ puts_done
      ∷ puts_result result
      ∷ []

  -- Both sides of the connection agree on the run: the worker's answers to what the goroutine sends make
  -- the goroutine do all of the run, and report the worker's result.
  abbrev pub Agrees : WorkerConf → State F → BenchmarkResult F → Type 0
  Agrees config s result =
      execute_test_on_worker (no_result env) config
        (replies (serve env (requests wire (whole_run config result)) s).0.sent)
      ≡ whole_run config result

  tested-Agrees :
      (config config' : WorkerConf) (fsd : Fsd) (size block : ℕ) (s : State F)
      (queue : List WorkItem) (w : World)
      → deliver_config wire config ≡ some config'
      → s.sent ≡ hello ∷ []
      → IsTested env config' fsd size block s queue w
      → Agrees config s (report env config' w)
  unfolding requests replies execute_test_on_worker responses on_response text_eq deliver
  tested-Agrees config config' fsd size block s queue w arrives connected tested =
      rw (arrives, tested.served, connected) refl

  -- A worker that has just connected and the goroutine of a run of writes, each getting what the other
  -- sends, bring the run to its end: the goroutine signals twice, waits for the other workers once, and
  -- puts the result that the worker reports, which has written every file of its queue. The
  -- configuration must arrive, its sizes perhaps changed by their printing and its depth not 0, and what
  -- arrives must be a test of writes that is runnable, with at least one client and one directory, on a
  -- disk without faults and without these files, over a good connection.
  pub write_run-Agrees :
      (config config' : WorkerConf) (fsd : Fsd) (size block n : ℕ) (s : State F)
      → deliver_config wire config ≡ some config'
      → ((works : List Work) → Permᴰ works (env.arrange works))
      → ((k : ℕ) → env.sends k ≡ true)
      → config'.test.fsd ≡ some fsd
      → config'.op ≡ write_op
      → config'.parallel_clients ≡ pos (suc n)
      → IsRunnable config'.test size block
      → Lacks slash config'.worker_id
      → fsd.anchor ≢ []
      → s.world.disk.faults ≡ []
      → (dir : Text) (dirs : List Text) → populate_dirs config'.worker_id fsd ≡ dir ∷ dirs
      → ((queue : List WorkItem)
          → fill_workqueue config' [] ≡ ok queue
          → All (IsAbsent s.world.disk) (run_works fsd queue))
      → s.sent ≡ hello ∷ []
      → (queue : List WorkItem) × (w : World) × IsTested env config' fsd size block s queue w
        × Agrees config s (report env config' w)
  write_run-Agrees config config' fsd size block n s arrives permuted sends e is_write clients
        runnable plain anchor quiet dir dirs some_dir absent connected =
      let (queue, w, tested) =
        write_test-IsTested env config' fsd size block n s permuted sends e is_write clients
          runnable plain anchor quiet dir dirs some_dir absent in
      (
        queue,
        w,
        tested,
        tested-Agrees config config' fsd size block s queue w arrives connected tested,
      )
