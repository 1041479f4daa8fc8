-- ===== src/Server/Execute.antt =====
-- cmd/server/main.go: `executeTestOnWorker`, the goroutine of one worker in one run, as the sequence of
-- what it does at the messages that it decodes. The proofs are in the modules below.
pub mod Balance
pub mod Conversation
mod Examples
use fsbench.Prelude.{List, [], ◌∷◌, Option, none, some, codes, text_eq, if◌then◌else◌}
use fsbench.Common.Encoding.Wire.{Wire, deliver}
use fsbench.Common.Types.{WorkerConf, BenchmarkResult, WorkerMessage}

-- What the goroutine does besides logging; the error of an `Encode` is not looked at.
pub data Action (F : Type 0) : Type 0 where
  encodes : WorkerMessage F → Action F
  -- on `doneChannel`, from `continueWorkers`, on `resultChannel`
  puts_done : Action F
  takes_continue : Action F
  puts_result : BenchmarkResult F → Action F
  closes : Action F

-- With the result that a message without one has.
module _ {F : Type 0} (no_result : BenchmarkResult F) where
  abbrev pub start_work : WorkerMessage F
  start_work = record { message = codes "start work"; config = none; bench_result = no_result }

  abbrev pub init : WorkerConf → WorkerMessage F
  init config = record { message = codes "init"; config = some config; bench_result = no_result }

  -- The `switch` of one round, given what the later rounds do.
  unfoldable pub on_response : WorkerMessage F → List (Action F) → List (Action F)
  on_response response later =
      if text_eq response.message (codes "preparations done")
      then puts_done ∷ takes_continue ∷ encodes start_work ∷ later
      else if text_eq response.message (codes "work done")
      then puts_done ∷ puts_result response.bench_result ∷ []
      else later

  -- The loop over what each `Decode` leaves in `response`; it waits for more at the end of the list.
  unfoldable pub responses : List (Option (WorkerMessage F)) → List (Action F)
  unfolding on_response
  responses [] = []
  responses (none ∷ rest) = closes ∷ []
  responses (some response ∷ rest) = on_response response (responses rest)

  unfoldable pub execute_test_on_worker :
      WorkerConf → List (Option (WorkerMessage F)) → List (Action F)
  unfolding responses
  execute_test_on_worker config incoming = encodes (init config) ∷ responses incoming

-- The messages that are sent, as the worker decodes them, one that it cannot decode being none.
unfoldable pub requests :
    {D E F : Type 0} → Wire D E → List (Action F) → List (Option (WorkerMessage F))
requests wire [] = []
requests wire (encodes m ∷ actions) = deliver wire m ∷ requests wire actions
requests wire (_ ∷ actions) = requests wire actions
