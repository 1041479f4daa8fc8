-- ===== src/Worker/Connection.antt =====
-- The connection of a worker to the server: `ConnectToServer` of pkg/worker/worker.go, message by
-- message, and the loop of cmd/worker/main.go around it. The proofs are in the modules below.
pub mod Replies
pub mod Prepare
pub mod Steps
pub mod WriteTest
mod Examples
use fsbench.Prelude.{
  ℕ, zero, suc, ◌+◌, Bool, true, false, List, [], ◌∷◌, ◌++◌, Option, none, some, Text, codes,
  text_eq, Outcome, ok, err, panic, if◌then◌else◌, length,
}
use fsbench.Common.Types.{
  ℤ, pos, negsuc, Fsd, TestCaseConfiguration, WorkerConf, WorkerMessage, BenchmarkResult,
}
use fsbench.Worker.Queue.{WorkItem, Work, fill_workqueue}
use fsbench.Worker.Run.{run_works}
use fsbench.Worker.Metrics.{Numbers, Families, current_prom_values}
use fsbench.Worker.Operations.{
  World, Sample, Result, ignoring, prepare_queue, clean_queue, do_works,
}

-- What the process gets from outside: the draws of the random source, the order in which the clients
-- come to the works, the metrics gathered from the samples, the duration of a test in nanoseconds and
-- in seconds, and whether the message after so many others can be sent.
pub record Surroundings (F : Type 0) : Type 0 where
  pub numbers : Numbers F
  pub draws : ℕ → ℕ → ℕ
  pub arrange : List Work → List Work
  pub gather : List Sample → Families F
  pub elapsed : List Sample → ℕ
  pub seconds : ℕ → F
  pub sends : ℕ → Bool

-- `Worker`; before the first configuration the queue is nil and the configuration is empty.
pub record Worker : Type 0 where
  pub work_queue : Option (List WorkItem)
  pub parallel_clients : ℤ
  pub config : Option WorkerConf

-- "ready for work", sent as a bare string, or a `WorkerMessage`.
pub data Outgoing (F : Type 0) : Type 0 where
  hello : Outgoing F
  sent_message : WorkerMessage F → Outgoing F

pub record State (F : Type 0) : Type 0 where
  pub worker : Worker
  pub world : World
  pub sent : List (Outgoing F)

-- Why a connection ends: the call returns nil or an error, the process panics, or the call never
-- returns.
pub data Ending : Type 0 where
  stopped : Ending
  failed : Text → Ending
  panicked : Ending
  blocked : Ending

-- How `perfTest` ends.
pub data Performed : Type 0 where
  finished : World → Performed
  crashed : World → Performed
  hangs : World → Performed

abbrev pub performed : Result → Performed
performed (ok u, w) = finished w
performed (err e, w) = finished w
performed (panic, w) = crashed w

-- Without clients the channel has no buffer and no reader, so that the first work blocks.
abbrev pub no_reader : ℕ → List Work → Bool
no_reader (suc n) works = false
no_reader zero [] = false
no_reader zero (x ∷ works) = true

-- What becomes of the process of a worker.
pub data Life : Type 0 where
  exits : Life
  sleeps : Life
  crashes : Life
  waits : Life

module _ {F : Type 0} (env : Surroundings F) where
  -- `perfTest` once its channel is made: the works are done, and then the directories cleaned up.
  unfoldable pub perform_works : WorkerConf → List WorkItem → ℕ → Option Fsd → World → Performed
  perform_works config queue clients none w = crashed w
  perform_works config queue clients (some fsd) w =
      let works = run_works fsd queue in
      if no_reader clients works
      then hangs w
      else performed (
          ignoring (do_works env.draws config.test 0 (env.arrange works) w)
            (clean_queue config queue))

  -- `perfTest`: `make` panics at a negative number of clients.
  unfoldable pub perform : WorkerConf → List WorkItem → ℤ → World → Performed
  unfolding perform_works
  perform config queue (negsuc n) w = crashed w
  perform config queue (pos n) w = perform_works config queue n config.test.fsd w

  abbrev pub no_result : BenchmarkResult F
  no_result = record {
    test_name = [];
    successful_operations = env.numbers.naught;
    failed_operations = env.numbers.naught;
    workers = env.numbers.naught;
    parallel_clients = env.numbers.naught;
    bytes = env.numbers.naught;
    bandwidth_avg = env.numbers.naught;
    latency_avg = env.numbers.naught;
    gen_bytes_latency_avg = env.numbers.naught;
    duration = 0;
    op = 0;
    file_size = 0;
    depth = 0;
    width = 0;
    block_size = 0;
  }

  -- What the worker reports of a test.
  unfoldable pub report : WorkerConf → World → BenchmarkResult F
  report config w =
      let duration = env.elapsed w.samples in
      let values = current_prom_values env.numbers config.test.name (env.gather w.samples) in
      record values {
        duration = duration;
        bandwidth_avg = env.numbers.divide values.bytes (env.seconds duration);
      }

  abbrev pub Handled : Type 0
  Handled = State F × Option Ending

  -- `encoder.Encode`, and the error that is returned if it fails.
  unfoldable pub send : WorkerMessage F → Text → State F → Handled
  send message reason s =
      if env.sends (length s.sent)
      then (record s { sent = s.sent ++ sent_message message ∷ [] }, none)
      else (s, some (failed reason))

  abbrev pub preparations_done : WorkerMessage F
  preparations_done = record {
    message = codes "preparations done";
    config = none;
    bench_result = no_result;
  }

  abbrev pub work_done : BenchmarkResult F → WorkerMessage F
  work_done r = record { message = codes "work done"; config = none; bench_result = r }

  -- After `Prepare`, whose errors are only logged.
  unfoldable pub prepared : Worker → List (Outgoing F) → Result → Handled
  unfolding send
  prepared worker sent (panic, w) =
      (record { worker = worker; world = w; sent = sent }, some panicked)
  prepared worker sent (_, w) =
      send preparations_done (codes "Issue when sending preparations done to server")
        (record { worker = worker; world = w; sent = sent })

  abbrev pub with_queue : Option (List WorkItem) → WorkerConf → Worker
  with_queue queue config = record {
    work_queue = queue;
    parallel_clients = config.parallel_clients;
    config = some config;
  }

  unfoldable pub fill_and_prepare : WorkerConf → State F → Outcome Text (List WorkItem) → Handled
  unfolding prepared
  fill_and_prepare config s (ok queue) =
      prepared (with_queue (some queue) config) s.sent (prepare_queue config queue s.world)
  fill_and_prepare config s _ = (record s { worker = with_queue (some []) config }, some panicked)

  -- The case "init"; a message without a configuration is a nil pointer.
  unfoldable pub on_init : Option WorkerConf → State F → Handled
  unfolding fill_and_prepare
  on_init none s = (s, some panicked)
  on_init (some config) s = fill_and_prepare config s (fill_workqueue config [])

  unfoldable pub after_test : WorkerConf → State F → Performed → Handled
  unfolding send report
  after_test config s (finished w) =
      send (work_done (report config w)) (codes "Issue when sending work done to server")
        (record s { world = w })
  after_test config s (crashed w) = (record s { world = w }, some panicked)
  after_test config s (hangs w) = (record s { world = w }, some blocked)

  -- The case "start work": a queue that is nil panics, an empty one ends the connection.
  unfoldable pub on_start : Option (List WorkItem) → Option WorkerConf → State F → Handled
  unfolding after_test perform
  on_start none config s = (s, some panicked)
  on_start (some []) config s = (s, some stopped)
  on_start (some (item ∷ items)) none s = (s, some panicked)
  on_start (some (item ∷ items)) (some config) s =
      after_test config s (perform config (item ∷ items) s.worker.parallel_clients s.world)

  -- One round of the loop, with what `decoder.Decode` leaves in `response` if it does not fail.
  unfoldable pub handle : Option (WorkerMessage F) → State F → Handled
  unfolding on_init on_start
  handle none s = (s, some (failed (codes "Issue when receiving work from server")))
  handle (some m) s =
      if text_eq m.message (codes "init")
      then on_init m.config s
      else if text_eq m.message (codes "start work")
      then on_start s.worker.work_queue s.worker.config s
      else if text_eq m.message (codes "shutdown")
      then (s, some stopped)
      else (s, none)

  abbrev pub unless_ended : Handled → (State F → Handled) → Handled
  unless_ended (s, none) k = k s
  unless_ended (s, some e) k = (s, some e)

  -- The loop, over what comes in; without an ending the worker waits for more.
  unfoldable pub serve : List (Option (WorkerMessage F)) → State F → Handled
  unfolding handle
  serve [] s = (s, none)
  serve (m ∷ ms) s = unless_ended (handle m s) (serve ms)

  -- `ConnectToServer`: an address that does not answer is an error; one of "ready for work" is not looked
  -- at.
  unfoldable pub connect_to_server : Bool → List (Option (WorkerMessage F)) → State F → Handled
  unfolding serve
  connect_to_server answers incoming s =
      if answers
      then serve incoming (record s { sent = if env.sends 0 then hello ∷ [] else [] })
      else (s, some (failed (codes "dial")))

  abbrev pub next_connection : Bool → (State F → Life × State F) → Handled → Life × State F
  next_connection in_container again (s, none) = (waits, s)
  next_connection in_container again (s, some (failed reason)) = again s
  next_connection in_container again (s, some stopped) = (if in_container then sleeps else exits, s)
  next_connection in_container again (s, some panicked) = (crashes, s)
  next_connection in_container again (s, some blocked) = (waits, s)

  -- The loop of `run` in cmd/worker: after an error it connects again, with the same worker.
  unfoldable pub run_worker :
      Bool → List (Bool × List (Option (WorkerMessage F))) → State F → Life × State F
  unfolding connect_to_server
  run_worker in_container [] s = (waits, s)
  run_worker in_container ((answers, incoming) ∷ connections) s =
      next_connection in_container (run_worker in_container connections)
        (connect_to_server answers incoming s)
