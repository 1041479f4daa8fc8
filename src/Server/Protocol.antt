-- ===== src/Server/Protocol.antt =====
-- One run of cmd/server/main.go: `scheduleTests` and its goroutines of `executeTestOnWorker`, which
-- meet over three buffered channels, with workers that answer as `ConnectToServer` of
-- pkg/worker/worker.go does. A channel is the number of values in it. The moves are interleaved in any
-- order. The proofs are in the modules below.
pub mod Totals
mod Keeps
mod Schedule
pub mod Barrier
pub mod Ends
mod Tally
pub mod Enabled
pub mod Progress
use fsbench.Prelude.{
  ℕ, zero, suc, ◌+◌, Bool, List, [], ◌∷◌, Option, none, some, ◌≡◌, get_elem?, set, replicate,
  if◌then◌else◌, ltb, ◌==◌,
}

-- Where a worker and its goroutine on the server are.
pub data Stage : Type 0 where
  -- the configuration is sent, the worker prepares
  preparing : Stage
  -- the worker has sent "preparations done"
  prepared : Stage
  -- the goroutine has put a value on `doneChannel` and waits for `continueWorkers`
  announced : Stage
  -- "start work" is sent, the worker works
  started : Stage
  -- the worker has sent "work done"
  finished : Stage
  -- the goroutine has put its second value on `doneChannel`
  signalled : Stage
  -- the result is on `resultChannel`, and the goroutine has returned
  reported : Stage
  -- the goroutine could not decode a message, and has returned: before or after the work was started
  dropped : Stage
  lost : Stage

-- Which loop of `scheduleTests` is running, with the rounds it has made.
pub data Phase : Type 0 where
  awaiting_prepared : ℕ → Phase
  continuing : ℕ → Phase
  awaiting_done : ℕ → Phase
  -- a value of `doneChannel` is taken, its result is awaited
  awaiting_result : ℕ → Phase

pub record Session : Type 0 where
  pub stages : List Stage
  pub phase : Phase
  pub done_channel : ℕ
  pub continue_workers : ℕ
  pub result_channel : ℕ
  -- whether a worker comes from "start work" to "work done": with no client and a work to send,
  -- `perfTest` blocks for ever on a connection that is good
  pub returns : Bool

abbrev pub at_stage : Session → ℕ → Stage → Session
at_stage s i y = record s { stages = set s.stages i y }

unfoldable pub take_continue : Session → ℕ → ℕ → Option Session
take_continue s i zero = none
take_continue s i (suc c) = some (record (at_stage s i started) { continue_workers = c })

-- The next move of a worker or its goroutine; a channel holds no more than `workers` values.
unfoldable pub advance_at : ℕ → Session → ℕ → Option Stage → Option Session
unfolding take_continue
advance_at workers s i (some preparing) = some (at_stage s i prepared)
advance_at workers s i (some prepared) =
    if ltb s.done_channel workers
    then some (record (at_stage s i announced) { done_channel = suc s.done_channel })
    else none
advance_at workers s i (some announced) = take_continue s i s.continue_workers
advance_at workers s i (some started) = if s.returns then some (at_stage s i finished) else none
advance_at workers s i (some finished) =
    if ltb s.done_channel workers
    then some (record (at_stage s i signalled) { done_channel = suc s.done_channel })
    else none
advance_at workers s i (some signalled) =
    if ltb s.result_channel workers
    then some (record (at_stage s i reported) { result_channel = suc s.result_channel })
    else none
advance_at workers s i (some reported) = none
advance_at workers s i (some dropped) = none
advance_at workers s i (some lost) = none
advance_at workers s i none = none

-- A message that cannot be decoded.
unfoldable pub drop_at : Session → ℕ → Option Stage → Option Session
drop_at s i (some preparing) = some (at_stage s i dropped)
drop_at s i (some started) = some (at_stage s i lost)
drop_at s i _ = none

unfoldable pub take_done : Session → Phase → ℕ → Option Session
take_done s next zero = none
take_done s next (suc d) = some (record s { phase = next; done_channel = d })

unfoldable pub take_result : Session → Phase → ℕ → Option Session
take_result s next zero = none
take_result s next (suc r) = some (record s { phase = next; result_channel = r })

-- The next move of `scheduleTests`; it is at the end of the run at `awaiting_done workers`.
unfoldable pub schedule_at : ℕ → Session → Phase → Option Session
unfolding take_done take_result
schedule_at workers s (awaiting_prepared k) =
    if k == workers
    then some (record s { phase = continuing 0 })
    else take_done s (awaiting_prepared (suc k)) s.done_channel
schedule_at workers s (continuing k) =
    if k == workers
    then some (record s { phase = awaiting_done 0 })
    else if ltb s.continue_workers workers
    then some (record s { phase = continuing (suc k); continue_workers = suc s.continue_workers })
    else none
schedule_at workers s (awaiting_done k) =
    if k == workers then none else take_done s (awaiting_result k) s.done_channel
schedule_at workers s (awaiting_result k) = take_result s (awaiting_done (suc k)) s.result_channel

pub data Turn : Type 0 where
  schedule : Turn
  advance : ℕ → Turn
  drop : ℕ → Turn

unfoldable pub take_turn : ℕ → Turn → Session → Option Session
unfolding advance_at drop_at schedule_at
take_turn workers schedule s = schedule_at workers s s.phase
take_turn workers (advance i) s = advance_at workers s i (get_elem? s.stages i)
take_turn workers (drop i) s = drop_at s i (get_elem? s.stages i)

unfoldable pub start_run : ℕ → Bool → Session
start_run workers returns = record {
  stages = replicate workers preparing;
  phase = awaiting_prepared 0;
  done_channel = 0;
  continue_workers = 0;
  result_channel = 0;
  returns = returns;
}

-- The states that a run can reach.
pub data Reaches (workers : ℕ) : Session → Type 0 where
  at_start : (returns : Bool) → Reaches workers (start_run workers returns)
  after_turn :
      {s s' : Session} (t : Turn)
      → Reaches workers s
      → take_turn workers t s ≡ some s'
      → Reaches workers s'
