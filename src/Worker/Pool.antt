-- ===== src/Worker/Pool.antt =====
-- The clients of a run (pkg/worker/worker.go): `perfTest` starts one goroutine of `DoWork` for each
-- client, `workOneShot` sends the works over a buffered channel, and the clients take them from it.
-- A state is what is still to be sent, what the channel holds, and what each client is at. The
-- goroutines are interleaved in any order, one move at a time. In a move every `Do` returns; Process has
-- the panics, which end the process. The proofs are in the modules below.
mod Clients
mod Moves
pub mod Invariant
pub mod Once
pub mod Ends
pub mod Process
use fsbench.Prelude.{
  ℕ, suc, Bool, true, false, List, [], ◌∷◌, ◌++◌, Option, none, some, ◌≡◌, get_elem?, set, length,
  replicate, if◌then◌else◌, ltb,
}
use fsbench.Worker.Queue.{WorkItem, stopper, Work}

-- Where a goroutine of `DoWork` is: at its `select`, in `Do`, or returned.
pub data Client : Type 0 where
  idle : Client
  busy : Work → Client
  stopped : Client

pub record Pool : Type 0 where
  -- what `workOneShot` has still to send
  pub pending : List Work
  pub channel : List Work
  pub clients : List Client
  -- the works of which `Do` has returned, in that order; its error is only logged
  pub done : List Work
  -- whether `notifyChan` can be received from
  pub notified : Bool

unfoldable pub is_stopper : WorkItem → Bool
is_stopper stopper = true
is_stopper _ = false

-- The body of the `select` case for a work: a stopper ends the goroutine.
unfoldable pub do_work : Work → Client
unfolding is_stopper
do_work w = if is_stopper w.item then stopped else busy w

-- `workChannel <- work` goes on while the buffer has room.
unfoldable pub send_next : ℕ → Pool → List Work → Option Pool
send_next capacity p [] = none
send_next capacity p (w ∷ rest) =
    if ltb (length p.channel) capacity
    then some (record p { pending = rest; channel = p.channel ++ w ∷ [] })
    else none

unfoldable pub receive_at : Pool → ℕ → Option Client → List Work → Option Pool
receive_at p i (some idle) (w ∷ rest) =
    some (record p { channel = rest; clients = set p.clients i (do_work w) })
receive_at p i _ _ = none

unfoldable pub finish_at : Pool → ℕ → Option Client → Option Pool
finish_at p i (some (busy w)) =
    some (record p { clients = set p.clients i idle; done = p.done ++ w ∷ [] })
finish_at p i _ = none

unfoldable pub notice_at : Pool → ℕ → Option Client → Option Pool
notice_at p i (some idle) =
    if p.notified then some (record p { clients = set p.clients i stopped }) else none
notice_at p i _ = none

pub data Move : Type 0 where
  send : Move
  receive : ℕ → Move
  finish : ℕ → Move
  notice : ℕ → Move

-- One move; `none` where it is blocked.
unfoldable pub step : ℕ → Move → Pool → Option Pool
unfolding send_next receive_at finish_at notice_at do_work
step capacity send p = send_next capacity p p.pending
step capacity (receive i) p = receive_at p i (get_elem? p.clients i) p.channel
step capacity (finish i) p = finish_at p i (get_elem? p.clients i)
step capacity (notice i) p = notice_at p i (get_elem? p.clients i)

-- `perfTest` makes a channel with one place for each client; nothing is ever sent on `notifyChan`.
unfoldable pub perf_test : List Work → ℕ → Pool
perf_test works parallel_clients = record {
  pending = works;
  channel = [];
  clients = replicate parallel_clients idle;
  done = [];
  notified = false;
}

-- A schedule, the first move first, all of whose moves can be made.
pub data Run (capacity : ℕ) (p : Pool) : ℕ → Pool → Type 0 where
  here : Run capacity p 0 p
  next :
      {n : ℕ} {q r : Pool} (m : Move)
      → Run capacity p n q
      → step capacity m q ≡ some r
      → Run capacity p (suc n) r

-- `wg.Wait()` returns when each client has returned.
abbrev pub AllStopped : List Client → Type 0
AllStopped [] = Unit
AllStopped (stopped ∷ cs) = AllStopped cs
AllStopped (idle ∷ cs) = ⊥
AllStopped (busy w ∷ cs) = ⊥
