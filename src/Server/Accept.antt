-- ===== src/Server/Accept.antt =====
-- How cmd/server/main.go takes in its workers: the goroutines of `run`, the first loop of
-- `scheduleTests`, and the shutdown of those that come when all is done.
use mathlib.Core.Option
use fsbench.Prelude.{
  ℕ, zero, suc, Bool, List, [], ◌∷◌, Option, none, some, Text, codes, text_eq, if◌then◌else◌,
}

-- What becomes of a connection: closed where its first message cannot be decoded, on `readyWorkers`, or
-- neither.
pub data Entry : Type 0 where
  closed ready ignored : Entry

unfoldable pub on_connection : Option Text → Entry
on_connection none = closed
on_connection (some message) = if text_eq message (codes "ready for work") then ready else ignored

abbrev pub is_ready : Entry → Bool
is_ready ready = Bool.true
is_ready closed = Bool.false
is_ready ignored = Bool.false

-- The connections on `readyWorkers`, in the order in which their first messages come in.
unfoldable pub ready_workers : List (ℕ × Option Text) → List ℕ
unfolding on_connection
ready_workers [] = []
ready_workers ((conn, message) ∷ connections) =
    let rest = ready_workers connections in
    if is_ready (on_connection message) then conn ∷ rest else rest

-- `workerConnections`, and the ready workers that are left; none while there are too few.
unfoldable pub take_workers : ℕ → List ℕ → Option (List ℕ × List ℕ)
take_workers zero rest = some ([], rest)
take_workers (suc n) [] = none
take_workers (suc n) (conn ∷ rest) = Option.map (λ w. (conn ∷ w.0, w.1)) (take_workers n rest)

-- The last loop of `scheduleTests`: what is sent to whom.
unfoldable pub shut_down : List ℕ → List (ℕ × Text)
shut_down [] = []
shut_down (conn ∷ conns) = (conn, codes "shutdown") ∷ shut_down conns
