-- ===== src/Worker/Pool/Moves.antt =====
-- The moves of a run as a relation between states, one case for each kind of move.
use fsbench.Prelude.{
  ℕ, ◌<◌, true, List, [], ◌∷◌, ◌++◌, Option, none, some, get_elem?, set, length, ◌≡◌, refl, arith,
}
use fsbench.Worker.Queue.{Work}
use fsbench.Worker.Pool.{
  Client, idle, busy, stopped, Pool, Move, send, receive, finish, notice, do_work, send_next,
  receive_at, finish_at, notice_at, step,
}

-- The moves as a relation between states.
pub data Moved (capacity : ℕ) (p q : Pool) : Type 0 where
  sent :
      (w : Work) (rest : List Work)
      → p.pending ≡ w ∷ rest
      → length p.channel < capacity
      → q ≡ record p { pending = rest; channel = p.channel ++ w ∷ [] }
      → Moved capacity p q
  received :
      (i : ℕ) (w : Work) (rest : List Work)
      → get_elem? p.clients i ≡ some idle
      → p.channel ≡ w ∷ rest
      → q ≡ record p { channel = rest; clients = set p.clients i (do_work w) }
      → Moved capacity p q
  finished :
      (i : ℕ) (w : Work)
      → get_elem? p.clients i ≡ some (busy w)
      → q ≡ record p { clients = set p.clients i idle; done = p.done ++ w ∷ [] }
      → Moved capacity p q
  noticed : (i : ℕ) → get_elem? p.clients i ≡ some idle → p.notified ≡ true → Moved capacity p q

module _ (capacity : ℕ) (p q : Pool) where
  send-Moved :
      (pending : List Work)
      → p.pending ≡ pending
      → send_next capacity p pending ≡ some q
      → Moved capacity p q
  unfolding send_next
  send-Moved [] e h = cc
  send-Moved (w ∷ rest) e h = sent w rest e (ground arith) (ground arith)

  receive-Moved :
      (i : ℕ) (c : Option Client) (channel : List Work)
      → get_elem? p.clients i ≡ c
      → p.channel ≡ channel
      → receive_at p i c channel ≡ some q
      → Moved capacity p q
  unfolding receive_at
  receive-Moved i (some idle) (w ∷ rest) ec e h = received i w rest ec e (ground arith)
  receive-Moved i (some idle) [] ec e h = cc
  receive-Moved i (some (busy v)) channel ec e h = cc
  receive-Moved i (some stopped) channel ec e h = cc
  receive-Moved i none channel ec e h = cc

  finish-Moved :
      (i : ℕ) (c : Option Client)
      → get_elem? p.clients i ≡ c
      → finish_at p i c ≡ some q
      → Moved capacity p q
  unfolding finish_at
  finish-Moved i (some (busy w)) ec h = finished i w ec (ground arith)
  finish-Moved i (some idle) ec h = cc
  finish-Moved i (some stopped) ec h = cc
  finish-Moved i none ec h = cc

  notice-Moved :
      (i : ℕ) (c : Option Client)
      → get_elem? p.clients i ≡ c
      → notice_at p i c ≡ some q
      → Moved capacity p q
  unfolding notice_at
  notice-Moved i (some idle) ec h = noticed i ec (ground arith)
  notice-Moved i (some (busy v)) ec h = cc
  notice-Moved i (some stopped) ec h = cc
  notice-Moved i none ec h = cc

  pub step-Moved : (m : Move) → step capacity m p ≡ some q → Moved capacity p q
  unfolding step
  step-Moved send h = send-Moved p.pending refl h
  step-Moved (receive i) h = receive-Moved i (get_elem? p.clients i) p.channel refl refl h
  step-Moved (finish i) h = finish-Moved i (get_elem? p.clients i) refl h
  step-Moved (notice i) h = notice-Moved i (get_elem? p.clients i) refl h
