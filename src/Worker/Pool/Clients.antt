-- ===== src/Worker/Pool/Clients.antt =====
-- The list of clients: the works that are being done, the clients that have stopped, and how a
-- change of one client changes these.
use mathlib.Core.List.{Perm}
use mathlib.Core.List.Perm
use fsbench.Prelude.{
  ℕ, zero, suc, ◌+◌, ◌≤◌, ◌<◌, List, [], ◌∷◌, some, get_elem?, set, length, replicate, ◌≡◌, refl,
  ap, arith, subst,
}
use fsbench.Worker.Queue.{Work}
use fsbench.Worker.Pool.{Client, idle, busy, stopped, AllStopped}

abbrev pub busy_works : List Client → List Work
busy_works [] = []
busy_works (idle ∷ cs) = busy_works cs
busy_works (busy w ∷ cs) = w ∷ busy_works cs
busy_works (stopped ∷ cs) = busy_works cs

abbrev pub count_stopped : List Client → ℕ
count_stopped [] = 0
count_stopped (idle ∷ cs) = count_stopped cs
count_stopped (busy w ∷ cs) = count_stopped cs
count_stopped (stopped ∷ cs) = suc (count_stopped cs)

-- An idle client takes a work.
pub busy_works-take :
    (cs : List Client) (i : ℕ) (w : Work)
    → get_elem? cs i ≡ some idle
    → Perm (busy_works (set cs i (busy w))) (w ∷ busy_works cs)
busy_works-take [] i w h = cc
busy_works-take (idle ∷ cs) zero w h = Perm.refl (w ∷ busy_works cs)
busy_works-take (busy v ∷ cs) zero w h = cc
busy_works-take (stopped ∷ cs) zero w h = cc
busy_works-take (idle ∷ cs) (suc i) w h = busy_works-take cs i w h
busy_works-take (stopped ∷ cs) (suc i) w h = busy_works-take cs i w h
busy_works-take (busy v ∷ cs) (suc i) w h =
    Perm.trans (Perm.cons v (busy_works-take cs i w h)) (Perm.swap w v (busy_works cs))

pub count_stopped-take :
    (cs : List Client) (i : ℕ) (w : Work)
    → get_elem? cs i ≡ some idle
    → count_stopped (set cs i (busy w)) ≡ count_stopped cs
count_stopped-take [] i w h = cc
count_stopped-take (idle ∷ cs) zero w h = refl
count_stopped-take (busy v ∷ cs) zero w h = cc
count_stopped-take (stopped ∷ cs) zero w h = cc
count_stopped-take (idle ∷ cs) (suc i) w h = count_stopped-take cs i w h
count_stopped-take (stopped ∷ cs) (suc i) w h = ap suc (count_stopped-take cs i w h)
count_stopped-take (busy v ∷ cs) (suc i) w h = count_stopped-take cs i w h

-- An idle client stops.
pub stop_idle :
    (cs : List Client) (i : ℕ)
    → get_elem? cs i ≡ some idle
    → (busy_works (set cs i stopped) ≡ busy_works cs)
      × (count_stopped (set cs i stopped) ≡ suc (count_stopped cs))
stop_idle [] i h = cc
stop_idle (idle ∷ cs) zero h = (refl, refl)
stop_idle (busy v ∷ cs) zero h = cc
stop_idle (stopped ∷ cs) zero h = cc
stop_idle (idle ∷ cs) (suc i) h = stop_idle cs i h
stop_idle (stopped ∷ cs) (suc i) h = let (same, more) = stop_idle cs i h in (same, ap suc more)
stop_idle (busy v ∷ cs) (suc i) h =
    let (same, more) = stop_idle cs i h in (ap (λ (l : List Work). v ∷ l) same, more)

-- A client has done its work.
pub busy_works-finish :
    (cs : List Client) (i : ℕ) (w : Work)
    → get_elem? cs i ≡ some (busy w)
    → Perm (busy_works cs) (w ∷ busy_works (set cs i idle))
busy_works-finish [] i w h = cc
busy_works-finish (idle ∷ cs) zero w h = cc
busy_works-finish (busy v ∷ cs) zero w h =
    subst (λ (u : Work). Perm (v ∷ busy_works cs) (u ∷ busy_works cs)) (ground arith)
      (Perm.refl (v ∷ busy_works cs))
busy_works-finish (stopped ∷ cs) zero w h = cc
busy_works-finish (idle ∷ cs) (suc i) w h = busy_works-finish cs i w h
busy_works-finish (stopped ∷ cs) (suc i) w h = busy_works-finish cs i w h
busy_works-finish (busy v ∷ cs) (suc i) w h =
    Perm.trans (Perm.cons v (busy_works-finish cs i w h))
      (Perm.swap w v (busy_works (set cs i idle)))

pub count_stopped-finish :
    (cs : List Client) (i : ℕ) (w : Work)
    → get_elem? cs i ≡ some (busy w)
    → count_stopped (set cs i idle) ≡ count_stopped cs
count_stopped-finish [] i w h = cc
count_stopped-finish (idle ∷ cs) zero w h = cc
count_stopped-finish (busy v ∷ cs) zero w h = refl
count_stopped-finish (stopped ∷ cs) zero w h = cc
count_stopped-finish (idle ∷ cs) (suc i) w h = count_stopped-finish cs i w h
count_stopped-finish (stopped ∷ cs) (suc i) w h = ap suc (count_stopped-finish cs i w h)
count_stopped-finish (busy v ∷ cs) (suc i) w h = count_stopped-finish cs i w h

-- A client that can go on, or all have stopped.
pub data Activity (cs : List Client) : Type 0 where
  waits : (i : ℕ) → get_elem? cs i ≡ some idle → Activity cs
  works : (i : ℕ) (w : Work) → get_elem? cs i ≡ some (busy w) → Activity cs
  rests : AllStopped cs → Activity cs

pub activity : (cs : List Client) → Activity cs
activity [] = rests tt
activity (idle ∷ cs) = waits 0 refl
activity (busy w ∷ cs) = works 0 w refl
activity (stopped ∷ cs) = elim (activity cs) [
  | waits i h ↦ waits (suc i) h
  | works i w h ↦ works (suc i) w h
  | rests h ↦ rests h
]

pub all_stopped :
    (cs : List Client) → AllStopped cs → (count_stopped cs ≡ length cs) × (busy_works cs ≡ [])
all_stopped [] h = (refl, refl)
all_stopped (stopped ∷ cs) h = let (n, b) = all_stopped cs h in (ap suc n, b)
all_stopped (idle ∷ cs) h = absurd h
all_stopped (busy w ∷ cs) h = absurd h

pub fresh_clients :
    (n : ℕ) → (busy_works (replicate n idle) ≡ []) × (count_stopped (replicate n idle) ≡ 0)
fresh_clients zero = (refl, refl)
fresh_clients (suc n) = fresh_clients n

-- 1 for a client that is at a work
abbrev pub weight : Client → ℕ
weight idle = 0
weight (busy w) = 1
weight stopped = 0

busy_head :
    (d c' : Client) (cs : List Client)
    → length (busy_works (c' ∷ cs)) + weight d ≡ length (busy_works (d ∷ cs)) + weight c'
busy_head d c' cs = ground arith

pub busy_count :
    (cs : List Client) (i : ℕ) (c c' : Client)
    → get_elem? cs i ≡ some c
    → length (busy_works (set cs i c')) + weight c ≡ length (busy_works cs) + weight c'
busy_count [] i c c' h = cc
busy_count (d ∷ cs) zero c c' h =
    subst
      (λ (e : Client).
        length (busy_works (c' ∷ cs)) + weight e ≡ length (busy_works (d ∷ cs)) + weight c')
      (ground arith) (busy_head d c' cs)
busy_count (idle ∷ cs) (suc i) c c' h = busy_count cs i c c' h
busy_count (busy w ∷ cs) (suc i) c c' h = omega (arith, busy_count cs i c c' h)
busy_count (stopped ∷ cs) (suc i) c c' h = busy_count cs i c c' h

count_stopped-le : (cs : List Client) → count_stopped cs ≤ length cs
count_stopped-le [] = omega arith
count_stopped-le (idle ∷ cs) = omega (arith, count_stopped-le cs)
count_stopped-le (busy w ∷ cs) = omega (arith, count_stopped-le cs)
count_stopped-le (stopped ∷ cs) = omega (arith, count_stopped-le cs)

pub idle_not_stopped :
    (cs : List Client) (i : ℕ) → get_elem? cs i ≡ some idle → count_stopped cs < length cs
idle_not_stopped [] i h = cc
idle_not_stopped (idle ∷ cs) zero h = omega (arith, count_stopped-le cs)
idle_not_stopped (busy w ∷ cs) zero h = cc
idle_not_stopped (stopped ∷ cs) zero h = cc
idle_not_stopped (idle ∷ cs) (suc i) h = omega (arith, idle_not_stopped cs i h)
idle_not_stopped (busy w ∷ cs) (suc i) h = omega (arith, idle_not_stopped cs i h)
idle_not_stopped (stopped ∷ cs) (suc i) h = omega (arith, idle_not_stopped cs i h)
