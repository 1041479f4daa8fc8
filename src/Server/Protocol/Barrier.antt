-- ===== src/Server/Protocol/Barrier.antt =====
-- No worker starts before all have finished their preparations.
use fsbench.Prelude.{
  Bool, ℕ, zero, suc, ◌≤◌, ◌<◌, List, [], ◌∷◌, some, All, ◌≡◌, refl, sym, ap, ◌∙◌, subst, arith,
  get_elem?, length, length-replicate, replicate,
}
use fsbench.Server.Protocol.{
  Stage, preparing, dropped, Phase, awaiting_prepared, continuing, awaiting_done, awaiting_result,
  Session, schedule, advance, drop, take_turn, start_run, Reaches, at_start, after_turn,
}
use fsbench.Server.Protocol.Totals.{
  was_announced, was_continued, was_signalled, announced_bound, total-length, continued_announced,
  signalled_continued, total, total_announced-length, InPhase,
}
use fsbench.Server.Protocol.Schedule.{schedule_keeps}
use fsbench.Server.Protocol.Keeps.{Inv, advance_keeps, drop_keeps}

total_fresh : (f : Stage → ℕ) (n : ℕ) → f preparing ≡ 0 → total f (replicate n preparing) ≡ 0
total_fresh f zero h = refl
total_fresh f (suc n) h = omega (arith, h, total_fresh f n h)

start-Inv : (n : ℕ) (returns : Bool) → Inv n (start_run n returns)
unfolding start_run
start-Inv n returns = record {
  workers = length-replicate n preparing;
  counts = omega (arith, total_fresh was_announced n refl, total_fresh was_continued n refl);
}

pub Reaches-Inv : (n : ℕ) (s : Session) → Reaches n s → Inv n s
unfolding take_turn
Reaches-Inv n s (at_start returns) = start-Inv n returns
Reaches-Inv n s' (after_turn {s = s} schedule before h) =
    let inv = Reaches-Inv n s before in schedule_keeps n s inv s.phase s' inv.counts h
Reaches-Inv n s' (after_turn {s = s} (advance i) before h) =
    advance_keeps n s i (Reaches-Inv n s before) (get_elem? s.stages i) s' refl h
Reaches-Inv n s' (after_turn {s = s} (drop i) before h) =
    drop_keeps n s i (Reaches-Inv n s before) (get_elem? s.stages i) s' refl h

total_at :
    (f : Stage → ℕ) (xs : List Stage) (i : ℕ) (x : Stage)
    → get_elem? xs i ≡ some x
    → f x ≤ total f xs
total_at f [] i x h = cc
total_at f (z ∷ xs) zero x h = let same : z ≡ x = cc (h) in omega (arith, ap f same)
total_at f (z ∷ xs) (suc i) x h = omega (arith, total_at f xs i x h)

each_counts :
    (f : Stage → ℕ) (xs : List Stage)
    → ((x : Stage) → f x ≤ 1)
    → total f xs ≡ length xs
    → All (λ x. f x ≡ 1) xs
each_counts f [] bound h = tt
each_counts f (x ∷ xs) bound h =
    let one = bound x in
    let rest = total-length f xs bound in
    (omega (arith, h, one, rest), each_counts f xs bound (omega (arith, h, one, rest)))

signalled_bound : (x : Stage) → was_signalled x ≤ 1
signalled_bound x = omega (arith, signalled_continued x, continued_announced x, announced_bound x)

not_all :
    (xs : List Stage) (i : ℕ) (x : Stage)
    → get_elem? xs i ≡ some x
    → was_announced x ≡ 0
    → total was_announced xs < length xs
not_all [] i x h e = cc
not_all (z ∷ xs) zero x h e =
    let same : z ≡ x = cc (h) in omega (arith, ap was_announced same, e, total_announced-length xs)
not_all (z ∷ xs) (suc i) x h e = omega (arith, announced_bound z, not_all xs i x h e)

past_waiting : (n a c s d v : ℕ) (p : Phase) → 1 ≤ c → InPhase n a c s d v p → a ≡ n
past_waiting n a c s d v (awaiting_prepared k) le h = absurd (omega (arith, h))
past_waiting n a c s d v (continuing k) le h = h.0
past_waiting n a c s d v (awaiting_done k) le h = h.0
past_waiting n a c s d v (awaiting_result k) le h = h.0

still_waiting :
    (n a c s d v : ℕ) (p : Phase)
    → a < n
    → InPhase n a c s d v p
    → (k : ℕ) × (p ≡ awaiting_prepared k) × (k < n)
still_waiting n a c s d v (awaiting_prepared k) less h = (k, refl, omega (arith, h))
still_waiting n a c s d v (continuing k) less h = absurd (omega (arith, h))
still_waiting n a c s d v (awaiting_done k) less h = absurd (omega (arith, h))
still_waiting n a c s d v (awaiting_result k) less h = absurd (omega (arith, h))

-- In every state that a run can reach, if one worker has been told to start, then the goroutine of each
-- worker has signalled that its preparations are done.
pub no_early_start :
    (n : ℕ) (s : Session) (i : ℕ) (x : Stage)
    → Reaches n s
    → get_elem? s.stages i ≡ some x
    → was_continued x ≡ 1
    → All (λ y. was_announced y ≡ 1) s.stages
no_early_start n s i x reached at e =
    let inv = Reaches-Inv n s reached in
    each_counts was_announced s.stages announced_bound (
      past_waiting n _ _ _ _ _ s.phase (omega (arith, total_at was_continued s.stages i x at, e))
        inv.counts
      ∙ sym inv.workers)

-- In every state in which the connection of a worker has broken before its preparations were done, the
-- server is still waiting for preparations, with fewer signals than workers.
pub dropped_blocks :
    (n : ℕ) (s : Session) (i : ℕ)
    → Reaches n s
    → get_elem? s.stages i ≡ some dropped
    → (k : ℕ) × (s.phase ≡ awaiting_prepared k) × (k < n)
dropped_blocks n s i reached at =
    let inv = Reaches-Inv n s reached in
    still_waiting n _ _ _ _ _ s.phase
      (omega (arith, not_all s.stages i dropped at refl, inv.workers)) inv.counts

-- In every state in which the server has received as many results of a run as there are workers, the
-- goroutine of each worker has signalled that its work is done.
pub each_done_at_end :
    (n : ℕ) (s : Session)
    → Reaches n s
    → s.phase ≡ awaiting_done n
    → All (λ y. was_signalled y ≡ 1) s.stages
each_done_at_end n s reached e =
    let inv = Reaches-Inv n s reached in
    let at_end =
      subst
        (InPhase n (total was_announced s.stages) (total was_continued s.stages)
          (total was_signalled s.stages) s.done_channel s.continue_workers)
        e inv.counts in
    let few = total-length was_signalled s.stages signalled_bound in
    each_counts was_signalled s.stages signalled_bound (omega (arith, at_end, few, inv.workers))
