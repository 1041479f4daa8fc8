-- ===== src/Server/Protocol/Ends.antt =====
-- A run makes a bounded number of moves (`scheduleTests` and `executeTestOnWorker` of
-- cmd/server/main.go).
use fsbench.Prelude.{
  ℕ, zero, suc, ◌+◌, ◌-◌, ◌*◌, ◌≤◌, ◌<◌, Option, none, some, ◌≡◌, ◌≢◌, refl, ap, subst, arith,
  get_elem?, ltb, ◌==◌, replicate, Bool-cases, inl, inr,
}
use fsbench.Server.Protocol.{
  Stage, preparing, prepared, announced, started, finished, signalled, reported, dropped, lost,
  Phase, awaiting_prepared, continuing, awaiting_done, awaiting_result, Session, take_continue,
  advance_at, drop_at, take_done, take_result, schedule_at, Turn, schedule, advance, drop,
  take_turn, start_run, Reaches, at_start, after_turn,
}
use fsbench.Server.Protocol.Totals.{
  total, total-set, was_announced, was_continued, was_signalled, total_signalled-continued, InPhase,
}
use fsbench.Server.Protocol.Keeps.{Inv, some_inj}
use fsbench.Server.Protocol.Barrier.{Reaches-Inv}

-- The moves that are left to a worker and its goroutine.
abbrev pub steps_left : Stage → ℕ
steps_left preparing = 6
steps_left prepared = 5
steps_left announced = 4
steps_left started = 3
steps_left finished = 2
steps_left signalled = 1
steps_left reported = 0
steps_left dropped = 0
steps_left lost = 0

-- The moves that are left to the server.
abbrev pub rounds_left : ℕ → Phase → ℕ
rounds_left n (awaiting_prepared k) = n - k + 3 * n + 2
rounds_left n (continuing k) = n - k + 2 * n + 1
rounds_left n (awaiting_done k) = 2 * (n - k)
rounds_left n (awaiting_result k) = 2 * (n - k) - 1

abbrev pub left : ℕ → Session → ℕ
left n s = total steps_left s.stages + rounds_left n s.phase

module _ (n : ℕ) (s : Session) where
  abbrev Falls : Session → Type 0
  Falls s' = left n s' < left n s

  continue-Falls :
      (i v : ℕ) (s' : Session)
      → get_elem? s.stages i ≡ some announced
      → take_continue s i v ≡ some s'
      → Falls s'
  unfolding take_continue
  continue-Falls i zero s' at h = cc
  continue-Falls i (suc v) s' at h =
      subst Falls (some_inj h) (omega (arith, total-set steps_left s.stages i announced started at))

  advance-Falls :
      (i : ℕ) (o : Option Stage) (s' : Session)
      → get_elem? s.stages i ≡ o
      → advance_at n s i o ≡ some s'
      → Falls s'
  unfolding advance_at
  advance-Falls i none s' at h = cc
  advance-Falls i (some preparing) s' at h =
      subst Falls (some_inj h)
        (omega (arith, total-set steps_left s.stages i preparing prepared at))
  advance-Falls i (some prepared) s' at h = elim (Bool-cases (ltb s.done_channel n)) [
    | inl e ↦
        subst Falls (some_inj (rw e at h))
          (omega (arith, total-set steps_left s.stages i prepared announced at))
    | inr e ↦ absurd (cc (rw e at h))
  ]
  advance-Falls i (some announced) s' at h = continue-Falls i s.continue_workers s' at h
  advance-Falls i (some started) s' at h = elim (Bool-cases s.returns) [
    | inl e ↦
        subst Falls (some_inj (rw e at h))
          (omega (arith, total-set steps_left s.stages i started finished at))
    | inr e ↦ absurd (cc (rw e at h))
  ]
  advance-Falls i (some finished) s' at h = elim (Bool-cases (ltb s.done_channel n)) [
    | inl e ↦
        subst Falls (some_inj (rw e at h))
          (omega (arith, total-set steps_left s.stages i finished signalled at))
    | inr e ↦ absurd (cc (rw e at h))
  ]
  advance-Falls i (some signalled) s' at h = elim (Bool-cases (ltb s.result_channel n)) [
    | inl e ↦
        subst Falls (some_inj (rw e at h))
          (omega (arith, total-set steps_left s.stages i signalled reported at))
    | inr e ↦ absurd (cc (rw e at h))
  ]
  advance-Falls i (some reported) s' at h = cc
  advance-Falls i (some dropped) s' at h = cc
  advance-Falls i (some lost) s' at h = cc

  drop-Falls :
      (i : ℕ) (o : Option Stage) (s' : Session)
      → get_elem? s.stages i ≡ o
      → drop_at s i o ≡ some s'
      → Falls s'
  unfolding drop_at
  drop-Falls i none s' at h = cc
  drop-Falls i (some preparing) s' at h =
      subst Falls (some_inj h) (omega (arith, total-set steps_left s.stages i preparing dropped at))
  drop-Falls i (some started) s' at h =
      subst Falls (some_inj h) (omega (arith, total-set steps_left s.stages i started lost at))
  drop-Falls i (some prepared) s' at h = cc
  drop-Falls i (some announced) s' at h = cc
  drop-Falls i (some finished) s' at h = cc
  drop-Falls i (some signalled) s' at h = cc
  drop-Falls i (some reported) s' at h = cc
  drop-Falls i (some dropped) s' at h = cc
  drop-Falls i (some lost) s' at h = cc

  -- What a phase asks for, and what it goes on to.
  taken-Falls :
      (p : Phase) (d : ℕ) (s' : Session)
      → rounds_left n p < rounds_left n s.phase
      → take_done s p d ≡ some s'
      → Falls s'
  unfolding take_done
  taken-Falls p zero s' less h = cc
  taken-Falls p (suc d) s' less h = subst Falls (some_inj h) (omega (arith, less))

  result-Falls :
      (p : Phase) (r : ℕ) (s' : Session)
      → rounds_left n p < rounds_left n s.phase
      → take_result s p r ≡ some s'
      → Falls s'
  unfolding take_result
  result-Falls p zero s' less h = cc
  result-Falls p (suc r) s' less h = subst Falls (some_inj h) (omega (arith, less))

  abbrev CountsAt : Phase → Type 0
  CountsAt =
      InPhase n (total was_announced s.stages) (total was_continued s.stages)
        (total was_signalled s.stages) s.done_channel s.continue_workers

  schedule-Falls :
      (p : Phase) (s' : Session) → s.phase ≡ p → CountsAt p → schedule_at n s p ≡ some s' → Falls s'
  unfolding schedule_at
  schedule-Falls (awaiting_prepared k) s' e c h = elim (Bool-cases (k == n)) [
    | inl f ↦
        let all : k ≡ n = ground arith in
        let now = ap (rounds_left n) e in
        subst Falls (some_inj (rw f at h)) (omega (arith, now, all))
    | inr f ↦
        let more : k ≢ n = ground arith in
        let now = ap (rounds_left n) e in
        taken-Falls (awaiting_prepared (suc k)) s.done_channel s' (omega (arith, now, more, c))
          (rw f at h)
  ]
  schedule-Falls (continuing k) s' e c h = elim (Bool-cases (k == n)) [
    | inl f ↦
        let all : k ≡ n = ground arith in
        let now = ap (rounds_left n) e in
        subst Falls (some_inj (rw f at h)) (omega (arith, now, all))
    | inr f ↦ elim (Bool-cases (ltb s.continue_workers n)) [
      | inl l ↦
          let more : k ≢ n = ground arith in
          let now = ap (rounds_left n) e in
          subst Falls (some_inj (rw (f, l) at h)) (omega (arith, now, more, c))
      | inr l ↦ absurd (cc (rw (f, l) at h))
    ]
  ]
  schedule-Falls (awaiting_done k) s' e c h = elim (Bool-cases (k == n)) [
    | inl f ↦ absurd (cc (rw f at h))
    | inr f ↦
        let more : k ≢ n = ground arith in
        let now = ap (rounds_left n) e in
        let few = total_signalled-continued s.stages in
        taken-Falls (awaiting_result k) s.done_channel s' (omega (arith, now, more, c, few))
          (rw f at h)
  ]
  schedule-Falls (awaiting_result k) s' e c h =
      let now = ap (rounds_left n) e in
      let few = total_signalled-continued s.stages in
      result-Falls (awaiting_done (suc k)) s.result_channel s' (omega (arith, now, c, few)) h

turn_falls :
    (n : ℕ) (t : Turn) (s s' : Session) → Inv n s → take_turn n t s ≡ some s' → left n s' < left n s
unfolding take_turn
turn_falls n schedule s s' inv h = schedule-Falls n s s.phase s' refl inv.counts h
turn_falls n (advance i) s s' inv h = advance-Falls n s i (get_elem? s.stages i) s' refl h
turn_falls n (drop i) s s' inv h = drop-Falls n s i (get_elem? s.stages i) s' refl h

-- How many moves have been made.
abbrev pub turns : {n : ℕ} {s : Session} → Reaches n s → ℕ
turns (at_start returns) = 0
turns (after_turn t before h) = suc (turns before)

fresh_steps : (n : ℕ) → total steps_left (replicate n preparing) ≡ 6 * n
fresh_steps zero = refl
fresh_steps (suc n) = omega (arith, fresh_steps n)

pub turns_bounded : (n : ℕ) (s : Session) (r : Reaches n s) → turns r + left n s ≤ 10 * n + 2
unfolding start_run
turns_bounded n s (at_start returns) = omega (arith, fresh_steps n)
turns_bounded n s' (after_turn {s = s} t before h) =
    let falls = turn_falls n t s s' (Reaches-Inv n s before) h in
    omega (arith, falls, turns_bounded n s before)

-- Whatever the order of its moves, and broken connections and workers that hang included, a run of `n`
-- workers makes at most `10 * n + 2` moves.
pub run_bounded : (n : ℕ) (s : Session) (r : Reaches n s) → turns r ≤ 10 * n + 2
run_bounded n s r = omega (arith, turns_bounded n s r)
