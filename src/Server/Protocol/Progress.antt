-- ===== src/Server/Protocol/Progress.antt =====
-- A run goes on until its end, as long as no connection breaks (`scheduleTests` and
-- `executeTestOnWorker` of cmd/server/main.go).
use fsbench.Prelude.{
  true, ℕ, suc, ◌+◌, ◌*◌, ◌≤◌, ◌<◌, All, ◌≡◌, ◌≢◌, ◌⊎◌, refl, ap, arith, ltb, ◌==◌, Bool-cases, inl,
  inr,
}
use fsbench.Server.Protocol.{
  Phase, awaiting_prepared, continuing, awaiting_done, awaiting_result, Session, schedule_at,
  Reaches,
}
use fsbench.Server.Protocol.Totals.{
  total, was_announced, was_continued, was_signalled, total_signalled-continued, announced_bound,
  InPhase,
}
use fsbench.Server.Protocol.Keeps.{Inv}
use fsbench.Server.Protocol.Barrier.{Reaches-Inv}
use fsbench.Server.Protocol.Ends.{turns, run_bounded}
use fsbench.Server.Protocol.Tally.{was_reported, taken, Tally, Reaches-Tally}
use fsbench.Server.Protocol.Enabled.{
  IsConnected, All-at, find_gap, one, total-one, allowed, declined, below_length, continued_bound,
  GoesOn, advance-GoesOn, room, unannounced-Advances, unsignalled-Advances, unreported-Advances,
  schedule-GoesOn, take_done-some, take_result-some, other, some_or_none,
}

module _ (n : ℕ) (s : Session) (inv : Inv n s) (tally : Tally s)
    (connected : All IsConnected s.stages) (returns : s.returns ≡ true) where
  abbrev CountsAt : Phase → Type 0
  CountsAt =
      InPhase n (total was_announced s.stages) (total was_continued s.stages)
        (total was_signalled s.stages) s.done_channel s.continue_workers

  prepared-GoesOn :
      (k : ℕ) → s.phase ≡ awaiting_prepared k → k < n → CountsAt (awaiting_prepared k) → GoesOn n s
  unfolding schedule_at
  prepared-GoesOn k e less c = elim (some_or_none n s s.done_channel) [
    | inl h ↦
        let (s', taken) = take_done-some n s (awaiting_prepared (suc k)) s.done_channel h in
        schedule-GoesOn n s (awaiting_prepared k) e (s', simp (other n s k n less) taken)
    | inr h ↦
        let (i, x, at, few) =
          find_gap was_announced one s.stages
            (omega (arith, c, h, less, total-one s.stages, inv.workers)) in
        advance-GoesOn n s i x at (
          unannounced-Advances n s i x (All-at IsConnected s.stages i x connected at) few
            (omega (arith, h, less)))
  ]

  done-GoesOn :
      (k : ℕ) → s.phase ≡ awaiting_done k → k < n → CountsAt (awaiting_done k) → GoesOn n s
  unfolding schedule_at
  done-GoesOn k e less c = elim (some_or_none n s s.done_channel) [
    | inl h ↦
        let (s', taken) = take_done-some n s (awaiting_result k) s.done_channel h in
        schedule-GoesOn n s (awaiting_done k) e (s', simp (other n s k n less) taken)
    | inr h ↦
        let (i, x, at, few) =
          find_gap was_signalled was_announced s.stages (omega (arith, c, h, less)) in
        advance-GoesOn n s i x at (
          unsignalled-Advances n s i x (All-at IsConnected s.stages i x connected at)
            (omega (arith, few, announced_bound x)) (omega (arith, few, announced_bound x))
            (λ waits. omega (
              arith,
              c,
              inv.workers,
              below_length was_continued continued_bound s.stages i x at waits,
            ))
            (omega (arith, h, less)) returns)
  ]

  result-GoesOn : (k : ℕ) → s.phase ≡ awaiting_result k → CountsAt (awaiting_result k) → GoesOn n s
  unfolding schedule_at
  result-GoesOn k e c = elim (some_or_none n s s.result_channel) [
    | inl h ↦
        schedule-GoesOn n s (awaiting_result k) e
          (take_result-some n s (awaiting_done (suc k)) s.result_channel h)
    | inr h ↦
        let (i, x, at, few) =
          find_gap was_reported was_signalled s.stages (omega (arith, c, h, tally, ap taken e)) in
        advance-GoesOn n s i x at (
          unreported-Advances n s i x few (omega (arith, h, c, total_signalled-continued s.stages)))
  ]

  continuing-GoesOn :
      (k : ℕ) → s.phase ≡ continuing k → k < n → CountsAt (continuing k) → GoesOn n s
  unfolding schedule_at
  continuing-GoesOn k e less c = schedule-GoesOn n s (continuing k) e (
      declined (k == n) _ _ (other n s k n less) (
        allowed (ltb s.continue_workers n) _ _
          (room n s s.continue_workers (omega (arith, c, less)))))

  -- The loop that is over gives way to the next one.
  loop-GoesOn : (p : Phase) → s.phase ≡ p → CountsAt p → (p ≡ awaiting_done n) ⊎ GoesOn n s
  unfolding schedule_at
  loop-GoesOn (awaiting_prepared k) e c = elim (Bool-cases (k == n)) [
    | inl f ↦ inr (schedule-GoesOn n s (awaiting_prepared k) e (allowed (k == n) _ _ f))
    | inr f ↦ inr (prepared-GoesOn k e (ground arith) c)
  ]
  loop-GoesOn (continuing k) e c = elim (Bool-cases (k == n)) [
    | inl f ↦ inr (schedule-GoesOn n s (continuing k) e (allowed (k == n) _ _ f))
    | inr f ↦ inr (continuing-GoesOn k e (ground arith) c)
  ]
  loop-GoesOn (awaiting_done k) e c = elim (Bool-cases (k == n)) [
    | inl f ↦ inl (ap awaiting_done (ground arith))
    | inr f ↦
        let more : k ≢ n = ground arith in
        let few = total_signalled-continued s.stages in
        inr (done-GoesOn k e (omega (arith, more, few, c)) c)
  ]
  loop-GoesOn (awaiting_result k) e c = inr (result-GoesOn k e c)

-- As long as no connection has broken and the workers come to the end of what they start, a run of `n`
-- workers that is not at its end can go on without breaking a connection, and has made at most
-- `10 * n + 2` moves.
pub run_ends :
    (n : ℕ) (s : Session) (r : Reaches n s)
    → All IsConnected s.stages
    → s.returns ≡ true
    → ((s.phase ≡ awaiting_done n) ⊎ GoesOn n s) × (turns r ≤ 10 * n + 2)
run_ends n s r connected returns =
    let inv = Reaches-Inv n s r in
    (
      loop-GoesOn n s inv (Reaches-Tally n s r) connected returns s.phase refl inv.counts,
      run_bounded n s r,
    )
