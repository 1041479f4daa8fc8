-- ===== src/Server/Protocol/Tally.antt =====
-- The results of a run of cmd/server/main.go: those that the workers have reported are on
-- `resultChannel` or taken.
use fsbench.Prelude.{
  ℕ, zero, suc, ◌+◌, Option, none, some, ◌≡◌, refl, sym, ap, subst, arith, get_elem?, ltb, ◌==◌,
  replicate, Bool-cases, inl, inr,
}
use fsbench.Server.Protocol.{
  Stage, preparing, prepared, announced, started, finished, signalled, reported, dropped, lost,
  Phase, awaiting_prepared, continuing, awaiting_done, awaiting_result, Session, take_continue,
  advance_at, drop_at, take_done, take_result, schedule_at, schedule, advance, drop, take_turn,
  start_run, Reaches, at_start, after_turn,
}
use fsbench.Server.Protocol.Totals.{total, total-set}
use fsbench.Server.Protocol.Keeps.{some_inj}

-- 1 for a worker whose result is on the channel or taken.
abbrev pub was_reported : Stage → ℕ
was_reported reported = 1
was_reported _ = 0

-- The results that the server has taken.
abbrev pub taken : Phase → ℕ
taken (awaiting_prepared k) = 0
taken (continuing k) = 0
taken (awaiting_done k) = k
taken (awaiting_result k) = k

abbrev pub Tally : Session → Type 0
Tally s = total was_reported s.stages ≡ taken s.phase + s.result_channel

module _ (n : ℕ) (s : Session) (tally : Tally s) where
  continue-Tally :
      (i v : ℕ) (s' : Session)
      → get_elem? s.stages i ≡ some announced
      → take_continue s i v ≡ some s'
      → Tally s'
  unfolding take_continue
  continue-Tally i zero s' at h = cc
  continue-Tally i (suc v) s' at h =
      subst Tally (some_inj h)
        (omega (arith, tally, total-set was_reported s.stages i announced started at))

  advance-Tally :
      (i : ℕ) (o : Option Stage) (s' : Session)
      → get_elem? s.stages i ≡ o
      → advance_at n s i o ≡ some s'
      → Tally s'
  unfolding advance_at
  advance-Tally i none s' at h = cc
  advance-Tally i (some preparing) s' at h =
      subst Tally (some_inj h)
        (omega (arith, tally, total-set was_reported s.stages i preparing prepared at))
  advance-Tally i (some prepared) s' at h = elim (Bool-cases (ltb s.done_channel n)) [
    | inl e ↦
        subst Tally (some_inj (rw e at h))
          (omega (arith, tally, total-set was_reported s.stages i prepared announced at))
    | inr e ↦ absurd (cc (rw e at h))
  ]
  advance-Tally i (some announced) s' at h = continue-Tally i s.continue_workers s' at h
  advance-Tally i (some started) s' at h = elim (Bool-cases s.returns) [
    | inl e ↦
        subst Tally (some_inj (rw e at h))
          (omega (arith, tally, total-set was_reported s.stages i started finished at))
    | inr e ↦ absurd (cc (rw e at h))
  ]
  advance-Tally i (some finished) s' at h = elim (Bool-cases (ltb s.done_channel n)) [
    | inl e ↦
        subst Tally (some_inj (rw e at h))
          (omega (arith, tally, total-set was_reported s.stages i finished signalled at))
    | inr e ↦ absurd (cc (rw e at h))
  ]
  advance-Tally i (some signalled) s' at h = elim (Bool-cases (ltb s.result_channel n)) [
    | inl e ↦
        subst Tally (some_inj (rw e at h))
          (omega (arith, tally, total-set was_reported s.stages i signalled reported at))
    | inr e ↦ absurd (cc (rw e at h))
  ]
  advance-Tally i (some reported) s' at h = cc
  advance-Tally i (some dropped) s' at h = cc
  advance-Tally i (some lost) s' at h = cc

  drop-Tally :
      (i : ℕ) (o : Option Stage) (s' : Session)
      → get_elem? s.stages i ≡ o
      → drop_at s i o ≡ some s'
      → Tally s'
  unfolding drop_at
  drop-Tally i none s' at h = cc
  drop-Tally i (some preparing) s' at h =
      subst Tally (some_inj h)
        (omega (arith, tally, total-set was_reported s.stages i preparing dropped at))
  drop-Tally i (some started) s' at h =
      subst Tally (some_inj h)
        (omega (arith, tally, total-set was_reported s.stages i started lost at))
  drop-Tally i (some prepared) s' at h = cc
  drop-Tally i (some announced) s' at h = cc
  drop-Tally i (some finished) s' at h = cc
  drop-Tally i (some signalled) s' at h = cc
  drop-Tally i (some reported) s' at h = cc
  drop-Tally i (some dropped) s' at h = cc
  drop-Tally i (some lost) s' at h = cc

  done-Tally :
      (p : Phase) (d : ℕ) (s' : Session)
      → taken p ≡ taken s.phase
      → take_done s p d ≡ some s'
      → Tally s'
  unfolding take_done
  done-Tally p zero s' same h = cc
  done-Tally p (suc d) s' same h = subst Tally (some_inj h) (omega (arith, tally, same))

  result-Tally :
      (k r : ℕ) (s' : Session)
      → s.phase ≡ awaiting_result k
      → s.result_channel ≡ r
      → take_result s (awaiting_done (suc k)) r ≡ some s'
      → Tally s'
  unfolding take_result
  result-Tally k zero s' e c h = cc
  result-Tally k (suc r) s' e c h = subst Tally (some_inj h) (omega (arith, tally, ap taken e, c))

  schedule-Tally : (p : Phase) (s' : Session) → s.phase ≡ p → schedule_at n s p ≡ some s' → Tally s'
  unfolding schedule_at
  schedule-Tally (awaiting_prepared k) s' e h = elim (Bool-cases (k == n)) [
    | inl f ↦ subst Tally (some_inj (rw f at h)) (omega (arith, tally, ap taken e))
    | inr f ↦
        done-Tally (awaiting_prepared (suc k)) s.done_channel s' (sym (ap taken e)) (rw f at h)
  ]
  schedule-Tally (continuing k) s' e h = elim (Bool-cases (k == n)) [
    | inl f ↦ subst Tally (some_inj (rw f at h)) (omega (arith, tally, ap taken e))
    | inr f ↦ elim (Bool-cases (ltb s.continue_workers n)) [
      | inl l ↦ subst Tally (some_inj (rw (f, l) at h)) (omega (arith, tally, ap taken e))
      | inr l ↦ absurd (cc (rw (f, l) at h))
    ]
  ]
  schedule-Tally (awaiting_done k) s' e h = elim (Bool-cases (k == n)) [
    | inl f ↦ absurd (cc (rw f at h))
    | inr f ↦ done-Tally (awaiting_result k) s.done_channel s' (sym (ap taken e)) (rw f at h)
  ]
  schedule-Tally (awaiting_result k) s' e h = result-Tally k s.result_channel s' e refl h

fresh_tally : (n : ℕ) → total was_reported (replicate n preparing) ≡ 0
fresh_tally zero = refl
fresh_tally (suc n) = omega (arith, fresh_tally n)

pub Reaches-Tally : (n : ℕ) (s : Session) → Reaches n s → Tally s
unfolding take_turn start_run
Reaches-Tally n s (at_start returns) = omega (arith, fresh_tally n)
Reaches-Tally n s' (after_turn {s = s} schedule before h) =
    schedule-Tally n s (Reaches-Tally n s before) s.phase s' refl h
Reaches-Tally n s' (after_turn {s = s} (advance i) before h) =
    advance-Tally n s (Reaches-Tally n s before) i (get_elem? s.stages i) s' refl h
Reaches-Tally n s' (after_turn {s = s} (drop i) before h) =
    drop-Tally n s (Reaches-Tally n s before) i (get_elem? s.stages i) s' refl h
