-- ===== src/Server/Protocol/Keeps.antt =====
-- Each move of a worker and its goroutine keeps the counts in step with the phase.
use fsbench.Prelude.{
  ℕ, zero, suc, Option, none, some, ◌≡◌, refl, ◌∙◌, subst, arith, get_elem?, set, length, ltb,
  Bool-cases, inl, inr,
}
use fsbench.Server.Protocol.{
  Stage, preparing, prepared, announced, started, finished, signalled, reported, dropped, lost,
  Phase, awaiting_prepared, continuing, awaiting_done, awaiting_result, Session, at_stage,
  take_continue, advance_at, drop_at,
}
use fsbench.Server.Protocol.Totals.{
  was_announced, was_continued, was_signalled, total, total-set, length-set, total_announced-length,
  total_signalled-continued, InPhase, announce_InPhase, start_InPhase, signal_InPhase,
}

-- The counts of a state fit its phase.
pub record Inv (n : ℕ) (s : Session) : Type 0 where
  pub workers : length s.stages ≡ n
  pub counts :
      InPhase n
        (total was_announced s.stages)
        (total was_continued s.stages)
        (total was_signalled s.stages)
        s.done_channel
        s.continue_workers
        s.phase

-- Counts that are the same numbers.
recount :
    (n : ℕ) {a c s d v a' c' s' d' v' : ℕ} (p : Phase)
    → a' ≡ a
    → c' ≡ c
    → s' ≡ s
    → d' ≡ d
    → v' ≡ v
    → InPhase n a c s d v p
    → InPhase n a' c' s' d' v' p
recount n (awaiting_prepared k) ea ec es ed ev h = omega (arith, ea, ec, es, ed, ev, h)
recount n (continuing k) ea ec es ed ev h = omega (arith, ea, ec, es, ed, ev, h)
recount n (awaiting_done k) ea ec es ed ev h = omega (arith, ea, ec, es, ed, ev, h)
recount n (awaiting_result k) ea ec es ed ev h = omega (arith, ea, ec, es, ed, ev, h)

pub some_inj : {A : Type 0} {a b : A} → some a ≡ some b → a ≡ b
some_inj h = cc

module _ (n : ℕ) (s : Session) (i : ℕ) (inv : Inv n s) where
  -- The counts after one worker has gone from `x` to `y`.
  module _ (x y : Stage) (at : get_elem? s.stages i ≡ some x) where
    moves :
        (was_announced y ≡ was_announced x)
        → (was_continued y ≡ was_continued x)
        → (was_signalled y ≡ was_signalled x)
        → Inv n (at_stage s i y)
    moves ea ec es = record {
      workers = length-set s.stages i y ∙ inv.workers;
      counts =
          recount n s.phase (omega (arith, total-set was_announced s.stages i x y at, ea))
            (omega (arith, total-set was_continued s.stages i x y at, ec))
            (omega (arith, total-set was_signalled s.stages i x y at, es)) refl refl inv.counts;
    }

  announces :
      get_elem? s.stages i ≡ some prepared
      → Inv n (record (at_stage s i announced) { done_channel = suc s.done_channel })
  announces at =
      let a = total-set was_announced s.stages i prepared announced at in
      let c = total-set was_continued s.stages i prepared announced at in
      let g = total-set was_signalled s.stages i prepared announced at in
      let few = total_announced-length (set s.stages i announced) in
      let same = length-set s.stages i announced in
      record {
        workers = same ∙ inv.workers;
        counts =
            recount n s.phase (omega (arith, a)) (omega (arith, c)) (omega (arith, g)) (omega arith)
              refl
              (announce_InPhase n (total was_announced s.stages) (total was_continued s.stages)
                (total was_signalled s.stages) s.done_channel s.continue_workers s.phase
                (omega (arith, a, few, same, inv.workers)) inv.counts);
      }

  signals :
      get_elem? s.stages i ≡ some finished
      → Inv n (record (at_stage s i signalled) { done_channel = suc s.done_channel })
  signals at =
      let a = total-set was_announced s.stages i finished signalled at in
      let c = total-set was_continued s.stages i finished signalled at in
      let g = total-set was_signalled s.stages i finished signalled at in
      let few = total_signalled-continued (set s.stages i signalled) in
      record {
        workers = length-set s.stages i signalled ∙ inv.workers;
        counts =
            recount n s.phase (omega (arith, a)) (omega (arith, c)) (omega (arith, g)) (omega arith)
              refl
              (signal_InPhase n (total was_announced s.stages) (total was_continued s.stages)
                (total was_signalled s.stages) s.done_channel s.continue_workers s.phase
                (omega (arith, c, g, few)) inv.counts);
      }

  starts :
      (v : ℕ) (s' : Session)
      → get_elem? s.stages i ≡ some announced
      → s.continue_workers ≡ v
      → take_continue s i v ≡ some s'
      → Inv n s'
  unfolding take_continue
  starts zero s' at e h = cc
  starts (suc v) s' at e h =
      let a = total-set was_announced s.stages i announced started at in
      let c = total-set was_continued s.stages i announced started at in
      let g = total-set was_signalled s.stages i announced started at in
      subst (Inv n) (some_inj h) (record {
        workers = length-set s.stages i started ∙ inv.workers;
        counts =
            recount n s.phase (omega (arith, a)) (omega (arith, c)) (omega (arith, g)) refl refl (
              start_InPhase n (total was_announced s.stages) (total was_continued s.stages)
                (total was_signalled s.stages) s.done_channel v s.phase
                (recount n s.phase refl refl refl refl (omega (arith, e)) inv.counts));
      })

  pub advance_keeps :
      (o : Option Stage) (s' : Session)
      → get_elem? s.stages i ≡ o
      → advance_at n s i o ≡ some s'
      → Inv n s'
  unfolding advance_at
  advance_keeps none s' at h = cc
  advance_keeps (some preparing) s' at h =
      subst (Inv n) (some_inj h) (moves preparing prepared at refl refl refl)
  advance_keeps (some prepared) s' at h = elim (Bool-cases (ltb s.done_channel n)) [
    | inl e ↦ subst (Inv n) (some_inj (rw e at h)) (announces at)
    | inr e ↦ absurd (cc (rw e at h))
  ]
  advance_keeps (some announced) s' at h = starts s.continue_workers s' at refl h
  advance_keeps (some started) s' at h = elim (Bool-cases s.returns) [
    | inl e ↦
        let m = moves started finished at refl refl refl in
        subst (Inv n) (some_inj (rw e at h)) (record { workers = m.workers; counts = m.counts })
    | inr e ↦ absurd (cc (rw e at h))
  ]
  advance_keeps (some finished) s' at h = elim (Bool-cases (ltb s.done_channel n)) [
    | inl e ↦ subst (Inv n) (some_inj (rw e at h)) (signals at)
    | inr e ↦ absurd (cc (rw e at h))
  ]
  advance_keeps (some signalled) s' at h = elim (Bool-cases (ltb s.result_channel n)) [
    | inl e ↦
        let m = moves signalled reported at refl refl refl in
        subst (Inv n) (some_inj (rw e at h)) (record { workers = m.workers; counts = m.counts })
    | inr e ↦ absurd (cc (rw e at h))
  ]
  advance_keeps (some reported) s' at h = cc
  advance_keeps (some dropped) s' at h = cc
  advance_keeps (some lost) s' at h = cc

  pub drop_keeps :
      (o : Option Stage) (s' : Session)
      → get_elem? s.stages i ≡ o
      → drop_at s i o ≡ some s'
      → Inv n s'
  unfolding drop_at
  drop_keeps none s' at h = cc
  drop_keeps (some preparing) s' at h =
      subst (Inv n) (some_inj h) (moves preparing dropped at refl refl refl)
  drop_keeps (some started) s' at h =
      subst (Inv n) (some_inj h) (moves started lost at refl refl refl)
  drop_keeps (some prepared) s' at h = cc
  drop_keeps (some announced) s' at h = cc
  drop_keeps (some finished) s' at h = cc
  drop_keeps (some signalled) s' at h = cc
  drop_keeps (some reported) s' at h = cc
  drop_keeps (some dropped) s' at h = cc
  drop_keeps (some lost) s' at h = cc
