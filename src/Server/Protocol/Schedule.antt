-- ===== src/Server/Protocol/Schedule.antt =====
-- Each move of `scheduleTests` keeps the counts in step with the phase.
use fsbench.Prelude.{
  ℕ, zero, suc, some, ◌≡◌, ◌≢◌, refl, subst, arith, ltb, ◌==◌, Bool-cases, inl, inr,
}
use fsbench.Server.Protocol.{
  Phase, awaiting_prepared, continuing, awaiting_done, awaiting_result, Session, take_done,
  take_result, schedule_at,
}
use fsbench.Server.Protocol.Totals.{
  was_announced, was_continued, was_signalled, total, total_announced-length,
  total_signalled-continued, InPhase,
}
use fsbench.Server.Protocol.Keeps.{Inv, some_inj}

module _ (n : ℕ) (s : Session) (inv : Inv n s) where
  abbrev Counts : ℕ → ℕ → Phase → Type 0
  Counts d v p =
      InPhase n (total was_announced s.stages) (total was_continued s.stages)
        (total was_signalled s.stages) d v p

  prepared_taken :
      (k d : ℕ) (s' : Session)
      → k ≢ n
      → s.done_channel ≡ d
      → Counts s.done_channel s.continue_workers (awaiting_prepared k)
      → take_done s (awaiting_prepared (suc k)) d ≡ some s'
      → Inv n s'
  unfolding take_done
  prepared_taken k zero s' ne e c h = cc
  prepared_taken k (suc d) s' ne e c h =
      subst (Inv n) (some_inj h)
        (record { workers = inv.workers; counts = omega (arith, c, e, ne) })

  done_taken :
      (k d : ℕ) (s' : Session)
      → s.done_channel ≡ d
      → Counts s.done_channel s.continue_workers (awaiting_done k)
      → take_done s (awaiting_result k) d ≡ some s'
      → Inv n s'
  unfolding take_done
  done_taken k zero s' e c h = cc
  done_taken k (suc d) s' e c h =
      subst (Inv n) (some_inj h) (record { workers = inv.workers; counts = omega (arith, c, e) })

  result_taken :
      (k r : ℕ) (s' : Session)
      → Counts s.done_channel s.continue_workers (awaiting_result k)
      → take_result s (awaiting_done (suc k)) r ≡ some s'
      → Inv n s'
  unfolding take_result
  result_taken k zero s' c h = cc
  result_taken k (suc r) s' c h =
      subst (Inv n) (some_inj h) (record { workers = inv.workers; counts = omega (arith, c) })

  pub schedule_keeps :
      (p : Phase) (s' : Session)
      → Counts s.done_channel s.continue_workers p
      → schedule_at n s p ≡ some s'
      → Inv n s'
  unfolding schedule_at
  schedule_keeps (awaiting_prepared k) s' c h = elim (Bool-cases (k == n)) [
    | inl e ↦
        let all : k ≡ n = ground arith in
        let few = total_announced-length s.stages in
        let none_signalled = total_signalled-continued s.stages in
        subst (Inv n) (some_inj (rw e at h)) (record {
          workers = inv.workers;
          counts = omega (arith, c, all, few, none_signalled, inv.workers);
        })
    | inr e ↦ prepared_taken k s.done_channel s' (ground arith) refl c (rw e at h)
  ]
  schedule_keeps (continuing k) s' c h = elim (Bool-cases (k == n)) [
    | inl e ↦
        let all : k ≡ n = ground arith in
        subst (Inv n) (some_inj (rw e at h))
          (record { workers = inv.workers; counts = omega (arith, c, all) })
    | inr e ↦ elim (Bool-cases (ltb s.continue_workers n)) [
      | inl l ↦
          let not_all : k ≢ n = ground arith in
          subst (Inv n) (some_inj (rw (e, l) at h))
            (record { workers = inv.workers; counts = omega (arith, c, not_all) })
      | inr l ↦ absurd (cc (rw (e, l) at h))
    ]
  ]
  schedule_keeps (awaiting_done k) s' c h = elim (Bool-cases (k == n)) [
    | inl e ↦ absurd (cc (rw e at h))
    | inr e ↦ done_taken k s.done_channel s' refl c (rw e at h)
  ]
  schedule_keeps (awaiting_result k) s' c h = result_taken k s.result_channel s' c h
