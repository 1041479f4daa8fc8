-- ===== src/Worker/Pool/Once.antt =====
-- A run does each work once, cannot get stuck, and ends.
use mathlib.Core.List.{Perm}
use fsbench.Prelude.{
  ℕ, zero, suc, ◌<◌, List, [], ◌∷◌, ◌++◌, append-nil, none, some, get_elem?, length, replicate, All,
  ◌≡◌, ◌≢◌, inl, inr, refl, sym, ap, ◌∙◌, subst, arith,
}
use fsbench.Worker.Queue.{Work, stop_work}
use fsbench.Worker.Pool.{
  idle, busy, Pool, Move, send, receive, finish, send_next, receive_at, finish_at, step, perf_test,
  Run, AllStopped,
}
use fsbench.Worker.Pool.Clients.{waits, works, rests, activity, all_stopped, idle_not_stopped}
use fsbench.Worker.Pool.Invariant.{IsItem, Inv, Run-Holds, start-Holds}

-- No move can be made.
abbrev pub IsStuck : ℕ → Pool → Type 0
IsStuck capacity p = (m : Move) → step capacity m p ≡ none

module _ (capacity : ℕ) (p : Pool) (stuck : IsStuck capacity p) where
  none_busy : (i : ℕ) (w : Work) → get_elem? p.clients i ≢ some (busy w)
  unfolding step finish_at
  none_busy i w e = cc (rw e at (stuck (finish i)))

  none_waits :
      (i : ℕ) (w : Work) (rest : List Work)
      → p.channel ≡ w ∷ rest
      → get_elem? p.clients i ≢ some idle
  unfolding step receive_at
  none_waits i w rest ec e = cc (rw (e, ec) at (stuck (receive i)))

  none_sends : (w : Work) (rest : List Work) → length p.channel < capacity → p.pending ≢ w ∷ rest
  unfolding step send_next
  none_sends w rest h e = ground (arith, stuck send)

nil_parts : (xs ys : List Work) → xs ++ ys ≡ [] → (xs ≡ []) × (ys ≡ [])
nil_parts [] ys h = (refl, h)
nil_parts (x ∷ xs) ys h = cc

no_stopper_left : (n : ℕ) → replicate n stop_work ≡ [] → n ≡ 0
no_stopper_left zero h = refl
no_stopper_left (suc n) h = cc

-- Nothing is left to do, and each client has returned.
abbrev pub IsOver : List Work → Pool → Type 0
IsOver ws p = AllStopped p.clients × Perm p.done ws × (p.channel ≡ []) × (p.pending ≡ [])

module _ (ws : List Work) (n : ℕ) (p : Pool) (rest : List Work) (left : ℕ) where
  IsOver-at_rest : Inv ws n p rest left → 0 < n → AllStopped p.clients → IsOver ws p
  IsOver-at_rest inv pos h =
      let (all, quiet) = all_stopped p.clients h in
      let no_rest : rest ≡ [] = elim inv.late [
        | inl z ↦ absurd (omega (arith, all, inv.few))
        | inr e ↦ e
      ] in
      let no_left : left ≡ 0 = omega (arith, all, inv.few, inv.stops) in
      let (no_channel, no_pending) = nil_parts p.channel p.pending (
        inv.queued
        ∙ ap (λ (l : List Work). l ++ replicate left stop_work) no_rest
        ∙ ap (λ (m : ℕ). replicate m stop_work) no_left) in
      (
        h,
        subst (λ (l : List Work). Perm l ws) (append-nil p.done)
            (subst (λ (l : List Work). Perm (p.done ++ l) ws)
              (ap (λ (l : List Work). l ++ rest) quiet ∙ no_rest) inv.kept),
        no_channel,
        no_pending,
      )

  idle_moves :
      Inv ws n p rest left
      → 0 < n
      → IsStuck n p
      → (i : ℕ) → get_elem? p.clients i ≡ some idle
      → (channel pending : List Work) → p.channel ≡ channel
      → p.pending ≡ pending
      → ⊥
  idle_moves inv pos stuck i e (w ∷ more) pending ec ep = none_waits n p stuck i w more ec e
  idle_moves inv pos stuck i e [] (w ∷ more) ec ep = none_sends n p stuck w more (rw ec pos) ep
  idle_moves inv pos stuck i e [] [] ec ep =
      let (_, no_left) =
        nil_parts rest (replicate left stop_work)
          (sym inv.queued ∙ ap (λ (l : List Work). l ++ p.pending) ec ∙ ep) in
      absurd (
        omega
          (arith, idle_not_stopped p.clients i e, inv.few, inv.stops, no_stopper_left left no_left))

  stuck-IsOver : Inv ws n p rest left → 0 < n → IsStuck n p → IsOver ws p
  stuck-IsOver inv pos stuck = elim (activity p.clients) [
    | waits i e ↦ absurd (idle_moves inv pos stuck i e p.channel p.pending refl refl)
    | works i w e ↦ absurd (none_busy n p stuck i w e)
    | rests h ↦ IsOver-at_rest inv pos h
  ]

-- A run that can go no further is over: each client has returned, the channel is empty, all has been
-- sent, and each work has been done exactly once. The clients are at least one, the works no stoppers.
pub stuck-Run-IsOver :
    (ws : List Work) (n k : ℕ) (q : Pool)
    → All IsItem ws
    → 0 < n
    → Run n (perf_test (ws ++ replicate n stop_work) n) k q
    → IsStuck n q
    → IsOver ws q
stuck-Run-IsOver ws n k q items pos run stuck =
    let (rest, left, inv) = Run-Holds ws n n _ (start-Holds ws n items) k q run in
    stuck-IsOver ws n q rest left inv pos stuck
