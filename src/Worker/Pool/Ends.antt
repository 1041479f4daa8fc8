-- ===== src/Worker/Pool/Ends.antt =====
-- A run ends: each move uses up some of what is left to do. With no client it never begins.
use fsbench.Prelude.{
  ℕ, suc, ◌+◌, ◌*◌, ◌≤◌, ◌<◌, false, List, [], ◌∷◌, ◌++◌, length, length-append, length-replicate,
  replicate, All, ◌≡◌, refl, sym, ap, subst, arith,
}
use fsbench.Worker.Queue.{Work, stop_work}
use fsbench.Worker.Pool.{
  idle, busy, Pool, send, receive, finish, notice, do_work, step, perf_test, Run, here, next,
}
use fsbench.Worker.Pool.Moves.{Moved, sent, received, finished, noticed, step-Moved}
use fsbench.Worker.Pool.Clients.{busy_works, weight, busy_count, fresh_clients}
use fsbench.Worker.Pool.Invariant.{IsItem, Holds, Run-Holds, start-Holds}
use fsbench.Worker.Pool.Once.{IsStuck}

-- What is left to do: a work is sent, taken and done, a stopper is sent and taken.
abbrev pub left_to_do : Pool → ℕ
left_to_do p = 3 * length p.pending + 2 * length p.channel + length (busy_works p.clients)

weight-do_work : (w : Work) → weight (do_work w) ≤ 1
unfolding do_work
weight-do_work w = ground arith

Moved-falls :
    (capacity : ℕ) (p q : Pool)
    → p.notified ≡ false
    → Moved capacity p q
    → left_to_do q < left_to_do p
Moved-falls capacity p q quiet (sent w rest e room eq) =
    subst (λ (r : Pool). left_to_do r < left_to_do p) (sym eq)
      (omega (arith, length-append p.channel (w ∷ []), ap length e))
Moved-falls capacity p q quiet (received i w rest e ec eq) =
    subst (λ (r : Pool). left_to_do r < left_to_do p) (sym eq)
      (omega (arith, ap length ec, busy_count p.clients i idle (do_work w) e, weight-do_work w))
Moved-falls capacity p q quiet (finished i w e eq) =
    subst (λ (r : Pool). left_to_do r < left_to_do p) (sym eq)
      (omega (arith, busy_count p.clients i (busy w) idle e))
Moved-falls capacity p q quiet (noticed i e h) = cc (quiet, h)

Run-falls :
    (works : List Work) (n capacity : ℕ) (p : Pool)
    → Holds works n p
    → (k : ℕ) (q : Pool) → Run capacity p k q
    → k + left_to_do q ≤ left_to_do p
Run-falls works n capacity p h k q here = omega arith
Run-falls works n capacity p h (suc k) r (next {q = q} m run e) =
    let (_, _, inv) = Run-Holds works n capacity p h k q run in
    omega (
      arith,
      Run-falls works n capacity p h k q run,
      Moved-falls capacity q r inv.quiet (step-Moved capacity q r m e),
    )

left_at_start :
    (works : List Work) (n : ℕ)
    → left_to_do (perf_test (works ++ replicate n stop_work) n) ≡ 3 * (length works + n)
unfolding perf_test
left_at_start works n = omega (
  arith,
  length-append works (replicate n stop_work),
  length-replicate n stop_work,
  ap length (fresh_clients n).0,
)

-- No schedule is longer than three moves for each work and each client.
pub Run-bounded :
    (works : List Work) (n k : ℕ) (q : Pool)
    → All IsItem works
    → Run n (perf_test (works ++ replicate n stop_work) n) k q
    → k ≤ 3 * (length works + n)
Run-bounded works n k q items run = omega (
  arith,
  Run-falls works n n (perf_test (works ++ replicate n stop_work) n) (start-Holds works n items) k q
      run,
  left_at_start works n,
)

no_client-IsStuck : (works : List Work) → IsStuck 0 (perf_test works 0)
unfolding step perf_test
no_client-IsStuck [] send = refl
no_client-IsStuck (w ∷ ws) send = refl
no_client-IsStuck works (receive i) = refl
no_client-IsStuck works (finish i) = refl
no_client-IsStuck works (notice i) = refl

no_client-Run :
    (works : List Work) (k : ℕ) (q : Pool)
    → Run 0 (perf_test works 0) k q
    → (k ≡ 0) × (q ≡ perf_test works 0)
no_client-Run works k q here = (refl, refl)
no_client-Run works (suc k) r (next {q = q} m run e) =
    let (_, same) = no_client-Run works k q run in
    cc (ap (step 0 m) same, no_client-IsStuck works m, e)

-- With no client nothing is ever sent: no move is possible from the start, so that no schedule has a
-- move, and all works stay unsent and undone.
pub no_client_hangs :
    (works : List Work) (k : ℕ) (q : Pool)
    → Run 0 (perf_test works 0) k q
    → (k ≡ 0) × (q.pending ≡ works) × (q.done ≡ [])
unfolding perf_test
no_client_hangs works k q run =
    let (none_made, same) = no_client-Run works k q run in
    (none_made, ap (λ (p : Pool). p.pending) same, ap (λ (p : Pool). p.done) same)
