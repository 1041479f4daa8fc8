-- ===== src/Worker/Pool/Process.antt =====
-- The process of a worker while its pool runs (pkg/worker/worker.go): a `Do` that panics, as at a block
-- size of 0 or a nil pointer, ends it with all of its clients.
use mathlib.Core.List.{Perm}
use fsbench.Prelude.{
  ℕ, suc, ◌+◌, ◌*◌, ◌≤◌, ◌<◌, List, ◌++◌, Option, none, some, length, get_elem?, replicate, All,
  ◌≡◌, refl, ap, ◌∙◌, subst, arith,
}
use fsbench.Worker.Queue.{Work, stop_work}
use fsbench.Worker.Pool.{
  Client, idle, busy, stopped, Pool, Move, finish, finish_at, step, perf_test, Run, here, next,
}
use fsbench.Worker.Pool.Clients.{busy_works}
use fsbench.Worker.Pool.Invariant.{IsItem, Run-Holds, start-Holds}
use fsbench.Worker.Pool.Once.{IsStuck, IsOver, stuck-Run-IsOver}
use fsbench.Worker.Pool.Ends.{Run-bounded}

pub data Process : Type 0 where
  running : Pool → Process
  -- with the pool as it was when a `Do` panicked
  crashed : Pool → Process

-- A client goes on, or the `Do` that it is in panics.
pub data Event : Type 0 where
  moves : Move → Event
  panics : ℕ → Event

unfoldable pub keep_running : Option Pool → Option Process
keep_running none = none
keep_running (some p) = some (running p)

unfoldable pub panic_at : Pool → Option Client → Option Process
panic_at p (some (busy w)) = some (crashed p)
panic_at p _ = none

unfoldable pub happen : ℕ → Event → Process → Option Process
unfolding keep_running panic_at
happen capacity (moves m) (running p) = keep_running (step capacity m p)
happen capacity (panics i) (running p) = panic_at p (get_elem? p.clients i)
happen capacity e (crashed p) = none

-- What has happened so far, the first event first.
pub data Schedule (capacity : ℕ) (s : Process) : ℕ → Process → Type 0 where
  begins : Schedule capacity s 0 s
  then :
      {k : ℕ} {s' s'' : Process} (e : Event)
      → Schedule capacity s k s'
      → happen capacity e s' ≡ some s''
      → Schedule capacity s (suc k) s''

-- Nothing more can happen.
abbrev pub IsHalted : ℕ → Process → Type 0
IsHalted capacity s = (e : Event) → happen capacity e s ≡ none

abbrev IsBusy : Pool → Type 0
IsBusy p = (i : ℕ) × (w : Work) × (get_elem? p.clients i ≡ some (busy w))

-- A process is where its pool has come to, with one event more if a `Do` has panicked.
abbrev Came : ℕ → Pool → ℕ → Process → Type 0
Came capacity p k (running q) = Run capacity p k q
Came capacity p k (crashed q) = (j : ℕ) × (k ≡ suc j) × Run capacity p j q × IsBusy q

module _ (capacity : ℕ) (p : Pool) where
  moved-Came :
      (m : Move) (k : ℕ) (q : Pool) (o : Option Pool) (s : Process)
      → Run capacity p k q
      → step capacity m q ≡ o
      → keep_running o ≡ some s
      → Came capacity p (suc k) s
  unfolding keep_running
  moved-Came m k q none s run e h = cc
  moved-Came m k q (some r) (running r') run e h =
      let same : r ≡ r' = cc (h) in next m run (e ∙ ap some same)
  moved-Came m k q (some r) (crashed r') run e h = cc

  panicked-Came :
      (i k : ℕ) (q : Pool) (o : Option Client) (s : Process)
      → Run capacity p k q
      → get_elem? q.clients i ≡ o
      → panic_at q o ≡ some s
      → Came capacity p (suc k) s
  unfolding panic_at
  panicked-Came i k q (some (busy w)) (crashed q') run e h =
      subst (λ r. Came capacity p (suc k) (crashed r)) (cc (h)) (k, refl, run, (i, w, e))
  panicked-Came i k q (some (busy w)) (running q') run e h = cc
  panicked-Came i k q (some idle) s run e h = cc
  panicked-Came i k q (some stopped) s run e h = cc
  panicked-Came i k q none s run e h = cc

  happened-Came :
      (e : Event) (k : ℕ) (s s' : Process)
      → Came capacity p k s
      → happen capacity e s ≡ some s'
      → Came capacity p (suc k) s'
  unfolding happen
  happened-Came (moves m) k (running q) s' came h =
      moved-Came m k q (step capacity m q) s' came refl h
  happened-Came (panics i) k (running q) s' came h =
      panicked-Came i k q (get_elem? q.clients i) s' came refl h
  happened-Came (moves m) k (crashed q) s' came h = cc
  happened-Came (panics i) k (crashed q) s' came h = cc

  Schedule-Came : (k : ℕ) (s : Process) → Schedule capacity (running p) k s → Came capacity p k s
  Schedule-Came k s begins = here
  Schedule-Came (suc k) s'' (then {s' = s'} e before h) =
      happened-Came e k s' s'' (Schedule-Came k s' before) h

-- The pool of a process that has halted is over, or a `Do` has panicked: then the works that have been
-- done are some of all, none of them twice.
abbrev pub HasEnded : List Work → Process → Type 0
HasEnded ws (running q) = IsOver ws q
HasEnded ws (crashed q) = (undone : List Work) × Perm (q.done ++ undone) ws

halted-IsStuck : (capacity : ℕ) (q : Pool) → IsHalted capacity (running q) → IsStuck capacity q
unfolding happen keep_running
halted-IsStuck capacity q halted m = no_move (step capacity m q) (halted (moves m))
  where
    no_move : (o : Option Pool) → keep_running o ≡ none → o ≡ none
    no_move none h = refl
    no_move (some r) h = cc

-- A client that is in `Do` could finish.
busy_finishes :
    (capacity i : ℕ) (q : Pool) (w : Work)
    → get_elem? q.clients i ≡ some (busy w)
    → (r : Pool) × (step capacity (finish i) q ≡ some r)
unfolding step finish_at
busy_finishes capacity i q w e = (_, ap (finish_at q i) e)

module _ (ws : List Work) (n : ℕ) (items : All IsItem ws) where
  abbrev start : Pool
  start = perf_test (ws ++ replicate n stop_work) n

  pub halted-HasEnded :
      (k : ℕ) (s : Process) → 0 < n → Schedule n (running start) k s → IsHalted n s → HasEnded ws s
  halted-HasEnded k (running q) pos schedule halted =
      stuck-Run-IsOver ws n k q items pos (Schedule-Came n start k (running q) schedule)
        (halted-IsStuck n q halted)
  halted-HasEnded k (crashed q) pos schedule halted =
      let (j, _, run, _) = Schedule-Came n start k (crashed q) schedule in
      let (rest, _, inv) = Run-Holds ws n n start (start-Holds ws n items) j q run in
      (busy_works q.clients ++ rest, inv.kept)

  pub Schedule-bounded :
      (k : ℕ) (s : Process) → Schedule n (running start) k s → k ≤ 3 * (length ws + n)
  Schedule-bounded k (running q) schedule =
      Run-bounded ws n k q items (Schedule-Came n start k (running q) schedule)
  Schedule-bounded k (crashed q) schedule =
      let (j, e, run, (i, w, at)) = Schedule-Came n start k (crashed q) schedule in
      let (r, h) = busy_finishes n i q w at in
      omega (arith, e, Run-bounded ws n (suc j) r items (next (finish i) run h))
