-- ===== src/Server/Protocol/Enabled.antt =====
-- Which moves of a run are possible (`scheduleTests` and `executeTestOnWorker` of cmd/server/main.go).
use fsbench.Prelude.{
  Bool, true, false, if◌then◌else◌, ℕ, zero, suc, ◌≤◌, ◌<◌, List, [], ◌∷◌, All, Option, some, ◌≡◌,
  ◌⊎◌, refl, ap, ◌∙◌, subst, arith, get_elem?, length, ltb, ◌==◌, Bool-cases, inl, inr,
}
use fsbench.Server.Protocol.{
  Stage, preparing, prepared, announced, started, finished, signalled, reported, dropped, lost,
  Phase, Session, take_continue, advance_at, take_done, take_result, schedule_at, Turn, schedule,
  advance, drop, take_turn,
}
use fsbench.Server.Protocol.Totals.{
  total, was_announced, was_continued, was_signalled, announced_bound, continued_announced,
  total-length,
}
use fsbench.Server.Protocol.Tally.{was_reported}

-- A worker whose connection has not broken.
abbrev pub IsConnected : Stage → Type 0
IsConnected dropped = ⊥
IsConnected lost = ⊥
IsConnected preparing = Unit
IsConnected prepared = Unit
IsConnected announced = Unit
IsConnected started = Unit
IsConnected finished = Unit
IsConnected signalled = Unit
IsConnected reported = Unit

-- A move that breaks no connection.
abbrev pub IsWork : Turn → Type 0
IsWork schedule = Unit
IsWork (advance i) = Unit
IsWork (drop i) = ⊥

pub All-at :
    (P : Stage → Type 0) (xs : List Stage) (i : ℕ) (x : Stage)
    → All P xs
    → get_elem? xs i ≡ some x
    → P x
All-at P [] i x h e = cc
All-at P (z ∷ xs) zero x (h, hs) e = subst P (cc (e)) h
All-at P (z ∷ xs) (suc i) x (h, hs) e = All-at P xs i x hs e

-- Where one count is behind another, some worker is.
pub find_gap :
    (f g : Stage → ℕ) (xs : List Stage)
    → total f xs < total g xs
    → (i : ℕ) × (x : Stage) × (get_elem? xs i ≡ some x) × (f x < g x)
find_gap f g [] h = absurd (omega (arith, h))
find_gap f g (x ∷ xs) h = elim (Bool-cases (ltb (f x) (g x))) [
  | inl e ↦ (0, x, refl, ground arith)
  | inr e ↦
      let not_here : g x ≤ f x = ground arith in
      let (i, y, at, less) = find_gap f g xs (omega (arith, h, not_here)) in (suc i, y, at, less)
]

abbrev pub one : Stage → ℕ
one x = 1

pub total-one : (xs : List Stage) → total one xs ≡ length xs
total-one [] = refl
total-one (x ∷ xs) = omega (arith, total-one xs)

pub allowed :
    {A : Type 0} (b : Bool) (x : A) (o : Option A)
    → b ≡ true
    → (y : A) × ((if b then some x else o) ≡ some y)
allowed true x o h = (x, refl)
allowed false x o h = cc

pub declined :
    {A : Type 0} (b : Bool) (o o' : Option A)
    → b ≡ false
    → (y : A) × (o' ≡ some y)
    → (y : A) × ((if b then o else o') ≡ some y)
declined true o o' h k = cc
declined false o o' h k = k

-- A worker that does not count leaves the count below the number of workers.
pub below_length :
    (f : Stage → ℕ) (bound : (x : Stage) → f x ≤ 1) (xs : List Stage) (i : ℕ) (x : Stage)
    → get_elem? xs i ≡ some x
    → f x ≡ 0
    → total f xs < length xs
below_length f bound [] i x at e = cc
below_length f bound (z ∷ xs) zero x at e =
    let here : z ≡ x = cc (at) in omega (arith, ap f here, e, total-length f xs bound)
below_length f bound (z ∷ xs) (suc i) x at e =
    omega (arith, bound z, below_length f bound xs i x at e)

pub continued_bound : (x : Stage) → was_continued x ≤ 1
continued_bound x = omega (arith, continued_announced x, announced_bound x)

module _ (n : ℕ) (s : Session) where
  abbrev pub GoesOn : Type 0
  GoesOn = (t : Turn) × (s' : Session) × IsWork t × (take_turn n t s ≡ some s')

  abbrev pub Advances : ℕ → Stage → Type 0
  Advances i x = (s' : Session) × (advance_at n s i (some x) ≡ some s')

  pub advance-GoesOn : (i : ℕ) (x : Stage) → get_elem? s.stages i ≡ some x → Advances i x → GoesOn
  unfolding take_turn
  advance-GoesOn i x at (s', e) = (advance i, s', tt, ap (advance_at n s i) at ∙ e)

  pub room : (d : ℕ) → d < n → ltb d n ≡ true
  room d h = ground arith

  pub unannounced-Advances :
      (i : ℕ) (x : Stage) → IsConnected x → was_announced x < 1 → s.done_channel < n → Advances i x
  unfolding advance_at
  unannounced-Advances i preparing c h less = (_, refl)
  unannounced-Advances i prepared c h less =
      allowed (ltb s.done_channel n) _ _ (room s.done_channel less)
  unannounced-Advances i announced c h less = absurd (omega (arith, h))
  unannounced-Advances i started c h less = absurd (omega (arith, h))
  unannounced-Advances i finished c h less = absurd (omega (arith, h))
  unannounced-Advances i signalled c h less = absurd (omega (arith, h))
  unannounced-Advances i reported c h less = absurd (omega (arith, h))
  unannounced-Advances i dropped c h less = absurd c
  unannounced-Advances i lost c h less = absurd c

  -- A worker that has announced itself and not signalled has something to wait for that is there.
  pub unsignalled-Advances :
      (i : ℕ) (x : Stage)
      → IsConnected x
      → was_announced x ≡ 1
      → was_signalled x < 1
      → (was_continued x ≡ 0 → 0 < s.continue_workers)
      → s.done_channel < n
      → s.returns ≡ true
      → Advances i x
  unfolding advance_at
  unsignalled-Advances i announced c a h v less returns =
      continue-Advances i s.continue_workers (v refl)
    where
      continue-Advances : (i v : ℕ) → 0 < v → (s' : Session) × (take_continue s i v ≡ some s')
      continue-Advances i zero h = absurd (omega (arith, h))
      continue-Advances i (suc v) h = (_, refl)
  unsignalled-Advances i started c a h v less returns = allowed s.returns _ _ returns
  unsignalled-Advances i finished c a h v less returns =
      allowed (ltb s.done_channel n) _ _ (room s.done_channel less)
  unsignalled-Advances i preparing c a h v less returns = absurd (omega (arith, a))
  unsignalled-Advances i prepared c a h v less returns = absurd (omega (arith, a))
  unsignalled-Advances i signalled c a h v less returns = absurd (omega (arith, h))
  unsignalled-Advances i reported c a h v less returns = absurd (omega (arith, h))
  unsignalled-Advances i dropped c a h v less returns = absurd c
  unsignalled-Advances i lost c a h v less returns = absurd c

  pub unreported-Advances :
      (i : ℕ) (x : Stage) → was_reported x < was_signalled x → s.result_channel < n → Advances i x
  unfolding advance_at
  unreported-Advances i signalled h less =
      allowed (ltb s.result_channel n) _ _ (room s.result_channel less)
  unreported-Advances i preparing h less = absurd (omega (arith, h))
  unreported-Advances i prepared h less = absurd (omega (arith, h))
  unreported-Advances i announced h less = absurd (omega (arith, h))
  unreported-Advances i started h less = absurd (omega (arith, h))
  unreported-Advances i finished h less = absurd (omega (arith, h))
  unreported-Advances i reported h less = absurd (omega (arith, h))
  unreported-Advances i dropped h less = absurd (omega (arith, h))
  unreported-Advances i lost h less = absurd (omega (arith, h))

  pub schedule-GoesOn :
      (p : Phase) → s.phase ≡ p → (s' : Session) × (schedule_at n s p ≡ some s') → GoesOn
  unfolding take_turn
  schedule-GoesOn p e (s', h) = (schedule, s', tt, ap (schedule_at n s) e ∙ h)

  pub take_done-some : (p : Phase) (d : ℕ) → 0 < d → (s' : Session) × (take_done s p d ≡ some s')
  unfolding take_done
  take_done-some p zero h = absurd (omega (arith, h))
  take_done-some p (suc d) h = (_, refl)

  pub take_result-some :
      (p : Phase) (r : ℕ) → 0 < r → (s' : Session) × (take_result s p r ≡ some s')
  unfolding take_result
  take_result-some p zero h = absurd (omega (arith, h))
  take_result-some p (suc r) h = (_, refl)

  pub other : (k m : ℕ) → k < m → (k == m) ≡ false
  other k m h = ground arith

  pub some_or_none : (d : ℕ) → (0 < d) ⊎ (d ≡ 0)
  some_or_none zero = inr refl
  some_or_none (suc d) = inl (omega arith)
