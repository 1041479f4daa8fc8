-- ===== src/Server/Protocol/Totals.antt =====
-- How far the workers are, counted, and the arithmetic of the counts.
use fsbench.Prelude.{
  ℕ, zero, suc, ◌+◌, ◌≤◌, List, [], ◌∷◌, some, ◌≡◌, refl, ap, arith, get_elem?, set, length,
}
use fsbench.Server.Protocol.{
  Stage, preparing, prepared, announced, started, finished, signalled, reported, dropped, lost,
  Phase, awaiting_prepared, continuing, awaiting_done, awaiting_result,
}

-- 1 for a worker whose goroutine has announced it, has gone on, has signalled that it is done.
abbrev pub was_announced : Stage → ℕ
was_announced preparing = 0
was_announced prepared = 0
was_announced dropped = 0
was_announced _ = 1

abbrev pub was_continued : Stage → ℕ
was_continued started = 1
was_continued finished = 1
was_continued signalled = 1
was_continued reported = 1
was_continued lost = 1
was_continued _ = 0

abbrev pub was_signalled : Stage → ℕ
was_signalled signalled = 1
was_signalled reported = 1
was_signalled _ = 0

abbrev pub total : (Stage → ℕ) → List Stage → ℕ
total f [] = 0
total f (x ∷ xs) = f x + total f xs

pub total-set :
    (f : Stage → ℕ) (xs : List Stage) (i : ℕ) (x y : Stage)
    → get_elem? xs i ≡ some x
    → total f (set xs i y) + f x ≡ total f xs + f y
total-set f [] i x y h = cc
total-set f (z ∷ xs) zero x y h = let same : z ≡ x = cc (h) in omega (arith, ap f same)
total-set f (z ∷ xs) (suc i) x y h = omega (arith, total-set f xs i x y h)

pub length-set : (xs : List Stage) (i : ℕ) (y : Stage) → length (set xs i y) ≡ length xs
length-set [] i y = refl
length-set (z ∷ xs) zero y = refl
length-set (z ∷ xs) (suc i) y = omega (arith, length-set xs i y)

pub announced_bound : (x : Stage) → was_announced x ≤ 1
announced_bound preparing = omega arith
announced_bound prepared = omega arith
announced_bound announced = omega arith
announced_bound started = omega arith
announced_bound finished = omega arith
announced_bound signalled = omega arith
announced_bound reported = omega arith
announced_bound dropped = omega arith
announced_bound lost = omega arith

pub continued_announced : (x : Stage) → was_continued x ≤ was_announced x
continued_announced preparing = omega arith
continued_announced prepared = omega arith
continued_announced announced = omega arith
continued_announced started = omega arith
continued_announced finished = omega arith
continued_announced signalled = omega arith
continued_announced reported = omega arith
continued_announced dropped = omega arith
continued_announced lost = omega arith

-- Where every worker counts at most once, so does the total.
pub total-length :
    (f : Stage → ℕ) (xs : List Stage) → ((x : Stage) → f x ≤ 1) → total f xs ≤ length xs
total-length f [] h = omega arith
total-length f (x ∷ xs) h = omega (arith, h x, total-length f xs h)

pub total_announced-length : (xs : List Stage) → total was_announced xs ≤ length xs
total_announced-length xs = total-length was_announced xs announced_bound

pub signalled_continued : (x : Stage) → was_signalled x ≤ was_continued x
signalled_continued preparing = omega arith
signalled_continued prepared = omega arith
signalled_continued announced = omega arith
signalled_continued started = omega arith
signalled_continued finished = omega arith
signalled_continued signalled = omega arith
signalled_continued reported = omega arith
signalled_continued dropped = omega arith
signalled_continued lost = omega arith

pub total_signalled-continued : (xs : List Stage) → total was_signalled xs ≤ total was_continued xs
total_signalled-continued [] = omega arith
total_signalled-continued (x ∷ xs) =
    omega (arith, signalled_continued x, total_signalled-continued xs)

-- What the counts are in each phase: `a` announced, `c` continued, `s` signalled, and the values `d`
-- of `doneChannel` and `v` of `continueWorkers`.
abbrev pub InPhase : (n a c s d v : ℕ) → Phase → Type 0
InPhase n a c s d v (awaiting_prepared k) = (a ≡ k + d) × (c ≡ 0) × (v ≡ 0) × (k ≤ n)
InPhase n a c s d v (continuing k) = (a ≡ n) × (c + v ≡ k) × (s ≡ d) × (k ≤ n)
InPhase n a c s d v (awaiting_done k) = (a ≡ n) × (c + v ≡ n) × (s ≡ k + d)
InPhase n a c s d v (awaiting_result k) = (a ≡ n) × (c + v ≡ n) × (s ≡ suc k + d)

module _ (n a c s d v : ℕ) where
  pub announce_InPhase :
      (p : Phase) → a + 1 ≤ n → InPhase n a c s d v p → InPhase n (a + 1) c s (d + 1) v p
  announce_InPhase (awaiting_prepared k) le h = omega (arith, h)
  announce_InPhase (continuing k) le h = absurd (omega (arith, h))
  announce_InPhase (awaiting_done k) le h = absurd (omega (arith, h))
  announce_InPhase (awaiting_result k) le h = absurd (omega (arith, h))

  pub start_InPhase : (p : Phase) → InPhase n a c s d (v + 1) p → InPhase n a (c + 1) s d v p
  start_InPhase (awaiting_prepared k) h = absurd (omega (arith, h))
  start_InPhase (continuing k) h = omega (arith, h)
  start_InPhase (awaiting_done k) h = omega (arith, h)
  start_InPhase (awaiting_result k) h = omega (arith, h)

  pub signal_InPhase :
      (p : Phase) → s + 1 ≤ c → InPhase n a c s d v p → InPhase n a c (s + 1) (d + 1) v p
  signal_InPhase (awaiting_prepared k) le h = absurd (omega (arith, h))
  signal_InPhase (continuing k) le h = omega (arith, h)
  signal_InPhase (awaiting_done k) le h = omega (arith, h)
  signal_InPhase (awaiting_result k) le h = omega (arith, h)
