-- ===== src/Common/Int.antt =====
-- Go's `int` on a 64-bit machine: arithmetic wraps around, division drops the fraction and panics at
-- a divisor of 0.
pub mod Laws
use fsbench.Prelude.{
  ℕ, suc, ◌+◌, ◌-◌, ◌*◌, ◌/◌, ◌%◌, ◌^◌, Bool, true, false, Outcome, ok, panic, if◌then◌else◌, ltb,
  leb, ◌==◌,
}
use fsbench.Common.Types.{ℤ, pos, negsuc}

-- The `int` with the bits of a `uint64`.
unfoldable pub to_int : ℕ → ℤ
to_int n = if ltb n (2 ^ 63) then pos n else negsuc (2 ^ 64 - 1 - n)

-- The bits of an `int`.
abbrev pub bits : ℤ → ℕ
bits (pos n) = n % 2 ^ 64
bits (negsuc n) = 2 ^ 64 - 1 - n % 2 ^ 64

abbrev pub wrap : ℕ → ℤ
wrap n = to_int (n % 2 ^ 64)

infixl 65 ◌+ℤ◌
infixl 70 ◌*ℤ◌
infix 50 ◌≤?◌
unfoldable pub ◌+ℤ◌ : ℤ → ℤ → ℤ
unfolding to_int
a +ℤ b = wrap (bits a + bits b)

unfoldable pub ◌*ℤ◌ : ℤ → ℤ → ℤ
unfolding to_int
a *ℤ b = wrap (bits a * bits b)

unfoldable pub ◌≤?◌ : ℤ → ℤ → Bool
pos a ≤? pos b = leb a b
pos a ≤? negsuc b = false
negsuc a ≤? pos b = true
negsuc a ≤? negsuc b = leb b a

abbrev pub magnitude : ℤ → ℕ
magnitude (pos n) = n
magnitude (negsuc n) = suc n

abbrev pub minus : ℕ → ℤ
minus n = if n == 0 then pos 0 else negsuc (n - 1)

-- The quotient with the sign of both put in.
abbrev pub signed : ℤ → ℤ → ℕ → ℤ
signed (pos a) (pos b) q = pos q
signed (pos a) (negsuc b) q = minus q
signed (negsuc a) (pos b) q = minus q
signed (negsuc a) (negsuc b) q = wrap q

unfoldable pub div {ℓ} : {E : Type ℓ} → ℤ → ℤ → Outcome E ℤ
unfolding to_int
div a b = if magnitude b == 0 then panic else ok (signed a b (magnitude a / magnitude b))

-- How many rounds `for i := 0; i < n; i++` makes.
abbrev pub rounds : ℤ → ℕ
rounds (pos n) = n
rounds (negsuc n) = 0
