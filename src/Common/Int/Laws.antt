-- ===== src/Common/Int/Laws.antt =====
-- Where nothing wraps around, `int` arithmetic is that of the natural numbers.
use native.Mathlib.Nat.{mod-eq_of_lt}
use fsbench.Prelude.{ℕ, ◌+◌, ◌-◌, ◌*◌, ◌/◌, ◌^◌, ◌<◌, Outcome, ok, ◌≡◌, ap₂, ap, ◌∙◌, arith}
use fsbench.Common.Types.{ℤ, pos, negsuc}
use fsbench.Common.Int.{to_int, wrap, ◌+ℤ◌, ◌*ℤ◌, div}

pub to_int_small : (n : ℕ) → n < 2 ^ 63 → to_int n ≡ pos n
unfolding to_int
to_int_small n h = ground arith

wrap_small : (n : ℕ) → n < 2 ^ 63 → wrap n ≡ pos n
wrap_small n h = ap to_int (mod-eq_of_lt (omega arith)) ∙ to_int_small n h

pub pos-pred : (n : ℕ) → 0 < n → n < 2 ^ 63 → pos n +ℤ negsuc 0 ≡ pos (n - 1)
unfolding ◌+ℤ◌
pos-pred n h k = ground arith

pub pos-add : (a b : ℕ) → a + b < 2 ^ 63 → pos a +ℤ pos b ≡ pos (a + b)
unfolding ◌+ℤ◌
pos-add a b h = ground arith

pub pos-mul : (a b : ℕ) → a < 2 ^ 63 → b < 2 ^ 63 → a * b < 2 ^ 63 → pos a *ℤ pos b ≡ pos (a * b)
unfolding ◌*ℤ◌
pos-mul a b ha hb h =
    ap wrap (ap₂ ◌*◌ (mod-eq_of_lt (omega arith)) (mod-eq_of_lt (omega arith)))
    ∙ wrap_small (a * b) h

pub pos-div {ℓ} :
    {E : Type ℓ} (a b : ℕ) → 0 < b → ◌≡◌ {A = Outcome E ℤ} (div (pos a) (pos b)) (ok (pos (a / b)))
unfolding div
pos-div a b h = ground arith
