-- ===== src/Common/Bytes/RoundTrip.antt =====
-- What `ByteSize` prints is read back by `ToBytes` (pkg/common/bytes.go).
use fsbench.Prelude.{
  ℕ, zero, suc, ◌+◌, ◌*◌, ◌^◌, ◌<◌, true, ok, ◌≡◌, ◌⊎◌, inl, inr, sym, arith, subst,
}
use fsbench.Common.Bytes.{byte_size, to_bytes}
use fsbench.Common.Bytes.Exact.{
  comes_back, all_below, below_holds, is_ok-eq, few_bytes, halves0, halves1, halves2, halves3,
  halves4, halves5,
}

-- Fewer than 1024 bytes, or so many halves of a larger unit.
abbrev pub IsExact : ℕ → Type 0
IsExact n =
    (n < 1024)
    ⊎ ((u : ℕ) × (h : ℕ) × (u < 6) × (h < 2048) × (n ≡ h * 2 ^ (10 * u + 9)) × (n < 2 ^ 64))

-- The unit is written as one number, so that it is not computed in vain.
from_check :
    (beyond unit n k : ℕ)
    → all_below n (comes_back beyond unit) ≡ true
    → k < n
    → to_bytes beyond (byte_size (k * unit)) ≡ ok (k * unit)
from_check beyond unit n k all h =
    is_ok-eq (k * unit) (to_bytes beyond (byte_size (k * unit)))
      (below_holds (comes_back beyond unit) n k all h)

half_back :
    (beyond u h : ℕ)
    → u < 6
    → h < 2048
    → h * 2 ^ (10 * u + 9) < 2 ^ 64
    → to_bytes beyond (byte_size (h * 2 ^ (10 * u + 9))) ≡ ok (h * 2 ^ (10 * u + 9))
half_back beyond zero h hu hh fits = from_check beyond (2 ^ 9) 2048 h (halves0 beyond) hh
half_back beyond (suc zero) h hu hh fits = from_check beyond (2 ^ 19) 2048 h (halves1 beyond) hh
half_back beyond (suc (suc zero)) h hu hh fits =
    from_check beyond (2 ^ 29) 2048 h (halves2 beyond) hh
half_back beyond (suc (suc (suc zero))) h hu hh fits =
    from_check beyond (2 ^ 39) 2048 h (halves3 beyond) hh
half_back beyond (suc (suc (suc (suc zero)))) h hu hh fits =
    from_check beyond (2 ^ 49) 2048 h (halves4 beyond) hh
half_back beyond (suc (suc (suc (suc (suc zero))))) h hu hh fits =
    from_check beyond (2 ^ 59) 32 h (halves5 beyond) (omega (arith, fits))
half_back beyond (suc (suc (suc (suc (suc (suc u)))))) h hu hh fits = absurd (omega (arith, hu))

-- A size of fewer than 1024 bytes, or of fewer than 2048 halves of one of the units K to E, that fits 64
-- bits is read back by `ToBytes` from what `ByteSize` prints.
pub to_bytes-byte_size : (beyond n : ℕ) → IsExact n → to_bytes beyond (byte_size n) ≡ ok n
to_bytes-byte_size beyond n (inl h) =
    subst (λ (k : ℕ). to_bytes beyond (byte_size k) ≡ ok k) (one n)
      (from_check beyond 1 1024 n (few_bytes beyond) h)
  where
    one : (k : ℕ) → k * 1 ≡ k
    one k = omega arith
to_bytes-byte_size beyond n (inr (u, h, hu, hh, e, fits)) =
    subst (λ (k : ℕ). to_bytes beyond (byte_size k) ≡ ok k) (sym e)
      (half_back beyond u h hu hh (subst (λ (k : ℕ). k < 2 ^ 64) e fits))
