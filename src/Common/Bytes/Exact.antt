-- ===== src/Common/Bytes/Exact.antt =====
-- Sizes that `ByteSize` prints exactly: whole numbers below 1024 of a unit (pkg/common/bytes.go).
use fsbench.Prelude.{
  ℕ, zero, suc, ◌*◌, ◌^◌, ◌<◌, ◌&&◌, Bool, true, false, Outcome, ok, err, panic, ◌==◌, ◌≡◌, refl,
  arith, text_eq, has_suffix, has_prefix, ==_iff, Text, sym, ap,
}
use fsbench.FilePath.{decimal}
use fsbench.Common.Bytes.{
  byte_size, scaled, to_float, excess, trim_suffix, format_tenths, to_bytes, parts_to_bytes,
  split_at_letter, counted, parse_float, unit_of, trim_space, trim_start, to_uint64, read_number,
  float_of, shift_up, shift_down, read_digits, scan, scan_step,
}

abbrev pub is_ok : ℕ → {E : Type 0} → Outcome E ℕ → Bool
is_ok n (ok m) = n == m
is_ok n (err e) = false
is_ok n panic = false

abbrev pub comes_back : ℕ → ℕ → ℕ → Bool
comes_back beyond unit n = is_ok (n * unit) (to_bytes beyond (byte_size (n * unit)))

abbrev pub all_below : ℕ → (ℕ → Bool) → Bool
all_below zero p = true
all_below (suc n) p = p n && all_below n p

pub below_holds : (p : ℕ → Bool) (n k : ℕ) → all_below n p ≡ true → k < n → p k ≡ true
below_holds p zero k h lt = absurd (omega (arith, lt))
below_holds p (suc n) k h lt = ground (arith, below_holds p n k)

pub is_ok-eq : (n : ℕ) (r : Outcome {0, 0} Text ℕ) → is_ok n r ≡ true → r ≡ ok n
is_ok-eq n (ok m) h = ap ok (sym ((==_iff n m).0 h))
is_ok-eq n (err e) h = cc
is_ok-eq n panic h = cc

pub few_bytes : (beyond : ℕ) → all_below 1024 (comes_back beyond 1) ≡ true
unfolding byte_size scaled to_float excess trim_suffix format_tenths decimal has_suffix has_prefix
    to_bytes parts_to_bytes split_at_letter counted parse_float unit_of trim_space trim_start
    to_uint64 read_number float_of shift_up shift_down read_digits scan scan_step text_eq
few_bytes beyond = refl

pub halves0 : (beyond : ℕ) → all_below 2048 (comes_back beyond (2 ^ 9)) ≡ true
unfolding byte_size scaled to_float excess trim_suffix format_tenths decimal has_suffix has_prefix
    to_bytes parts_to_bytes split_at_letter counted parse_float unit_of trim_space trim_start
    to_uint64 read_number float_of shift_up shift_down read_digits scan scan_step text_eq
halves0 beyond = refl

pub halves1 : (beyond : ℕ) → all_below 2048 (comes_back beyond (2 ^ 19)) ≡ true
unfolding byte_size scaled to_float excess trim_suffix format_tenths decimal has_suffix has_prefix
    to_bytes parts_to_bytes split_at_letter counted parse_float unit_of trim_space trim_start
    to_uint64 read_number float_of shift_up shift_down read_digits scan scan_step text_eq
halves1 beyond = refl

pub halves2 : (beyond : ℕ) → all_below 2048 (comes_back beyond (2 ^ 29)) ≡ true
unfolding byte_size scaled to_float excess trim_suffix format_tenths decimal has_suffix has_prefix
    to_bytes parts_to_bytes split_at_letter counted parse_float unit_of trim_space trim_start
    to_uint64 read_number float_of shift_up shift_down read_digits scan scan_step text_eq
halves2 beyond = refl

pub halves3 : (beyond : ℕ) → all_below 2048 (comes_back beyond (2 ^ 39)) ≡ true
unfolding byte_size scaled to_float excess trim_suffix format_tenths decimal has_suffix has_prefix
    to_bytes parts_to_bytes split_at_letter counted parse_float unit_of trim_space trim_start
    to_uint64 read_number float_of shift_up shift_down read_digits scan scan_step text_eq
halves3 beyond = refl

pub halves4 : (beyond : ℕ) → all_below 2048 (comes_back beyond (2 ^ 49)) ≡ true
unfolding byte_size scaled to_float excess trim_suffix format_tenths decimal has_suffix has_prefix
    to_bytes parts_to_bytes split_at_letter counted parse_float unit_of trim_space trim_start
    to_uint64 read_number float_of shift_up shift_down read_digits scan scan_step text_eq
halves4 beyond = refl

pub halves5 : (beyond : ℕ) → all_below 32 (comes_back beyond (2 ^ 59)) ≡ true
unfolding byte_size scaled to_float excess trim_suffix format_tenths decimal has_suffix has_prefix
    to_bytes parts_to_bytes split_at_letter counted parse_float unit_of trim_space trim_start
    to_uint64 read_number float_of shift_up shift_down read_digits scan scan_step text_eq
halves5 beyond = refl
