-- ===== src/Common/Bytes/Examples.antt =====
-- Tests of pkg/common/bytes.go, among them those of bytes_test.go.
use fsbench.Prelude.{◌+◌, ◌-◌, ◌*◌, ◌^◌, codes, ok, err, ◌≡◌, refl, text_eq, has_suffix, has_prefix}
use fsbench.FilePath.{decimal}
use fsbench.Common.Bytes.{
  byte_size, scaled, to_float, excess, trim_suffix, format_tenths, to_bytes, parts_to_bytes,
  split_at_letter, counted, parse_float, unit_of, trim_space, trim_start, to_uint64, read_number,
  float_of, shift_up, shift_down, read_digits, scan, scan_step, byte_quantity_error,
}

prints :
    (byte_size 0 ≡ codes "0B")
    × (byte_size (100 * 2 ^ 20 + 2 ^ 19) ≡ codes "100.5M")
    × (byte_size (2 ^ 10) ≡ codes "1K")
    × (byte_size (2 ^ 64 - 1) ≡ codes "16E")
    × (byte_size 4097 ≡ codes "4K")
unfolding byte_size scaled to_float excess trim_suffix format_tenths decimal has_suffix has_prefix
prints = (refl, refl, refl, refl, refl)

reads :
    (to_bytes 0 (codes "5.5KiB") ≡ ok 5632)
    × (to_bytes 0 (codes " 5mb\n") ≡ ok (5 * 2 ^ 20))
    × (to_bytes 0 (codes "5") ≡ err byte_quantity_error)
    × (to_bytes 0 (codes "5MBB") ≡ err byte_quantity_error)
    × (to_bytes 0 (codes "-5MB") ≡ err byte_quantity_error)
    × (to_bytes 0 (codes "12.3K") ≡ ok 12595)
unfolding to_bytes parts_to_bytes split_at_letter counted parse_float unit_of trim_space trim_start
    to_uint64 read_number float_of shift_up shift_down read_digits scan scan_step text_eq
reads = (refl, refl, refl, refl, refl, refl)
