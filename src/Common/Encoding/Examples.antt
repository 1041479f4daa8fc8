-- ===== src/Common/Encoding/Examples.antt =====
-- Tests of the JSON and YAML methods of `FSD` (pkg/common/configFile.go), and of the sizes in them.
use fsbench.Prelude.{
  ℕ, true, some, none, Bool, [], codes, ok, ◌≡◌, inr, refl, arith, text_eq, has_suffix, has_prefix,
}
use fsbench.FilePath.{decimal}
use fsbench.Common.Types.{Fsd}
use fsbench.Common.Bytes.{
  byte_size, scaled, to_float, excess, trim_suffix, format_tenths, to_bytes, parts_to_bytes,
  split_at_letter, counted, parse_float, unit_of, trim_space, trim_start, to_uint64, read_number,
  float_of, shift_up, shift_down, read_digits, scan, scan_step,
}
use fsbench.Common.Bytes.RoundTrip.{IsExact, to_bytes-byte_size}
use fsbench.Common.Encoding.{FsdAlias, marshal_fsd, unmarshal_json_fsd, unmarshal_yaml_fsd}
use fsbench.Common.Encoding.Travel.{fsd_travels}

abbrev tree : ℕ → Fsd
tree size = record {
  anchor = codes "/mnt";
  direct_io = some true;
  depth = 1;
  width = 2;
  files = 3;
  size = size;
}

abbrev other : Fsd
other = record { anchor = []; direct_io = none; depth = 0; width = 0; files = 0; size = 7 }

-- A document that is the fields themselves.
abbrev as_it_is : FsdAlias → FsdAlias
as_it_is aux = aux

abbrev read_back : FsdAlias → FsdAlias → FsdAlias × Bool
read_back document before = (document, true)

-- 4097 bytes arrive as 4096.
loses_a_byte :
    unmarshal_json_fsd read_back 0 (marshal_fsd as_it_is (tree 4097)) other ≡ (tree 4096, ok tt)
unfolding unmarshal_json_fsd marshal_fsd byte_size scaled to_float excess trim_suffix format_tenths
    decimal has_suffix has_prefix to_bytes parts_to_bytes split_at_letter counted parse_float
    unit_of trim_space trim_start to_uint64 read_number float_of shift_up shift_down read_digits
    scan scan_step text_eq
loses_a_byte = refl

four_kilobytes-IsExact : IsExact 4096
four_kilobytes-IsExact = inr (0, 8, omega arith, omega arith, refl, omega arith)

to_bytes-byte_size_example : to_bytes 0 (byte_size 4096) ≡ ok 4096
to_bytes-byte_size_example = to_bytes-byte_size 0 4096 four_kilobytes-IsExact

fsd_travels_example :
    (unmarshal_json_fsd read_back 0 (marshal_fsd as_it_is (tree 4096)) other ≡ (tree 4096, ok tt))
    × (unmarshal_yaml_fsd read_back 0 (marshal_fsd as_it_is (tree 4096)) other ≡ (tree 4096, ok tt))
fsd_travels_example =
    fsd_travels 0 as_it_is read_back (λ a before. refl) (tree 4096) other four_kilobytes-IsExact
