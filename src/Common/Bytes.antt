-- ===== src/Common/Bytes.antt =====
-- pkg/common/bytes.go: sizes as text. The 64-bit floating point that the code computes in is modelled
-- exactly, as fractions; texts are ASCII. The proofs are in the modules below.
pub mod Exact
pub mod RoundTrip
mod Examples
use fsbench.Prelude.{
  ℕ, zero, suc, ◌+◌, ◌-◌, ◌*◌, ◌/◌, ◌%◌, ◌^◌, Bool, true, false, not, ◌&&◌, ◌||◌, List, [], ◌∷◌,
  ◌++◌, map, Option, none, some, Text, codes, text_eq, has_suffix, take, length, Outcome, ok, err,
  ◌>>=◌, if◌then◌else◌, ltb, leb, ◌==◌,
}
use mathlib.Core.List.{reverse}
use mathlib.Core.Option
use fsbench.FilePath.{decimal}

abbrev pub kilobyte : ℕ
kilobyte = 2 ^ 10

abbrev pub megabyte : ℕ
megabyte = 2 ^ 20

abbrev pub gigabyte : ℕ
gigabyte = 2 ^ 30

abbrev pub terabyte : ℕ
terabyte = 2 ^ 40

abbrev pub petabyte : ℕ
petabyte = 2 ^ 50

abbrev pub exabyte : ℕ
exabyte = 2 ^ 60

-- The whole number nearest to `n / d`, the even one of two.
abbrev pub nearest : ℕ → ℕ → ℕ
nearest n d =
    let q = n / d in
    let r = n % d in if ltb (2 * r) d then q else if ltb d (2 * r) then q + 1 else q + q % 2

-- How many binary digits a number below `2 ^ 64` has above the 53 of a mantissa.
unfoldable pub excess : ℕ → ℕ → ℕ → ℕ
excess zero e n = e
excess (suc left) e n = elim (ltb n (2 ^ (53 + e))) [ true ↦ e | false ↦ excess left (e + 1) n ]

-- `float64(n)`
unfoldable pub to_float : ℕ → ℕ
unfolding excess
to_float n = let e = excess 11 0 n in nearest n (2 ^ e) * 2 ^ e

-- strings.TrimSuffix, with the text last
unfoldable pub trim_suffix : Text → Text → Text
trim_suffix suffix s = if has_suffix suffix s then take (length s - length suffix) s else s

-- `FormatFloat(value / unit, 'f', 1, 64)`; dividing by a power of two is exact.
unfoldable pub format_tenths : ℕ → ℕ → Text
format_tenths value unit =
    let tenths = nearest (10 * value) unit in
    decimal (tenths / 10) ++ (codes "." ++ decimal (tenths % 10))

unfoldable pub scaled : ℕ → ℕ → Text → Text
unfolding to_float trim_suffix format_tenths
scaled bytes unit letter = trim_suffix (codes ".0") (format_tenths (to_float bytes) unit) ++ letter

unfoldable pub byte_size : ℕ → Text
unfolding scaled
byte_size bytes =
    if leb exabyte bytes
    then scaled bytes exabyte (codes "E")
    else if leb petabyte bytes
    then scaled bytes petabyte (codes "P")
    else if leb terabyte bytes
    then scaled bytes terabyte (codes "T")
    else if leb gigabyte bytes
    then scaled bytes gigabyte (codes "G")
    else if leb megabyte bytes
    then scaled bytes megabyte (codes "M")
    else if leb kilobyte bytes
    then scaled bytes kilobyte (codes "K")
    else if leb 1 bytes
    then scaled bytes 1 (codes "B")
    else codes "0B"

abbrev pub byte_quantity_error : Text
byte_quantity_error =
    codes
      "byte quantity must be a positive integer with a unit of measurement like M, MB, MiB, G, GiB, or GB"

abbrev is_space : ℕ → Bool
is_space c = (leb 9 c && leb c 13) || c == 32

abbrev is_upper : ℕ → Bool
is_upper c = leb 65 c && leb c 90

abbrev is_lower : ℕ → Bool
is_lower c = leb 97 c && leb c 122

-- strings.TrimSpace
unfoldable pub trim_start : Text → Text
trim_start [] = []
trim_start (c ∷ s) = let rest = trim_start s in if is_space c then rest else c ∷ s

unfoldable pub trim_space : Text → Text
unfolding trim_start
trim_space s = reverse (trim_start (reverse (trim_start s)))

-- strings.ToUpper
abbrev pub to_upper : Text → Text
to_upper = map (λ c. if is_lower c then c - 32 else c)

-- strings.ToLower
abbrev pub to_lower : Text → Text
to_lower = map (λ c. if is_upper c then c + 32 else c)

-- `s[:i]` and `s[i:]` at the first letter; none where there is none.
unfoldable pub split_at_letter : Text → Option (Text × Text)
split_at_letter [] = none
split_at_letter (c ∷ s) =
    let rest = split_at_letter s in
    if is_upper c || is_lower c
    then some ([], c ∷ s)
    else Option.map (λ parts. (c ∷ parts.0, parts.1)) rest

-- What the last character was, for the underscores that may stand between digits.
pub data Last : Type 0 where
  start digit underscore point : Last

-- The digits read so far: their number, how many came after the point, and whether there is a point.
pub record Scan : Type 0 where
  pub value : ℕ
  pub fraction : ℕ
  pub has_point : Bool
  pub has_digits : Bool
  pub last : Last

abbrev add_digit : ℕ → Scan → Scan
add_digit d s = record {
  value = s.value * 10 + d;
  fraction = if s.has_point then s.fraction + 1 else s.fraction;
  has_point = s.has_point;
  has_digits = true;
  last = digit;
}

abbrev after_digit : Last → Bool
after_digit digit = true
after_digit start = false
after_digit underscore = false
after_digit point = false

abbrev may_point : Last → Bool
may_point underscore = false
may_point digit = true
may_point start = true
may_point point = true

unfoldable pub scan_step : ℕ → Scan → Option Scan
scan_step c s =
    if leb b'0' c && leb c b'9'
    then some (add_digit (c - b'0') s)
    else if c == b'.' && (not s.has_point && may_point s.last)
    then some (record s { has_point = true; last = point })
    else if c == b'_' && after_digit s.last
    then some (record s { last = underscore })
    else none

abbrev scan_next : ℕ → Option Scan → Option Scan
scan_next c none = none
scan_next c (some s) = scan_step c s

unfoldable pub scan : Text → Option Scan → Option Scan
unfolding scan_step
scan [] s = s
scan (c ∷ t) s = scan t (scan_next c s)

abbrev scan_end : Option Scan → Option (ℕ × ℕ)
scan_end none = none
scan_end (some s) = if s.has_digits && may_point s.last then some (s.value, s.fraction) else none

abbrev new_scan : Scan
new_scan = record { value = 0; fraction = 0; has_point = false; has_digits = false; last = start }

-- A number that is not signed: its digits, and how many of them are after the point.
unfoldable pub read_digits : Text → Option (ℕ × ℕ)
unfolding scan
read_digits s = scan_end (scan s (some new_scan))

-- With the sign: true is minus.
unfoldable pub read_number : Text → Option (Bool × ℕ × ℕ)
unfolding read_digits
read_number [] = none
read_number (c ∷ s) =
    if c == b'-'
    then Option.map (λ n. (true, n.0, n.1)) (read_digits s)
    else if c == b'+'
    then Option.map (λ n. (false, n.0, n.1)) (read_digits s)
    else Option.map (λ n. (false, n.0, n.1)) (read_digits (c ∷ s))

-- A float64 that is not negative: `mantissa * 2 ^ up / 2 ^ down`.
pub record Float : Type 0 where
  pub mantissa : ℕ
  pub up : ℕ
  pub down : ℕ

-- The powers of two that bring `n / d` to the 53 digits of a mantissa, as far as a float64 goes.
unfoldable pub shift_up : ℕ → ℕ → ℕ → ℕ → ℕ
shift_up zero e n d = e
shift_up (suc left) e n d = elim (ltb n (2 ^ (53 + e) * d)) [
  | true ↦ e
  | false ↦ shift_up left (e + 1) n d
]

unfoldable pub shift_down : ℕ → ℕ → ℕ → ℕ → ℕ
shift_down zero e n d = e
shift_down (suc left) e n d = elim (ltb (n * 2 ^ e) (2 ^ 52 * d)) [
  | true ↦ shift_down left (e + 1) n d
  | false ↦ e
]

unfoldable pub float_of : ℕ → ℕ → Float
unfolding shift_up shift_down
float_of n d =
    let up = shift_up 1024 0 n d in
    let down = shift_down 1074 0 n d in
    record { mantissa = nearest (n * 2 ^ down) (2 ^ up * d); up = up; down = down }

-- `strconv.ParseFloat` of a text without letters; an overflow is an error, as is a text that it cannot
-- read.
unfoldable pub parse_float : Text → Option (Bool × Float)
unfolding read_number float_of
parse_float s = of_number (read_number s)
  where
    of_float : Bool → Float → Option (Bool × Float)
    of_float minus x = if ltb (x.mantissa * 2 ^ x.up) (2 ^ 1024) then some (minus, x) else none

    of_number : Option (Bool × ℕ × ℕ) → Option (Bool × Float)
    of_number none = none
    of_number (some (minus, n, fraction)) = of_float minus (float_of n (10 ^ fraction))

abbrev units : List (List Text × ℕ)
units =
    (codes "E" ∷ codes "EB" ∷ codes "EIB" ∷ [], exabyte)
    ∷ (codes "P" ∷ codes "PB" ∷ codes "PIB" ∷ [], petabyte)
    ∷ (codes "T" ∷ codes "TB" ∷ codes "TIB" ∷ [], terabyte)
    ∷ (codes "G" ∷ codes "GB" ∷ codes "GIB" ∷ [], gigabyte)
    ∷ (codes "M" ∷ codes "MB" ∷ codes "MIB" ∷ [], megabyte)
    ∷ (codes "K" ∷ codes "KB" ∷ codes "KIB" ∷ [], kilobyte)
    ∷ (codes "B" ∷ [], 1)
    ∷ []

abbrev is_one_of : Text → List Text → Bool
is_one_of s [] = false
is_one_of s (t ∷ ts) = text_eq s t || is_one_of s ts

unfoldable pub unit_of : Text → List (List Text × ℕ) → Option ℕ
unit_of s [] = none
unit_of s ((names, unit) ∷ rest) =
    let later = unit_of s rest in if is_one_of s names then some unit else later

-- `uint64(x)`: the fraction is dropped. What a number out of range becomes depends on the machine.
unfoldable pub to_uint64 : ℕ → ℕ → Float → ℕ
to_uint64 beyond unit x =
    let n = x.mantissa * 2 ^ x.up * unit / 2 ^ x.down in if ltb n (2 ^ 64) then n else beyond

unfoldable pub counted : ℕ → Option (Bool × Float) → Option ℕ → Outcome Text ℕ
unfolding to_uint64
counted beyond (some (minus, x)) (some unit) =
    if minus && not (x.mantissa == 0) then err byte_quantity_error else ok (to_uint64 beyond unit x)
counted beyond none unit = err byte_quantity_error
counted beyond (some x) none = err byte_quantity_error

unfoldable pub parts_to_bytes : ℕ → Option (Text × Text) → Outcome Text ℕ
unfolding counted parse_float unit_of trim_space
parts_to_bytes beyond none = err byte_quantity_error
parts_to_bytes beyond (some (number, multiple)) =
    counted beyond (parse_float (trim_space number)) (unit_of multiple units)

-- `ToBytes`; `beyond` is the machine's `uint64` of a number that is too large.
unfoldable pub to_bytes : ℕ → Text → Outcome Text ℕ
unfolding parts_to_bytes split_at_letter
to_bytes beyond s = parts_to_bytes beyond (split_at_letter (to_upper (trim_space s)))

-- `ToMegabytes`
unfoldable pub to_megabytes : ℕ → Text → Outcome Text ℕ
to_megabytes beyond s = to_bytes beyond s >>= λ bytes. ok (bytes / megabyte)
