-- ===== src/Worker/Fs.antt =====
-- pkg/worker/fs.go: the file system client and the bytes that it writes. The proofs are in the modules
-- below.
mod Files
pub mod Payload
pub mod Size
pub mod Write
pub mod Faultless
pub mod Fresh
pub mod Read
mod Examples
use Prim.Native.Nat.{bit_xor}
use fsbench.Prelude.{
  ℕ, zero, suc, ◌+◌, ◌*◌, ◌/◌, ◌%◌, ◌^◌, Bool, true, false, List, [], ◌∷◌, Option, none, some, Text,
  codes, text_eq, Outcome, ok, panic, replicate, length, get_elem?, if◌then◌else◌, ◌==◌,
}
use fsbench.Common.Types.{ℤ, pos, negsuc}
use fsbench.Common.Int.{◌+ℤ◌, ◌*ℤ◌, ◌≤?◌, div, rounds}
use fsbench.FilePath.{join}
use fsbench.Worker.Disk.{
  OsError, short_read, Bytes, Os, ◌>>=◌, ◌>>◌, pure, raise, dir_of, mkdir_all, create, open_read,
  write_bytes, read_bytes, stat_file, remove,
}

abbrev pub ascii_letters : Text
ascii_letters = codes "abcdefghijklmnopqrstuvwxyzABCDEFGHIJKLMNOPQRSTUVWXYZ1234567890()"

abbrev pub or_zero : Option ℕ → ℕ
or_zero none = 0
or_zero (some c) = c

-- `asciiLetterBytes[int(rnd>>16)%len(asciiLetterBytes)]`
unfoldable pub letter_at : ℕ → ℕ
letter_at rnd = or_zero (get_elem? ascii_letters (rnd / 2 ^ 16 % 64))

-- The loop of `randASCIIBytes`, in 32-bit arithmetic.
unfoldable pub rand_bytes : ℕ → ℕ → Bytes → Bytes
rand_bytes rnd2 rnd [] = []
rand_bytes rnd2 rnd (b ∷ dst) =
    letter_at rnd ∷ rand_bytes rnd2 (bit_xor rnd rnd2 * 2654435761 % 2 ^ 32) dst

-- `v` is what `rng.Uint64()` returned.
unfoldable pub rand_ascii_bytes : ℕ → Bytes → Bytes
unfolding rand_bytes letter_at
rand_ascii_bytes v dst = rand_bytes (v / 2 ^ 32 % 2 ^ 32) (v % 2 ^ 32) dst

unfoldable pub generate_bytes : Text → ℕ → Bytes → Bytes
unfolding rand_ascii_bytes
generate_bytes payload_generator v block =
    if text_eq payload_generator (codes "empty") then block else rand_ascii_bytes v block

pub record OsClient : Type 0 where
  pub direct : Bool
  pub root_dir : Text
  pub fsize : ℤ
  pub bsize : ℤ
  pub bcount : ℤ
  pub payload_generator : Text
  pub test_name : Text

abbrev pub OsClientOption : Type 0
OsClientOption = OsClient → OsClient

unfoldable pub with_direct_io : Bool → OsClientOption
with_direct_io direct c = record c { direct = direct }

unfoldable pub with_test_name : Text → OsClientOption
with_test_name test_name c = record c { test_name = test_name }

unfoldable pub with_payload_generator : Text → OsClientOption
with_payload_generator generator c = record c { payload_generator = generator }

unfoldable pub apply_options : OsClient → List OsClientOption → OsClient
apply_options c [] = c
apply_options c (option ∷ options) = apply_options (option c) options

-- The client with its blocks counted, once `(fsize-1)/bsize` is known.
abbrev pub sized : OsClient → ℤ → Outcome OsError ℤ → Outcome OsError OsClient
sized c bsize (ok q) = ok (record c { fsize = (q +ℤ pos 1) *ℤ bsize; bcount = q +ℤ pos 1 })
sized c bsize (Outcome.err e) = Outcome.err e
sized c bsize panic = panic

-- `NewOSClient`; a block size of 0 panics where the file is not empty.
unfoldable pub new_os_client : Text → ℤ → ℤ → List OsClientOption → Outcome OsError OsClient
unfolding apply_options div ◌≤?◌ ◌+ℤ◌ ◌*ℤ◌
new_os_client root_dir fsize bsize options =
    let c =
      apply_options
        (record {
          direct = false;
          root_dir = root_dir;
          fsize = fsize;
          bsize = bsize;
          bcount = pos 0;
          payload_generator = [];
          test_name = [];
        })
        options in
    if fsize ≤? bsize
    then ok (record c { bsize = fsize; bcount = pos 1 })
    else sized c bsize (div (fsize +ℤ negsuc 0) bsize)

abbrev pub full_path : OsClient → Text → Text
full_path c filename = join c.root_dir filename

-- `Create` and `Open`, each by way of `open`
unfoldable pub create_file : Text → Os (Unit {0})
create_file path = do mkdir_all (dir_of path); create path

unfoldable pub open_file : Text → Os (Unit {0})
open_file path = do mkdir_all (dir_of path); open_read path

unfoldable pub delete_file : OsClient → Text → Os (Unit {0})
delete_file c filename = remove (full_path c filename)

unfoldable pub stat : OsClient → Text → Os ℕ
stat c filename = stat_file (full_path c filename)

-- `directio.AlignedBlock`: a block of zeros; a negative size panics.
unfoldable pub aligned_block : ℤ → Os Bytes
aligned_block (pos n) d = (ok (replicate n 0), d)
aligned_block (negsuc n) d = (panic, d)

-- The loop of `Write`; `draws i` is what the random source returns in round `i`.
unfoldable pub write_blocks : Text → (ℕ → ℕ) → Text → ℕ → ℕ → Bytes → Os (Unit {0})
write_blocks generator draws path i zero block = pure tt
write_blocks generator draws path i (suc n) block =
    let filled = generate_bytes generator (draws i) block in
    write_bytes path filled >> write_blocks generator draws path (i + 1) n filled

unfoldable pub write : OsClient → (ℕ → ℕ) → Text → Os (Unit {0})
write c draws filename = do
  create_file (full_path c filename)
  block ← aligned_block c.bsize
  write_blocks c.payload_generator draws (full_path c filename) 0 (rounds c.bcount) block

-- The loop of `Read`: a read of any other size than the block's is an error.
unfoldable pub read_blocks : Text → ℕ → ℕ → ℕ → Os (Unit {0})
read_blocks path bsize offset zero = pure tt
read_blocks path bsize offset (suc n) = do
  count ← read_bytes path offset bsize
  let rest = read_blocks path bsize (offset + count) n
  if count == bsize then rest else raise (short_read bsize count)

unfoldable pub read : OsClient → Text → Os (Unit {0})
read c filename = do
  open_file (full_path c filename)
  block ← aligned_block c.bsize
  read_blocks (full_path c filename) (length block) 0 (rounds c.bcount)
