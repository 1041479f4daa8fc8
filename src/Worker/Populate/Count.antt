-- ===== src/Worker/Populate/Count.antt =====
-- How many directories there are.
use native.Mathlib.Nat.{pow-zero, pow-succ'}
use fsbench.Prelude.{ℕ, zero, suc, ◌+◌, ◌*◌, ◌^◌, List, length, length-append, Text, ◌≡◌, arith}
use fsbench.Common.Types.{Fsd}
use fsbench.FilePath.{join}
use fsbench.Worker.Populate.{sub_dir, each_sub_dir, populate_level, populate_dirs}

length-each_sub_dir :
    (level : Text → List Text) (k : ℕ)
    → ((path : Text) → length (level path) ≡ k)
    → (worker_id path : Text) (depth i rounds : ℕ)
    → length (each_sub_dir level worker_id path depth i rounds) ≡ rounds * k
unfolding each_sub_dir
length-each_sub_dir level k h worker_id path depth i zero = omega arith
length-each_sub_dir level k h worker_id path depth i (suc rounds) =
    let p = join path (sub_dir worker_id depth i) in
    let rest = each_sub_dir level worker_id path depth (i + 1) rounds in
    let more = length-each_sub_dir level k h worker_id path depth (i + 1) rounds in
    omega (arith, length-append (level p) rest, h p, more)

length-populate_level :
    (worker_id : Text) (width left depth : ℕ) (path : Text)
    → length (populate_level worker_id width left depth path) ≡ width ^ left
unfolding populate_level
length-populate_level worker_id width zero depth path = omega (arith, pow-zero width)
length-populate_level worker_id width (suc left) depth path = omega (
  arith,
  length-each_sub_dir (populate_level worker_id width left (depth + 1)) (width ^ left)
      (length-populate_level worker_id width left (depth + 1)) worker_id path depth 0 width,
  pow-succ' width left,
)

-- A worker has `Width ^ Depth` directories.
pub length-populate_dirs :
    (worker_id : Text) (fsd : Fsd) → length (populate_dirs worker_id fsd) ≡ fsd.width ^ fsd.depth
unfolding populate_dirs
length-populate_dirs worker_id fsd =
    length-populate_level worker_id fsd.width fsd.depth 0 fsd.anchor
