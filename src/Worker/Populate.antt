-- ===== src/Worker/Populate.antt =====
-- `populateDirs` and `populateLevel` of pkg/worker/worker.go: the leaves of the directory tree that a
-- worker writes to. The proofs are in the modules below.
pub mod Count
mod Names
pub mod Tuples
pub mod Tree
pub mod Distinct
use fsbench.Prelude.{ℕ, zero, suc, ◌+◌, List, [], ◌∷◌, ◌++◌, Text, codes, if◌then◌else◌, ◌==◌}
use fsbench.Common.Types.{Fsd}
use fsbench.FilePath.{join, decimal}

-- `fsb.<depth>_<i>`, with the worker's ID in front on the first level
unfoldable pub sub_dir : Text → ℕ → ℕ → Text
sub_dir worker_id depth i =
    if depth == 0
    then worker_id ++ (codes ".fsb." ++ (decimal depth ++ (codes "_" ++ decimal i)))
    else codes "fsb." ++ (decimal depth ++ (codes "_" ++ decimal i))

-- `for i := 0; i < Width; i++` from `i` on, with `rounds` rounds left; `level` is the recursive call.
unfoldable pub each_sub_dir : (Text → List Text) → Text → Text → ℕ → ℕ → ℕ → List Text
each_sub_dir level worker_id path depth i zero = []
each_sub_dir level worker_id path depth i (suc rounds) =
    level (join path (sub_dir worker_id depth i))
    ++ each_sub_dir level worker_id path depth (i + 1) rounds

-- `left` is `Depth - currentDepth`; at 0 the test `currentDepth < Depth` fails.
unfoldable pub populate_level : Text → ℕ → ℕ → ℕ → Text → List Text
populate_level worker_id width zero depth path = path ∷ []
populate_level worker_id width (suc left) depth path =
    each_sub_dir (populate_level worker_id width left (depth + 1)) worker_id path depth 0 width

unfoldable pub populate_dirs : Text → Fsd → List Text
populate_dirs worker_id fsd = populate_level worker_id fsd.width fsd.depth 0 fsd.anchor
