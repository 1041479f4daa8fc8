-- ===== src/Worker/Operations.antt =====
-- The handlers of the work items (pkg/worker/workItems.go): `Prepare`, `Do` and `Clean`, with the
-- samples that they hand to the metrics. The proofs are in the modules below.
pub mod Samples
pub mod Counts
pub mod Writes
pub mod WriteRun
pub mod FromConfig
mod Examples
use fsbench.Prelude.{
  ℕ, zero, suc, ◌+◌, Bool, true, false, ◌&&◌, List, [], ◌∷◌, ◌++◌, Option, none, some, Text, codes,
  Outcome, ok, panic, if◌then◌else◌, ◌==◌, ◌>>=◌,
}
use fsbench.Common.OpType.{write_op, delete_op}
use fsbench.Common.Types.{ℤ, Fsd, Fwd, TestCaseConfiguration, WorkerConf}
use fsbench.Common.Int.{to_int}
use fsbench.Worker.Disk.{OsError, Disk, Os, mkdir_all, remove}
use fsbench.Worker.Fs.{
  OsClient, with_direct_io, with_payload_generator, with_test_name, new_os_client, delete_file,
}
use fsbench.Worker.Fs
use fsbench.Worker.Queue.{
  BaseOperation, WorkItem, read, write, stat, delete, stopper, file_name, Work,
}

-- What is handed to the Prometheus library, each with the name of the test and the method. The
-- latencies themselves are not modelled.
pub data Sample : Type 0 where
  latency : Text → Text → Sample
  failed : Text → Text → Sample
  finished : Text → Text → Sample
  downloaded : Text → Text → ℕ → Sample
  uploaded : Text → Text → ℕ → Sample

-- What a worker changes: the disk, and the samples it has taken.
pub record World : Type 0 where
  pub disk : Disk
  pub samples : List Sample

abbrev pub Result : Type 0
Result = Outcome OsError (Unit {0}) × World

-- Reading through a nil pointer panics.
unfoldable pub sizes_of : Option Fsd → Option Fwd → Outcome OsError (ℕ × ℕ)
sizes_of (some d) (some w) = ok (d.size, w.block_size)
sizes_of none w = panic
sizes_of (some d) none = panic

abbrev pub deref : Option Bool → Outcome OsError Bool
deref (some b) = ok b
deref none = panic

unfoldable pub direct_of : Option Fsd → Outcome OsError Bool
direct_of (some d) = deref d.direct_io
direct_of none = panic

-- The client of a read or a write, and that of the others.
unfoldable pub io_client : Text → TestCaseConfiguration → Outcome OsError OsClient
unfolding sizes_of direct_of
io_client directory conf = do
  direct ← direct_of conf.fsd
  sizes ← sizes_of conf.fsd conf.fwd
  new_os_client directory (to_int sizes.0) (to_int sizes.1) (
      with_direct_io direct
      ∷ with_payload_generator conf.payload_generator
      ∷ with_test_name conf.name
      ∷ [])

unfoldable pub bare_client : Text → TestCaseConfiguration → Outcome OsError OsClient
unfolding sizes_of
bare_client directory conf = do
  sizes ← sizes_of conf.fsd conf.fwd
  new_os_client directory (to_int sizes.0) (to_int sizes.1) []

abbrev pub size_of_files : Option Fsd → ℕ
size_of_files none = 0
size_of_files (some d) = d.size

-- The samples of a call that has returned; the byte count is added whether it failed or not.
unfoldable pub measured :
    {A : Type 0} → Text → Text → List Sample → List Sample → Outcome OsError A × Disk → Result
measured name method bytes before (ok a, d) = (
  ok tt,
  record { disk = d; samples = before ++ latency name method ∷ finished name method ∷ bytes },
)
measured name method bytes before (Outcome.err e, d) = (
  Outcome.err e,
  record { disk = d; samples = before ++ latency name method ∷ failed name method ∷ bytes },
)
measured name method bytes before (panic, d) = (panic, record { disk = d; samples = before })

unfoldable pub with_client :
    {A : Type 0}
    → Text
    → Text
    → List Sample
    → Outcome OsError OsClient
    → (OsClient → Os A)
    → World
    → Result
with_client name method bytes (ok c) action w =
    measured name method bytes w.samples (action c w.disk)
with_client name method bytes (Outcome.err e) action w = (Outcome.err e, w)
with_client name method bytes panic action w = (panic, w)

-- `Do`; `draws` is what the random source returns to it.
unfoldable pub item_do : (ℕ → ℕ) → TestCaseConfiguration → WorkItem → ℤ → World → Result
item_do draws conf (read b) index w =
    with_client b.test_name (codes "READ")
      (downloaded b.test_name (codes "READ") (size_of_files conf.fsd) ∷ [])
      (io_client b.directory conf) (λ c. Fs.read c (file_name index)) w
item_do draws conf (write b) index w =
    with_client b.test_name (codes "WRITE")
      (uploaded b.test_name (codes "WRITE") (size_of_files conf.fsd) ∷ [])
      (io_client b.directory conf) (λ c. Fs.write c draws (file_name index)) w
item_do draws conf (stat b) index w =
    with_client b.test_name (codes "STAT") [] (bare_client b.directory conf)
      (λ c. Fs.stat c (file_name index)) w
item_do draws conf (delete b) index w =
    with_client b.test_name (codes "DELETE") [] (bare_client b.directory conf)
      (λ c. delete_file c (file_name index)) w
item_do draws conf stopper index w = (ok tt, w)

unfoldable pub item_prepare : WorkItem → World → Result
item_prepare (write b) w =
    measured b.test_name (codes "MKDIR") [] w.samples (mkdir_all b.directory w.disk)
item_prepare (read b) w = (ok tt, w)
item_prepare (stat b) w = (ok tt, w)
item_prepare (delete b) w = (ok tt, w)
item_prepare stopper w = (ok tt, w)

abbrev pub keeping_samples : List Sample → Outcome OsError (Unit {0}) × Disk → Result
keeping_samples samples (r, d) = (r, record { disk = d; samples = samples })

unfoldable pub item_clean : WorkItem → World → Result
item_clean (delete b) w = keeping_samples w.samples (remove b.directory w.disk)
item_clean (read b) w = (ok tt, w)
item_clean (write b) w = (ok tt, w)
item_clean (stat b) w = (ok tt, w)
item_clean stopper w = (ok tt, w)

-- An error is only logged; a panic ends the process.
unfoldable pub ignoring : Result → (World → Result) → Result
ignoring (ok u, w) k = k w
ignoring (Outcome.err e, w) k = k w
ignoring (panic, w) k = (panic, w)

-- The loops over the queue before and after a run.
unfoldable pub each_item : (WorkItem → World → Result) → List WorkItem → World → Result
each_item f [] w = (ok tt, w)
each_item f (item ∷ items) w = ignoring (f item w) (each_item f items)

-- The preparations of `ConnectToServer`.
unfoldable pub prepare_queue : WorkerConf → List WorkItem → World → Result
prepare_queue config queue w =
    if config.op == write_op then each_item item_prepare queue w else (ok tt, w)

-- The housekeeping of `perfTest`.
unfoldable pub clean_queue : WorkerConf → List WorkItem → World → Result
clean_queue config queue w =
    if (config.op == delete_op) && config.test.clear_dirs
    then each_item item_clean queue w
    else (ok tt, w)

-- Works done one after the other; `draws k` is for the `k`-th of them.
unfoldable pub do_works : (ℕ → ℕ → ℕ) → TestCaseConfiguration → ℕ → List Work → World → Result
do_works draws conf k [] w = (ok tt, w)
do_works draws conf k (x ∷ xs) w =
    ignoring (item_do (draws k) conf x.item x.index w) (do_works draws conf (k + 1) xs)
