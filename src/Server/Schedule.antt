-- ===== src/Server/Schedule.antt =====
-- The loops of `scheduleTests` of cmd/server/main.go over tests, threads and operations. A run itself is
-- in Protocol; here its workers' results are given.
pub mod Names
pub mod Order
pub mod Distinct
pub mod Runs
pub mod Completes
pub mod Accepted
mod Examples
use fsbench.Prelude.{
  ℕ, zero, suc, ◌+◌, Bool, List, [], ◌∷◌, ◌++◌, Option, none, some, Text, codes, Outcome, ok, err,
  panic, ◌>>=◌, length, ◌==◌, if◌then◌else◌,
}
use fsbench.Common.Types.{
  ℤ, Fsd, Fwd, TestCaseConfiguration, GlobalConfiguration, TestConf, WorkerConf, BenchmarkResult,
}
use fsbench.Common.Int.{rounds}
use fsbench.Worker.Metrics.{Numbers}
use fsbench.Server.{reorder_tasks, run_name, worker_config}
use fsbench.Server.Results.{run_result}
use fsbench.Server.Csv.{Places, write_result_to_csv}

-- What the workers of a run report, in the order in which they do, by the number of the run, and how
-- long the run takes. A worker whose connection breaks, or that hangs, reports nothing.
pub record Field (F : Type 0) : Type 0 where
  pub numbers : Numbers F
  pub seconds : ℕ → F
  pub outcome : ℕ → List WorkerConf → List (BenchmarkResult F)
  pub elapsed : ℕ → ℕ

-- A run: the name of its test, and what its workers are sent.
pub record Run : Type 0 where
  pub name : Text
  pub configs : List WorkerConf

-- What the server has done so far.
pub record Done (F : Type 0) : Type 0 where
  pub runs : List Run
  pub results : List (BenchmarkResult F)
  pub csv : Places F

-- The configurations of the workers from this one on.
unfoldable pub worker_configs :
    Bool → TestCaseConfiguration → Text → ℕ → ℕ → ℕ → ℕ → Outcome Text (List WorkerConf)
worker_configs reorder test op thread workers zero worker = ok []
worker_configs reorder test op thread workers (suc left) worker =
    worker_config reorder test op thread workers worker >>= λ config.
    worker_configs reorder test op thread workers left (worker + 1) >>= λ configs.
    ok (config ∷ configs)

-- Why the server does not go on: it waits for ever for a worker, or for the reason given.
pub data Halt : Type 0 where
  waits : Halt
  failed : Text → Halt

abbrev pub Step : Type 0 → Type 0
Step F = Done F × Outcome {0, 0} Halt Unit

abbrev pub or_panic : {A : Type 0} → Option A → Outcome {0, 0} Text A
or_panic none = panic
or_panic (some a) = ok a

abbrev pub then_next : {F : Type 0} → Step F → (Done F → Step F) → Step F
then_next (s, ok u) k = k s
then_next (s, err e) k = (s, err e)
then_next (s, panic) k = (s, panic)

module _ {F : Type 0} (field : Field F) (reorder : Bool) (workers : ℕ) where
  abbrev pub add_summary : Outcome Text (BenchmarkResult F) → Done F → Step F
  add_summary (ok r) s = (
    record s {
      results = s.results ++ r ∷ [];
      csv = write_result_to_csv field.numbers field.seconds r s.csv;
    },
    ok tt,
  )
  add_summary (err e) s = (s, err (failed e))
  add_summary panic s = (s, panic)

  -- A run whose configurations are made: once each worker has reported it is summed up, and until then the
  -- server waits.
  unfoldable pub run_configs :
      TestCaseConfiguration → Fwd → ℕ → Text → Outcome Text (List WorkerConf) → Done F → Step F
  run_configs test fwd thread op (ok configs) s =
      let number = length s.runs in
      let results = field.outcome number configs in
      let started = record s {
        runs = s.runs ++ record { name = run_name test.name op thread; configs = configs } ∷ [];
      } in
      let summed =
        add_summary
          (or_panic test.fsd >>= λ fsd.
            run_result field.numbers results (field.elapsed number) thread workers fsd fwd op)
          started in
      if length results == length configs then summed else (started, err waits)
  run_configs test fwd thread op (err e) s = (s, err (failed e))
  run_configs test fwd thread op panic s = (s, panic)

  unfoldable pub run_op : TestCaseConfiguration → Fwd → ℕ → Text → Done F → Step F
  unfolding run_configs worker_configs
  run_op test fwd thread op =
      run_configs test fwd thread op (worker_configs reorder test op thread workers workers 0)

  -- The three loops, from the inner one to the outer one.
  unfoldable pub each_op : TestCaseConfiguration → Fwd → ℕ → List Text → Done F → Step F
  unfolding run_op
  each_op test fwd thread [] s = (s, ok tt)
  each_op test fwd thread (op ∷ ops) s =
      then_next (run_op test fwd thread op s) (each_op test fwd thread ops)

  unfoldable pub each_thread : TestCaseConfiguration → Fwd → List ℕ → Done F → Step F
  unfolding each_op
  each_thread test fwd [] s = (s, ok tt)
  each_thread test fwd (thread ∷ threads) s =
      then_next (each_op test fwd thread fwd.operations s) (each_thread test fwd threads)

  abbrev pub one_test : TestCaseConfiguration → Option Fwd → Done F → Step F
  one_test test none s = (s, panic)
  one_test test (some fwd) s = each_thread test fwd fwd.threads s

  unfoldable pub each_test : List (Option TestCaseConfiguration) → Done F → Step F
  unfolding each_thread
  each_test [] s = (s, ok tt)
  each_test (none ∷ tests) s = (s, panic)
  each_test (some test ∷ tests) s = then_next (one_test test test.fwd s) (each_test tests)

-- `scheduleTests` once its workers are there; reading the workers of a nil global configuration panics.
unfoldable pub schedule_tests :
    {F : Type 0} → Field F → Option GlobalConfiguration → TestConf → Done F → Step F
unfolding each_test
schedule_tests field none config s = (s, panic)
schedule_tests field (some g) config s =
    each_test field (reorder_tasks (some g)) (rounds g.workers) config.tests s
