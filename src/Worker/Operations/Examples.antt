-- ===== src/Worker/Operations/Examples.antt =====
-- Tests of pkg/worker/workItems.go: two writes in one directory, on a good disk and on a bad one.
use mathlib.Core.List.{Permᴰ, reverse}
use mathlib.Core.List.Permᴰ
use fsbench.Prelude.{
  All-of_forall, ℕ, ◌+◌, false, List, [], ◌∷◌, none, some, Text, codes, text_eq, ok, panic, zero,
  suc, ap, All, ◌≡◌, ◌≢◌, refl, arith, Pairwise,
}
use fsbench.Common.Types.{WorkerConf, pos, Fsd, Fwd, TestCaseConfiguration}
use fsbench.FilePath.{
  slash, join, clean, render_stack, parse, add_elements, split_slash, add_element, join_slash,
  decimal,
}
use fsbench.Worker.Disk.{lookup}
use fsbench.Worker.Queue.{fill_workqueue, queue_works, WorkItem, write, Work, file_name}
use fsbench.Worker.Queue.Apart.{target, TouchApart, directory_of}
use fsbench.Worker.Operations.{World, do_works}
use fsbench.Worker.Operations.Samples.{tally, ended, bytes_of}
use fsbench.Worker.Operations.Counts.{do_works-counted, total_volume, test_of}
use fsbench.Worker.Operations.Writes.{IsAbsent, IsRunnable, IsPresent}
use fsbench.Common.OpType.{write_op}
use fsbench.FilePath.Elements.{Lacks}
use fsbench.Worker.Operations.FromConfig.{write_run}
use fsbench.Worker.Operations.WriteRun.{writes-All}

abbrev tree : Fsd
tree = record {
  anchor = codes "/mnt";
  direct_io = some false;
  depth = 0;
  width = 1;
  files = 2;
  size = 5;
}

abbrev load : Fwd
load = record { operations = codes "write" ∷ []; threads = 1 ∷ []; block_size = 3 }

abbrev test : TestCaseConfiguration
test = record {
  name = codes "t";
  fsd = some tree;
  fwd = some load;
  payload_generator = [];
  clear_dirs = false;
}

abbrev item : WorkItem
item = write (record { test_name = codes "t"; directory = codes "/mnt" })

abbrev two_works : List Work
two_works = record { item = item; index = pos 0 } ∷ record { item = item; index = pos 1 } ∷ []

abbrev start : World
start = record { disk = record { files = []; dirs = []; faults = [] }; samples = [] }

abbrev draws : ℕ → ℕ → ℕ
draws k i = k + i

runnable : IsRunnable test 5 3
runnable = record {
  fsd = tree;
  fwd = load;
  direct = false;
  fsd_eq = refl;
  fwd_eq = refl;
  direct_eq = refl;
  size_eq = refl;
  block_eq = refl;
  some_block = omega arith;
  fits = omega arith;
}

abbrev code_at : Text → ℕ → ℕ
code_at [] i = 0
code_at (c ∷ t) zero = c
code_at (c ∷ t) (suc i) = code_at t i

last_code :
    (code_at (target (record { item = item; index = pos 0 })) 9 ≡ 48)
    × (code_at (target (record { item = item; index = pos 1 })) 9 ≡ 49)
unfolding target directory_of file_name join clean render_stack parse add_elements split_slash
    add_element text_eq join_slash decimal
last_code = (refl, refl)

two_targets : Pairwise TouchApart two_works
two_targets = (
  ((λ e. let same = ap (λ (t : Text). code_at t 9) e in omega (arith, same, last_code)), tt),
  (tt, tt),
)

none_there : All (λ x. lookup (target x) start.disk.files ≡ none) two_works
unfolding lookup
none_there = (refl, (refl, tt))

two_written :
    ((do_works draws test 0 two_works start).0 ≡ ok tt)
    × All (λ x. IsPresent 5 3 (do_works draws test 0 two_works start).1.disk (target x)) two_works
two_written =
    writes-All draws test 5 3 runnable 0 two_works start refl ((_, refl), ((_, refl), tt))
      two_targets none_there

calm : (do_works draws test 0 two_works start).0 ≢ panic
calm h = cc (two_written.0, h)

is_of_test : All (λ x. test_of x.item ≡ some (codes "t")) two_works
unfolding test_of
is_of_test = (refl, (refl, tt))

do_works-counted_example :
    (tally (ended (codes "t")) (do_works draws test 0 two_works start).1.samples
      ≡ tally (ended (codes "t")) start.samples + 2)
    × (tally (bytes_of (codes "t")) (do_works draws test 0 two_works start).1.samples
        ≡ tally (bytes_of (codes "t")) start.samples + total_volume (some tree) two_works)
do_works-counted_example = do_works-counted (codes "t") draws test 0 two_works start is_of_test calm

abbrev config : WorkerConf
config = record {
  test = test;
  worker_id = codes "w0";
  id = 0;
  op = write_op;
  parallel_clients = pos 1;
}

w0_plain : Lacks slash (codes "w0")
w0_plain = omega arith

start-IsAbsent : (works : List Work) → All (IsAbsent start.disk) works
unfolding lookup
start-IsAbsent works = All-of_forall (IsAbsent start.disk) works (λ x. refl)

reverse-permuted : (works : List Work) → Permᴰ works (reverse works)
reverse-permuted works = Permᴰ.symm (Permᴰ.reverse works)

written_backwards :
    (queue : List WorkItem) × (fill_workqueue config [] ≡ ok queue)
    × ((do_works draws test 0 (reverse (queue_works queue 2)) start).0 ≡ ok tt)
    × All
        (λ x.
          IsPresent 5 3
            (do_works draws test 0 (reverse (queue_works queue 2)) start).1.disk
            (target x))
        (queue_works queue 2)
written_backwards =
    write_run config tree draws reverse 5 3 2 start reverse-permuted refl refl runnable w0_plain
      (λ e. cc) refl (λ queue filled. start-IsAbsent (queue_works queue 2))
