-- ===== src/Worker/Examples.antt =====
-- Tests of pkg/worker/worker.go: the directories of worker_test.go, and runs of small pools.
use fsbench.Prelude.{
  ℕ, ◌+◌, ◌*◌, ◌^◌, ◌≤◌, false, List, [], ◌∷◌, none, some, Text, codes, cons_head, cons_tail,
  text_eq, ok, All₂, Across, Pairwise, ◌≡◌, ◌≢◌, refl, length, arith,
}
use fsbench.Common.OpType.{write_op}
use fsbench.Common.Types.{pos, Fsd, TestCaseConfiguration, WorkerConf}
use fsbench.Common.Int.{to_int}
use fsbench.FilePath.{
  parse, slash, join, decimal, clean, render_stack, add_elements, add_element, split_slash,
  join_slash,
}
use fsbench.FilePath.Elements.{Lacks}
use fsbench.Worker.Populate.{populate_dirs, sub_dir, populate_level, each_sub_dir}
use fsbench.Worker.Populate.Count.{length-populate_dirs}
use fsbench.Worker.Populate.Tuples.{index_tuples}
use fsbench.Worker.Populate.Tree.{LiesAt, populate_dirs_lie}
use fsbench.Worker.Populate.Distinct.{populate_dirs_distinct, populate_dirs_disjoint}
use fsbench.Worker.Queue.{
  WorkItem, write, Work, fill_workqueue, queue_works, work_one_shot, file_works,
}
use fsbench.Worker.Queue.Sequence.{length-run}
use fsbench.Worker.Queue.Targets.{run_targets_apart}
use fsbench.Worker.Queue.Apart.{TouchApart}
use fsbench.Worker.Pool.{Pool, stopped, here, send, receive, finish, perf_test, step}
use fsbench.Worker.Pool.Ends.{no_client_hangs}
use fsbench.Worker.Pool.{busy}
use fsbench.Worker.Pool.Process.{
  running, crashed, moves, panics, keep_running, panic_at, happen, Schedule, begins, then, IsHalted,
  HasEnded,
}
use fsbench.Worker.Run.{run_works, does_each_work_once}

-- worker_test.go
abbrev test_tree : Fsd
test_tree = record {
  anchor = codes "test-anchor";
  direct_io = none;
  depth = 2;
  width = 2;
  files = 2;
  size = 1024;
}

test_dirs :
    populate_dirs (codes "worker0") test_tree
    ≡ codes "test-anchor/worker0.fsb.0_0/fsb.1_0"
      ∷ codes "test-anchor/worker0.fsb.0_0/fsb.1_1"
      ∷ codes "test-anchor/worker0.fsb.0_1/fsb.1_0"
      ∷ codes "test-anchor/worker0.fsb.0_1/fsb.1_1"
      ∷ []
unfolding populate_dirs populate_level each_sub_dir join sub_dir clean render_stack parse
    add_elements split_slash decimal add_element text_eq join_slash
test_dirs = refl

abbrev case_of : Fsd → TestCaseConfiguration
case_of fsd = record {
  name = codes "smoke-write-t1";
  fsd = some fsd;
  fwd = none;
  payload_generator = [];
  clear_dirs = false;
}

abbrev conf_of : Fsd → ℕ → WorkerConf
conf_of fsd clients = record {
  test = case_of fsd;
  worker_id = codes "w0";
  id = 0;
  op = write_op;
  parallel_clients = pos clients;
}

-- One file in the anchor itself.
abbrev flat_tree : Fsd
flat_tree = record {
  anchor = codes "/mnt";
  direct_io = none;
  depth = 0;
  width = 1;
  files = 1;
  size = 10;
}

abbrev flat_item : WorkItem
flat_item = write (record { test_name = codes "smoke-write-t1"; directory = codes "/mnt" })

abbrev flat_work : Work
flat_work = record { item = flat_item; index = pos 0 }

flat_filled : fill_workqueue (conf_of flat_tree 1) [] ≡ ok (flat_item ∷ [])
unfolding fill_workqueue populate_dirs populate_level
flat_filled = refl

abbrev done_pool : Pool
done_pool = record {
  pending = [];
  channel = [];
  clients = stopped ∷ [];
  done = flat_work ∷ [];
  notified = false;
}

-- The client takes the work, does it, and takes the stopper.
flat-Schedule :
    Schedule 1
      (running (perf_test (work_one_shot flat_tree (flat_item ∷ []) (pos 1)) 1))
      5
      (running done_pool)
unfolding perf_test work_one_shot step queue_works file_works to_int happen keep_running
flat-Schedule =
    then (moves (receive 0))
      (then (moves send)
        (then (moves (finish 0)) (then (moves (receive 0)) (then (moves send) begins refl) refl)
          refl)
        refl)
      refl

does_each_work_once_example :
    (IsHalted 1 (running done_pool)
      → HasEnded (run_works flat_tree (flat_item ∷ [])) (running done_pool))
    × (5 ≤ 3 * (length (run_works flat_tree (flat_item ∷ [])) + 1))
does_each_work_once_example =
    does_each_work_once (conf_of flat_tree 1) flat_tree (flat_item ∷ []) 1 5 (running done_pool)
      refl refl (omega arith) flat_filled flat-Schedule

abbrev crashed_pool : Pool
crashed_pool = record {
  pending = work_one_shot flat_tree [] (pos 1);
  channel = [];
  clients = busy flat_work ∷ [];
  done = [];
  notified = false;
}

-- The one `Do` panics, and the process is gone before the stopper is sent.
crash-Schedule :
    Schedule 1
      (running (perf_test (work_one_shot flat_tree (flat_item ∷ []) (pos 1)) 1))
      3
      (crashed crashed_pool)
unfolding perf_test work_one_shot step queue_works file_works to_int happen keep_running panic_at
crash-Schedule =
    then (panics 0) (then (moves (receive 0)) (then (moves send) begins refl) refl) refl

no_client_hangs_example :
    (◌≡◌ {A = ℕ} 0 0)
    × ((perf_test (flat_work ∷ []) 0).pending ≡ flat_work ∷ [])
    × ((perf_test (flat_work ∷ []) 0).done ≡ [])
no_client_hangs_example = no_client_hangs (flat_work ∷ []) 0 (perf_test (flat_work ∷ []) 0) here

length-run_example : length (work_one_shot flat_tree (flat_item ∷ []) (pos 1)) ≡ 1 ^ 0 * 1 + 1
length-run_example =
    length-run (conf_of flat_tree 1) flat_tree (flat_item ∷ []) refl (omega arith) flat_filled

four_dirs : length (populate_dirs (codes "worker0") test_tree) ≡ 2 ^ 2
four_dirs = length-populate_dirs (codes "worker0") test_tree

worker0_plain : Lacks slash (codes "worker0")
worker0_plain = omega arith

populate_dirs_lie_example :
    All₂
      (LiesAt
        (codes "worker0")
        0
        (parse (codes "test-anchor")).rooted
        (parse (codes "test-anchor")).stack)
      (index_tuples 2 2)
      (populate_dirs (codes "worker0") test_tree)
populate_dirs_lie_example = populate_dirs_lie (codes "worker0") test_tree worker0_plain (λ e. cc)

w0_plain : Lacks slash (codes "w0")
w0_plain = omega arith

w1_plain : Lacks slash (codes "w1")
w1_plain = omega arith

w0_not_w1 : codes "w0" ≢ codes "w1"
w0_not_w1 e = let digits : 48 ≡ 49 = cons_head (cons_tail e) in omega (arith, digits)

populate_dirs_distinct_example :
    Pairwise (λ dir dir'. dir ≢ dir') (populate_dirs (codes "worker0") test_tree)
populate_dirs_distinct_example =
    populate_dirs_distinct (codes "worker0") test_tree worker0_plain (λ e. cc)

populate_dirs_disjoint_example :
    Across
      (λ dir dir'. dir ≢ dir')
      (populate_dirs (codes "w0") test_tree)
      (populate_dirs (codes "w1") test_tree)
populate_dirs_disjoint_example =
    populate_dirs_disjoint (codes "w0") (codes "w1") test_tree w0_plain w1_plain w0_not_w1 (λ e. cc)
      (omega arith)

-- Two directories of two files each.
abbrev wide_tree : Fsd
wide_tree = record {
  anchor = codes "/mnt";
  direct_io = none;
  depth = 1;
  width = 2;
  files = 2;
  size = 10;
}

abbrev wide_item : Text → WorkItem
wide_item dir = write (record { test_name = codes "smoke-write-t1"; directory = dir })

abbrev wide_queue : List WorkItem
wide_queue = wide_item (codes "/mnt/w0.fsb.0_0") ∷ wide_item (codes "/mnt/w0.fsb.0_1") ∷ []

wide_filled : fill_workqueue (conf_of wide_tree 1) [] ≡ ok wide_queue
unfolding fill_workqueue populate_dirs populate_level each_sub_dir join sub_dir clean render_stack
    parse add_elements split_slash decimal add_element text_eq join_slash
wide_filled = refl

run_targets_apart_example : Pairwise TouchApart (queue_works wide_queue 2)
run_targets_apart_example =
    run_targets_apart (conf_of wide_tree 1) wide_tree wide_queue 2 refl w0_plain (λ e. cc)
      wide_filled
