-- ===== src/Worker/Connection/Examples.antt =====
-- Tests of `ConnectToServer` (pkg/worker/worker.go), also with the server's goroutine at the other end,
-- and of the loop of cmd/worker/main.go.
use mathlib.Core.List.{Permᴰ, reverse}
use mathlib.Core.List.Permᴰ
use fsbench.Prelude.{
  inl, has_suffix, has_prefix, ℕ, ◌+◌, ◌/◌, ◌==◌, true, false, List, [], ◌∷◌, none, some, Text,
  codes, text_eq, All, All-of_forall, ◌≡◌, refl, arith,
}
use fsbench.Common.OpType.{write_op}
use fsbench.Common.Types.{pos, Fsd, Fwd, TestCaseConfiguration, WorkerConf, WorkerMessage}
use fsbench.Common.Bytes.{
  byte_size, scaled, to_float, excess, trim_suffix, format_tenths, to_bytes, parts_to_bytes,
  split_at_letter, counted, parse_float, unit_of, trim_space, trim_start, to_uint64, read_number,
  float_of, shift_up, shift_down, read_digits, scan, scan_step,
}
use fsbench.Common.Encoding.{
  FsdAlias, FwdAlias, marshal_fsd, unmarshal_json_fsd, marshal_fwd, unmarshal_json_fwd,
}
use fsbench.Common.Encoding.Wire.{Wire, deliver_fsd, deliver_fwd, deliver_config, config_arrives}
use fsbench.FilePath.{slash, decimal}
use fsbench.FilePath.Elements.{Lacks}
use fsbench.Worker.Disk.{lookup}
use fsbench.Worker.Populate.{populate_dirs, populate_level, each_sub_dir}
use fsbench.Worker.Run.{run_works}
use fsbench.Worker.Metrics.{Numbers}
use fsbench.Worker.Queue.{WorkItem, Work}
use fsbench.Worker.Operations.{World}
use fsbench.Worker.Operations.Writes.{IsRunnable, IsAbsent}
use fsbench.Server.Execute.Conversation.{Agrees, write_run-Agrees}
use fsbench.Worker.Connection.{
  hello, report, Surroundings, State, panicked, no_result, on_start, handle, serve,
  connect_to_server, run_worker, exits,
}
use fsbench.Worker.Connection.Replies.{Answers, serve-Answers}
use fsbench.Worker.Connection.Steps.{init_message, start_message}
use fsbench.Worker.Connection.WriteTest.{IsTested, write_test-IsTested}

abbrev naturals : Numbers ℕ
naturals = record {
  plus = λ a b. a + b;
  divide = λ a b. a / b;
  naught = 0;
  minus_one = 0;
  of_count = λ n. n;
  is_naught = λ n. n == 0;
}

abbrev env : Surroundings ℕ
env = record {
  numbers = naturals;
  draws = λ k i. k + i;
  arrange = λ works. works;
  gather = λ samples. [];
  elapsed = λ samples. 5;
  seconds = λ n. n;
  sends = λ k. true;
}

abbrev tree : Fsd
tree = record {
  anchor = codes "/mnt";
  direct_io = some false;
  depth = 0;
  width = 1;
  files = 2;
  size = 5;
}

abbrev load : Fwd
load = record { operations = codes "write" ∷ []; threads = 1 ∷ []; block_size = 3 }

abbrev test : TestCaseConfiguration
test = record {
  name = codes "t";
  fsd = some tree;
  fwd = some load;
  payload_generator = [];
  clear_dirs = false;
}

abbrev config : WorkerConf
config = record {
  test = test;
  worker_id = codes "w0";
  id = 0;
  op = write_op;
  parallel_clients = pos 1;
}

abbrev fresh : State ℕ
fresh = record {
  worker = record { work_queue = none; parallel_clients = pos 0; config = none };
  world = record { disk = record { files = []; dirs = []; faults = [] }; samples = [] };
  sent = [];
}

-- To start before any configuration is a nil pointer, not the reconnection that the code means.
start_first : (serve env (some (start_message env) ∷ []) fresh).1 ≡ some panicked
unfolding serve handle on_start text_eq
start_first = refl

abbrev shutdown_message : WorkerMessage ℕ
shutdown_message = record {
  message = codes "shutdown";
  config = none;
  bench_result = no_result env;
}

-- Two connections that fail, then a shutdown: the process exits.
exits_at_shutdown :
    (run_worker env false
      ((false, []) ∷ (true, none ∷ []) ∷ (true, some shutdown_message ∷ []) ∷ [])
      fresh).0
    ≡ exits
unfolding run_worker connect_to_server serve handle text_eq
exits_at_shutdown = refl

serve-Answers_example :
    Answers env
      (some (init_message env config) ∷ some shutdown_message ∷ [])
      []
      (serve env (some (init_message env config) ∷ some shutdown_message ∷ []) fresh)
serve-Answers_example =
    serve-Answers env (some (init_message env config) ∷ some shutdown_message ∷ []) fresh

runnable : IsRunnable test 5 3
runnable = record {
  fsd = tree;
  fwd = load;
  direct = false;
  fsd_eq = refl;
  fwd_eq = refl;
  direct_eq = refl;
  size_eq = refl;
  block_eq = refl;
  some_block = omega arith;
  fits = omega arith;
}

w0_plain : Lacks slash (codes "w0")
w0_plain = omega arith

nothing_there : (works : List Work) → All (IsAbsent fresh.world.disk) works
unfolding lookup
nothing_there works = All-of_forall (IsAbsent fresh.world.disk) works (λ x. refl)

one_dir : (dir : Text) × (populate_dirs (codes "w0") tree ≡ dir ∷ [])
unfolding populate_dirs populate_level
one_dir = (_, refl)

-- The works done from the last to the first.
abbrev backwards : Surroundings ℕ
backwards = record env { arrange = reverse }

backwards-permuted : (works : List Work) → Permᴰ works (backwards.arrange works)
backwards-permuted works = Permᴰ.symm (Permᴰ.reverse works)

write_test-IsTested_example :
    (queue : List WorkItem) × (w : World) × IsTested backwards config tree 5 3 fresh queue w
write_test-IsTested_example =
    write_test-IsTested backwards config tree 5 3 0 fresh backwards-permuted (λ k. refl) refl refl
      refl runnable w0_plain (λ e. cc) refl (one_dir.0) [] (one_dir.1)
      (λ queue filled. nothing_there (run_works tree queue))

abbrev connected : State ℕ
connected = record fresh { sent = hello ∷ [] }

-- Documents that are the fields themselves.
abbrev plain_wire : Wire FsdAlias FwdAlias
plain_wire = record {
  write_fsd = λ fields. fields;
  read_fsd = λ document before. (document, true);
  write_fwd = λ fields. fields;
  read_fwd = λ document before. (document, true);
  beyond = 0;
}

abbrev deep_tree : ℕ → Fsd
deep_tree size = record tree { depth = 1; size = size }

abbrev deep_config : ℕ → WorkerConf
deep_config size = record config { test = record test { fsd = some (deep_tree size) } }

-- 4097 bytes are printed as 4K, so that the worker writes files of 4096 bytes.
rounded_arrives : deliver_config plain_wire (deep_config 4097) ≡ some (deep_config 4096)
unfolding deliver_config deliver_fsd deliver_fwd unmarshal_json_fsd marshal_fsd unmarshal_json_fwd
    marshal_fwd byte_size scaled to_float excess trim_suffix format_tenths decimal has_suffix
    has_prefix to_bytes parts_to_bytes split_at_letter counted parse_float unit_of trim_space
    trim_start to_uint64 read_number float_of shift_up shift_down read_digits scan scan_step text_eq
rounded_arrives = refl

-- Without a depth a configuration does not arrive.
no_depth : deliver_config plain_wire config ≡ none
unfolding deliver_config deliver_fsd deliver_fwd unmarshal_json_fsd
no_depth = refl

same_arrives : deliver_config plain_wire (deep_config 5) ≡ some (deep_config 5)
same_arrives =
    config_arrives plain_wire (λ a before. refl) (λ a before. refl) (deep_config 5) (deep_tree 5)
      load refl refl (inl (omega arith)) (inl (omega arith)) (omega arith)

deep-IsRunnable : IsRunnable (deep_config 4096).test 4096 3
deep-IsRunnable = record {
  fsd = deep_tree 4096;
  fwd = load;
  direct = false;
  fsd_eq = refl;
  fwd_eq = refl;
  direct_eq = refl;
  size_eq = refl;
  block_eq = refl;
  some_block = omega arith;
  fits = omega arith;
}

deep_dir : (dir : Text) × (populate_dirs (codes "w0") (deep_tree 4096) ≡ dir ∷ [])
unfolding populate_dirs populate_level each_sub_dir
deep_dir = (_, refl)

write_run-Agrees_example :
    (queue : List WorkItem) × (w : World) × IsTested backwards
      (deep_config 4096)
      (deep_tree 4096)
      4096
      3
      connected
      queue
      w
    × Agrees plain_wire backwards
        (deep_config 4097)
        connected
        (report backwards (deep_config 4096) w)
write_run-Agrees_example =
    write_run-Agrees plain_wire backwards (deep_config 4097) (deep_config 4096) (deep_tree 4096)
      4096 3 0 connected rounded_arrives backwards-permuted (λ k. refl) refl refl refl
      deep-IsRunnable w0_plain (λ e. cc) refl (deep_dir.0) [] (deep_dir.1)
      (λ queue filled. nothing_there (run_works (deep_tree 4096) queue)) refl
