-- ===== src/Common/Examples.antt =====
-- Tests of pkg/common/configFile.go at a small configuration: the second test has threads of its
-- own, the first takes everything from the global configuration.
use fsbench.Prelude.{
  true, false, List, [], ◌∷◌, none, some, Text, codes, text_eq, ok, panic, err, All₂, ◌≡◌, ◌≢◌, ◌↔◌,
  refl,
}
use fsbench.Common.OpType.{
  OpType, IsOp, op_string, to_op_type, to_op_type_iff, to_op_type-panic_iff,
}
use fsbench.Common.Types.{pos, Fsd, Fwd, TestCaseConfiguration, GlobalConfiguration, TestConf}
use fsbench.Common.Config.{
  no_operations, Tests, check_one, check_tests, check_test_case, check_set_config, accepted, fatal,
  crash, is_empty, is_nil,
}
use fsbench.Common.Config.Accepts.{check_set_config_iff, IsWellFormed, settled}
use fsbench.Common.Config.Settled.{IsSettled, IsSettled-of_accepted}
use fsbench.Common.Config.Again.{check_set_config_idem}
use fsbench.Common.Config.FirstError.{check_tests_first_error}

abbrev global : GlobalConfiguration
global = record {
  reorder_tasks = true;
  anchor = codes "/mnt";
  direct_io = some false;
  threads = 8 ∷ [];
  operations = [];
  workers = pos 2;
}

abbrev tree : Fsd
tree = record { anchor = []; direct_io = none; depth = 1; width = 2; files = 3; size = 4097 }

abbrev load : List Text → Fwd
load operations = record { operations = operations; threads = []; block_size = 4096 }

abbrev case_of : List Text → TestCaseConfiguration
case_of operations = record {
  name = codes "smoke";
  fsd = some tree;
  fwd = some (load operations);
  payload_generator = codes "random";
  clear_dirs = true;
}

abbrev settled_case_of : List Text → TestCaseConfiguration
settled_case_of operations = record (case_of operations) {
  fsd = some (record tree { anchor = codes "/mnt"; direct_io = some false });
  fwd = some (record (load operations) { threads = 8 ∷ [] });
}

abbrev writes : List Text
writes = codes "write" ∷ codes "read" ∷ []

abbrev config_of : Tests → TestConf
config_of tests = record { report_config = none; global_config = some global; tests = tests }

abbrev before : TestConf
before = config_of (some (case_of writes) ∷ [])

abbrev after : TestConf
after = config_of (some (settled_case_of writes) ∷ [])

accepts : check_set_config before ≡ accepted after
unfolding check_set_config is_nil check_test_case is_empty check_one text_eq
accepts = refl

-- No global configuration ends the process, and a nil test panics.
no_global : check_set_config (record before { global_config = none }) ≡ fatal
unfolding check_set_config is_nil
no_global = refl

nil_test : check_set_config (config_of (none ∷ [])) ≡ crash
unfolding check_set_config is_nil check_test_case is_empty check_one
nil_test = refl

check_set_config_iff_example :
    (check_set_config before ≡ accepted after) ↔ (IsWellFormed before × (after ≡ settled before))
check_set_config_iff_example = check_set_config_iff before after

IsSettled-of_accepted_example : All₂ (IsSettled (some global)) before.tests after.tests
IsSettled-of_accepted_example = IsSettled-of_accepted before after accepts

check_set_config_idem_example : check_set_config after ≡ accepted after
check_set_config_idem_example = check_set_config_idem before after accepts

first_passes :
    check_tests (some global) (some (case_of writes) ∷ [])
    ≡ (ok tt, some (settled_case_of writes) ∷ [])
unfolding check_tests check_one text_eq
first_passes = refl

-- Neither the test nor the global configuration has operations.
second_fails : check_one (some global) (some (case_of [])) ≡ err no_operations
unfolding check_one text_eq
second_fails = refl

check_tests_first_error_example :
    check_tests (some global) (some (case_of writes) ∷ some (case_of []) ∷ none ∷ [])
    ≡ (err no_operations, some (settled_case_of writes) ∷ some (case_of []) ∷ none ∷ [])
check_tests_first_error_example =
    check_tests_first_error (some global) (some (case_of writes) ∷ [])
      (some (settled_case_of writes) ∷ []) (none ∷ []) (some (case_of [])) no_operations
      first_passes second_fails

to_op_type_iff_example :
    (to_op_type (codes "stat") ≡ ok 4) ↔ (IsOp 4 × (codes "stat" ≡ op_string 4))
to_op_type_iff_example = to_op_type_iff (codes "stat") 4

-- Names are read in lower case only.
to_op_type-panic_iff_example :
    (to_op_type (codes "Stat") ≡ panic) ↔ ((t : OpType) → IsOp t → codes "Stat" ≢ op_string t)
to_op_type-panic_iff_example = to_op_type-panic_iff (codes "Stat")
