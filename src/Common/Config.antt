-- ===== src/Common/Config.antt =====
-- `checkTestCase`, `CheckSetConfig` and `LoadConfigFromFile` of pkg/common/configFile.go. The proofs
-- are in the modules below.
pub mod Settings
pub mod Checked
pub mod Accepts
pub mod Settled
pub mod Again
pub mod FirstError
use fsbench.Prelude.{
  ℕ, Bool, true, false, not, ◌&&◌, ◌||◌, List, [], ◌∷◌, Option, none, some, Text, codes, text_eq,
  has_suffix, Outcome, ok, err, panic, if◌then◌else◌, ◌>>=◌, ◌>>◌,
}
use fsbench.Common.Types.{TestCaseConfiguration, GlobalConfiguration, TestConf, Fsd, Fwd}

-- The errors of `checkTestCase`, in the order of its tests.
pub data ConfigError : Type 0 where
  no_tests bad_generator no_defines no_anchor no_direct_io no_operations no_threads : ConfigError

-- `len(l) == 0`, and for a text `s == ""`
unfoldable pub is_empty {ℓ} : {A : Type ℓ} → List A → Bool
is_empty [] = true
is_empty (x ∷ xs) = false

unfoldable pub is_nil {ℓ} : {A : Type ℓ} → Option A → Bool
is_nil none = true
is_nil (some a) = false

-- `PayloadGenerator != "" && … != "random" && … != "empty"`
unfoldable pub bad_payload : Text → Bool
bad_payload p =
    not (text_eq p []) && (not (text_eq p (codes "random")) && not (text_eq p (codes "empty")))

abbrev pub reject : Bool → ConfigError → Outcome ConfigError (Unit {0})
reject true e = err e
reject false e = ok tt

-- `if local == zero { local = global }`
unfoldable pub or_global {ℓ} : {A : Type ℓ} → List A → List A → List A
or_global [] g = g
or_global (x ∷ xs) g = x ∷ xs

unfoldable pub or_global_ptr {ℓ} : {A : Type ℓ} → Option A → Option A → Option A
or_global_ptr none g = g
or_global_ptr (some a) g = some a

unfoldable pub inherit_fsd : GlobalConfiguration → Fsd → Fsd
unfolding or_global or_global_ptr
inherit_fsd g d = record d {
  anchor = or_global d.anchor g.anchor;
  direct_io = or_global_ptr d.direct_io g.direct_io;
}

unfoldable pub inherit_fwd : GlobalConfiguration → Fwd → Fwd
unfolding or_global
inherit_fwd g w = record w {
  operations = or_global w.operations g.operations;
  threads = or_global w.threads g.threads;
}

-- The tests against the global configuration, then the assignments.
unfoldable pub check_defines :
    GlobalConfiguration
    → TestCaseConfiguration
    → Fsd
    → Fwd
    → Outcome ConfigError TestCaseConfiguration
unfolding is_empty is_nil inherit_fsd inherit_fwd
check_defines g t d w = do
  reject (is_empty g.anchor && is_empty d.anchor) no_anchor
  reject (is_nil g.direct_io && is_nil d.direct_io) no_direct_io
  reject (is_empty g.operations && is_empty w.operations) no_operations
  reject (is_empty g.threads && is_empty w.threads) no_threads
  ok (record t { fsd = some (inherit_fsd g d); fwd = some (inherit_fwd g w) })

-- Reading a field of a nil global configuration panics.
unfoldable pub with_defines :
    Option GlobalConfiguration
    → TestCaseConfiguration
    → Option Fsd
    → Option Fwd
    → Outcome ConfigError TestCaseConfiguration
unfolding check_defines
with_defines g t none w = err no_defines
with_defines g t (some d) none = err no_defines
with_defines none t (some d) (some w) = panic
with_defines (some g) t (some d) (some w) = check_defines g t d w

-- One round of the loop; a nil test case panics.
unfoldable pub check_one :
    Option GlobalConfiguration
    → Option TestCaseConfiguration
    → Outcome ConfigError TestCaseConfiguration
unfolding with_defines bad_payload
check_one g none = panic
check_one g (some t) =
    reject (bad_payload t.payload_generator) bad_generator >> with_defines g t t.fsd t.fwd

abbrev pub Tests : Type 0
Tests = List (Option TestCaseConfiguration)

-- What the loop returns and leaves behind, from what this round and the later rounds do. It writes
-- through the pointers, so an error leaves the earlier tests changed, and this and later ones not.
abbrev pub check_round :
    Option TestCaseConfiguration
    → Tests
    → Outcome ConfigError TestCaseConfiguration
    → Outcome ConfigError (Unit {0}) × Tests
    → Outcome ConfigError (Unit {0}) × Tests
check_round t ts (ok t') (r, rest) = (r, some t' ∷ rest)
check_round t ts (err e) later = (err e, t ∷ ts)
check_round t ts panic later = (panic, t ∷ ts)

unfoldable pub check_tests :
    Option GlobalConfiguration → Tests → Outcome ConfigError (Unit {0}) × Tests
check_tests g [] = (ok tt, [])
check_tests g (t ∷ ts) = check_round t ts (check_one g t) (check_tests g ts)

unfoldable pub check_test_case : TestConf → Outcome ConfigError (Unit {0}) × TestConf
unfolding check_tests
check_test_case config =
    if is_empty config.tests
    then (err no_tests, config)
    else (let (r, ts) = check_tests config.global_config config.tests in
        (r, record config { tests = ts }))

-- What becomes of the process: it goes on with a configuration, `log.Fatalf` ends it, or it panics.
pub data Startup : Type 0 where
  accepted : TestConf → Startup
  fatal : Startup
  crash : Startup

abbrev pub startup_of : Outcome ConfigError (Unit {0}) × TestConf → Startup
startup_of (ok u, config) = accepted config
startup_of (err e, config) = fatal
startup_of (panic, config) = crash

unfoldable pub check_set_config : TestConf → Startup
check_set_config config =
    if is_nil config.global_config then fatal else startup_of (check_test_case config)

-- The readers that the file's suffix chooses between are the libraries'; `none` is their error.
module _ (read_file : Text → Option Text)
    (unmarshal_yaml unmarshal_json : Text → Option TestConf) where
  parse_by_suffix : Text → Text → Option TestConf
  parse_by_suffix config_file content =
      if has_suffix (codes ".yaml") config_file || has_suffix (codes ".yml") config_file
      then unmarshal_yaml content
      else if has_suffix (codes ".json") config_file
      then unmarshal_json content
      else none

  -- `none` stands for `log.Fatalf`, which ends the process.
  unfoldable pub load_config_from_file : Text → Option TestConf
  unfolding parse_by_suffix
  load_config_from_file config_file = elim (read_file config_file) [
    | none ↦ none
    | some content ↦ parse_by_suffix config_file content
  ]
