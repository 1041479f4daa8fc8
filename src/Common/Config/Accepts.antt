-- ===== src/Common/Config/Accepts.antt =====
-- `CheckSetConfig` and the loop of `checkTestCase`: which configurations start a run, and with what.
use fsbench.Prelude.{
  Bool, true, false, List, [], ◌∷◌, Option, none, some, map, All, Outcome, ok, err, panic, ◌≡◌, ◌≢◌,
  ◌↔◌, inl, inr, refl, ap, Bool-cases, if◌then◌else◌, ◌∙◌, arith,
}
use fsbench.Common.Types.{TestConf}
use fsbench.Common.Config.{
  ConfigError, is_empty, is_nil, Tests, check_tests, check_test_case, check_set_config, accepted,
  fatal, startup_of,
}
use fsbench.Common.Config.Settings.{IsAcceptable}
use fsbench.Common.Config.Checked.{resolve, check_tests_sound, check_tests_complete}

-- The configurations that the check lets through.
abbrev pub IsWellFormed : TestConf → Type 0
IsWellFormed config =
    (config.global_config ≢ none)
    × (config.tests ≢ [])
    × All (IsAcceptable config.global_config) config.tests

abbrev pub settled : TestConf → TestConf
settled config = record config { tests = map (resolve config.global_config) config.tests }

is_empty-ne {ℓ} : {A : Type ℓ} (l : List A) → (is_empty l ≡ false) ↔ (l ≢ [])
unfolding is_empty
is_empty-ne [] = ((λ h. cc), (λ h. absurd (h refl)))
is_empty-ne (x ∷ xs) = ((λ h e. cc), (λ h. refl))

is_nil-ne {ℓ} : {A : Type ℓ} (o : Option A) → (is_nil o ≡ false) ↔ (o ≢ none)
unfolding is_nil
is_nil-ne none = ((λ h. cc), (λ h. absurd (h refl)))
is_nil-ne (some a) = ((λ h e. cc), (λ h. refl))

startup_passed :
    (b : Bool) (r : Outcome ConfigError (Unit {0}) × TestConf) (config' : TestConf)
    → (if b then fatal else startup_of r) ≡ accepted config'
    → (b ≡ false) × (r ≡ (ok tt, config'))
startup_passed true r config' h = cc
startup_passed false (ok u, c) config' h = ground arith
startup_passed false (err e, c) config' h = cc
startup_passed false (panic, c) config' h = cc

check_test_case_sound :
    (config config' : TestConf)
    → check_test_case config ≡ (ok tt, config')
    → (config.tests ≢ [])
      × All (IsAcceptable config.global_config) config.tests
      × (config' ≡ settled config)
check_test_case_sound config config' h = elim (Bool-cases (is_empty config.tests)) [
  | inl e ↦ absurd (unfold check_test_case in ground arith)
  | inr e ↦
      let run : check_tests config.global_config config.tests ≡ (ok tt, config'.tests) =
        unfold check_test_case in ground arith in
      let (good, e') = check_tests_sound config.global_config config.tests config'.tests run in
      let shape : config' ≡ record config { tests = config'.tests } =
        unfold check_test_case in ground arith in
      (
        (is_empty-ne config.tests).0 e,
        good,
        shape ∙ ap (λ (ts : Tests). record config { tests = ts }) e',
      )
]

check_test_case_complete :
    (config : TestConf)
    → config.tests ≢ []
    → All (IsAcceptable config.global_config) config.tests
    → check_test_case config ≡ (ok tt, settled config)
unfolding check_test_case
check_test_case_complete config some_test good = rw (
  (is_empty-ne config.tests).1 some_test,
  check_tests_complete config.global_config config.tests good,
)

-- `CheckSetConfig` goes on exactly if there is a global configuration, there is a test, and each
-- test has a known generator, both defines and each setting of its own or from the global
-- configuration; it then goes on with the settings of each test filled in.
pub check_set_config_iff :
    (config config' : TestConf)
    → (check_set_config config ≡ accepted config')
      ↔ (IsWellFormed config × (config' ≡ settled config))
unfolding check_set_config
check_set_config_iff config config' = (
  (λ h.
      let (set, run) =
        startup_passed (is_nil config.global_config) (check_test_case config) config' h in
      let (some_test, good, e) = check_test_case_sound config config' run in
      (((is_nil-ne config.global_config).0 set, some_test, good), e)),
  (λ h.
      let ((set, some_test, good), e) = h in
      rw (
        (is_nil-ne config.global_config).1 set,
        check_test_case_complete config some_test good,
        e,
      )),
)
