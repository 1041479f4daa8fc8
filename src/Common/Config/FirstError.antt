-- ===== src/Common/Config/FirstError.antt =====
-- Which test decides the error of the loop, and what the loop leaves of the others.
use fsbench.Prelude.{[], ◌∷◌, ◌++◌, Option, ok, err, ◌≡◌, refl, sym, ap, ◌∙◌, ap₂}
use fsbench.Common.Types.{TestCaseConfiguration, GlobalConfiguration}
use fsbench.Common.Config.{ConfigError, check_one, check_round, Tests, check_tests}
use fsbench.Common.Config.Checked.{checked, round_passed}

check_tests_cons :
    (g : Option GlobalConfiguration) (t : Option TestCaseConfiguration) (ts : Tests)
    → check_tests g (t ∷ ts) ≡ check_round t ts (check_one g t) (check_tests g ts)
unfolding check_tests
check_tests_cons g t ts = refl

-- The first test that fails decides the error: the tests before it have their settings filled in,
-- and it and the tests after it are left as they were.
pub check_tests_first_error :
    (g : Option GlobalConfiguration) (before before' after : Tests)
    (t : Option TestCaseConfiguration) (e : ConfigError)
    → check_tests g before ≡ (ok tt, before')
    → check_one g t ≡ err e
    → check_tests g (before ++ t ∷ after) ≡ (err e, before' ++ t ∷ after)
check_tests_first_error g [] before' after t e h k =
    let none_before : before' ≡ [] = unfold check_tests in ap checked (sym h) in
    unfold check_tests in rw (none_before, k)
check_tests_first_error g (x ∷ before) before' after t e h k =
    let (x', rest, one, more, e') =
      round_passed x before (check_one g x) (check_tests g before) before'
        (unfold check_tests in h) in
    check_tests_cons g x (before ++ t ∷ after)
    ∙ ap₂ (check_round x (before ++ t ∷ after)) one
        (check_tests_first_error g before rest after t e more k)
    ∙ ap (λ (ts : Tests). (err e, ts ++ t ∷ after)) (sym e')
