-- ===== src/Server/Schedule/Accepted.antt =====
-- An accepted configuration is run to its end: `CheckSetConfig` (pkg/common/configFile.go), then the
-- loops of `scheduleTests` (cmd/server/main.go).
use fsbench.Prelude.{
  length, ℕ, ◌<◌, List, [], ◌∷◌, ◌++◌, append-nil, map, Option, none, some, Text, ok, All, ◌≡◌, sym,
  ap, ◌∙◌, subst,
}
use mathlib.Core.Option
use fsbench.Common.Types.{Fsd, Fwd, GlobalConfiguration, TestConf, WorkerConf}
use fsbench.Common.Int.{rounds}
use fsbench.Common.Config.{Tests, check_set_config, accepted, inherit_fsd, inherit_fwd}
use fsbench.Common.Config.Checked.{resolve}
use fsbench.Common.Config.Settings.{IsAcceptable, HasSettings}
use fsbench.Common.Config.Accepts.{check_set_config_iff}
use fsbench.Server.{reorder_tasks}
use fsbench.Server.Schedule.{Field, Done, Step, each_test, schedule_tests}
use fsbench.Server.Schedule.Order.{all_names, names, Follows, each_test-Follows}
use fsbench.Server.Schedule.Completes.{
  HasDefines, IsDefined, IsKnownTest, Completes, each_test-Completes,
}

-- What the check lets through has both defines.
kept_defines :
    (g : GlobalConfiguration) (fsd : Option Fsd) (fwd : Option Fwd)
    → HasSettings (some g) fsd fwd
    → HasDefines (Option.map (inherit_fsd g) fsd) (Option.map (inherit_fwd g) fwd)
kept_defines g none fwd h = absurd h
kept_defines g (some d) none h = absurd h
kept_defines g (some d) (some w) h = tt

kept-IsDefined :
    (g : Option GlobalConfiguration) (tests : Tests)
    → All (IsAcceptable g) tests
    → All IsDefined (map (resolve g) tests)
kept-IsDefined g [] h = tt
kept-IsDefined g (none ∷ tests) (h, hs) = absurd h
kept-IsDefined none (some t ∷ tests) (h, hs) = absurd h.1
kept-IsDefined (some g) (some t ∷ tests) (h, hs) =
    (kept_defines g t.fsd t.fwd (h.1), kept-IsDefined (some g) tests hs)

-- There is a global configuration, with at least one worker.
abbrev pub HasWorkers : Option GlobalConfiguration → Type 0
HasWorkers none = ⊥
HasWorkers (some g) = 0 < rounds g.workers

-- The whole of what is expected has been made.
all_made :
    {F : Type 0} (expected : List Text) (before : Done F) (h : Step F)
    → Follows expected before h
    → Completes h
    → names h.0 ≡ names before ++ expected
all_made expected before h (made, rest, split, said, all) done =
    said
    ∙ ap (λ ts. names before ++ ts)
        (sym (split ∙ ap (λ ts. made ++ ts) (all done) ∙ append-nil made))

defined-Completes :
    {F : Type 0} (field : Field F) (global : Option GlobalConfiguration) (config : TestConf)
    (s : Done F)
    → HasWorkers global
    → ((k : ℕ) (cs : List WorkerConf) → length (field.outcome k cs) ≡ length cs)
    → All IsDefined config.tests
    → All IsKnownTest config.tests
    → ((schedule_tests field global config s).1 ≡ ok tt)
      × (names (schedule_tests field global config s).0 ≡ names s ++ all_names config.tests)
unfolding schedule_tests
defined-Completes field none config s some_worker reports defined known = absurd some_worker
defined-Completes field (some g) config s some_worker reports defined known =
    let reorder = reorder_tasks (some g) in
    let workers = rounds g.workers in
    let completes =
      each_test-Completes field reorder workers some_worker reports config.tests s defined known in
    (
      completes,
      all_made (all_names config.tests) s (each_test field reorder workers config.tests s)
          (each_test-Follows field reorder workers config.tests s) completes,
    )

-- A configuration that the check accepts, whose operations are known and which has at least one worker,
-- is run to its end without a panic and without waiting for ever, if in each run each of the workers
-- reports a result; and its runs are, after those made before, all those of its tests in their order.
pub accepted_runs_all :
    {F : Type 0} (field : Field F) (config config' : TestConf) (s : Done F)
    → check_set_config config ≡ accepted config'
    → HasWorkers config'.global_config
    → All IsKnownTest config'.tests
    → ((k : ℕ) (cs : List WorkerConf) → length (field.outcome k cs) ≡ length cs)
    → ((schedule_tests field config'.global_config config' s).1 ≡ ok tt)
      × (names (schedule_tests field config'.global_config config' s).0
          ≡ names s ++ all_names config'.tests)
accepted_runs_all field config config' s accepts some_worker known reports =
    let ((_, _, good), e) = (check_set_config_iff config config').0 accepts in
    let defined =
      subst (λ c. All IsDefined c.tests) (sym e)
        (kept-IsDefined config.global_config config.tests good) in
    defined-Completes field config'.global_config config' s some_worker reports defined known
