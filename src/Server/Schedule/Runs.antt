-- ===== src/Server/Schedule/Runs.antt =====
-- The runs that `scheduleTests` of cmd/server/main.go makes of a configuration.
use fsbench.Prelude.{
  List, [], ◌∷◌, ◌++◌, map, some, All, Pairwise, ◌≡◌, ◌≢◌, sym, ap, ◌∙◌, subst, Text,
}
use fsbench.Common.Types.{GlobalConfiguration, TestConf}
use fsbench.Common.Int.{rounds}
use fsbench.Server.{reorder_tasks}
use fsbench.Server.Schedule.{Field, Run, Done, schedule_tests}
use fsbench.Server.Schedule.Order.{all_names, names, Follows, each_test-Follows}
use fsbench.Server.Schedule.Distinct.{IsPlannedTest, NamedApart, all_names-IsDistinct}

All-first : (P : Text → Type 0) (xs ys : List Text) → All P (xs ++ ys) → All P xs
All-first P [] ys h = tt
All-first P (x ∷ xs) ys (h, hs) = (h, All-first P xs ys hs)

Pairwise-first : (xs ys : List Text) → Pairwise ◌≢◌ (xs ++ ys) → Pairwise ◌≢◌ xs
Pairwise-first [] ys h = tt
Pairwise-first (x ∷ xs) ys (h, hs) = (All-first (◌≢◌ x) xs ys h, Pairwise-first xs ys hs)

-- Tests that each name known operations and thread counts, none of them twice, and that have different
-- names, are run in their order, for each test its thread counts and for each of these its operations:
-- the runs made are the first of these, and all of them if the server comes to the end: if nothing
-- panics and it waits for no worker for ever. No two runs share a name, so that the metrics of one are
-- not added to those of another.
pub schedule_tests_runs :
    {F : Type 0} (field : Field F) (g : GlobalConfiguration) (config : TestConf) (s : Done F)
    → s.runs ≡ []
    → All IsPlannedTest config.tests
    → Pairwise NamedApart config.tests
    → Follows (all_names config.tests) s (schedule_tests field (some g) config s)
      × Pairwise ◌≢◌ (names (schedule_tests field (some g) config s).0)
unfolding schedule_tests
schedule_tests_runs field g config s fresh planned apart =
    let follows =
      each_test-Follows field (reorder_tasks (some g)) (rounds g.workers) config.tests s in
    let (made, rest, split, said, all) = follows in
    (
      follows,
      subst (Pairwise ◌≢◌)
          (sym (said ∙ ap (λ (runs : List Run). map (λ r. r.name) runs ++ made) fresh))
          (Pairwise-first made rest
            (subst (Pairwise ◌≢◌) split (all_names-IsDistinct config.tests planned apart))),
    )
