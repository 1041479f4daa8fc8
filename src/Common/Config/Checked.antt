-- ===== src/Common/Config/Checked.antt =====
-- What `CheckSetConfig` accepts, and what the accepted configuration looks like.
use fsbench.Prelude.{
  Bool, true, false, ◌&&◌, [], ◌∷◌, Option, none, some, All, Outcome, ok, err, panic, ◌>>◌, ◌≡◌,
  refl, sym, ap, ◌∙◌, map, arith,
}
use mathlib.Core.Option
use fsbench.Common.Types.{TestCaseConfiguration, GlobalConfiguration, Fsd, Fwd}
use fsbench.Common.Config.{
  ConfigError, is_empty, is_nil, bad_payload, inherit_fsd, inherit_fwd, check_defines, reject,
  bad_generator, no_anchor, no_direct_io, no_operations, no_threads, with_defines, check_one,
  check_round, Tests, check_tests,
}
use fsbench.Common.Config.Settings.{
  HasSettings, IsAcceptable, some_not_empty, not_both_empty, some_not_nil, not_both_nil,
  IsGenerator-of_payload, payload_of_generator,
}

-- The settings that a run with this test uses.
abbrev inherit : GlobalConfiguration → TestCaseConfiguration → Fsd → Fwd → TestCaseConfiguration
inherit g t d w = record t { fsd = some (inherit_fsd g d); fwd = some (inherit_fwd g w) }

four_passed :
    {A : Type 0} (a b c d : Bool) (e f i j : ConfigError) (r r' : A)
    → (reject a e >> (reject b f >> (reject c i >> (reject d j >> ok r)))) ≡ ok r'
    → (a ≡ false) × (b ≡ false) × (c ≡ false) × (d ≡ false) × (r' ≡ r)
four_passed a b c d e f i j r r' h = ground arith

module _ (g : GlobalConfiguration) (t : TestCaseConfiguration) (d : Fsd) (w : Fwd) where
  abbrev AllSettings : Type 0
  AllSettings = HasSettings (some g) (some d) (some w)

  check_defines_sound :
      (t' : TestCaseConfiguration)
      → check_defines g t d w ≡ ok t'
      → AllSettings × (t' ≡ inherit g t d w)
  unfolding check_defines
  check_defines_sound t' h =
      let (a, i, o, n, e) =
        four_passed (is_empty g.anchor && is_empty d.anchor)
          (is_nil g.direct_io && is_nil d.direct_io)
          (is_empty g.operations && is_empty w.operations)
          (is_empty g.threads && is_empty w.threads) no_anchor no_direct_io no_operations no_threads
          (inherit g t d w) t' h in
      (
        (
          some_not_empty g.anchor d.anchor a,
          some_not_nil g.direct_io d.direct_io i,
          some_not_empty g.operations w.operations o,
          some_not_empty g.threads w.threads n,
        ),
        e,
      )

  check_defines_complete : AllSettings → check_defines g t d w ≡ ok (inherit g t d w)
  unfolding check_defines
  check_defines_complete (a, i, o, n) = rw (
    not_both_empty g.anchor d.anchor a,
    not_both_nil g.direct_io d.direct_io i,
    not_both_empty g.operations w.operations o,
    not_both_empty g.threads w.threads n,
  )

-- The test with the global settings put where it has none.
abbrev pub resolve :
    Option GlobalConfiguration → Option TestCaseConfiguration → Option TestCaseConfiguration
resolve none t = t
resolve (some g) none = none
resolve (some g) (some t) =
    some
      (record t { fsd = Option.map (inherit_fsd g) t.fsd; fwd = Option.map (inherit_fwd g) t.fwd })

abbrev resolved_defines :
    Option GlobalConfiguration
    → TestCaseConfiguration
    → Option Fsd
    → Option Fwd
    → Option TestCaseConfiguration
resolved_defines none t d w = some t
resolved_defines (some g) t d w =
    some (record t { fsd = Option.map (inherit_fsd g) d; fwd = Option.map (inherit_fwd g) w })

with_defines_sound :
    (g : Option GlobalConfiguration) (t : TestCaseConfiguration) (fsd : Option Fsd)
    (fwd : Option Fwd) (t' : TestCaseConfiguration)
    → with_defines g t fsd fwd ≡ ok t'
    → HasSettings g fsd fwd × (resolved_defines g t fsd fwd ≡ some t')
unfolding with_defines
with_defines_sound none t none w t' h = cc
with_defines_sound (some g) t none w t' h = cc
with_defines_sound none t (some d) none t' h = cc
with_defines_sound (some g) t (some d) none t' h = cc
with_defines_sound none t (some d) (some w) t' h = cc
with_defines_sound (some g) t (some d) (some w) t' h =
    let (s, e) = check_defines_sound g t d w t' h in (s, ap some (sym e))

with_defines_complete :
    (g : Option GlobalConfiguration) (t : TestCaseConfiguration) (fsd : Option Fsd)
    (fwd : Option Fwd) (t' : TestCaseConfiguration)
    → HasSettings g fsd fwd
    → resolved_defines g t fsd fwd ≡ some t'
    → with_defines g t fsd fwd ≡ ok t'
unfolding with_defines
with_defines_complete none t d w t' h e = absurd h
with_defines_complete (some g) t none w t' h e = absurd h
with_defines_complete (some g) t (some d) none t' h e = absurd h
with_defines_complete (some g) t (some d) (some w) t' h e = cc (check_defines_complete g t d w h)

resolve-resolved_defines :
    (g : Option GlobalConfiguration) (t : TestCaseConfiguration)
    → resolve g (some t) ≡ resolved_defines g t t.fsd t.fwd
resolve-resolved_defines none t = refl
resolve-resolved_defines (some g) t = refl

one_passed :
    {A : Type 0} (b : Bool) (e : ConfigError) (m : Outcome ConfigError A) (r : A)
    → (reject b e >> m) ≡ ok r
    → (b ≡ false) × (m ≡ ok r)
one_passed true e m r h = cc
one_passed false e m r h = (refl, h)

pub check_one_sound :
    (g : Option GlobalConfiguration) (t : Option TestCaseConfiguration) (t' : TestCaseConfiguration)
    → check_one g t ≡ ok t'
    → IsAcceptable g t × (resolve g t ≡ some t')
unfolding check_one
check_one_sound g none t' h = cc
check_one_sound g (some t) t' h =
    let (good, passed) = one_passed (bad_payload t.payload_generator) bad_generator _ t' h in
    let (settings, e) = with_defines_sound g t t.fsd t.fwd t' passed in
    ((IsGenerator-of_payload t.payload_generator good, settings), resolve-resolved_defines g t ∙ e)

pub check_one_complete :
    (g : Option GlobalConfiguration) (t : Option TestCaseConfiguration) (t' : TestCaseConfiguration)
    → IsAcceptable g t
    → resolve g t ≡ some t'
    → check_one g t ≡ ok t'
unfolding check_one
check_one_complete g none t' h e = absurd h
check_one_complete g (some t) t' (good, settings) e =
    rw (payload_of_generator t.payload_generator good)
      (with_defines_complete g t t.fsd t.fwd t' settings (sym (resolve-resolved_defines g t) ∙ e))

pub resolve-some :
    (g : Option GlobalConfiguration) (t : Option TestCaseConfiguration)
    → IsAcceptable g t
    → (t' : TestCaseConfiguration) × (resolve g t ≡ some t')
resolve-some g none h = absurd h
resolve-some none (some t) h = (t, refl)
resolve-some (some g) (some t) h = (_, refl)

abbrev pub checked : Outcome ConfigError (Unit {0}) × Tests → Tests
checked r = r.1

pub round_passed :
    (t : Option TestCaseConfiguration) (ts : Tests)
    (one : Outcome ConfigError TestCaseConfiguration)
    (later : Outcome ConfigError (Unit {0}) × Tests) (ts' : Tests)
    → check_round t ts one later ≡ (ok tt, ts')
    → (t' : TestCaseConfiguration) × (rest : Tests) × (one ≡ ok t')
      × (later ≡ (ok tt, rest))
      × (ts' ≡ some t' ∷ rest)
round_passed t ts (ok t') (r, rest) ts' h = (t', rest, refl, ground arith, ground arith)
round_passed t ts (err e) later ts' h = ground arith
round_passed t ts panic later ts' h = ground arith

pub check_tests_sound :
    (g : Option GlobalConfiguration) (ts ts' : Tests)
    → check_tests g ts ≡ (ok tt, ts')
    → All (IsAcceptable g) ts × (ts' ≡ map (resolve g) ts)
unfolding check_tests
check_tests_sound g [] ts' h = (tt, ap checked (sym h))
check_tests_sound g (t ∷ ts) ts' h =
    let (t', rest, one, more, e) = round_passed t ts (check_one g t) (check_tests g ts) ts' h in
    let (good, e') = check_one_sound g t t' one in
    let (others, e'') = check_tests_sound g ts rest more in ((good, others), rw (e, e', e''))

pub check_tests_complete :
    (g : Option GlobalConfiguration) (ts : Tests)
    → All (IsAcceptable g) ts
    → check_tests g ts ≡ (ok tt, map (resolve g) ts)
unfolding check_tests
check_tests_complete g [] h = refl
check_tests_complete g (t ∷ ts) (good, rest) =
    let (t', e) = resolve-some g t good in
    rw (check_one_complete g t t' good e, check_tests_complete g ts rest, e)
