-- ===== src/Common/Config/Again.antt =====
-- Checking an accepted configuration again.
use mathlib.Core.Option
use fsbench.Prelude.{
  List, [], ◌∷◌, Option, none, some, map, All, ◌≡◌, ◌≢◌, inr, refl, sym, ap, subst, ap₂,
}
use fsbench.Common.Types.{TestCaseConfiguration, GlobalConfiguration, TestConf, Fsd, Fwd}
use fsbench.Common.Config.{
  or_global, or_global_ptr, inherit_fsd, inherit_fwd, Tests, check_set_config, accepted,
}
use fsbench.Common.Config.Checked.{resolve}
use fsbench.Common.Config.Accepts.{check_set_config_iff, settled}
use fsbench.Common.Config.Settings.{IsAcceptable, HasSettings}
use fsbench.Common.Config.Settled.{settled_defines}

or_global_idem {ℓ} :
    {A : Type ℓ} (own global : List A)
    → or_global (or_global own global) global ≡ or_global own global
unfolding or_global
or_global_idem [] [] = refl
or_global_idem [] (x ∷ xs) = refl
or_global_idem (x ∷ xs) g = refl

or_global_ptr_idem {ℓ} :
    {A : Type ℓ} (own global : Option A)
    → or_global_ptr (or_global_ptr own global) global ≡ or_global_ptr own global
unfolding or_global_ptr
or_global_ptr_idem none none = refl
or_global_ptr_idem none (some x) = refl
or_global_ptr_idem (some x) g = refl

fsd_idem :
    (g : GlobalConfiguration) (o : Option Fsd)
    → Option.map (inherit_fsd g) (Option.map (inherit_fsd g) o) ≡ Option.map (inherit_fsd g) o
fsd_idem g none = refl
fsd_idem g (some d) =
    unfold inherit_fsd in
    ap₂ (λ a i. some (record d { anchor = a; direct_io = i })) (or_global_idem d.anchor g.anchor)
      (or_global_ptr_idem d.direct_io g.direct_io)

fwd_idem :
    (g : GlobalConfiguration) (o : Option Fwd)
    → Option.map (inherit_fwd g) (Option.map (inherit_fwd g) o) ≡ Option.map (inherit_fwd g) o
fwd_idem g none = refl
fwd_idem g (some w) =
    unfold inherit_fwd in
    ap₂ (λ o n. some (record w { operations = o; threads = n }))
      (or_global_idem w.operations g.operations) (or_global_idem w.threads g.threads)

resolve_idem :
    (g : Option GlobalConfiguration) (t : Option TestCaseConfiguration)
    → resolve g (resolve g t) ≡ resolve g t
resolve_idem none t = refl
resolve_idem (some g) none = refl
resolve_idem (some g) (some t) =
    ap₂ (λ d w. some (record t { fsd = d; fwd = w })) (fsd_idem g t.fsd) (fwd_idem g t.fwd)

map-resolve_idem :
    (g : Option GlobalConfiguration) (ts : Tests)
    → map (resolve g) (map (resolve g) ts) ≡ map (resolve g) ts
map-resolve_idem g [] = refl
map-resolve_idem g (t ∷ ts) = ap₂ ◌∷◌ (resolve_idem g t) (map-resolve_idem g ts)

still-HasSettings :
    (g : GlobalConfiguration) (fsd : Option Fsd) (fwd : Option Fwd)
    → HasSettings (some g) fsd fwd
    → HasSettings (some g) (Option.map (inherit_fsd g) fsd) (Option.map (inherit_fwd g) fwd)
still-HasSettings g none fwd h = absurd h
still-HasSettings g (some d) none h = absurd h
still-HasSettings g (some d) (some w) h =
    let s = settled_defines g d w h in
    (inr s.has_anchor, inr s.has_direct, inr s.has_operations, inr s.has_threads)

still-IsAcceptable :
    (g : Option GlobalConfiguration) (ts : Tests)
    → All (IsAcceptable g) ts
    → All (IsAcceptable g) (map (resolve g) ts)
still-IsAcceptable g [] h = tt
still-IsAcceptable g (none ∷ ts) (h, hs) = absurd h
still-IsAcceptable none (some t ∷ ts) (h, hs) = absurd h.1
still-IsAcceptable (some g) (some t ∷ ts) (h, hs) =
    ((h.0, still-HasSettings g t.fsd t.fwd h.1), still-IsAcceptable (some g) ts hs)

map-ne-nil : (g : Option GlobalConfiguration) (ts : Tests) → ts ≢ [] → map (resolve g) ts ≢ []
map-ne-nil g [] h = λ _. h refl
map-ne-nil g (t ∷ ts) h = λ e. cc

-- A configuration that was accepted is accepted again, and the second check changes nothing.
pub check_set_config_idem :
    (config config' : TestConf)
    → check_set_config config ≡ accepted config'
    → check_set_config config' ≡ accepted config'
check_set_config_idem config config' h =
    let ((set, some_test, good), e) = (check_set_config_iff config config').0 h in
    let g = config.global_config in
    let again : check_set_config (settled config) ≡ accepted (settled config) =
      (check_set_config_iff (settled config) (settled config)).1 (
        (set, map-ne-nil g config.tests some_test, still-IsAcceptable g config.tests good),
        ap (λ (ts : Tests). record config { tests = ts }) (sym (map-resolve_idem g config.tests)),
      ) in
    subst (λ (c : TestConf). check_set_config c ≡ accepted c) (sym e) again
