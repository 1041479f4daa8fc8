-- ===== src/Common/Config/Settled.antt =====
-- What the check makes of each test: its own settings, or the global ones where it has none.
use mathlib.Core.Option
use fsbench.Prelude.{
  List, [], ◌∷◌, Option, none, some, map, All, All₂, ◌≡◌, ◌≢◌, ◌⊎◌, inl, inr, refl, sym, arith,
  subst,
}
use fsbench.Common.Types.{TestCaseConfiguration, GlobalConfiguration, TestConf, Fsd, Fwd}
use fsbench.Common.Config.{
  or_global, or_global_ptr, inherit_fsd, inherit_fwd, Tests, check_set_config, accepted,
}
use fsbench.Common.Config.Checked.{resolve}
use fsbench.Common.Config.Accepts.{check_set_config_iff}
use fsbench.Common.Config.Settings.{IsAcceptable, HasSettings}

-- The own value where there is one, else the global one.
abbrev pub OwnOr {ℓ} : {A : Type ℓ} → List A → List A → List A → Type ℓ
OwnOr own global result = (own ≢ [] → result ≡ own) × (own ≡ [] → result ≡ global)

-- What the loop makes of the defines of one test.
pub record IsSettledDefines (g : GlobalConfiguration) (d d' : Fsd) (w w' : Fwd) : Type 0 where
  pub anchor : OwnOr d.anchor g.anchor d'.anchor
  pub has_anchor : d'.anchor ≢ []
  pub own_direct : d.direct_io ≢ none → d'.direct_io ≡ d.direct_io
  pub global_direct : d.direct_io ≡ none → d'.direct_io ≡ g.direct_io
  pub has_direct : d'.direct_io ≢ none
  pub operations : OwnOr w.operations g.operations w'.operations
  pub has_operations : w'.operations ≢ []
  pub threads : OwnOr w.threads g.threads w'.threads
  pub has_threads : w'.threads ≢ []
  pub tree : (d'.depth ≡ d.depth) × (d'.width ≡ d.width) × (d'.files ≡ d.files) × (d'.size ≡ d.size)
  pub block_size : w'.block_size ≡ w.block_size

abbrev pub SettledDefines :
    Option GlobalConfiguration → Option Fsd → Option Fsd → Option Fwd → Option Fwd → Type 0
SettledDefines (some g) (some d) (some d') (some w) (some w') = IsSettledDefines g d d' w w'
SettledDefines _ _ _ _ _ = ⊥

abbrev pub IsSettled :
    Option GlobalConfiguration
    → Option TestCaseConfiguration
    → Option TestCaseConfiguration
    → Type 0
IsSettled g (some t) (some t') =
    (t'.name ≡ t.name)
    × (t'.payload_generator ≡ t.payload_generator)
    × (t'.clear_dirs ≡ t.clear_dirs)
    × SettledDefines g t.fsd t'.fsd t.fwd t'.fwd
IsSettled g _ _ = ⊥

or_global-OwnOr {ℓ} :
    {A : Type ℓ} (own global : List A)
    → (global ≢ []) ⊎ (own ≢ [])
    → OwnOr own global (or_global own global) × (or_global own global ≢ [])
unfolding or_global
or_global-OwnOr [] g (inl h) = (((λ k. absurd (k refl)), (λ k. refl)), h)
or_global-OwnOr [] g (inr h) = absurd (h refl)
or_global-OwnOr (x ∷ xs) g h = (((λ k. refl), (λ k. cc)), (λ k. cc))

module _ {ℓ} {A : Type ℓ} (own global : Option A) where
  own_ptr : own ≢ none → or_global_ptr own global ≡ own
  unfolding or_global_ptr
  own_ptr h = ground arith

  global_ptr : own ≡ none → or_global_ptr own global ≡ global
  unfolding or_global_ptr
  global_ptr h = rw h

  some_ptr : (global ≢ none) ⊎ (own ≢ none) → or_global_ptr own global ≢ none
  unfolding or_global_ptr
  some_ptr h e = ground arith

pub settled_defines :
    (g : GlobalConfiguration) (d : Fsd) (w : Fwd)
    → HasSettings (some g) (some d) (some w)
    → IsSettledDefines g d (inherit_fsd g d) w (inherit_fwd g w)
settled_defines g d w (a, i, o, n) =
    let (anchor, has_anchor) = or_global-OwnOr d.anchor g.anchor a in
    let (operations, has_operations) = or_global-OwnOr w.operations g.operations o in
    let (threads, has_threads) = or_global-OwnOr w.threads g.threads n in
    unfold inherit_fsd inherit_fwd in
    record {
      anchor = anchor;
      has_anchor = has_anchor;
      own_direct = own_ptr d.direct_io g.direct_io;
      global_direct = global_ptr d.direct_io g.direct_io;
      has_direct = some_ptr d.direct_io g.direct_io i;
      operations = operations;
      has_operations = has_operations;
      threads = threads;
      has_threads = has_threads;
      tree = (refl, refl, refl, refl);
      block_size = refl;
    }

settled_pair :
    (g : GlobalConfiguration) (fsd : Option Fsd) (fwd : Option Fwd)
    → HasSettings (some g) fsd fwd
    → SettledDefines
        (some g)
        fsd
        (Option.map (inherit_fsd g) fsd)
        fwd
        (Option.map (inherit_fwd g) fwd)
settled_pair g none fwd h = absurd h
settled_pair g (some d) none h = absurd h
settled_pair g (some d) (some w) h = settled_defines g d w h

IsSettled-one :
    (g : Option GlobalConfiguration) (t : Option TestCaseConfiguration)
    → IsAcceptable g t
    → IsSettled g t (resolve g t)
IsSettled-one g none h = absurd h
IsSettled-one none (some t) h = absurd h.1
IsSettled-one (some g) (some t) h = (refl, refl, refl, settled_pair g t.fsd t.fwd h.1)

IsSettled-All :
    (g : Option GlobalConfiguration) (ts : Tests)
    → All (IsAcceptable g) ts
    → All₂ (IsSettled g) ts (map (resolve g) ts)
IsSettled-All g [] h = tt
IsSettled-All g (t ∷ ts) (h, hs) = (IsSettled-one g t h, IsSettled-All g ts hs)

-- In an accepted configuration each test has an anchor, a direct I/O flag, operations and threads:
-- its own where it had them, else the global ones; all else of the test is as it was.
pub IsSettled-of_accepted :
    (config config' : TestConf)
    → check_set_config config ≡ accepted config'
    → All₂ (IsSettled config.global_config) config.tests config'.tests
IsSettled-of_accepted config config' h =
    let ((_, _, good), e) = (check_set_config_iff config config').0 h in
    subst (λ (c : TestConf). All₂ (IsSettled config.global_config) config.tests c.tests) (sym e)
      (IsSettled-All config.global_config config.tests good)
