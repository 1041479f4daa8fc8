-- ===== src/Common/Encoding/Wire.antt =====
-- A `WorkerMessage` on the connection (pkg/common/configFile.go): the JSON library calls the methods of
-- `FSD` and `FWD` for the defines of a test, and keeps all other fields as they are.
use fsbench.Prelude.{
  ℕ, Bool, false, [], Option, none, some, ok, err, panic, ltb, ◌<◌, ◌≡◌, sym, ap, ap₂, ◌∙◌, arith,
}
use fsbench.Common.Types.{Fsd, Fwd, WorkerConf, WorkerMessage}
use fsbench.Common.Bytes.RoundTrip.{IsExact}
use fsbench.Common.Encoding.{
  FsdAlias, FwdAlias, Answer, marshal_fsd, unmarshal_json_fsd, marshal_fwd, unmarshal_json_fwd,
}
use fsbench.Common.Encoding.Travel.{IsCodec, fsd_travels, fwd_travels}

-- What the JSON library makes of the fields, and what it reads back.
pub record Wire (D E : Type 0) : Type 0 where
  pub write_fsd : FsdAlias → D
  pub read_fsd : D → FsdAlias → FsdAlias × Bool
  pub write_fwd : FwdAlias → E
  pub read_fwd : E → FwdAlias → FwdAlias × Bool
  pub beyond : ℕ

-- A message that is decoded into a pointer that is nil makes a new value; "start work" sets it to nil.
abbrev new_fsd : Fsd
new_fsd = record { anchor = []; direct_io = none; depth = 0; width = 0; files = 0; size = 0 }

abbrev new_fwd : Fwd
new_fwd = record { operations = []; threads = []; block_size = 0 }

-- An error of a method is one of the whole `Decode`.
abbrev decoded : {A : Type 0} → Answer A → Option (Option A)
decoded (a, ok u) = some (some a)
decoded (a, err e) = none
decoded (a, panic) = none

abbrev with_test : WorkerConf → Option (Option Fsd) → Option (Option Fwd) → Option WorkerConf
with_test c none fwd = none
with_test c (some fsd) none = none
with_test c (some fsd) (some fwd) =
    some (record c { test = record c.test { fsd = fsd; fwd = fwd } })

module _ {D E : Type 0} (wire : Wire D E) where
  unfoldable pub deliver_fsd : Option Fsd → Option (Option Fsd)
  unfolding marshal_fsd unmarshal_json_fsd
  deliver_fsd none = some none
  deliver_fsd (some s) =
      decoded (unmarshal_json_fsd wire.read_fsd wire.beyond (marshal_fsd wire.write_fsd s) new_fsd)

  unfoldable pub deliver_fwd : Option Fwd → Option (Option Fwd)
  unfolding marshal_fwd unmarshal_json_fwd
  deliver_fwd none = some none
  deliver_fwd (some w) =
      decoded (unmarshal_json_fwd wire.read_fwd wire.beyond (marshal_fwd wire.write_fwd w) new_fwd)

  -- The configuration that a worker decodes, or none where it cannot.
  unfoldable pub deliver_config : WorkerConf → Option WorkerConf
  unfolding deliver_fsd deliver_fwd
  deliver_config c = with_test c (deliver_fsd c.test.fsd) (deliver_fwd c.test.fwd)

  abbrev with_config : {F : Type 0} → WorkerMessage F → Option WorkerConf → Option (WorkerMessage F)
  with_config m none = none
  with_config m (some c) = some (record m { config = some c })

  unfoldable pub deliver : {F : Type 0} → WorkerMessage F → Option (WorkerMessage F)
  unfolding deliver_config
  deliver m = of_config m m.config
    where
      of_config : {F : Type 0} → WorkerMessage F → Option WorkerConf → Option (WorkerMessage F)
      of_config m none = some m
      of_config m (some c) = with_config m (deliver_config c)

  module _ (fsd_codec : IsCodec wire.write_fsd wire.read_fsd)
      (fwd_codec : IsCodec wire.write_fwd wire.read_fwd) where
    -- A configuration whose sizes are printed exactly, with a depth, arrives as it was sent.
    pub config_arrives :
        (config : WorkerConf) (fsd : Fsd) (fwd : Fwd)
        → config.test.fsd ≡ some fsd
        → config.test.fwd ≡ some fwd
        → IsExact fsd.size
        → IsExact fwd.block_size
        → 0 < fsd.depth
        → deliver_config config ≡ some config
    unfolding deliver_config deliver_fsd deliver_fwd
    config_arrives config fsd fwd e f exact exact' deep =
        let some_depth : ltb fsd.depth 1 ≡ false = ground arith in
        let tree =
          fsd_travels wire.beyond wire.write_fsd wire.read_fsd fsd_codec fsd new_fsd exact in
        let load =
          fwd_travels wire.beyond wire.write_fwd wire.read_fwd fwd_codec fwd new_fwd exact' in
        ap₂ (with_test config)
          (ap deliver_fsd e ∙ ap decoded (rw some_depth at (tree.0)) ∙ ap some (sym e))
          (ap deliver_fwd f ∙ ap decoded (load.0) ∙ ap some (sym f))
