-- ===== src/Common/Encoding.antt =====
-- The JSON and YAML methods of `FSD` and `FWD` (pkg/common/configFile.go), in which a size is text. The
-- libraries are parameters: `write` makes a document of the fields, and `read` is what a document leaves
-- in the fields that it is read into, with whether it could be read.
pub mod Travel
pub mod Wire
mod Examples
use fsbench.Prelude.{
  ℕ, Bool, true, false, List, Option, Text, codes, [], Outcome, ok, err, panic, if◌then◌else◌, ltb,
}
use fsbench.Common.Types.{Fsd, Fwd}
use fsbench.Common.Bytes.{byte_size, to_bytes}

-- `fsdAlias`, and the struct of the JSON methods.
pub record FsdAlias : Type 0 where
  pub anchor : Text
  pub direct_io : Option Bool
  pub depth : ℕ
  pub width : ℕ
  pub files : ℕ
  pub size : Text

pub record FwdAlias : Type 0 where
  pub operations : List Text
  pub threads : List ℕ
  pub block_size : Text

abbrev pub fsd_alias : Fsd → Text → FsdAlias
fsd_alias s size = record {
  anchor = s.anchor;
  direct_io = s.direct_io;
  depth = s.depth;
  width = s.width;
  files = s.files;
  size = size;
}

abbrev pub fsd_of : FsdAlias → ℕ → Fsd
fsd_of aux size = record {
  anchor = aux.anchor;
  direct_io = aux.direct_io;
  depth = aux.depth;
  width = aux.width;
  files = aux.files;
  size = size;
}

abbrev pub fwd_alias : Fwd → Text → FwdAlias
fwd_alias w size = record { operations = w.operations; threads = w.threads; block_size = size }

abbrev pub fwd_of : FwdAlias → ℕ → Fwd
fwd_of aux size = record { operations = aux.operations; threads = aux.threads; block_size = size }

abbrev pub min_depth_error : Text
min_depth_error = codes "Minimum fs depth is 1"

abbrev pub Answer : Type 0 → Type 0
Answer A = A × Outcome {0, 0} Text Unit

-- The receiver once its size is read, or as it was with the error.
abbrev pub with_size : {A : Type 0} → (ℕ → A) → A → Outcome Text ℕ → Answer A
with_size new old (ok size) = (new size, ok tt)
with_size new old (err e) = (old, err e)
with_size new old panic = (old, panic)

-- A document that cannot be read.
abbrev pub unreadable : Text
unreadable = codes "unmarshal"

-- `FSD.MarshalJSON` and `FSD.MarshalYAML`
unfoldable pub marshal_fsd : {D : Type 0} → (FsdAlias → D) → Fsd → D
marshal_fsd write s = write (fsd_alias s (byte_size s.size))

-- `FWD.MarshalJSON` and `FWD.MarshalYAML`
unfoldable pub marshal_fwd : {D : Type 0} → (FwdAlias → D) → Fwd → D
marshal_fwd write w = write (fwd_alias w (byte_size w.block_size))

module _ {D : Type 0} (read : D → FsdAlias → FsdAlias × Bool) (beyond : ℕ) where
  -- `FSD.UnmarshalJSON`: the fields but the size are read into the receiver itself.
  unfoldable pub unmarshal_json_fsd : D → Fsd → Answer Fsd
  unmarshal_json_fsd document s =
      let (aux, readable) = read document (fsd_alias s []) in
      let partial = fsd_of aux s.size in
      if readable
      then if ltb aux.depth 1
        then (partial, err min_depth_error)
        else with_size (fsd_of aux) partial (to_bytes beyond aux.size)
      else (partial, err unreadable)

  abbrev empty_fsd : FsdAlias
  empty_fsd = record {
    anchor = [];
    direct_io = Option.none;
    depth = 0;
    width = 0;
    files = 0;
    size = [];
  }

  -- `FSD.UnmarshalYAML`: the receiver stays as it was where there is an error.
  unfoldable pub unmarshal_yaml_fsd : D → Fsd → Answer Fsd
  unmarshal_yaml_fsd document s =
      let (aux, readable) = read document empty_fsd in
      if readable
      then if ltb aux.depth 1
        then (s, err min_depth_error)
        else with_size (fsd_of aux) s (to_bytes beyond aux.size)
      else (s, err unreadable)

module _ {D : Type 0} (read : D → FwdAlias → FwdAlias × Bool) (beyond : ℕ) where
  -- `FWD.UnmarshalJSON`
  unfoldable pub unmarshal_json_fwd : D → Fwd → Answer Fwd
  unmarshal_json_fwd document w =
      let (aux, readable) = read document (fwd_alias w []) in
      let partial = fwd_of aux w.block_size in
      if readable
      then with_size (fwd_of aux) partial (to_bytes beyond aux.block_size)
      else (partial, err unreadable)

  -- `FWD.UnmarshalYAML`
  unfoldable pub unmarshal_yaml_fwd : D → Fwd → Answer Fwd
  unmarshal_yaml_fwd document w =
      let (aux, readable) =
        read document (record { operations = []; threads = []; block_size = [] }) in
      if readable
      then with_size (fwd_of aux) w (to_bytes beyond aux.block_size)
      else (w, err unreadable)
