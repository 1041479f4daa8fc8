-- ===== src/Common/Encoding/Travel.antt =====
-- `FSD` and `FWD` on their way from the server to a worker, and through a configuration file
-- (pkg/common/configFile.go).
use fsbench.Prelude.{Bool-cases, inl, inr, if◌then◌else◌, ℕ, Bool, true, ok, err, ltb, ◌≡◌, refl}
use fsbench.Common.Types.{Fsd, Fwd}
use fsbench.Common.Bytes.RoundTrip.{IsExact, to_bytes-byte_size}
use fsbench.Common.Encoding.{
  FsdAlias, FwdAlias, min_depth_error, marshal_fsd, unmarshal_json_fsd, unmarshal_yaml_fsd,
  marshal_fwd, unmarshal_json_fwd, unmarshal_yaml_fwd,
}

-- A document gives back the fields that it was made of, whatever they are read into.
abbrev pub IsCodec : {A D : Type 0} → (A → D) → (D → A → A × Bool) → Type 0
IsCodec {A = A} write read = (a before : A) → read (write a) before ≡ (a, true)

module _ {D : Type 0} (beyond : ℕ) (write : FsdAlias → D) (read : D → FsdAlias → FsdAlias × Bool)
    (codec : IsCodec write read) where
  -- An `FSD` whose size is printed exactly, written and read again as JSON or as YAML, comes back the
  -- same. Without a depth it is refused: then YAML leaves the receiver as it was, and JSON has
  -- overwritten all of it but its size.
  pub fsd_travels :
      (s old : Fsd)
      → IsExact s.size
      → (unmarshal_json_fsd read beyond (marshal_fsd write s) old ≡ (
          if ltb s.depth 1
          then (record s { size = old.size }, err min_depth_error)
          else (s, ok tt)))
        × (unmarshal_yaml_fsd read beyond (marshal_fsd write s) old
            ≡ (if ltb s.depth 1 then (old, err min_depth_error) else (s, ok tt)))
  unfolding unmarshal_json_fsd unmarshal_yaml_fsd marshal_fsd
  fsd_travels s old exact = elim (Bool-cases (ltb s.depth 1)) [
    | inl e ↦ (simp (codec, e) refl, simp (codec, e) refl)
    | inr e ↦
        let same = to_bytes-byte_size beyond s.size exact in
        (simp (codec, e, same) refl, simp (codec, e, same) refl)
  ]

module _ {D : Type 0} (beyond : ℕ) (write : FwdAlias → D) (read : D → FwdAlias → FwdAlias × Bool)
    (codec : IsCodec write read) where
  -- So does an `FWD`.
  pub fwd_travels :
      (w old : Fwd)
      → IsExact w.block_size
      → (unmarshal_json_fwd read beyond (marshal_fwd write w) old ≡ (w, ok tt))
        × (unmarshal_yaml_fwd read beyond (marshal_fwd write w) old ≡ (w, ok tt))
  unfolding unmarshal_json_fwd unmarshal_yaml_fwd marshal_fwd
  fwd_travels w old exact = (
    simp (codec, to_bytes-byte_size beyond w.block_size exact) refl,
    simp (codec, to_bytes-byte_size beyond w.block_size exact) refl,
  )
