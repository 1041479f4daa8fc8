-- ===== src/Compare/Values.antt =====
-- What the loop over the client counts of cmd/compare/main.go collects.
use fsbench.Prelude.{
  ℕ, true, ◌&&◌, List, [], ◌∷◌, ◌++◌, map, Option, none, some, ◌==◌, ok, find, is_some, IsRangeOf,
  All, All₂, All-of_contains, append_assoc, append-nil, ◌≡◌, refl, sym, ap, ◌∙◌,
}
use fsbench.Common.Types.{ℤ}
use fsbench.Compare.{Row, ClientMap, sorted_keys}
use fsbench.Compare.Keys.{shares, sorted_keys-common}
use fsbench.Compare.Charts.{Series, no_series, append_row, collect}

module _ {F : Type 0} (seconds : ℤ → F) where
  -- The slices hold a value of each of the rows, in their order.
  pub record IsSeriesOf (rs : List (Row F)) (s : Series F) : Type 0 where
    pub bandwidth : s.avg_mb_bandwidth ≡ map (λ r. r.avg_mb_bandwidth) rs
    pub latency : s.avg_latency ≡ map (λ r. r.avg_latency_ms) rs
    pub io_copy : s.io_copy_latency ≡ map (λ r. r.io_copy_avg_latency_ms) rs
    pub gen_bytes : s.gen_bytes_latency ≡ map (λ r. r.gen_bytes_avg_latency_ms) rs
    pub duration : s.duration ≡ map (λ r. seconds r.duration) rs
    pub successful : s.successful_ops ≡ map (λ r. r.successful_ops) rs
    pub failed : s.failed_ops ≡ map (λ r. r.failed_ops) rs
    pub ops : s.ops ≡ map (λ r. r.ops) rs

  append_rows : Series F → List (Row F) → Series F
  append_rows s [] = s
  append_rows s (r ∷ rs) = append_rows (append_row seconds s r) rs

  append_rows-each :
      (get : Row F → F) (slice : Series F → List F)
      → ((s : Series F) (r : Row F) → slice (append_row seconds s r) ≡ slice s ++ get r ∷ [])
      → (s : Series F) (rs : List (Row F)) → slice (append_rows s rs) ≡ slice s ++ map get rs
  unfolding append_rows
  append_rows-each get slice h s [] = sym (append-nil (slice s))
  append_rows-each get slice h s (r ∷ rs) =
      append_rows-each get slice h (append_row seconds s r) rs
      ∙ ap (λ (vs : List F). vs ++ map get rs) (h s r)
      ∙ append_assoc (slice s) (get r ∷ []) (map get rs)

  append_rows-IsSeriesOf : (rs : List (Row F)) → IsSeriesOf rs (append_rows no_series rs)
  append_rows-IsSeriesOf rs = record {
    bandwidth =
        append_rows-each (λ r. r.avg_mb_bandwidth) (λ s. s.avg_mb_bandwidth) (λ s r. refl) no_series
          rs;
    latency =
        append_rows-each (λ r. r.avg_latency_ms) (λ s. s.avg_latency) (λ s r. refl) no_series rs;
    io_copy =
        append_rows-each (λ r. r.io_copy_avg_latency_ms) (λ s. s.io_copy_latency) (λ s r. refl)
          no_series rs;
    gen_bytes =
        append_rows-each (λ r. r.gen_bytes_avg_latency_ms) (λ s. s.gen_bytes_latency) (λ s r. refl)
          no_series rs;
    duration =
        append_rows-each (λ r. seconds r.duration) (λ s. s.duration) (λ s r. refl) no_series rs;
    successful =
        append_rows-each (λ r. r.successful_ops) (λ s. s.successful_ops) (λ s r. refl) no_series rs;
    failed = append_rows-each (λ r. r.failed_ops) (λ s. s.failed_ops) (λ s r. refl) no_series rs;
    ops = append_rows-each (λ r. r.ops) (λ s. s.ops) (λ s r. refl) no_series rs;
  }

  abbrev pub IsRowAt : ClientMap F → ℕ → Row F → Type 0
  IsRowAt m pc r = find ◌==◌ pc m ≡ some r

  abbrev HasRow : ClientMap F → ℕ → Type 0
  HasRow m pc = (r : Row F) × IsRowAt m pc r

  collect_rows :
      (pcs : List ℕ) (m1 m2 : ClientMap F) (s1 s2 : Series F)
      → All (λ pc. HasRow m1 pc × HasRow m2 pc) pcs
      → (rs1 rs2 : List (Row F)) × All₂ (IsRowAt m1) pcs rs1
        × All₂ (IsRowAt m2) pcs rs2
        × (collect seconds pcs m1 m2 s1 s2 ≡ ok (append_rows s1 rs1, append_rows s2 rs2))
  unfolding collect append_rows
  collect_rows [] m1 m2 s1 s2 h = ([], [], tt, tt, refl)
  collect_rows (pc ∷ pcs) m1 m2 s1 s2 (((r1, h1), (r2, h2)), hs) =
      let (rs1, rs2, at1, at2, e) =
        collect_rows pcs m1 m2 (append_row seconds s1 r1) (append_row seconds s2 r2) hs in
      (r1 ∷ rs1, r2 ∷ rs2, (h1, at1), (h2, at2), rw (h1, h2) e)

  both : (m1 m2 : ClientMap F) (pc : ℕ) → shares m1 m2 pc ≡ true → HasRow m1 pc × HasRow m2 pc
  both m1 m2 pc h = split (find ◌==◌ pc m1) (find ◌==◌ pc m2) refl refl h
    where
      split :
          (o1 o2 : Option (Row F))
          → find ◌==◌ pc m1 ≡ o1
          → find ◌==◌ pc m2 ≡ o2
          → (is_some o1 && is_some o2) ≡ true
          → HasRow m1 pc × HasRow m2 pc
      split none o2 e1 e2 h = cc
      split (some r1) none e1 e2 h = cc
      split (some r1) (some r2) e1 e2 h = ((r1, e1), (r2, e2))

  -- For the client counts that two worker counts share, the code finds a row on either side, so that it
  -- does not panic, and each of its slices holds, place by place, the value of the row of that count.
  pub collect_shared :
      (m1 ranged m2 : ClientMap F)
      → IsRangeOf ◌==◌ m1 ranged
      → (rs1 rs2 : List (Row F)) × (s1 s2 : Series F) × All₂
          (IsRowAt m1)
          (sorted_keys ranged m2)
          rs1
        × All₂ (IsRowAt m2) (sorted_keys ranged m2) rs2
        × (collect seconds (sorted_keys ranged m2) m1 m2 no_series no_series ≡ ok (s1, s2))
        × IsSeriesOf rs1 s1
        × IsSeriesOf rs2 s2
  collect_shared m1 ranged m2 h =
      let shared = sorted_keys-common m1 ranged m2 h in
      let (rs1, rs2, at1, at2, e) = collect_rows (sorted_keys ranged m2) m1 m2 no_series no_series (
        All-of_contains (λ pc. HasRow m1 pc × HasRow m2 pc) (sorted_keys ranged m2)
          (λ pc c. both m1 m2 pc (sym (shared.1 pc) ∙ c))) in
      (
        rs1,
        rs2,
        append_rows no_series rs1,
        append_rows no_series rs2,
        at1,
        at2,
        e,
        append_rows-IsSeriesOf rs1,
        append_rows-IsSeriesOf rs2,
      )
