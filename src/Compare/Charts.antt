-- ===== src/Compare/Charts.antt =====
-- The charts of cmd/compare/main.go: the loop over the client counts, and `generateBar`.
use fsbench.Prelude.{
  ℕ, List, [], ◌∷◌, ◌++◌, Text, codes, text_eq, Outcome, ok, ◌>>=◌, if◌then◌else◌, ◌==◌, find,
}
use fsbench.Common.Types.{ℤ}
use fsbench.Compare.{Row, ClientMap, or_panic}

-- The slices that the loop fills for one of the two files.
pub record Series (F : Type 0) : Type 0 where
  pub avg_mb_bandwidth : List F
  pub avg_latency : List F
  pub io_copy_latency : List F
  pub gen_bytes_latency : List F
  pub duration : List F
  pub successful_ops : List F
  pub failed_ops : List F
  pub ops : List F

pub record BarData (F : Type 0) : Type 0 where
  pub value : F

pub record Bar (F : Type 0) : Type 0 where
  pub title : Text
  pub axis : List ℕ
  pub r1 : List (BarData F)
  pub r2 : List (BarData F)

abbrev pub Page : Type 0 → Type 0
Page F = List (Bar F)

pub record Pages (F : Type 0) : Type 0 where
  pub bandwidth : Page F
  pub avg_latency : Page F
  pub gen_bytes : Page F
  pub io_copy : Page F
  pub duration : Page F
  pub successful : Page F
  pub failed : Page F
  pub ops : Page F

module _ {F : Type 0} where
  abbrev pub no_series : Series F
  no_series = record {
    avg_mb_bandwidth = [];
    avg_latency = [];
    io_copy_latency = [];
    gen_bytes_latency = [];
    duration = [];
    successful_ops = [];
    failed_ops = [];
    ops = [];
  }

  abbrev pub no_pages : Pages F
  no_pages = record {
    bandwidth = [];
    avg_latency = [];
    gen_bytes = [];
    io_copy = [];
    duration = [];
    successful = [];
    failed = [];
    ops = [];
  }

  unfoldable pub generate_bar_items : List F → List (BarData F)
  generate_bar_items [] = []
  generate_bar_items (v ∷ vals) = record { value = v } ∷ generate_bar_items vals

  unfoldable pub generate_bar : Text → Text → List ℕ → List F → List F → Bar F
  unfolding generate_bar_items
  generate_bar title index pcs val1 val2 = record {
    title = title ++ (codes "-" ++ index);
    axis = pcs;
    r1 = generate_bar_items val1;
    r2 = generate_bar_items val2;
  }

  -- `time.Duration.Seconds` is a parameter.
  module _ (seconds : ℤ → F) where
    abbrev pub append_row : Series F → Row F → Series F
    append_row s r = record {
      avg_mb_bandwidth = s.avg_mb_bandwidth ++ r.avg_mb_bandwidth ∷ [];
      avg_latency = s.avg_latency ++ r.avg_latency_ms ∷ [];
      io_copy_latency = s.io_copy_latency ++ r.io_copy_avg_latency_ms ∷ [];
      gen_bytes_latency = s.gen_bytes_latency ++ r.gen_bytes_avg_latency_ms ∷ [];
      duration = s.duration ++ seconds r.duration ∷ [];
      successful_ops = s.successful_ops ++ r.successful_ops ∷ [];
      failed_ops = s.failed_ops ++ r.failed_ops ∷ [];
      ops = s.ops ++ r.ops ∷ [];
    }

    -- The loop over `sortedPcs`.
    unfoldable pub collect :
        List ℕ
        → ClientMap F
        → ClientMap F
        → Series F
        → Series F
        → Outcome Text (Series F × Series F)
    collect [] m1 m2 s1 s2 = ok (s1, s2)
    collect (pc ∷ pcs) m1 m2 s1 s2 = or_panic (find ◌==◌ pc m1) >>= λ r1.
        or_panic (find ◌==◌ pc m2) >>= λ r2. collect pcs m1 m2 (append_row s1 r1) (append_row s2 r2)

  -- The eight charts, and the pages that they are added to.
  unfoldable pub add_charts : Text → Text → List ℕ → Series F × Series F → Pages F → Pages F
  unfolding generate_bar
  add_charts op title pcs (s1, s2) pages =
      let gen_bytes =
        generate_bar title (codes "gen-bytes(ms)") pcs s1.gen_bytes_latency s2.gen_bytes_latency in
      let io_copy =
        generate_bar title (codes "iocopy(ms)") pcs s1.io_copy_latency s2.io_copy_latency in
      record {
        bandwidth =
            pages.bandwidth
            ++ generate_bar title (codes "bandwidth(MB/s)") pcs s1.avg_mb_bandwidth
                s2.avg_mb_bandwidth
              ∷ [];
        avg_latency =
            pages.avg_latency
            ++ generate_bar title (codes "avg-latency(ms)") pcs s1.avg_latency s2.avg_latency ∷ [];
        gen_bytes =
            if text_eq op (codes "write")
            then pages.gen_bytes ++ gen_bytes ∷ []
            else pages.gen_bytes;
        io_copy =
            if text_eq op (codes "read") then pages.io_copy ++ io_copy ∷ [] else pages.io_copy;
        duration =
            pages.duration
            ++ generate_bar title (codes "duration(s)") pcs s1.duration s2.duration ∷ [];
        successful =
            pages.successful
            ++ generate_bar title (codes "successful-ops") pcs s1.successful_ops s2.successful_ops
              ∷ [];
        failed =
            pages.failed
            ++ generate_bar title (codes "failed-ops") pcs s1.failed_ops s2.failed_ops ∷ [];
        ops = pages.ops ++ generate_bar title (codes "ops") pcs s1.ops s2.ops ∷ [];
      }
