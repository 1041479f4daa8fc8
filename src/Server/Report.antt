-- ===== src/Server/Report.antt =====
-- `generateResults` of cmd/server/main.go: the table of the results, what it is rendered to, and its
-- upload. The table is rendered by a library.
mod Examples
use fsbench.Prelude.{
  ℕ, ◌+◌, ◌*◌, ◌/◌, ◌^◌, Bool, true, false, ◌&&◌, ◌||◌, List, [], ◌∷◌, ◌++◌, map, Option, none,
  some, Text, codes, text_eq, if◌then◌else◌,
}
use fsbench.Common.OpType.{op_string}
use fsbench.Common.Types.{BenchmarkResult, ReportConfiguration, S3Configuration}
use fsbench.Common.Bytes.{to_lower}
use fsbench.FilePath.{decimal}
use fsbench.Worker.Metrics.{Numbers}
use fsbench.Server.Csv.{Cell, fixed, plain, whole, lasting, written}

pub data Rendering : Type 0 where
  markdown csv html text : Rendering

pub data SortMode : Type 0 where
  ascending ascending_numeric : SortMode

-- `time.Duration.Round(time.Second)` of a duration in nanoseconds that is not negative.
abbrev pub round_seconds : ℕ → ℕ
round_seconds d = (d + 5 * 10 ^ 8) / 10 ^ 9 * 10 ^ 9

abbrev pub table_header : List Text
table_header =
    codes "type"
    ∷ codes "file-size(KB)"
    ∷ codes "workers"
    ∷ codes "parallel-clients"
    ∷ codes "width"
    ∷ codes "depth"
    ∷ codes "block-size(KB)"
    ∷ codes "avg-bandwidth(MB/s)"
    ∷ codes "ops"
    ∷ codes "avg-latency(ms)"
    ∷ codes "gen-bytes-avg-latency(ms)"
    ∷ codes "successful-ops"
    ∷ codes "failed-ops"
    ∷ codes "duration"
    ∷ codes "total-mbytes"
    ∷ codes "name"
    ∷ []

module _ {F : Type 0} (num : Numbers F) where
  abbrev pub megabytes : F → F
  megabytes x = num.divide (num.divide x (num.of_count 1024)) (num.of_count 1024)

  abbrev pub table_row : BenchmarkResult F → List (Cell F)
  table_row r =
      written (op_string r.op)
      ∷ whole (r.file_size / 1024)
      ∷ plain r.workers
      ∷ plain r.parallel_clients
      ∷ whole r.width
      ∷ whole r.depth
      ∷ whole (r.block_size / 1024)
      ∷ fixed 1 (megabytes r.bandwidth_avg)
      ∷ fixed 2 (num.divide r.bandwidth_avg (num.of_count r.file_size))
      ∷ fixed 2 r.latency_avg
      ∷ fixed 2 r.gen_bytes_latency_avg
      ∷ plain r.successful_operations
      ∷ plain r.failed_operations
      ∷ lasting (round_seconds r.duration)
      ∷ fixed 0 (megabytes r.bytes)
      ∷ written r.test_name
      ∷ []

-- What is handed to the table library; without a file it prints to the standard output.
pub record Report (F : Type 0) : Type 0 where
  pub file : Option Text
  pub header : List Text
  pub rows : List (List (Cell F))
  pub centred : List ℕ
  pub sort_by : List (Text × SortMode)
  pub rendering : Rendering

abbrev pub report_format : Option ReportConfiguration → Text
report_format none = codes "csv"
report_format (some c) = c.format

-- The `switch` on `strings.ToLower(format)`
unfoldable pub rendering_of : Text → Rendering
rendering_of format =
    if text_eq format (codes "md") || text_eq format (codes "markdown")
    then markdown
    else if text_eq format (codes "csv")
    then csv
    else if text_eq format (codes "html")
    then html
    else text

abbrev pub report_name : ℕ → Text → Text
report_name timestamp format =
    codes "fsbench_results_" ++ (decimal timestamp ++ (codes "." ++ format))

abbrev pub sort_columns : List (Text × SortMode)
sort_columns =
    (codes "type", ascending)
    ∷ (codes "file-size(KB)", ascending_numeric)
    ∷ (codes "parallel-clients", ascending_numeric)
    ∷ []

unfoldable pub results_table :
    {F : Type 0}
    → Numbers F
    → (Text → Bool)
    → ℕ
    → Option ReportConfiguration
    → List (BenchmarkResult F)
    → Report F
unfolding rendering_of
results_table num creates timestamp config results =
    let format = report_format config in
    let file = codes "/tmp/" ++ report_name timestamp format in
    record {
      file = if creates file then some file else none;
      header = table_header;
      rows = map (table_row num) results;
      centred = 1 ∷ 2 ∷ 3 ∷ 4 ∷ 5 ∷ 6 ∷ 7 ∷ 8 ∷ 9 ∷ 10 ∷ 11 ∷ 12 ∷ 13 ∷ 14 ∷ 15 ∷ 16 ∷ [];
      sort_by = sort_columns;
      rendering = rendering_of (to_lower format);
    }

-- The object that is put into a bucket: where, under which name, from which file.
pub record Upload : Type 0 where
  pub s3 : S3Configuration
  pub bucket : Text
  pub key : Text
  pub file : Text

abbrev pub upload_to :
    Bool → Bool → ℕ → ReportConfiguration → Option S3Configuration → Option Upload
upload_to client_ok file_opens timestamp c none = none
upload_to client_ok file_opens timestamp c (some s3) =
    if text_eq c.bucket []
    then none
    else if client_ok && file_opens
    then some (record {
      s3 = s3;
      bucket = c.bucket;
      key = report_name timestamp c.format;
      file = codes "/tmp/" ++ report_name timestamp c.format;
    })
    else none

-- The call of `PutObject`, if it is made; a failure of it is only logged.
unfoldable pub report_upload : Bool → Bool → ℕ → Option ReportConfiguration → Option Upload
report_upload client_ok file_opens timestamp none = none
report_upload client_ok file_opens timestamp (some c) =
    upload_to client_ok file_opens timestamp c c.s3_config
