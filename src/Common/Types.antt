-- ===== src/Common/Types.antt =====
-- The configuration and message types of pkg/common/configFile.go. A pointer is an `Option`, nil
-- being `none`; a `uint64` is a number, its range being a hypothesis where it matters.
use fsbench.Prelude.{ℕ, Bool, List, Option, Text}
use fsbench.Common.OpType.{OpType}

-- A Go `int` that may be negative: `negsuc n` is -(n + 1).
pub data ℤ : Type 0 where
  pos : ℕ → ℤ
  negsuc : ℕ → ℤ

pub record S3Configuration : Type 0 where
  pub access_key : Text
  pub secret_key : Text
  pub region : Text
  pub endpoint : Text
  pub timeout : ℤ
  pub skip_ssl_verify : Bool
  pub name : Text

-- `FSD`, the file tree of a test.
pub record Fsd : Type 0 where
  pub anchor : Text
  pub direct_io : Option Bool
  pub depth : ℕ
  pub width : ℕ
  pub files : ℕ
  pub size : ℕ

-- `FWD`, the workload of a test.
pub record Fwd : Type 0 where
  pub operations : List Text
  pub threads : List ℕ
  pub block_size : ℕ

pub record TestCaseConfiguration : Type 0 where
  pub name : Text
  pub fsd : Option Fsd
  pub fwd : Option Fwd
  pub payload_generator : Text
  pub clear_dirs : Bool

pub record GlobalConfiguration : Type 0 where
  pub reorder_tasks : Bool
  pub anchor : Text
  pub direct_io : Option Bool
  pub threads : List ℕ
  pub operations : List Text
  pub workers : ℤ

pub record ReportConfiguration : Type 0 where
  pub format : Text
  pub bucket : Text
  pub s3_config : Option S3Configuration

pub record TestConf : Type 0 where
  pub report_config : Option ReportConfiguration
  pub global_config : Option GlobalConfiguration
  pub tests : List (Option TestCaseConfiguration)

-- What the server sends to a worker for one run.
pub record WorkerConf : Type 0 where
  pub test : TestCaseConfiguration
  pub worker_id : Text
  pub id : ℕ
  pub op : OpType
  pub parallel_clients : ℤ

-- What is reported of a run, over any type of numbers; the duration is in nanoseconds.
pub record BenchmarkResult (F : Type 0) : Type 0 where
  pub test_name : Text
  pub successful_operations : F
  pub failed_operations : F
  pub workers : F
  pub parallel_clients : F
  pub bytes : F
  pub bandwidth_avg : F
  pub latency_avg : F
  pub gen_bytes_latency_avg : F
  pub duration : ℕ
  pub op : OpType
  pub file_size : ℕ
  pub depth : ℕ
  pub width : ℕ
  pub block_size : ℕ

-- `WorkerMessage`, what the server and a worker exchange.
pub record WorkerMessage (F : Type 0) : Type 0 where
  pub message : Text
  pub config : Option WorkerConf
  pub bench_result : BenchmarkResult F
