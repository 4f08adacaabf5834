-- ===== src/Slatedb.antt =====
-- The interface of the crate `slatedb`, which is not in this repository: the calls on a database that
-- both servers make. They run over whatever state the server's adapters keep. A `slatedb::Error` is
-- its text.
use slatedb_cloudflare.Prelude.{ℕ, Text, Bytes, Bool, Option, List, Result}

abbrev pub Call : Type 0 → Type 0 → Type 0
Call S A = S → Result Text A × S

-- the fields of `Settings`, of `CompactorOptions` and of `CompactionWorkerOptions` that are set
pub record Settings : Type 0 where
  pub l0_sst_size_bytes : ℕ
  pub l0_flush_parallelism : Option ℕ
  pub max_unflushed_bytes : ℕ
  pub max_concurrent_compactions : Option ℕ
  pub max_sst_size : Option ℕ
  pub max_fetch_tasks : Option ℕ
  pub max_subcompactions : Option ℕ

-- `MetricValue`, with an `f64` by its bits and an `i64` by its bits
pub data MetricValue : Type 0 where
  counter gauge up_down_counter : ℕ → MetricValue
  histogram : (count sum min max : ℕ) (boundaries bucket_counts : List ℕ) → MetricValue

pub record Metric : Type 0 where
  pub name : Text
  pub labels : List (Text × Text)
  pub value : MetricValue

pub record KeyValue : Type 0 where
  pub key : Bytes
  pub value : Bytes

pub record Engine (S Db Recorder : Type 0) : Type 0 where
  pub put : Db → Bytes → Bytes → Call S (Unit {0})
  -- `put_with_options` with the default `PutOptions`, and `await_durable`
  pub put_with_options : Db → Bytes → Bytes → Bool → Call S (Unit {0})
  pub get : Db → Bytes → Call S (Option Bytes)
  pub delete : Db → Bytes → Call S (Unit {0})
  -- `flush_with_options`, of the type `MemTable`
  pub flush : Db → Call S (Unit {0})
  -- `scan(..)` and `scan_prefix(prefix, ..)`: a handle of an iterator
  pub scan : Db → Call S ℕ
  pub scan_prefix : Db → Bytes → Call S ℕ
  pub next : ℕ → Call S (Option KeyValue)
  pub close : Db → Call S (Unit {0})
  -- `DefaultMetricsRecorder::new()` and `snapshot().all()`
  pub recorder : S → Recorder × S
  pub metrics : Recorder → S → List Metric
  -- the nanoseconds since an instant that was read before
  pub now : S → ℕ × S
  pub elapsed : ℕ → S → ℕ × S
  -- `String::from_utf8_lossy`
  pub lossy : Bytes → Text
