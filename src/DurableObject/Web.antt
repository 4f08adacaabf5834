-- ===== src/DurableObject/Web.antt =====
-- Requests, answers and bindings of the crate `worker`, which is not in this repository, and the
-- data of durable-object/src/lib.rs that are read from requests or written to answers.
use slatedb_cloudflare.Prelude.{ℕ, Text, Bool, Option, List, Result, Exec}
use slatedb_cloudflare.DurableObject.Perf.{PerfSnapshot}
use slatedb_cloudflare.DurableObject.Names.{Pairs}
use slatedb_cloudflare.DurableObject.Benchmark.{BenchmarkBatchRequest, BenchmarkBatchResponse}

pub record PutRequest : Type 0 where
  pub key : Text
  pub value : Text

pub record KeyRequest : Type 0 where
  pub key : Text

pub record ScanItem : Type 0 where
  pub key : Text
  pub value : Text

pub record ScanResponse : Type 0 where
  pub items : List ScanItem
  pub truncated : Bool

pub data SlateMetricValue : Type 0 where
  counter gauge up_down_counter : ℕ → SlateMetricValue
  histogram : (count sum min max : ℕ) (boundaries bucket_counts : List ℕ) → SlateMetricValue

pub record SlateMetric : Type 0 where
  pub name : Text
  pub labels : List (Text × Text)
  pub value : SlateMetricValue

pub record StatusResponse : Type 0 where
  pub runtime : Text
  pub open_now : Bool
  pub cache_populated : Bool
  pub cache_storage_bytes : ℕ
  pub adapter : PerfSnapshot
  pub slatedb : List SlateMetric

pub data HttpMethod : Type 0 where
  get post other : HttpMethod

-- A request, with its body as `req.json` reads it into each of the types that are asked for.
pub record Request : Type 0 where
  pub method : HttpMethod
  pub url : Result Text (Text × Pairs)
  pub authorization : Result Text (Option Text)
  pub put_body : Result Text PutRequest
  pub key_body : Result Text KeyRequest
  pub benchmark_body : Result Text BenchmarkBatchRequest

-- What an answer is made from; making it does not fail.
pub data Content : Type 0 where
  service : Text → Content
  ok_response : Content
  value_response : Text → Option Text → Content
  scan_response : ScanResponse → Content
  measurements : BenchmarkBatchResponse → Content
  status_response : StatusResponse → Content
  error_text : Text → Content
  error_json : Text → Content

pub record Response : Type 0 where
  pub status : ℕ
  pub content : Content

-- The bindings that `main` uses: the secret, the namespace of Durable Objects and its objects by name.
pub record Env (S : Type 0) : Type 0 where
  pub secret : Text → Result Text Text
  pub durable_object : Text → Result Text (Unit {0})
  pub id_from_name : Text → Result Text (Unit {0})
  pub fetch_with_request : Text → Request → Exec S Text Response
