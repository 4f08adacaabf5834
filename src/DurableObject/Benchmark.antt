-- ===== src/DurableObject/Benchmark.antt =====
-- The benchmark of durable-object/src/lib.rs: `BenchmarkOperationMeasurements`,
-- `run_benchmark_client` and the batch of clients. `try_join_all` polls the clients in turns; the
-- model runs them one after the other, which is one of the orders that it can take.
pub mod Measures
pub mod Clients
pub mod Totals
use slatedb_cloudflare.Prelude.{
  ℕ, ◌+◌, ◌-◌, ◌%◌, ◌^◌, min, Text, Bytes, codes, Bool, true, false, ◌||◌, Option, none, some, List,
  [], ◌∷◌, ◌++◌, Result, ok, err, Exec, ◌>>=◌, ◌>>◌, pure, fail, fail_if, map_err, any, length, ltb,
  ◌==◌, if◌then◌else◌, is_none,
}
use slatedb_cloudflare.Slatedb.{Engine, Call}
use slatedb_cloudflare.DurableObject.Perf.{u64_mod}

pub data BenchmarkOperationKind : Type 0 where
  get put : BenchmarkOperationKind

pub record BenchmarkOperation : Type 0 where
  pub operation : BenchmarkOperationKind
  pub key : Text

pub record BenchmarkBatchRequest : Type 0 where
  pub value : Text
  pub clients : List (List BenchmarkOperation)

pub record BenchmarkOperationMeasurements : Type 0 where
  pub operations : ℕ
  pub unmeasurable_operations : ℕ
  pub measurable_latency_ns : List ℕ

abbrev pub no_measurements : BenchmarkOperationMeasurements
no_measurements = record { operations = 0; unmeasurable_operations = 0; measurable_latency_ns = [] }

pub record BenchmarkBatchResponse : Type 0 where
  pub get : BenchmarkOperationMeasurements
  pub put : BenchmarkOperationMeasurements

abbrev pub empty_response : BenchmarkBatchResponse
empty_response = record { get = no_measurements; put = no_measurements }

unfoldable pub record_latency : ℕ → BenchmarkOperationMeasurements → BenchmarkOperationMeasurements
record_latency latency_ns self =
    let counted = record self { operations = (self.operations + 1) % u64_mod } in
    if latency_ns == 0
    then record counted { unmeasurable_operations = (self.unmeasurable_operations + 1) % u64_mod }
    else record counted { measurable_latency_ns = self.measurable_latency_ns ++ latency_ns ∷ [] }

unfoldable pub merge :
    BenchmarkOperationMeasurements → BenchmarkOperationMeasurements → BenchmarkOperationMeasurements
merge other self = record {
  operations = (self.operations + other.operations) % u64_mod;
  unmeasurable_operations =
      (self.unmeasurable_operations + other.unmeasurable_operations) % u64_mod;
  measurable_latency_ns = self.measurable_latency_ns ++ other.measurable_latency_ns;
}

abbrev pub slatedb_error : Text → Text
slatedb_error error = codes "SlateDB: " ++ error

-- `.map_err(slatedb_error)`
abbrev pub engine_call : {S A : Type 0} → Call S A → Exec S Text A
engine_call m s = let (answer, s') = m s in (map_err slatedb_error answer, s')

-- a read of the clock, which does not fail
abbrev pub read : {S A : Type 0} → (S → A × S) → Exec S Text A
read m s = let (a, s') = m s in (ok a, s')

module _ {S Db Recorder : Type 0} (engine : Engine S Db Recorder) where
  abbrev pub elapsed_ns : ℕ → Exec S Text ℕ
  elapsed_ns started = read (engine.elapsed started) >>= λ nanos. pure (min nanos (2 ^ 64 - 1))

  abbrev record_get : ℕ → BenchmarkBatchResponse → BenchmarkBatchResponse
  record_get latency_ns m = record m { get = record_latency latency_ns m.get }

  abbrev record_put : ℕ → BenchmarkBatchResponse → BenchmarkBatchResponse
  record_put latency_ns m = record m { put = record_latency latency_ns m.put }

  -- one turn of the loop of a client, by the kind of the operation
  unfoldable pub run_kind :
      BenchmarkOperationKind
      → Db
      → Bytes
      → Text
      → BenchmarkBatchResponse
      → Exec S Text BenchmarkBatchResponse
  run_kind BenchmarkOperationKind.get db value key m = do
    started ← read engine.now
    found ← engine_call (engine.get db key)
    latency_ns ← elapsed_ns started
    fail_if (is_none found) (codes "benchmark key not found")
    pure (record_get latency_ns m)
  run_kind BenchmarkOperationKind.put db value key m = do
    started ← read engine.now
    engine_call (engine.put_with_options db key value false)
    latency_ns ← elapsed_ns started
    pure (record_put latency_ns m)

  abbrev pub run_operation :
      Db → Bytes → BenchmarkOperation → BenchmarkBatchResponse → Exec S Text BenchmarkBatchResponse
  run_operation db value operation m = run_kind operation.operation db value operation.key m

  unfoldable pub run_operations :
      Db
      → Bytes
      → List BenchmarkOperation
      → BenchmarkBatchResponse
      → Exec S Text BenchmarkBatchResponse
  run_operations db value [] m = pure m
  run_operations db value (operation ∷ operations) m =
      run_operation db value operation m >>= run_operations db value operations

  unfoldable pub run_benchmark_client :
      Db → List BenchmarkOperation → Bytes → Exec S Text BenchmarkBatchResponse
  unfolding run_operations
  run_benchmark_client db operations value = run_operations db value operations empty_response

  abbrev pub merge_client : BenchmarkBatchResponse → BenchmarkBatchResponse → BenchmarkBatchResponse
  merge_client client m = record { get = merge client.get m.get; put = merge client.put m.put }

  -- `try_join_all` of the clients
  unfoldable pub run_clients :
      Db → Bytes → List (List BenchmarkOperation) → Exec S Text (List BenchmarkBatchResponse)
  run_clients db value [] = pure []
  run_clients db value (operations ∷ clients) = do
    client ← run_benchmark_client db operations value
    others ← run_clients db value clients
    pure (client ∷ others)

  unfoldable pub merge_clients :
      List BenchmarkBatchResponse → BenchmarkBatchResponse → BenchmarkBatchResponse
  merge_clients [] m = m
  merge_clients (client ∷ clients) m = merge_clients clients (merge_client client m)

  unfoldable pub run_batch : Db → BenchmarkBatchRequest → Exec S Text BenchmarkBatchResponse
  run_batch db body = do
    clients ← run_clients db body.value body.clients
    pure (merge_clients clients empty_response)

-- the test of the size of a batch
abbrev pub is_empty_or_above : ℕ → ℕ → Bool
is_empty_or_above limit n = n == 0 || ltb limit n

unfoldable pub is_bad_batch : BenchmarkBatchRequest → Bool
is_bad_batch body =
    is_empty_or_above 256 (length body.clients)
    || any (λ operations. is_empty_or_above 512 (length operations)) body.clients
