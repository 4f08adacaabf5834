-- ===== src/Container/Measures.antt =====
-- The benchmark of container/src/main.rs. Its requests and answers have the fields of the Durable
-- Object's. `try_join_all` polls the clients in turns; the model runs them one after the other.
use slatedb_cloudflare.Prelude.{
  ℕ, ◌+◌, ◌-◌, ◌%◌, ◌^◌, min, Text, Bytes, codes, Bool, false, ◌||◌, List, [], ◌∷◌, ◌++◌, ok, Exec,
  ◌>>=◌, ◌>>◌, pure, fail_if, map_err, any, length, is_none, ◌==◌, ltb,
}
use slatedb_cloudflare.Slatedb.{Engine, Call}
use slatedb_cloudflare.DurableObject.Perf.{u64_mod}
use slatedb_cloudflare.DurableObject.Benchmark.{
  BenchmarkOperationKind, BenchmarkOperation, BenchmarkBatchRequest, BenchmarkOperationMeasurements,
  BenchmarkBatchResponse, empty_response,
}

-- a status code and a message
pub record AppError : Type 0 where
  pub status : ℕ
  pub message : Text

abbrev pub internal : Text → AppError
internal error = record { status = 500; message = error }

abbrev pub bad_request : Text → AppError
bad_request message = record { status = 400; message = message }

-- `.map_err(AppError::internal)`
abbrev pub internal_call : {S A : Type 0} → Call S A → Exec S AppError A
internal_call m s = let (answer, s') = m s in (map_err internal answer, s')

abbrev pub read_clock : {S : Type 0} → (S → ℕ × S) → Exec S AppError ℕ
read_clock m s = let (nanos, s') = m s in (ok nanos, s')

unfoldable pub record_latency : ℕ → BenchmarkOperationMeasurements → BenchmarkOperationMeasurements
record_latency latency_ns self = record self {
  operations = (self.operations + 1) % u64_mod;
  measurable_latency_ns = self.measurable_latency_ns ++ min latency_ns (2 ^ 64 - 1) ∷ [];
}

unfoldable pub merge :
    BenchmarkOperationMeasurements → BenchmarkOperationMeasurements → BenchmarkOperationMeasurements
merge other self = record {
  operations = (self.operations + other.operations) % u64_mod;
  unmeasurable_operations =
      (self.unmeasurable_operations + other.unmeasurable_operations) % u64_mod;
  measurable_latency_ns = self.measurable_latency_ns ++ other.measurable_latency_ns;
}

module _ {S Db Recorder : Type 0} (engine : Engine S Db Recorder) where
  unfoldable pub run_kind :
      BenchmarkOperationKind
      → Db
      → Bytes
      → Text
      → BenchmarkBatchResponse
      → Exec S AppError BenchmarkBatchResponse
  run_kind BenchmarkOperationKind.get db value key m = do
    started ← read_clock engine.now
    found ← internal_call (engine.get db key)
    fail_if (is_none found) (internal (codes "benchmark key not found"))
    latency_ns ← read_clock (engine.elapsed started)
    pure (record m { get = record_latency latency_ns m.get })
  run_kind BenchmarkOperationKind.put db value key m = do
    started ← read_clock engine.now
    internal_call (engine.put_with_options db key value false)
    latency_ns ← read_clock (engine.elapsed started)
    pure (record m { put = record_latency latency_ns m.put })

  unfoldable pub run_operations :
      Db
      → Bytes
      → List BenchmarkOperation
      → BenchmarkBatchResponse
      → Exec S AppError BenchmarkBatchResponse
  run_operations db value [] m = pure m
  run_operations db value (operation ∷ operations) m =
      run_kind operation.operation db value operation.key m >>= run_operations db value operations

  unfoldable pub run_benchmark_client :
      Db → List BenchmarkOperation → Bytes → Exec S AppError BenchmarkBatchResponse
  unfolding run_operations
  run_benchmark_client db operations value = run_operations db value operations empty_response

  unfoldable pub run_clients :
      Db → Bytes → List (List BenchmarkOperation) → Exec S AppError (List BenchmarkBatchResponse)
  run_clients db value [] = pure []
  run_clients db value (operations ∷ clients) = do
    client ← run_benchmark_client db operations value
    others ← run_clients db value clients
    pure (client ∷ others)

  unfoldable pub merge_clients :
      List BenchmarkBatchResponse → BenchmarkBatchResponse → BenchmarkBatchResponse
  merge_clients [] m = m
  merge_clients (client ∷ clients) m =
      merge_clients clients (record { get = merge client.get m.get; put = merge client.put m.put })

  unfoldable pub run_batch : Db → BenchmarkBatchRequest → Exec S AppError BenchmarkBatchResponse
  run_batch db body = do
    clients ← run_clients db body.value body.clients
    pure (merge_clients clients empty_response)

abbrev pub is_empty_or_above : ℕ → ℕ → Bool
is_empty_or_above limit n = n == 0 || ltb limit n

unfoldable pub is_bad_batch : BenchmarkBatchRequest → Bool
is_bad_batch body =
    is_empty_or_above 256 (length body.clients)
    || any (λ operations. is_empty_or_above 512 (length operations)) body.clients
