-- ===== src/DurableObject/Benchmark/Totals.antt =====
-- What the measurements of a benchmark add up to.
use slatedb_cloudflare.Prelude.{
  ◌≤◌, Text, Bytes, Bool, false, some, List, [], ◌∷◌, Result, ok, length, ◌≡◌, refl, subst, arith,
}
use slatedb_cloudflare.Slatedb.{Engine}
use slatedb_cloudflare.DurableObject.Benchmark.{
  BenchmarkOperationKind, BenchmarkOperation, BenchmarkBatchRequest, BenchmarkBatchResponse,
  empty_response, run_kind, run_operations, run_benchmark_client, run_clients, merge_clients,
  run_batch, is_bad_batch,
}
use slatedb_cloudflare.DurableObject.Benchmark.Measures.{
  gets_in, puts_in, all_in, MeasuresBoth, Holds,
}
use slatedb_cloudflare.DurableObject.Benchmark.Clients.{
  ClientsMeasure, run_clients-Measures, merge_clients-Measures, Small-bound, is_bad_batch-Small,
}

-- An engine on which every key is found and nothing fails.
pub record Serves {S Db Recorder : Type 0} (engine : Engine S Db Recorder) : Type 0 where
  pub get_finds :
      (db : Db) (key : Bytes) (s : S)
      → (found : Bytes) × ((engine.get db key s).0 ≡ ok (some found))
  pub put_succeeds :
      (db : Db) (key value : Bytes) (durable : Bool) (s : S)
      → (engine.put_with_options db key value durable s).0 ≡ ok tt

abbrev IsOk : {A : Type 0} → Result Text A → Type 0
IsOk {A} answer = (a : A) × (answer ≡ ok a)

module _ {S Db Recorder : Type 0} {engine : Engine S Db Recorder} (serves : Serves engine) (db : Db)
    (value : Bytes) where
  run_kind-IsOk :
      (kind : BenchmarkOperationKind) (key : Text) (m : BenchmarkBatchResponse) (s : S)
      → IsOk (run_kind engine kind db value key m s).0
  unfolding run_kind
  run_kind-IsOk BenchmarkOperationKind.get key m s =
      let (found, e) = serves.get_finds db key (engine.now s).1 in rw e (_, refl)
  run_kind-IsOk BenchmarkOperationKind.put key m s =
      rw (serves.put_succeeds db key value false (engine.now s).1) (_, refl)

  run_operations-IsOk :
      (operations : List BenchmarkOperation) (m : BenchmarkBatchResponse) (s : S)
      → IsOk (run_operations engine db value operations m s).0
  unfolding run_operations
  run_operations-IsOk [] m s = (m, refl)
  run_operations-IsOk (operation ∷ operations) m s =
      let (m', e) = run_kind-IsOk operation.operation operation.key m s in
      rw e (run_operations-IsOk operations m' _)

  run_clients-IsOk :
      (clients : List (List BenchmarkOperation)) (s : S)
      → IsOk (run_clients engine db value clients s).0
  unfolding run_clients run_benchmark_client
  run_clients-IsOk [] s = ([], refl)
  run_clients-IsOk (client ∷ clients) s =
      let (m, e) = run_operations-IsOk client empty_response s in
      let (ms, f) =
        run_clients-IsOk clients (run_operations engine db value client empty_response s).1 in
      rw (e, f) (m ∷ ms, refl)

module _ {S Db Recorder : Type 0} {engine : Engine S Db Recorder} (serves : Serves engine) (db : Db)
    (body : BenchmarkBatchRequest) (s : S) where
  -- When the engine finds every key and fails nowhere, a batch of an accepted size answers measurements
  -- whose numbers of gets and of puts are those that the batch asks for, however many clients it has;
  -- and of either kind each operation has given one latency or is counted as unmeasurable.
  pub run_batch-Measures :
      is_bad_batch body ≡ false
      → (m : BenchmarkBatchResponse) × ((run_batch engine db body s).0 ≡ ok m)
        × MeasuresBoth (all_in gets_in body.clients) (all_in puts_in body.clients) m
  unfolding run_batch is_bad_batch
  run_batch-Measures accepted =
      let (ms, f) = run_clients-IsOk serves db body.value body.clients s in
      let small = is_bad_batch-Small engine body.clients (ground arith) in
      let measured : ClientsMeasure engine body.clients ms =
        subst (Holds (ClientsMeasure engine body.clients)) f
          (run_clients-Measures engine body.clients db body.value s small) in
      let few : length body.clients ≤ 256 = ground arith in
      let both =
        merge_clients-Measures engine body.clients ms 0 0 empty_response
          (omega (arith, Small-bound engine body.clients small, few))
          ((refl, omega arith), (refl, omega arith)) measured in
      (
        merge_clients engine ms empty_response,
        rw f refl,
        (
          (omega (arith, both.0.0), omega (arith, both.0.1)),
          (omega (arith, both.1.0), omega (arith, both.1.1)),
        ),
      )
