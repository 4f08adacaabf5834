-- ===== src/DurableObject/Benchmark/Clients.antt =====
-- The measurements of a client and of all clients, when they answer.
use slatedb_cloudflare.Prelude.{
  ℕ, ◌+◌, ◌*◌, ◌≤◌, ◌<◌, Text, Bytes, false, none, some, List, [], ◌∷◌, Result, ok, err,
  Result-cases, inl, inr, any, All, length, ◌≡◌, refl, subst, arith,
}
use slatedb_cloudflare.Slatedb.{Engine}
use slatedb_cloudflare.DurableObject.Perf.{u64_mod}
use slatedb_cloudflare.DurableObject.Benchmark.{
  BenchmarkOperationKind, BenchmarkOperation, BenchmarkBatchResponse, empty_response, run_kind,
  run_operation, run_operations, run_benchmark_client, run_clients, merge_clients,
  is_empty_or_above, merge_client,
}
use slatedb_cloudflare.DurableObject.Benchmark.Measures.{
  get_one, put_one, gets_in, puts_in, all_in, Measures-record_latency, Measures-0_add,
  Measures-merge, MeasuresBoth, Holds,
}

module _ {S Db Recorder : Type 0} (engine : Engine S Db Recorder) where
  run_kind-Measures :
      (kind : BenchmarkOperationKind) (db : Db) (value : Bytes) (key : Text) (gets puts : ℕ)
      (m : BenchmarkBatchResponse) (s : S)
      → gets + 1 < u64_mod
      → puts + 1 < u64_mod
      → MeasuresBoth gets puts m
      → Holds
          (MeasuresBoth (get_one kind + gets) (put_one kind + puts))
          (run_kind engine kind db value key m s).0
  unfolding run_kind
  run_kind-Measures BenchmarkOperationKind.get db value key gets puts m s h k (g, p) =
      let (started, s₁) = engine.now s in
      elim (Result-cases (engine.get db key s₁).0) [
        | inr (error, e) ↦ rw e tt
        | inl (none, e) ↦ rw e tt
        | inl (some found, e) ↦
            rw e (Measures-record_latency gets _ m.get h g, Measures-0_add puts m.put p)
      ]
  run_kind-Measures BenchmarkOperationKind.put db value key gets puts m s h k (g, p) =
      let (started, s₁) = engine.now s in
      elim (Result-cases (engine.put_with_options db key value false s₁).0) [
        | inr (error, e) ↦ rw e tt
        | inl (_, e) ↦ rw e (Measures-0_add gets m.get g, Measures-record_latency puts _ m.put k p)
      ]

  Both-assoc :
      (kind : BenchmarkOperationKind) (operations : List BenchmarkOperation) (gets puts : ℕ)
      (answer : Result Text BenchmarkBatchResponse)
      → Holds
          (MeasuresBoth
            (get_one kind + gets + gets_in operations)
            (put_one kind + puts + puts_in operations))
          answer
      → Holds
          (MeasuresBoth
            (gets + (get_one kind + gets_in operations))
            (puts + (put_one kind + puts_in operations)))
          answer
  Both-assoc kind operations gets puts (ok m) ((a, b), (c, d)) =
      ((omega arith, omega arith), (omega arith, omega arith))
  Both-assoc kind operations gets puts (err error) h = tt

  get_or_put : (kind : BenchmarkOperationKind) → get_one kind + put_one kind ≡ 1
  get_or_put BenchmarkOperationKind.get = omega arith
  get_or_put BenchmarkOperationKind.put = omega arith

  gets_puts_in :
      (operations : List BenchmarkOperation)
      → gets_in operations + puts_in operations ≡ length operations
  gets_puts_in [] = omega arith
  gets_puts_in (operation ∷ operations) =
      omega (arith, gets_puts_in operations, get_or_put operation.operation)

  run_operations-Measures :
      (operations : List BenchmarkOperation) (db : Db) (value : Bytes) (gets puts : ℕ)
      (m : BenchmarkBatchResponse) (s : S)
      → gets + puts + length operations < u64_mod
      → MeasuresBoth gets puts m
      → Holds
          (MeasuresBoth (gets + gets_in operations) (puts + puts_in operations))
          (run_operations engine db value operations m s).0
  unfolding run_operations
  run_operations-Measures [] db value gets puts m s h (g, p) =
      ((omega (arith, g.0), omega (arith, g.1)), (omega (arith, p.0), omega (arith, p.1)))
  run_operations-Measures (operation ∷ operations) db value gets puts m s h both =
      let one = run_operation engine db value operation m s in
      let kind = operation.operation in
      let held =
        run_kind-Measures kind db value operation.key gets puts m s (omega arith) (omega arith)
          both in
      elim (Result-cases one.0) [
        | inr (error, e) ↦ rw e tt
        | inl (m', e) ↦ rw e (
            Both-assoc kind operations gets puts _ (
              run_operations-Measures operations db value (get_one kind + gets)
                (put_one kind + puts) m' one.1 (omega (arith, get_or_put kind))
                (subst (Holds (MeasuresBoth (get_one kind + gets) (put_one kind + puts))) e held)))
      ]

  run_benchmark_client-Measures :
      (db : Db) (operations : List BenchmarkOperation) (value : Bytes) (s : S)
      → length operations ≤ 512
      → Holds
          (MeasuresBoth (gets_in operations) (puts_in operations))
          (run_benchmark_client engine db operations value s).0
  unfolding run_benchmark_client
  run_benchmark_client-Measures db operations value s h =
      let answer = (run_operations engine db value operations empty_response s).0 in
      from_zero operations answer (
        run_operations-Measures operations db value 0 0 empty_response s (omega arith)
          ((refl, omega arith), (refl, omega arith)))
    where
      from_zero :
          (operations : List BenchmarkOperation) (answer : Result Text BenchmarkBatchResponse)
          → Holds (MeasuresBoth (0 + gets_in operations) (0 + puts_in operations)) answer
          → Holds (MeasuresBoth (gets_in operations) (puts_in operations)) answer
      from_zero operations (ok m) ((a, b), (c, d)) =
          ((omega arith, omega arith), (omega arith, omega arith))
      from_zero operations (err error) h = tt

  -- one answer of measurements for each client
  abbrev pub ClientsMeasure : List (List BenchmarkOperation) → List BenchmarkBatchResponse → Type 0
  ClientsMeasure [] [] = Unit
  ClientsMeasure [] (m ∷ ms) = ⊥
  ClientsMeasure (client ∷ clients) [] = ⊥
  ClientsMeasure (client ∷ clients) (m ∷ ms) =
      MeasuresBoth (gets_in client) (puts_in client) m × ClientsMeasure clients ms

  abbrev Small : List (List BenchmarkOperation) → Type 0
  Small = All (λ client. length client ≤ 512)

  pub run_clients-Measures :
      (clients : List (List BenchmarkOperation)) (db : Db) (value : Bytes) (s : S)
      → Small clients
      → Holds (ClientsMeasure clients) (run_clients engine db value clients s).0
  unfolding run_clients
  run_clients-Measures [] db value s h = tt
  run_clients-Measures (client ∷ clients) db value s h =
      let one = run_benchmark_client engine db client value s in
      let others = run_clients engine db value clients one.1 in
      let measured = run_benchmark_client-Measures db client value s h.0 in
      elim (Result-cases one.0) [
        | inr (error, e) ↦ rw e tt
        | inl (m, e) ↦ elim (Result-cases others.0) [
          | inr (error, f) ↦ rw (e, f) tt
          | inl (ms, f) ↦
              rw (e, f)
                (
                  subst (Holds (MeasuresBoth (gets_in client) (puts_in client))) e measured,
                  subst (Holds (ClientsMeasure clients)) f
                      (run_clients-Measures clients db value one.1 h.1),
                )
        ]
      ]

  pub merge_clients-Measures :
      (clients : List (List BenchmarkOperation)) (ms : List BenchmarkBatchResponse) (gets puts : ℕ)
      (m : BenchmarkBatchResponse)
      → gets + puts + all_in length clients < u64_mod
      → MeasuresBoth gets puts m
      → ClientsMeasure clients ms
      → MeasuresBoth
          (gets + all_in gets_in clients)
          (puts + all_in puts_in clients)
          (merge_clients engine ms m)
  unfolding merge_clients
  merge_clients-Measures [] [] gets puts m h ((a, b), (c, d)) k =
      ((omega arith, omega arith), (omega arith, omega arith))
  merge_clients-Measures [] (m' ∷ ms) gets puts m h both k = absurd k
  merge_clients-Measures (client ∷ clients) [] gets puts m h both k = absurd k
  merge_clients-Measures (client ∷ clients) (m' ∷ ms) gets puts m h both k =
      let bound = gets_puts_in client in
      let merged : MeasuresBoth (gets + gets_in client) (puts + puts_in client)
          (merge_client engine m' m) =
        (
          Measures-merge gets (gets_in client) m.get m'.get (omega arith) both.0 k.0.0,
          Measures-merge puts (puts_in client) m.put m'.put (omega arith) both.1 k.0.1,
        ) in
      let rest =
        merge_clients-Measures clients ms (gets + gets_in client) (puts + puts_in client)
          (merge_client engine m' m) (omega arith) merged k.1 in
      (
        (omega (arith, rest.0.0), omega (arith, rest.0.1)),
        (omega (arith, rest.1.0), omega (arith, rest.1.1)),
      )

  pub Small-bound :
      (clients : List (List BenchmarkOperation))
      → Small clients
      → all_in length clients ≤ 512 * length clients
  Small-bound [] h = omega arith
  Small-bound (client ∷ clients) h = omega (arith, h.0, Small-bound clients h.1)

  pub is_bad_batch-Small :
      (clients : List (List BenchmarkOperation))
      → any (λ operations. is_empty_or_above 512 (length operations)) clients ≡ false
      → Small clients
  is_bad_batch-Small [] h = tt
  is_bad_batch-Small (client ∷ clients) h =
      (ground arith, is_bad_batch-Small clients (ground arith))
