-- ===== src/DurableObject/Benchmark/Measures.antt =====
-- What the measurements of operations count.
use slatedb_cloudflare.Prelude.{
  ℕ, ◌+◌, ◌<◌, Text, List, [], ◌∷◌, Result, ok, err, Bool-cases, inl, inr, length, length-append,
  ◌==◌, ◌≡◌, arith,
}
use slatedb_cloudflare.DurableObject.Perf.{u64_mod}
use slatedb_cloudflare.DurableObject.Benchmark.{
  BenchmarkOperationKind, BenchmarkOperation, BenchmarkOperationMeasurements,
  BenchmarkBatchResponse, record_latency, merge,
}

-- how many operations of a kind a client asks for
abbrev pub get_one : BenchmarkOperationKind → ℕ
get_one BenchmarkOperationKind.get = 1
get_one BenchmarkOperationKind.put = 0

abbrev pub put_one : BenchmarkOperationKind → ℕ
put_one BenchmarkOperationKind.get = 0
put_one BenchmarkOperationKind.put = 1

abbrev pub gets_in : List BenchmarkOperation → ℕ
gets_in [] = 0
gets_in (operation ∷ operations) = get_one operation.operation + gets_in operations

abbrev pub puts_in : List BenchmarkOperation → ℕ
puts_in [] = 0
puts_in (operation ∷ operations) = put_one operation.operation + puts_in operations

abbrev pub all_in : (List BenchmarkOperation → ℕ) → List (List BenchmarkOperation) → ℕ
all_in in_one [] = 0
all_in in_one (client ∷ clients) = in_one client + all_in in_one clients

-- Measurements of a number of operations: each has a latency or is unmeasurable.
abbrev pub Measures : ℕ → BenchmarkOperationMeasurements → Type 0
Measures n m = (m.operations ≡ n) × (m.unmeasurable_operations + length m.measurable_latency_ns ≡ n)

pub Measures-record_latency :
    (n latency_ns : ℕ) (m : BenchmarkOperationMeasurements)
    → n + 1 < u64_mod
    → Measures n m
    → Measures (1 + n) (record_latency latency_ns m)
unfolding record_latency
Measures-record_latency n latency_ns m bound (e, g) = elim (Bool-cases (latency_ns == 0)) [
  | inl z ↦ rw z (ground arith, ground arith)
  | inr z ↦
      rw z
        (ground arith, omega (arith, e, g, length-append m.measurable_latency_ns (latency_ns ∷ [])))
]

pub Measures-0_add :
    (n : ℕ) (m : BenchmarkOperationMeasurements) → Measures n m → Measures (0 + n) m
Measures-0_add n m (e, g) = (omega arith, omega arith)

pub Measures-merge :
    (n k : ℕ) (m other : BenchmarkOperationMeasurements)
    → n + k < u64_mod
    → Measures n m
    → Measures k other
    → Measures (n + k) (merge other m)
unfolding merge
Measures-merge n k m other bound (e, g) (e', g') = (
  omega arith,
  omega (arith, e, g, e', g', length-append m.measurable_latency_ns other.measurable_latency_ns),
)

-- The measurements of both kinds.
abbrev pub MeasuresBoth : ℕ → ℕ → BenchmarkBatchResponse → Type 0
MeasuresBoth gets puts m = Measures gets m.get × Measures puts m.put

-- a result that is right whenever there is one
abbrev pub Holds : {A : Type 0} → (A → Type 0) → Result Text A → Type 0
Holds P (ok a) = P a
Holds P (err e) = Unit
