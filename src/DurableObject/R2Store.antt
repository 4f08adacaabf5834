-- ===== src/DurableObject/R2Store.antt =====
-- durable-object/src/r2_store.rs: the object store over the R2 binding. A method is given the counters
-- and the world beyond the binding, and leaves both beside its result.
pub mod Binding
pub mod Documented
mod Memory
mod Tests
mod UploadTests
pub mod Put
pub mod Get
pub mod List
pub mod Copy
pub mod Multipart
use Binding.{Bucket, Call}
use slatedb_cloudflare.Prelude.{ℕ, Text, String, Result, ok, err, Exec, ◌>>=◌, map_err, continue}
use slatedb_cloudflare.ObjectStore.{Error, generic, Crate}
use slatedb_cloudflare.DurableObject.Perf.{Counter, PerfCounters, increment, r2_errors}
pub use slatedb_cloudflare.DurableObject.State.{Shared, count}

abbrev pub store_name : String
store_name = "cloudflare-r2"

-- The fields of `R2Store` that no method changes: `env.bucket(binding)` is a lookup that can fail.
pub record R2Store (W : Type 0) : Type 0 where
  pub bucket_of : Text → Result String (Bucket W)
  pub binding : Text
  pub crate : Crate

abbrev pub Method : Type 0 → Type 0 → Type 0
Method W A = Exec (Shared W) Error A

-- `fn generic(error: worker::Error) -> Error`
abbrev pub generic_error : String → Error
generic_error error = generic store_name error

module _ {W : Type 0} where
  abbrev answered : {A : Type 0} → PerfCounters → Result String A × W → Result Error A × Shared W
  answered perf (ok a, w) = (ok a, record { perf = perf; world = w })
  answered perf (err e, w) = (err (generic_error e), record { perf = perf; world = w })

  -- `call.await.map_err(generic)`
  abbrev pub call : {A : Type 0} → Call W A → Method W A
  call m s = answered s.perf (m s.world)

  abbrev counted : {A : Type 0} → PerfCounters → Result String A × W → Result Error A × Shared W
  counted perf (ok a, w) = (ok a, record { perf = perf; world = w })
  counted perf (err e, w) =
      (err (generic_error e), record { perf = increment r2_errors 1 perf; world = w })

  -- `call.await.map_err(|error| { increment(&self.perf.r2_errors, 1); generic(error) })`
  abbrev pub call_counted : {A : Type 0} → Call W A → Method W A
  call_counted m s = counted s.perf (m s.world)

  -- `fn bucket(&self)`
  abbrev pub bucket : R2Store W → Method W (Bucket W)
  bucket store s = (map_err generic_error (store.bucket_of store.binding), s)
