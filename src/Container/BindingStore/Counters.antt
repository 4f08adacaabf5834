-- ===== src/Container/BindingStore/Counters.antt =====
-- The counters of container/src/binding_store.rs, and the shape of its methods.
use slatedb_cloudflare.Prelude.{
  ℕ, ◌+◌, ◌%◌, Text, String, codes, List, [], ◌∷◌, Exec, ◌==◌, if◌then◌else◌,
}
use slatedb_cloudflare.ObjectStore.{Error, generic}
use slatedb_cloudflare.DurableObject.Perf.{u64_mod}

abbrev pub store_name : String
store_name = "cloudflare-r2-binding"

-- `generic` of the source
abbrev pub generic_error : String → Error
generic_error error = generic store_name error

pub data Counter : Type 0 where
  gets heads puts lists deletes multipart_uploads multipart_parts multipart_completes : Counter
  read_bytes written_bytes errors : Counter

abbrev index : Counter → ℕ
index gets = 0
index heads = 1
index puts = 2
index lists = 3
index deletes = 4
index multipart_uploads = 5
index multipart_parts = 6
index multipart_completes = 7
index read_bytes = 8
index written_bytes = 9
index errors = 10

-- `BindingStoreCounters`, by the names of its fields
abbrev pub BindingStoreCounters : Type 0
BindingStoreCounters = Counter → ℕ

-- `fetch_add`
unfoldable pub fetch_add : Counter → ℕ → BindingStoreCounters → BindingStoreCounters
fetch_add counter value counters other =
    if index counter == index other then (counters other + value) % u64_mod else counters other

unfoldable pub snapshot : BindingStoreCounters → List (Text × ℕ)
snapshot counters =
    (codes "r2Gets", counters gets)
    ∷ (codes "r2Heads", counters heads)
    ∷ (codes "r2Puts", counters puts)
    ∷ (codes "r2Lists", counters lists)
    ∷ (codes "r2Deletes", counters deletes)
    ∷ (codes "r2MultipartUploads", counters multipart_uploads)
    ∷ (codes "r2MultipartParts", counters multipart_parts)
    ∷ (codes "r2MultipartCompletes", counters multipart_completes)
    ∷ (codes "r2ReadBytes", counters read_bytes)
    ∷ (codes "r2WrittenBytes", counters written_bytes)
    ∷ (codes "r2Errors", counters errors)
    ∷ []

-- the counters, and the world behind the client
pub record Shared (W : Type 0) : Type 0 where
  pub counters : BindingStoreCounters
  pub world : W

abbrev pub Method : Type 0 → Type 0 → Type 0
Method W A = Exec (Shared W) Error A
