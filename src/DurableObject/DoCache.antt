-- ===== src/DurableObject/DoCache.antt =====
-- durable-object/src/do_cache.rs: SlateDB's object cache in the storage of the Durable Object.
mod Keys
pub mod KeyValue
pub mod Unambiguous
pub mod Documented
pub mod RoundTrip
pub mod Deletion
pub mod Accounting
pub mod Tests
unfoldable pub use Keys.*
use KeyValue.{HeadCodec, Call, Storage}
use slatedb_cloudflare.Prelude.{
  ◌^◌, ℕ, zero, suc, ◌+◌, ◌-◌, ◌/◌, ◌%◌, Text, Bytes, String, Bool, true, false, ◌&&◌, not, Option,
  none, some, List, [], ◌∷◌, ◌++◌, map, Result, ok, err, Exec, ◌>>=◌, ◌>>◌, pure, map_ok, fail,
  map_err, length, take, drop, chunks_up_to, leb, ◌==◌, if◌then◌else◌,
}
use mathlib.Core.Option
use slatedb_cloudflare.ObjectStore.{Error, generic, ObjectMeta, ByteRange}
use slatedb_cloudflare.DurableObject.Perf.{
  cache_part_reads, cache_part_hits, cache_part_misses, cache_requested_bytes, cache_loaded_bytes,
  cache_returned_bytes, cache_part_writes, cache_written_bytes, cache_head_reads, cache_head_hits,
  cache_head_misses, cache_head_writes, cache_errors, do_kv_gets, do_kv_puts, do_kv_deletes,
  do_kv_delete_alls, do_kv_lists, do_kv_rows_read, do_kv_rows_written, increment,
}
use slatedb_cloudflare.DurableObject.State.{Shared, count}

abbrev pub store_name : String
store_name = "cloudflare-do-cache"

unfoldable pub cache_message : String → Error
cache_message message = generic store_name message

unfoldable pub cache_error : String → Error
unfolding cache_message
cache_error error = cache_message error

-- `DoCacheEntry`, without the handles that it shares with the cache.
pub record DoCacheEntry : Type 0 where
  pub prefix : Text
  pub part_size : ℕ

unfoldable pub entry : Text → ℕ → DoCacheEntry
unfolding entry_prefix
entry location part_size = record {
  prefix = entry_prefix location part_size;
  part_size = part_size;
}

-- `bytes.get(range)`: `none` unless start ≤ end ≤ len
abbrev pub get_range : Bytes → ByteRange → Option Bytes
get_range bytes range =
    if leb range.start range.end && leb range.end (length bytes)
    then some (take (range.end - range.start) (drop range.start bytes))
    else none

abbrev pub Method : Type 0 → Type 0 → Type 0
Method W A = Exec (Shared W) Error A

module _ {W : Type 0} where
  -- `call.await`, with the error as the binding gives it
  abbrev pub call_raw : {A : Type 0} → Call W A → Exec (Shared W) String A
  call_raw m s = let (answer, w) = m s.world in (answer, record s { world = w })

  -- `call.await.map_err(cache_error)`
  abbrev pub call : {A : Type 0} → Call W A → Method W A
  call m s = let (answer, w) = m s.world in (map_err cache_error answer, record s { world = w })

  abbrev told :
      {A : Type 0}
      → (A → Method W (Unit {0}))
      → Method W (Unit {0})
      → Result Error A × Shared W
      → Result Error A × Shared W
  told good bad (ok a, s) = (ok a, (good a s).1)
  told good bad (err error, s) = (err error, (bad s).1)

  -- Counts by the answer, and answers it.
  abbrev pub tell :
      {A : Type 0} → Method W A → (A → Method W (Unit {0})) → Method W (Unit {0}) → Method W A
  tell m good bad s = told good bad (m s)

  abbrev ranged : ℕ → Option Bytes → Method W (Option Bytes)
  ranged wanted none =
      count cache_errors 1 >> fail (cache_message "cached part is shorter than requested range")
  ranged wanted (some slice) = count cache_returned_bytes wanted >> pure (some slice)

  unfoldable pub cached_range : Bytes → ByteRange → Method W (Option Bytes)
  cached_range bytes range = ranged (range.end - range.start) (get_range bytes range)

-- `size.div_ceil(part_size)`, for a part size that is not 0
abbrev pub div_ceil : ℕ → ℕ → ℕ
div_ceil size part_size = size / part_size + (if size % part_size == 0 then 0 else 1)

-- `meta.size.div_ceil(part_size) as usize`: a usize has 32 bits in WebAssembly
abbrev pub part_count : ℕ → ℕ → ℕ
part_count size part_size = div_ceil size part_size % 2 ^ 32

-- `(0..count).map(part_key)`, from a number on
abbrev pub part_keys : Text → ℕ → ℕ → List Text
part_keys prefix from zero = []
part_keys prefix from (suc n) = part_key prefix from ∷ part_keys prefix (from + 1) n

module _ {W Head Attributes : Type 0} (storage : Storage W Head)
    (codec : HeadCodec Head Attributes) where
  unfoldable pub save_part : DoCacheEntry → ℕ → Bytes → Method W (Unit {0})
  save_part self part_number bytes = do
    count do_kv_puts 1
    tell (call (storage.put_bytes (part_key self.prefix part_number) bytes))
        (λ _.
          count do_kv_rows_written 1
          >> (count cache_part_writes 1 >> count cache_written_bytes (length bytes)))
        (count cache_errors 1)

  -- what follows the load of a part
  abbrev read_loaded : ByteRange → Option Bytes → Method W (Option Bytes)
  read_loaded range none = count cache_part_misses 1 >> pure none
  read_loaded range (some bytes) =
      count cache_part_hits 1
      >> (count do_kv_rows_read 1
          >> (count cache_loaded_bytes (length bytes) >> cached_range bytes range))

  unfoldable pub read_part : DoCacheEntry → ℕ → ByteRange → Method W (Option Bytes)
  read_part self part_number range = do
    count cache_part_reads 1
    count do_kv_gets 1
    count cache_requested_bytes (range.end - range.start)
    loaded ←
        tell (call (storage.get_bytes (part_key self.prefix part_number))) (λ _. pure tt)
          (count cache_errors 1)
    read_loaded range loaded

  unfoldable pub save_head : DoCacheEntry → ObjectMeta → Attributes → Method W (Unit {0})
  save_head self meta attributes = do
    count do_kv_puts 1
    tell (call (storage.put_head (head_key self.prefix) (codec.from meta attributes)))
        (λ _. count do_kv_rows_written 1 >> count cache_head_writes 1) (count cache_errors 1)

  abbrev count_head : Option Head → Method W (Unit {0})
  count_head none = count cache_head_misses 1
  count_head (some head) = count cache_head_hits 1 >> count do_kv_rows_read 1

  abbrev open_head : Head → ObjectMeta × Attributes
  open_head head = (codec.meta head, codec.attributes head)

  unfoldable pub read_head : DoCacheEntry → Method W (Option (ObjectMeta × Attributes))
  read_head self = do
    count cache_head_reads 1
    count do_kv_gets 1
    head ← tell (call (storage.get_head (head_key self.prefix))) count_head (count cache_errors 1)
    pure (Option.map open_head head)

  abbrev count_deleted : Result String ℕ × Shared W → Shared W
  count_deleted (ok deleted, s) = record s { perf = increment do_kv_rows_written deleted s.perf }
  count_deleted (err error, s) = s

  -- the loop of `delete` over the chunks of keys
  unfoldable pub delete_chunks : List (List Text) → Shared W → Shared W
  delete_chunks [] s = s
  delete_chunks (chunk ∷ chunks) s =
      let s₁ = record s { perf = increment do_kv_deletes (length chunk) s.perf } in
      delete_chunks chunks (count_deleted (call_raw (storage.delete_multiple chunk) s₁))

  -- `result.ok().flatten()`
  abbrev ok_flatten : {A : Type 0} → Result Error (Option A) → Option A
  ok_flatten (ok found) = found
  ok_flatten (err error) = none

  abbrev u64_from : Bool → ℕ
  u64_from true = 1
  u64_from false = 0

  abbrev delete_parts : DoCacheEntry → Option (ObjectMeta × Attributes) → Shared W → Shared W
  delete_parts self none s = s
  delete_parts self (some (meta, attributes)) s =
      let keys = part_keys self.prefix 0 (part_count meta.size self.part_size) in
      delete_chunks (chunks_up_to (length keys) 128 keys) s

  -- `delete` answers nothing, and goes on after errors.
  unfoldable pub delete : DoCacheEntry → Shared W → Shared W
  unfolding delete_chunks
  delete self s =
      let (head, s₁) = read_head self s in
      let s₂ = record s₁ { perf = increment do_kv_deletes 1 s₁.perf } in
      let (deleted, s₃) = call_raw (storage.delete (head_key self.prefix)) s₂ in
      delete_parts self (ok_flatten head) (count_deleted (map_ok u64_from deleted, s₃))

  -- `clear` and `is_populated` answer the error of the binding as it is.
  unfoldable pub clear : Exec (Shared W) String (Unit {0})
  clear = count do_kv_delete_alls 1 >> call_raw storage.delete_all

  unfoldable pub is_populated : Exec (Shared W) String Bool
  is_populated = do
    count do_kv_lists 1
    size ← call_raw (storage.list_size cache_prefix 1)
    count do_kv_rows_read size
    pure (not (size == 0))

  unfoldable pub database_size : Shared W → ℕ
  database_size s = storage.database_size s.world
