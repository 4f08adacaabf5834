-- ===== src/DurableObject/R2Store/Tests.antt =====
-- Runs of the store over the bucket in memory, and its theorems at concrete inputs.
use slatedb_cloudflare.Prelude.{
  trim_end_matches, ℕ, ◌-◌, String, Bytes, codes, none, some, List, [], ◌∷◌, Result, ok, err, ◌≡◌,
  refl, text_eq,
}
use slatedb_cloudflare.ObjectStore.{
  Crate, Error, already_exists, PutMode, CopyMode, GetRange, bounded, offset, suffix, ByteRange,
  default_get, GetResult,
}
use slatedb_cloudflare.DurableObject.Perf.{default}
use slatedb_cloudflare.DurableObject.R2Store.{R2Store, Shared}
use slatedb_cloudflare.DurableObject.R2Store.Documented.{Stored}
use slatedb_cloudflare.DurableObject.R2Store.Memory.{Memory, lookup, memory}
use slatedb_cloudflare.DurableObject.R2Store.Memory.Behaves.{memory-Documented}
use slatedb_cloudflare.DurableObject.R2Store.Binding.{default_conditional}
use slatedb_cloudflare.DurableObject.R2Store.Put.{
  put_opts, collect_payload, put_conditional, failed_put_precondition,
}
use slatedb_cloudflare.DurableObject.R2Store.Put.Swap.{
  Swapped, put_opts-Swapped, Overwrites, put_opts-update_unchecked,
}
use slatedb_cloudflare.DurableObject.R2Store.Get.{
  get_opts, plain_head, get_conditional, object_meta, returned_range, result,
}
use slatedb_cloudflare.DurableObject.R2Store.Get.Whole.{ReadWhole, get_opts-ReadWhole}
use slatedb_cloudflare.DurableObject.R2Store.Copy.{copy_opts}
use slatedb_cloudflare.DurableObject.R2Store.Copy.Copies.{Copied, copy_opts-Copied}

-- `as_range` of the crate, where the range meets the object
abbrev pub as_range : GetRange → ℕ → Result String ByteRange
as_range (bounded range) size = ok range
as_range (offset start) size = ok (record { start = start; end = size })
as_range (suffix length) size = ok (record { start = size - length; end = size })

abbrev pub one_chunk : List (Result Error Bytes) → Result Error Bytes
one_chunk [] = ok []
one_chunk (chunk ∷ chunks) = chunk

abbrev pub crate : Crate
crate = record {
  is_valid = λ range. ok tt;
  as_range = as_range;
  check_preconditions = λ options meta. ok tt;
  bytes = λ got. one_chunk got.payload;
  path_from = trim_end_matches b'/';
  from_timestamp_millis = λ millis. some millis;
}

abbrev pub store : R2Store Memory
store = record { bucket_of = λ binding. ok memory; binding = codes "B"; crate = crate }

abbrev pub held : Stored
held = record { etag = 7 ∷ []; bytes = 7 ∷ [] }

-- one object, under the key "a"
abbrev pub begun : Shared Memory
begun = record {
  perf = default;
  world = record { objects = (codes "a", held) ∷ []; opened = []; parts = []; resumed = [] };
}

put_create_refused :
    (put_opts store (codes "a") ((1 ∷ []) ∷ []) PutMode.create begun).0
    ≡ err (already_exists (codes "a") "R2 create precondition failed")
unfolding put_opts put_conditional failed_put_precondition lookup text_eq
put_create_refused = refl

put_create_stores :
    lookup
      (codes "b")
      (put_opts store (codes "b") ((1 ∷ []) ∷ (2 ∷ []) ∷ []) PutMode.create begun).1.world.objects
    ≡ some (record { etag = 1 ∷ 2 ∷ []; bytes = 1 ∷ 2 ∷ [] })
unfolding put_opts put_conditional failed_put_precondition lookup text_eq collect_payload
put_create_stores = refl

copy_stores :
    lookup
      (codes "b")
      (copy_opts store (codes "a") (codes "b") CopyMode.create begun).1.world.objects
    ≡ some held
unfolding copy_opts get_opts put_opts put_conditional lookup text_eq collect_payload plain_head
    get_conditional object_meta returned_range result
copy_stores = refl

put_opts-Swapped_example :
    let (answer, s') = put_opts store (codes "a") ((1 ∷ []) ∷ []) PutMode.create begun in
    Swapped memory-Documented
      (codes "a")
      (collect_payload ((1 ∷ []) ∷ []))
      PutMode.create
      begun.world
      (answer, s'.world)
put_opts-Swapped_example =
    put_opts-Swapped memory-Documented store (codes "a") begun refl ((1 ∷ []) ∷ []) PutMode.create

-- The object under the key is overwritten, though nothing is known of it.
put_opts-update_unchecked_example :
    let mode = PutMode.update (record { e_tag = none; version = none }) in
    let (sent, w) = memory.put (codes "a") (1 ∷ []) (some default_conditional) begun.world in
    let (answer, s') = put_opts store (codes "a") ((1 ∷ []) ∷ []) mode begun in
    (s'.world ≡ w)
    × Overwrites memory-Documented store (codes "a") begun refl (1 ∷ []) sent answer s'.world
unfolding collect_payload
put_opts-update_unchecked_example =
    put_opts-update_unchecked memory-Documented store (codes "a") begun refl ((1 ∷ []) ∷ [])

get_opts-ReadWhole_example :
    let (answer, s') = get_opts store (codes "a") default_get begun in
    ReadWhole memory-Documented store (codes "a") begun refl begun.world (answer, s'.world)
get_opts-ReadWhole_example = get_opts-ReadWhole memory-Documented store (codes "a") begun refl

bytes_of_one :
    (got : GetResult) (chunk : Bytes)
    → got.payload ≡ ok chunk ∷ []
    → one_chunk got.payload ≡ ok chunk
bytes_of_one got chunk e = rw e

copy_opts-Copied_example :
    let (answer, s') = copy_opts store (codes "a") (codes "b") CopyMode.create begun in
    Copied memory-Documented (codes "a") (codes "b") CopyMode.create begun.world (answer, s'.world)
copy_opts-Copied_example =
    copy_opts-Copied memory-Documented store (codes "a") (codes "b") CopyMode.create begun refl
      bytes_of_one
