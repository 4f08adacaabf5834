-- ===== src/DurableObject/R2Store/Get.antt =====
-- `get_opts` of durable-object/src/r2_store.rs and what it calls.
pub mod Whole
use slatedb_cloudflare.Prelude.{
  ℕ, ltb, ◌-◌, ◌^◌, Text, Bytes, Bool, true, false, Option, none, some, List, [], ◌∷◌, Result, ok,
  err, ◌>>=◌, ◌>>◌, pure, lift, fail_if, map_err, length, is_some, is_none, ◌&&◌, ok_or,
  if◌then◌else◌,
}
use mathlib.Core.Option
use slatedb_cloudflare.ObjectStore.{
  ℤ, pos, negsuc, DateTime, Crate, Error, not_found, precondition, not_supported, generic,
  ObjectMeta, ByteRange, GetRange, bounded, offset, suffix, GetOptions, GetResult,
}
use slatedb_cloudflare.DurableObject.Perf.{r2_heads, r2_gets, r2_read_bytes}
use slatedb_cloudflare.DurableObject.R2Store.{
  R2Store, Method, store_name, count, call_counted, bucket,
}
use slatedb_cloudflare.DurableObject.R2Store.Binding.{
  Conditional, is_default, R2Range, Object, Bucket,
}

-- `as i64`: a pattern of 64 bits, read with its sign
abbrev pub as_i64 : ℕ → ℤ
as_i64 n = if ltb n (2 ^ 63) then pos n else negsuc (2 ^ 64 - 1 - n)

-- `as u64`
abbrev pub as_u64 : ℤ → ℕ
as_u64 (pos n) = n
as_u64 (negsuc n) = 2 ^ 64 - 1 - n

unfoldable pub object_meta : Crate → Text → Object → ObjectMeta
object_meta crate location object = record {
  location = location;
  last_modified = Option.get_or (crate.from_timestamp_millis (as_i64 object.uploaded)) (pos 0);
  size = object.size;
  e_tag = some object.etag;
  version = some object.version;
}

unfoldable pub result : ObjectMeta → ByteRange → Bytes → GetResult
result meta range bytes = record { payload = ok bytes ∷ []; meta = meta; range = range }

range_of : GetRange → R2Range
range_of (bounded range) = R2Range.offset_with_length range.start (range.end - range.start)
range_of (offset start) = R2Range.offset_to_end start
range_of (suffix length) = R2Range.suffix length

unfoldable pub to_r2_range : Crate → GetRange → Result Error R2Range
unfolding range_of
to_r2_range crate range = elim (map_err (generic store_name) (crate.is_valid range)) [
  | ok _ ↦ ok (range_of range)
  | err error ↦ err error
]

unfoldable pub returned_range : Crate → Option GetRange → ℕ → Result Error ByteRange
returned_range crate none size = ok (record { start = 0; end = size })
returned_range crate (some range) size = map_err (generic store_name) (crate.as_range range size)

-- no range and no precondition: the request is a plain HEAD
unfoldable pub plain_head : GetOptions → Bool
plain_head options =
    options.head
    && (is_none options.range
        && (is_none options.if_match
            && (is_none options.if_none_match
                && (is_none options.if_modified_since && is_none options.if_unmodified_since))))

unfoldable pub get_conditional : GetOptions → Conditional
get_conditional options = record {
  etag_matches = options.if_match;
  etag_does_not_match = options.if_none_match;
  uploaded_before = Option.map as_u64 options.if_unmodified_since;
  uploaded_after = Option.map as_u64 options.if_modified_since;
}

module _ {W : Type 0} where
  -- `request.range(to_r2_range(range)?)` where there is a range
  request_range : R2Store W → Option GetRange → Method W (Option R2Range)
  request_range store none = pure none
  request_range store (some range) = do
    r2_range ← lift (to_r2_range store.crate range)
    pure (some r2_range)

  -- the object that the binding finds, by HEAD or by GET
  fetch : R2Store W → Bucket W → Text → GetOptions → Method W (Option Object)
  unfolding request_range
  fetch store bucket key options =
      if plain_head options then call_counted (bucket.head key) else (do
        let conditional = get_conditional options
        range ← request_range store options.range
        call_counted
            (bucket.get key (if is_default conditional then none else some conditional) range))

  -- the body, which a HEAD does not read
  read_body : Bucket W → Text → Bool → Object → Method W Bytes
  read_body bucket location true object = pure []
  read_body bucket location false object = do
    body ← lift (ok_or object.body (precondition location "R2 returned metadata without a body"))
    bytes ← call_counted (bucket.body_bytes body)
    count r2_read_bytes (length bytes)
    pure bytes

  unfoldable pub get_inner : R2Store W → Text → GetOptions → Method W GetResult
  unfolding fetch read_body
  get_inner store location options = do
    count (if options.head then r2_heads else r2_gets) 1
    fail_if (is_some options.version)
        (not_supported "R2 Workers bindings do not expose versioned GET")
    bucket ← bucket store
    found ← fetch store bucket location options
    object ← lift (ok_or found (not_found location "R2 object not found"))
    let meta = object_meta store.crate location object
    lift (store.crate.check_preconditions options meta)
    range ← lift (returned_range store.crate options.range meta.size)
    bytes ← read_body bucket location options.head object
    pure (result meta range bytes)

  unfoldable pub get_opts : R2Store W → Text → GetOptions → Method W GetResult
  unfolding get_inner
  get_opts store location options = get_inner store location options
