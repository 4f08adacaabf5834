-- ===== src/Container/BindingStore.antt =====
-- `BindingStore` of container/src/binding_store.rs: SlateDB's object store over the bridge.
mod Tests
pub mod Bridge
mod Counters
mod Responses
pub mod Ranges
pub mod Updates
pub mod Headers
pub mod Reads
pub mod Listing
pub mod Multipart
unfoldable pub use Counters.*
unfoldable pub use Responses.*
use Bridge.{MultipartPart, ListObject, ListPage, Verb, Request, bare_request, Response, Client}
use slatedb_cloudflare.Prelude.{
  ℕ, zero, suc, ◌+◌, ◌-◌, ◌%◌, ◌^◌, Text, Bytes, String, codes, append, parse_unsigned, decimal,
  Bool, true, false, ◌&&◌, not, Option, none, some, List, [], ◌∷◌, ◌++◌, map, Result, ok, err, Exec,
  ◌>>=◌, ◌>>◌, pure, fail, fail_if, lift, map_err, map_ok, ok_or, length, is_some, ltb, leb, ◌==◌,
  if◌then◌else◌,
}
use mathlib.Core.Option
use slatedb_cloudflare.ObjectStore.{
  Error, not_found, already_exists, precondition, not_modified, not_supported, generic, ObjectMeta,
  ByteRange, GetRange, bounded, offset, suffix, GetOptions, default_get, GetResult, PutMode,
  PutResult, PutPayload, CopyMode,
}
use slatedb_cloudflare.DurableObject.Perf.{u64_mod}

range_text : GetRange → Text
range_text (bounded range) =
    codes "bytes=" ++ (decimal range.start ++ (b'-' ∷ decimal (range.end - 1)))
range_text (offset start) = codes "bytes=" ++ (decimal start ++ (b'-' ∷ []))
range_text (suffix length) = codes "bytes=" ++ (b'-' ∷ decimal length)

module _ {W : Type 0} (client : Client W) where
  unfoldable pub range_header : GetRange → Result Error Text
  unfolding range_text
  range_header range =
      map_ok (λ _. range_text range) (map_err generic_error (client.crate.is_valid range))

  unfoldable pub returned_range : Option GetRange → ℕ → Result Error ByteRange
  returned_range none size = ok (record { start = 0; end = size })
  returned_range (some range) size = map_err generic_error (client.crate.as_range range size)

  abbrev pub count : Counter → ℕ → Method W (Unit {0})
  count counter value s = (ok tt, record s { counters = fetch_add counter value s.counters })

  abbrev failed : Result String Response → Shared W → Result Error Response × Shared W
  failed (ok response) s = (ok response, s)
  failed (err error) s =
      (err (generic_error error), record s { counters = fetch_add errors 1 s.counters })

  -- `request.send().await.map_err(|error| self.failed(error))`
  unfoldable pub send : Request → Method W Response
  unfolding fetch_add
  send request s =
      let (answer, world) = client.send request s.world in
      failed answer (record s { world = world })

  -- `self.request(method, location)`
  abbrev pub request : Verb → Text → Request
  request verb location = record (bare_request verb) { path = some location }

  -- the request of a put by its mode
  unfoldable pub put_request : Text → PutMode → Result Error Request
  put_request location PutMode.overwrite = ok (request Verb.put location)
  put_request location PutMode.create =
      ok (record (request Verb.put location) { if_none_match = some (codes "*") })
  put_request location (PutMode.update version) =
      map_ok (λ etag. record (request Verb.put location) { if_match = some etag })
        (ok_or version.e_tag (not_supported "R2 conditional update requires an ETag"))

  unfoldable pub failed_put : Text → PutMode → Error
  failed_put location PutMode.create = already_exists location "R2 create precondition failed"
  failed_put location _ = precondition location "R2 update precondition failed"

  abbrev content_length : PutPayload → ℕ
  content_length [] = 0
  content_length (chunk ∷ chunks) = length chunk + content_length chunks

  -- what follows the answer to a put
  abbrev finish_put : Text → ℕ → PutMode → Response → Method W PutResult
  finish_put location size mode response =
      if response.status == 412 then (count errors 1 >> fail (failed_put location mode)) else (do
        response ← lift (check_response response)
        count written_bytes size
        put_result response)

  unfoldable pub put_opts : Text → PutPayload → PutMode → Method W PutResult
  unfolding send check_response put_result failed_put
  put_opts location payload mode = do
    count puts 1
    request ← lift (put_request location mode)
    response ← send (record request { body = payload })
    finish_put location (content_length payload) mode response

  abbrev range_of : Option GetRange → Result Error (Option Text)
  range_of none = ok none
  range_of (some range) = map_ok some (range_header range)

  -- the request of a read by its options
  unfoldable pub get_request : Text → GetOptions → Result Error Request
  unfolding range_header
  get_request location options =
      map_ok
        (λ range. record (request (if options.head then Verb.head else Verb.get) location) {
          if_match = options.if_match;
          if_none_match = options.if_none_match;
          if_modified_since = Option.map client.to_rfc2822 options.if_modified_since;
          if_unmodified_since = Option.map client.to_rfc2822 options.if_unmodified_since;
          range = range;
        })
        (range_of options.range)

  -- the three statuses that a read answers as errors of their own
  unfoldable pub check_read : Text → Response → Result Error (Unit {0})
  check_read location response =
      if response.status == 404
      then err (not_found location "R2 object not found")
      else if response.status == 412
      then err (precondition location "R2 read precondition failed")
      else if response.status == 304
      then err (not_modified location "R2 object was not modified")
      else ok tt

  -- what follows the metadata of the object that is read
  unfoldable pub read_meta : GetOptions → Response → ObjectMeta → Method W GetResult
  unfolding returned_range
  read_meta options response meta = do
    lift (client.crate.check_preconditions options meta)
    returned ← lift (returned_range options.range meta.size)
    pure (record {
      payload = if options.head then [] else map (map_err generic_error) response.chunks;
      meta = meta;
      range = returned;
    })

  -- what follows the answer to a read
  unfoldable pub answer_read : Text → GetOptions → Response → Method W GetResult
  unfolding check_response object_meta read_meta check_read
  answer_read location options response = do
    lift (check_read location response)
    response ← lift (check_response response)
    meta ← object_meta client location response
    read_meta options response meta

  unfoldable pub get_opts : Text → GetOptions → Method W GetResult
  unfolding send answer_read
  get_opts location options = do
    count (if options.head then heads else gets) 1
    fail_if (is_some options.version)
        (not_supported "R2 Workers bindings do not expose versioned GET")
    request ← lift (get_request location options)
    response ← send request
    answer_read location options response

  -- What the stream of a payload counts while it is read, up to its first error.
  unfoldable pub count_read : List (Result Error Bytes) → Method W (Unit {0})
  count_read [] = pure tt
  count_read (ok bytes ∷ chunks) = count read_bytes (length bytes) >> count_read chunks
  count_read (err error ∷ chunks) = pure tt

  abbrev put_mode : CopyMode → PutMode
  put_mode CopyMode.overwrite = PutMode.overwrite
  put_mode CopyMode.create = PutMode.create

  unfoldable pub copy_opts : Text → Text → CopyMode → Method W (Unit {0})
  unfolding get_opts put_opts count_read
  copy_opts from to mode = do
    got ← get_opts from default_get
    count_read got.payload
    bytes ← lift (client.crate.bytes got)
    put_opts to (bytes ∷ []) (put_mode mode)
    pure tt

  unfoldable pub delete_next : Result Error Text → Method W Text
  unfolding send check_response
  delete_next item = do
    location ← lift item
    count deletes 1
    response ← send (request Verb.delete location)
    lift (check_response response)
    pure location

  unfoldable pub delete_stream :
      List (Result Error Text) → Shared W → List (Result Error Text) × Shared W
  unfolding delete_next
  delete_stream [] s = ([], s)
  delete_stream (item ∷ items) s =
      let (answer, s₁) = delete_next item s in
      let (answers, s₂) = delete_stream items s₁ in (answer ∷ answers, s₂)
