-- ===== src/DurableObject/R2Store/Put.antt =====
-- `put_opts` of durable-object/src/r2_store.rs and what it calls.
pub mod Swap
use slatedb_cloudflare.Prelude.{
  Text, Bytes, codes, Option, none, some, [], ◌∷◌, ◌++◌, Result, ok, err, ◌>>=◌, ◌>>◌, pure, lift,
  length, is_some, is_none, ◌&&◌, ok_or, if◌then◌else◌,
}
use slatedb_cloudflare.ObjectStore.{
  Error, already_exists, precondition, not_supported, PutMode, PutResult, PutPayload,
}
use slatedb_cloudflare.DurableObject.Perf.{r2_puts, r2_written_bytes}
use slatedb_cloudflare.DurableObject.R2Store.{R2Store, Method, count, call_counted, bucket}
use slatedb_cloudflare.DurableObject.R2Store.Binding.{Conditional, default_conditional}

-- the loop of `collect_payload`, over the bytes so far
collect_from : Bytes → PutPayload → Bytes
collect_from bytes [] = bytes
collect_from bytes (chunk ∷ payload) = collect_from (bytes ++ chunk) payload

unfoldable pub collect_payload : PutPayload → Bytes
unfolding collect_from
collect_payload payload = collect_from [] payload

unfoldable pub put_conditional : PutMode → Result Error (Option Conditional)
put_conditional PutMode.overwrite = ok none
put_conditional PutMode.create =
    ok (some (record default_conditional { etag_does_not_match = some (codes "*") }))
put_conditional (PutMode.update version) =
    if is_some version.version && is_none version.e_tag
    then err (not_supported "R2 conditional update requires an ETag")
    else ok (some (record default_conditional { etag_matches = version.e_tag }))

unfoldable pub failed_put_precondition : Text → PutMode → Error
failed_put_precondition location PutMode.create =
    already_exists location "R2 create precondition failed"
failed_put_precondition location _ = precondition location "R2 update precondition failed"

module _ {W : Type 0} where
  unfoldable pub put_bytes : R2Store W → Text → Bytes → PutMode → Method W PutResult
  put_bytes store location bytes mode = do
    count r2_puts 1
    bucket ← bucket store
    conditional ← lift (put_conditional mode)
    object ← call_counted (bucket.put location bytes conditional)
    object ← lift (ok_or object (failed_put_precondition location mode))
    count r2_written_bytes (length bytes)
    pure (record { e_tag = some object.etag; version = some object.version })

  unfoldable pub put_opts : R2Store W → Text → PutPayload → PutMode → Method W PutResult
  unfolding put_bytes
  put_opts store location payload mode = put_bytes store location (collect_payload payload) mode
