-- ===== src/DurableObject/R2Store/Multipart.antt =====
-- `put_multipart_opts` and `R2MultipartUpload` of durable-object/src/r2_store.rs. `put_part` runs at
-- once and gives a future; the future runs later, beside the others of the same upload, and shares with
-- them the list of the parts that were uploaded.
pub mod Final
pub mod Parts
pub mod Pieces
pub mod Clients
pub mod Numbers
pub mod Succeeded
pub mod Order
pub mod Payloads
pub mod Tracked
pub mod Assembled
pub mod Runs
use slatedb_cloudflare.Prelude.{
  ℕ, ◌+◌, ◌%◌, ◌^◌, Text, Bytes, String, Bool, true, false, Option, some, List, [], ◌∷◌, ◌++◌,
  Result, ok, err, Exec, ◌>>=◌, ◌>>◌, pure, fail, fail_if, lift, length, ltb, if◌then◌else◌,
  sort_by_key, map_err,
}
use slatedb_cloudflare.ObjectStore.{
  Error, precondition, not_supported, generic, PutResult, PutPayload,
}
use slatedb_cloudflare.DurableObject.Perf.{
  Counter, r2_multipart_uploads, r2_multipart_parts, r2_multipart_completes, r2_written_bytes,
}
use slatedb_cloudflare.DurableObject.R2Store.{
  R2Store, Shared, Method, store_name, generic_error, count, call, call_counted, bucket,
}
use slatedb_cloudflare.DurableObject.R2Store.Binding.{Bucket, UploadedPart}
use slatedb_cloudflare.DurableObject.R2Store.Put.{collect_payload}

abbrev pub max_multipart_parts : ℕ
max_multipart_parts = 10000

-- `R2MultipartUpload`, without the handles that it shares with its store. `lock_poisoned` says whether
-- the mutex of `uploaded_parts` is poisoned.
pub record R2MultipartUpload : Type 0 where
  pub location : Text
  pub key : Text
  pub upload_id : Text
  pub uploaded_parts : List UploadedPart
  pub lock_poisoned : Bool
  pub next_part : ℕ
  pub finished : Bool

-- The future that `put_part` answers: ready with an error, or the upload of a part.
pub data UploadPart : Type 0 where
  ready : Error → UploadPart
  upload : ℕ → Bytes → UploadPart

unfoldable pub multipart_finished : Text → Error
multipart_finished location = precondition location "multipart upload already finished"

unfoldable pub multipart_lock_error : Error
multipart_lock_error = generic store_name "multipart upload state lock poisoned"

unfoldable pub put_part : PutPayload → R2MultipartUpload → UploadPart × R2MultipartUpload
put_part payload self =
    if self.finished
    then (ready (multipart_finished self.location), self)
    else if ltb max_multipart_parts self.next_part
    then (ready (not_supported "R2 multipart uploads support at most 10,000 parts"), self)
    else (
      upload self.next_part (collect_payload payload),
      record self { next_part = (self.next_part + 1) % 2 ^ 16 },
    )

-- the parts that `complete` sends
unfoldable pub parts_to_send : R2MultipartUpload → List UploadedPart
parts_to_send self = sort_by_key (λ (part : UploadedPart). part.part_number) self.uploaded_parts

-- An upload beside what it shares with its store.
pub record Session (W : Type 0) : Type 0 where
  pub shared : Shared W
  pub self : R2MultipartUpload

abbrev pub Action : Type 0 → Type 0 → Type 0
Action W A = Exec (Session W) Error A

module _ {W : Type 0} where
  -- a method that leaves the upload alone
  abbrev pub on_shared : {A : Type 0} → Method W A → Action W A
  on_shared m s = let (answer, shared) = m s.shared in (answer, record s { shared = shared })

  -- `self.uploaded_parts.lock().map_err(|_| multipart_lock_error())`
  abbrev pub lock : Action W (Unit {0})
  lock s = fail_if s.self.lock_poisoned multipart_lock_error s

  abbrev pub modify : (R2MultipartUpload → R2MultipartUpload) → Action W (Unit {0})
  modify f s = (ok tt, record s { self = f s.self })

  unfoldable pub put_multipart_opts : R2Store W → Text → Method W R2MultipartUpload
  put_multipart_opts store location = do
    count r2_multipart_uploads 1
    bucket ← bucket store
    upload_id ← call (bucket.create_multipart_upload location)
    pure (record {
      location = location;
      key = location;
      upload_id = upload_id;
      uploaded_parts = [];
      lock_poisoned = false;
      next_part = 1;
      finished = false;
    })

  -- Runs the future of a part to its end.
  unfoldable pub run_part : R2Store W → UploadPart → Action W (Unit {0})
  run_part store (ready error) s = (err error, s)
  run_part store (upload part_number bytes) s =
      (do
        bucket ← on_shared (bucket store)
        handle ←
            on_shared (call_counted (bucket.resume_multipart_upload s.self.key s.self.upload_id))
        part ← on_shared (call_counted (bucket.upload_part handle part_number bytes))
        on_shared (count r2_multipart_parts 1)
        on_shared (count r2_written_bytes (length bytes))
        lock
        modify (λ self. record self { uploaded_parts = self.uploaded_parts ++ part ∷ [] }))
        s

  unfoldable pub complete : R2Store W → Action W PutResult
  complete store s =
      (do
        fail_if s.self.finished (multipart_finished s.self.location)
        modify (λ self. record self { finished = true })
        bucket ← on_shared (bucket store)
        handle ← on_shared (call (bucket.resume_multipart_upload s.self.key s.self.upload_id))
        lock
        object ← on_shared (call_counted (bucket.complete handle (parts_to_send s.self)))
        on_shared (count r2_multipart_completes 1)
        pure (record { e_tag = some object.etag; version = some object.version }))
        s

  unfoldable pub abort : R2Store W → Action W (Unit {0})
  abort store s =
      (do
        fail_if s.self.finished (multipart_finished s.self.location)
        modify (λ self. record self { finished = true })
        bucket ← on_shared (bucket store)
        handle ← on_shared (call (bucket.resume_multipart_upload s.self.key s.self.upload_id))
        on_shared (call_counted (bucket.abort handle)))
        s
