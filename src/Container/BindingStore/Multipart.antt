-- ===== src/Container/BindingStore/Multipart.antt =====
-- `put_multipart_opts` and `BindingMultipartUpload` of container/src/binding_store.rs. `put_part`
-- runs at once and gives a future; the future runs later.
pub mod Final
pub mod Numbers
pub mod Sorted
use slatedb_cloudflare.Prelude.{
  ℕ, ◌+◌, ◌%◌, ◌^◌, Text, Bytes, String, codes, Bool, true, false, Option, some, List, [], ◌∷◌,
  ◌++◌, Result, ok, err, Exec, ◌>>=◌, ◌>>◌, pure, fail, fail_if, lift, map_err, ltb, if◌then◌else◌,
  sort_by_key,
}
use slatedb_cloudflare.ObjectStore.{Error, precondition, not_supported, PutResult, PutPayload}
use slatedb_cloudflare.Container.BindingStore.{
  Shared, Method, generic_error, request, send, check_response, put_result, count, content_length,
  multipart_uploads, multipart_parts, multipart_completes, written_bytes,
}
use slatedb_cloudflare.Container.BindingStore.Bridge.{
  MultipartPart, Verb, Request, Response, Client,
}

abbrev pub max_multipart_parts : ℕ
max_multipart_parts = 10000

-- `BindingMultipartUpload`, without its handle of the store; `lock_poisoned` says whether the mutex of
-- `parts` is poisoned.
pub record BindingMultipartUpload : Type 0 where
  pub location : Text
  pub upload_id : Text
  pub parts : List MultipartPart
  pub lock_poisoned : Bool
  pub next_part : ℕ
  pub finished : Bool

-- The future that `put_part` answers: ready with an error, or the upload of a part.
pub data UploadPart : Type 0 where
  ready : Error → UploadPart
  upload : ℕ → PutPayload → UploadPart

unfoldable pub multipart_finished : Text → Error
multipart_finished location = precondition location "multipart upload already finished"

unfoldable pub put_part : PutPayload → BindingMultipartUpload → UploadPart × BindingMultipartUpload
put_part payload self =
    if self.finished
    then (ready (multipart_finished self.location), self)
    else if ltb max_multipart_parts self.next_part
    then (ready (not_supported "R2 supports at most 10,000 multipart parts"), self)
    else (upload self.next_part payload, record self { next_part = (self.next_part + 1) % 2 ^ 16 })

-- An upload beside what it shares with its store.
pub record Session (W : Type 0) : Type 0 where
  pub shared : Shared W
  pub self : BindingMultipartUpload

abbrev pub Action : Type 0 → Type 0 → Type 0
Action W A = Exec (Session W) Error A

module _ {W : Type 0} where
  abbrev pub on_shared : {A : Type 0} → Method W A → Action W A
  on_shared m s = let (answer, shared) = m s.shared in (answer, record s { shared = shared })

  abbrev pub lock : Action W (Unit {0})
  lock s = fail_if s.self.lock_poisoned (generic_error "multipart state lock poisoned") s

  abbrev pub modify : (BindingMultipartUpload → BindingMultipartUpload) → Action W (Unit {0})
  modify f s = (ok tt, record s { self = f s.self })

module _ {W : Type 0} (client : Client W) where
  unfoldable pub put_multipart_opts : Text → Method W BindingMultipartUpload
  put_multipart_opts location = do
    count client multipart_uploads 1
    response ←
        send client (record (request client Verb.post location) {
          operation = some (codes "multipart-start");
        })
    response ← lift (check_response response)
    upload_id ← lift (map_err generic_error response.started)
    pure (record {
      location = location;
      upload_id = upload_id;
      parts = [];
      lock_poisoned = false;
      next_part = 1;
      finished = false;
    })

  abbrev part_request : BindingMultipartUpload → ℕ → PutPayload → Request
  part_request self number payload = record (request client Verb.put self.location) {
    operation = some (codes "multipart-part");
    upload_id = some self.upload_id;
    part_number = some number;
    body = payload;
  }

  abbrev send_part : BindingMultipartUpload → ℕ → PutPayload → Method W MultipartPart
  send_part self number payload = do
    response ← send client (part_request self number payload)
    response ← lift (check_response response)
    part ← lift (map_err generic_error response.part)
    count client multipart_parts 1
    count client written_bytes (content_length client payload)
    pure part

  -- Runs the future of a part to its end.
  unfoldable pub run_part : UploadPart → Action W (Unit {0})
  run_part (ready error) s = (err error, s)
  run_part (upload number payload) s =
      (do
        part ← on_shared (send_part s.self number payload)
        lock
        modify (λ self. record self { parts = self.parts ++ part ∷ [] }))
        s

  abbrev complete_request : BindingMultipartUpload → Request
  complete_request self = record (request client Verb.post self.location) {
    operation = some (codes "multipart-complete");
    upload_id = some self.upload_id;
    parts = sort_by_key (λ (part : MultipartPart). part.part_number) self.parts;
  }

  abbrev send_complete : BindingMultipartUpload → Method W PutResult
  send_complete self = do
    response ← send client (complete_request self)
    response ← lift (check_response response)
    count client multipart_completes 1
    put_result response

  unfoldable pub complete : Action W PutResult
  complete s =
      (do
        fail_if s.self.finished (multipart_finished s.self.location)
        modify (λ self. record self { finished = true })
        lock
        on_shared (send_complete s.self))
        s

  abbrev send_abort : BindingMultipartUpload → Method W (Unit {0})
  send_abort self = do
    response ← send client (record (request client Verb.delete self.location) {
      operation = some (codes "multipart-abort");
      upload_id = some self.upload_id;
    })
    lift (check_response response)
    pure tt

  unfoldable pub abort : Action W (Unit {0})
  abort s =
      (do
        fail_if s.self.finished (multipart_finished s.self.location)
        modify (λ self. record self { finished = true })
        on_shared (send_abort s.self))
        s
