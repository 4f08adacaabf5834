-- ===== src/DurableObject/R2Store/Multipart/Pieces.antt =====
-- What R2 documents of multipart uploads, over a view of the parts that an upload has, and what the
-- future of a part of durable-object/src/r2_store.rs does to them.
use slatedb_cloudflare.Prelude.{
  AscendsFrom, ℕ, Text, Bytes, Option, none, some, List, [], ◌∷◌, ◌++◌, Result, ok, Result-cases,
  Bool-cases, inl, inr, text_eq, if◌then◌else◌, ◌≡◌, ◌≢◌, ◌∙◌,
}
use slatedb_cloudflare.ObjectStore.{Error}
use slatedb_cloudflare.DurableObject.R2Store.{R2Store}
use slatedb_cloudflare.DurableObject.R2Store.Binding.{Bucket, Object, UploadedPart}
use slatedb_cloudflare.DurableObject.R2Store.Documented.{Documented}
use slatedb_cloudflare.DurableObject.R2Store.Multipart.{Session, upload, run_part}
use slatedb_cloudflare.DurableObject.R2Store.Multipart.Clients.{number_of}

abbrev pub append_bytes : Option Bytes → Option Bytes → Option Bytes
append_bytes (some first) (some rest) = some (first ++ rest)
append_bytes (some first) none = none
append_bytes none rest = none

-- The bytes of parts one after the other, where all of them are there.
abbrev pub gather : (ℕ → Option Bytes) → List UploadedPart → Option Bytes
gather bytes_of [] = some []
gather bytes_of (part ∷ parts) = append_bytes (bytes_of part.part_number) (gather bytes_of parts)

pub record Assembles {W : Type 0} {bucket : Bucket W} (r2 : Documented bucket) : Type 0 where
  -- the part of each number of the upload with an id
  pub pieces : W → Text → ℕ → Option Bytes
  -- To resume an upload changes no part of it.
  pub resume_keeps :
      (key id : Text) (w : W) (n : ℕ)
      → pieces (bucket.resume_multipart_upload key id w).1 id n ≡ pieces w id n
  -- A part that is uploaded through a handle of the upload is there under its number.
  pub upload_part_stored :
      (key id : Text) (handle number : ℕ) (bytes : Bytes) (w : W) (part : UploadedPart)
      → (bucket.resume_multipart_upload key id w).0 ≡ ok handle
      → let w' = (bucket.resume_multipart_upload key id w).1 in
        (bucket.upload_part handle number bytes w').0 ≡ ok part
        → pieces (bucket.upload_part handle number bytes w').1 id number ≡ some bytes
  -- The upload of a part, even one that fails, changes no part of another number.
  pub upload_part_other :
      (key id : Text) (handle number : ℕ) (bytes : Bytes) (w : W) (n : ℕ)
      → (bucket.resume_multipart_upload key id w).0 ≡ ok handle
      → n ≢ number
      → let w' = (bucket.resume_multipart_upload key id w).1 in
        pieces (bucket.upload_part handle number bytes w').1 id n ≡ pieces w' id n
  -- An upload that is completed with parts by ascending numbers has all of them, and its key now
  -- holds them one after the other; no other key has changed.
  pub complete_stored :
      (key id : Text) (handle : ℕ) (parts : List UploadedPart) (w : W) (object : Object)
      → AscendsFrom number_of 1 parts
      → (bucket.resume_multipart_upload key id w).0 ≡ ok handle
      → let w' = (bucket.resume_multipart_upload key id w).1 in
        (bucket.complete handle parts w').0 ≡ ok object
        → (bytes : Bytes) × (gather (pieces w' id) parts ≡ some bytes)
          × ((j : Text)
              → r2.stored (bucket.complete handle parts w').1 j ≡ (
                  if text_eq key j
                  then some (record { etag = object.etag; bytes = bytes })
                  else r2.stored w j))

module _ {W : Type 0} {bucket : Bucket W} {r2 : Documented bucket} (assembles : Assembles r2)
    (store : R2Store W) (available : store.bucket_of store.binding ≡ ok bucket) where
  open assembles use {pieces, resume_keeps, upload_part_stored, upload_part_other}

  -- What the future of part `number` has done to the parts of its upload.
  abbrev pub PieceSent : ℕ → Bytes → Text → Result Error (Unit {0}) → W → W → Type 0
  PieceSent number bytes id answer w w' =
      ((n : ℕ) → n ≢ number → pieces w' id n ≡ pieces w id n)
      × (answer ≡ ok tt → pieces w' id number ≡ some bytes)

  pub run_part-PieceSent :
      (number : ℕ) (bytes : Bytes) (s : Session W)
      → let (answer, s') = run_part store (upload number bytes) s in
        PieceSent number bytes s.self.upload_id answer s.shared.world s'.shared.world
  unfolding run_part
  run_part-PieceSent number bytes s =
      let key = s.self.key in
      let id = s.self.upload_id in
      let w = s.shared.world in
      let resumed = bucket.resume_multipart_upload key id w in
      elim (Result-cases resumed.0) [
        | inr (error, e) ↦ rw (available, e) (λ n other. resume_keeps key id w n, λ h. cc)
        | inl (handle, e) ↦
            let others : (n : ℕ)
                → n ≢ number
                → pieces (bucket.upload_part handle number bytes resumed.1).1 id n ≡ pieces w id n =
              λ n other.
                upload_part_other key id handle number bytes w n e other
                ∙ resume_keeps key id w n in
            elim (Result-cases (bucket.upload_part handle number bytes resumed.1).0) [
              | inr (error, f) ↦ rw (available, e, f) (others, λ h. cc)
              | inl (part, f) ↦
                  let stored = upload_part_stored key id handle number bytes w part e f in
                  elim (Bool-cases s.self.lock_poisoned) [
                    | inl poisoned ↦ rw (available, e, f) (simp poisoned (others, λ h. cc))
                    | inr sound ↦ rw (available, e, f) (simp sound (others, λ h. stored))
                  ]
            ]
      ]
