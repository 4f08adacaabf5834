-- ===== src/DurableObject/R2Store/Multipart/Parts.antt =====
-- What the futures of an upload do to its list of parts, each alone.
use slatedb_cloudflare.Prelude.{
  ℕ, Bytes, [], ◌∷◌, ◌++◌, Result, ok, err, Result-cases, Bool-cases, inl, inr, ◌≡◌, refl,
}
use slatedb_cloudflare.ObjectStore.{Error}
use slatedb_cloudflare.DurableObject.R2Store.{R2Store}
use slatedb_cloudflare.DurableObject.R2Store.Binding.{Bucket, UploadedPart}
use slatedb_cloudflare.DurableObject.R2Store.Multipart.{
  R2MultipartUpload, upload, Session, run_part,
}

-- R2 answers the number of the part that was sent.
abbrev pub EchoesNumbers : {W : Type 0} → Bucket W → Type 0
EchoesNumbers {W} bucket =
    (handle number : ℕ) (bytes : Bytes) (w : W) (part : UploadedPart)
    → (bucket.upload_part handle number bytes w).0 ≡ ok part
    → part.part_number ≡ number

module _ {W : Type 0} {bucket : Bucket W} (store : R2Store W)
    (available : store.bucket_of store.binding ≡ ok bucket) (echoes : EchoesNumbers bucket) where
  -- What a run of the future of part `number` has done to the upload.
  abbrev pub PartRun : ℕ → R2MultipartUpload → Result Error (Unit {0}) × R2MultipartUpload → Type 0
  PartRun number self (ok _, self') =
      (part : UploadedPart) × (part.part_number ≡ number)
      × (self' ≡ record self { uploaded_parts = self.uploaded_parts ++ part ∷ [] })
  PartRun number self (err error, self') = self' ≡ self

  -- A part's future that succeeds has added one part of its own number at the end of the list;
  -- one that fails has left the upload as it was. Neither changes anything else of the upload.
  -- The binding is available and R2 answers a part with its own number.
  pub run_part-PartRun :
      (number : ℕ) (bytes : Bytes) (s : Session W)
      → let (answer, s') = run_part store (upload number bytes) s in
        PartRun number s.self (answer, s'.self)
  unfolding run_part
  run_part-PartRun number bytes s =
      let resumed = bucket.resume_multipart_upload s.self.key s.self.upload_id s.shared.world in
      elim (Result-cases resumed.0) [
        | inr (error, e) ↦ rw (available, e) refl
        | inl (handle, e) ↦
            elim (Result-cases (bucket.upload_part handle number bytes resumed.1).0) [
              | inr (error, f) ↦ rw (available, e, f) refl
              | inl (part, f) ↦ elim (Bool-cases s.self.lock_poisoned) [
                | inl poisoned ↦ rw (available, e, f) (simp poisoned refl)
                | inr sound ↦
                    rw (available, e, f)
                      (simp sound (part, echoes handle number bytes resumed.1 part f, refl))
              ]
            ]
      ]
