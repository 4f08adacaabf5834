-- ===== src/DurableObject/R2Store/Multipart/Succeeded.antt =====
-- The parts of an upload of durable-object/src/r2_store.rs whose futures succeeded, as R2 answered
-- them, and what the upload has recorded of them.
use mathlib.Core.List.{append-nil}
use slatedb_cloudflare.Prelude.{
  ℕ, Bytes, String, List, [], ◌∷◌, ◌++◌, Result, ok, err, Result-cases, Bool-cases, inl, inr, ◌≡◌,
  refl, sym, ap, ◌∙◌,
}
use slatedb_cloudflare.ObjectStore.{Error}
use slatedb_cloudflare.DurableObject.R2Store.{R2Store}
use slatedb_cloudflare.DurableObject.R2Store.Binding.{Bucket, UploadedPart}
use slatedb_cloudflare.DurableObject.R2Store.Multipart.{
  UploadPart, ready, upload, Session, run_part,
}
use slatedb_cloudflare.DurableObject.R2Store.Multipart.Clients.{
  Client, Reach, here, step, start_part, end_part, complete_upload, abort_upload, IsFresh,
}
use slatedb_cloudflare.DurableObject.R2Store.Multipart.Numbers.{
  put_part-uploaded, complete-keeps, abort-keeps,
}

module _ {W : Type 0} (bucket : Bucket W) where
  abbrev answered : Result String UploadedPart → List UploadedPart
  answered (ok part) = part ∷ []
  answered (err error) = []

  abbrev answered_through : ℕ → Bytes → Result String ℕ → W → List UploadedPart
  answered_through number bytes (ok handle) w =
      answered (bucket.upload_part handle number bytes w).0
  answered_through number bytes (err error) w = []

  -- The part that R2 answers to a future, if the future succeeds.
  abbrev part_of : UploadPart → Session W → Result Error (Unit {0}) → List UploadedPart
  part_of (upload number bytes) s (ok _) =
      let (handle, w) = bucket.resume_multipart_upload s.self.key s.self.upload_id s.shared.world in
      answered_through number bytes handle w
  part_of (upload number bytes) s (err error) = []
  part_of (ready error) s answer = []

  -- The parts whose futures succeeded, in the order in which they ended.
  abbrev pub succeeded : {store : R2Store W} {c d : Client W} → Reach store c d → List UploadedPart
  succeeded here = []
  succeeded (step r (start_part d payload)) = succeeded r
  succeeded {store} (step r (end_part d before after future e)) =
      succeeded r ++ part_of future d.session (run_part store future d.session).0
  succeeded (step r (complete_upload d)) = succeeded r
  succeeded (step r (abort_upload d)) = succeeded r

module _ {W : Type 0} {bucket : Bucket W} (store : R2Store W)
    (available : store.bucket_of store.binding ≡ ok bucket) where
  run_part-recorded :
      (future : UploadPart) (s : Session W)
      → let (answer, s') = run_part store future s in
        s'.self.uploaded_parts ≡ s.self.uploaded_parts ++ part_of bucket future s answer
  unfolding run_part
  run_part-recorded (ready error) s = sym (append-nil _)
  run_part-recorded (upload number bytes) s =
      let resumed = bucket.resume_multipart_upload s.self.key s.self.upload_id s.shared.world in
      elim (Result-cases resumed.0) [
        | inr (error, e) ↦ rw (available, e) (sym (append-nil _))
        | inl (handle, e) ↦
            elim (Result-cases (bucket.upload_part handle number bytes resumed.1).0) [
              | inr (error, f) ↦ rw (available, e, f) (sym (append-nil _))
              | inl (part, f) ↦ elim (Bool-cases s.self.lock_poisoned) [
                | inl poisoned ↦ rw (available, e, f) (simp poisoned (sym (append-nil _)))
                | inr sound ↦ rw (available, e, f) (simp sound (rw (e, f) refl))
              ]
            ]
      ]

  pub uploaded-succeeded :
      {c d : Client W} (fresh : IsFresh c) (reach : Reach store c d)
      → d.session.self.uploaded_parts ≡ succeeded bucket reach
  uploaded-succeeded fresh here = fresh.none_uploaded
  uploaded-succeeded fresh (step r (start_part d payload)) =
      put_part-uploaded payload d.session.self ∙ uploaded-succeeded fresh r
  uploaded-succeeded fresh (step r (end_part d before after future e)) =
      run_part-recorded future d.session
      ∙ ap (λ parts. parts ++ part_of bucket future d.session (run_part store future d.session).0)
          (uploaded-succeeded fresh r)
  uploaded-succeeded fresh (step r (complete_upload d)) =
      (complete-keeps store d.session).1 ∙ uploaded-succeeded fresh r
  uploaded-succeeded fresh (step r (abort_upload d)) =
      (abort-keeps store d.session).1 ∙ uploaded-succeeded fresh r
