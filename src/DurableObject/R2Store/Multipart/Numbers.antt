-- ===== src/DurableObject/R2Store/Multipart/Numbers.antt =====
-- The steps of a client and its part numbers, of durable-object/src/r2_store.rs.
use slatedb_cloudflare.Prelude.{
  ℕ, ◌+◌, ◌≤◌, Bytes, List, [], ◌∷◌, ◌++◌, Result, ok, err, Bool-cases, inl, inr, ◌≡◌, ◌⊎◌, ltb,
  arith,
}
use slatedb_cloudflare.ObjectStore.{Error, not_supported, PutPayload}
use slatedb_cloudflare.DurableObject.R2Store.{R2Store}
use slatedb_cloudflare.DurableObject.R2Store.Binding.{Bucket, UploadedPart}
use slatedb_cloudflare.DurableObject.R2Store.Multipart.{
  multipart_finished, R2MultipartUpload, UploadPart, ready, upload, put_part, Session, run_part,
  complete, abort, max_multipart_parts,
}
use slatedb_cloudflare.DurableObject.R2Store.Put.{collect_payload}
use slatedb_cloudflare.DurableObject.R2Store.Multipart.Parts.{
  EchoesNumbers, PartRun, run_part-PartRun,
}
use slatedb_cloudflare.DurableObject.R2Store.Multipart.Clients.{
  Client, count_pending-append, count_key-append, NumbersOnce, IsValid, started, Step, start_part,
  end_part, complete_upload, abort_upload, Reach, here, step,
}

NumbersOnce-start :
    (next : ℕ) (bytes : Bytes) (pending : List UploadPart) (uploaded : List UploadedPart)
    → 1 ≤ next
    → NumbersOnce next pending uploaded
    → NumbersOnce (next + 1) (pending ++ upload next bytes ∷ []) uploaded
NumbersOnce-start next bytes pending uploaded h once n =
    ground (arith, once n, count_pending-append n pending (upload next bytes ∷ []))

NumbersOnce-ready :
    (next : ℕ) (error : Error) (pending : List UploadPart) (uploaded : List UploadedPart)
    → NumbersOnce next pending uploaded
    → NumbersOnce next (pending ++ ready error ∷ []) uploaded
NumbersOnce-ready next error pending uploaded once n =
    ground (arith, once n, count_pending-append n pending (ready error ∷ []))

NumbersOnce-drop :
    (next : ℕ) (future : UploadPart) (before after : List UploadPart) (uploaded : List UploadedPart)
    → NumbersOnce next (before ++ future ∷ after) uploaded
    → NumbersOnce next (before ++ after) uploaded
NumbersOnce-drop next (ready error) before after uploaded once n = ground (
  arith,
  once n,
  count_pending-append n before (ready error ∷ after),
  count_pending-append n before after,
)
NumbersOnce-drop next (upload m bytes) before after uploaded once n = ground (
  arith,
  once n,
  count_pending-append n before (upload m bytes ∷ after),
  count_pending-append n before after,
)

NumbersOnce-push :
    (next number : ℕ) (bytes : Bytes) (part : UploadedPart) (before after : List UploadPart)
    (uploaded : List UploadedPart)
    → part.part_number ≡ number
    → NumbersOnce next (before ++ upload number bytes ∷ after) uploaded
    → NumbersOnce next (before ++ after) (uploaded ++ part ∷ [])
NumbersOnce-push next number bytes part before after uploaded e once n = ground (
  arith,
  once n,
  count_pending-append n before (upload number bytes ∷ after),
  count_pending-append n before after,
  count_key-append n uploaded (part ∷ []),
)

pub put_part-uploaded :
    (payload : PutPayload) (self : R2MultipartUpload)
    → (put_part payload self).1.uploaded_parts ≡ self.uploaded_parts
unfolding put_part
put_part-uploaded payload self = ground arith

-- What a call of `put_part` answers and leaves.
pub put_part-cases :
    (payload : PutPayload) (self : R2MultipartUpload)
    → ((error : Error) × (put_part payload self ≡ (ready error, self)))
      ⊎ ((bytes : Bytes) × (self.next_part ≤ max_multipart_parts)
          × (put_part payload self
              ≡ (upload self.next_part bytes, record self { next_part = self.next_part + 1 })))
unfolding put_part
put_part-cases payload self = elim (Bool-cases self.finished) [
  | inl finished ↦ inl (multipart_finished self.location, ground arith)
  | inr going ↦ elim (Bool-cases (ltb max_multipart_parts self.next_part)) [
    | inl full ↦
        inl (not_supported "R2 multipart uploads support at most 10,000 parts", ground arith)
    | inr room ↦ inr (collect_payload payload, ground arith, ground arith)
  ]
]

module _ {W : Type 0} where
  started-IsValid : (c : Client W) (payload : PutPayload) → IsValid c → IsValid (started payload c)
  started-IsValid c payload v = elim (put_part-cases payload c.session.self) [
    | inl (error, e) ↦ rw e (record {
      next_positive = v.next_positive;
      next_bounded = v.next_bounded;
      once =
          NumbersOnce-ready c.session.self.next_part error c.pending c.session.self.uploaded_parts
            v.once;
    })
    | inr (bytes, room, e) ↦ rw e (record {
      next_positive = omega arith;
      next_bounded = omega arith;
      once =
          NumbersOnce-start c.session.self.next_part bytes c.pending c.session.self.uploaded_parts
            v.next_positive v.once;
    })
  ]

-- A change of the session that keeps what the invariant reads.
IsValid-same :
    {W : Type 0} (c : Client W) (session : Session W)
    → session.self.next_part ≡ c.session.self.next_part
    → session.self.uploaded_parts ≡ c.session.self.uploaded_parts
    → IsValid c
    → IsValid {W = W} (record c { session = session })
IsValid-same c session e f v = record {
  next_positive = rw e v.next_positive;
  next_bounded = rw e v.next_bounded;
  once = λ n. rw (e, f) (v.once n);
}

module _ {W : Type 0} (store : R2Store W) (s : Session W) where
  pub complete-keeps :
      let self = (complete store s).1.self in
      (self.next_part ≡ s.self.next_part) × (self.uploaded_parts ≡ s.self.uploaded_parts)
  unfolding complete
  complete-keeps = ground arith

  pub abort-keeps :
      let self = (abort store s).1.self in
      (self.next_part ≡ s.self.next_part) × (self.uploaded_parts ≡ s.self.uploaded_parts)
  unfolding abort
  abort-keeps = ground arith

module _ {W : Type 0} {bucket : Bucket W} (store : R2Store W)
    (available : store.bucket_of store.binding ≡ ok bucket) (echoes : EchoesNumbers bucket) where
  ended-IsValid :
      (session session' : Session W) (number : ℕ) (bytes : Bytes) (before after : List UploadPart)
      (answer : Result Error (Unit {0}))
      → PartRun store available echoes number session.self (answer, session'.self)
      → IsValid {W = W}
          (record { session = session; pending = before ++ upload number bytes ∷ after })
      → IsValid {W = W} (record { session = session'; pending = before ++ after })
  ended-IsValid session session' number bytes before after (ok _) (part, e, same) v = record {
    next_positive = rw same v.next_positive;
    next_bounded = rw same v.next_bounded;
    once = rw same (NumbersOnce-push _ number bytes part before after _ e v.once);
  }
  ended-IsValid session session' number bytes before after (err error) same v = record {
    next_positive = rw same v.next_positive;
    next_bounded = rw same v.next_bounded;
    once = rw same (NumbersOnce-drop _ (upload number bytes) before after _ v.once);
  }

  end_part-IsValid :
      (session : Session W) (future : UploadPart) (before after : List UploadPart)
      → IsValid {W = W} (record { session = session; pending = before ++ future ∷ after })
      → IsValid {W = W}
          (record { session = (run_part store future session).1; pending = before ++ after })
  end_part-IsValid session (ready error) before after v =
      unfold run_part in
      record {
        next_positive = v.next_positive;
        next_bounded = v.next_bounded;
        once = NumbersOnce-drop _ (ready error) before after _ v.once;
      }
  end_part-IsValid session (upload number bytes) before after v =
      ended-IsValid session _ number bytes before after
        (run_part store (upload number bytes) session).0
        (run_part-PartRun store available echoes number bytes session) v

  Step-IsValid : {c d : Client W} → Step store c d → IsValid c → IsValid d
  Step-IsValid (start_part c payload) v = started-IsValid c payload v
  Step-IsValid (end_part c before after future e) v =
      end_part-IsValid c.session future before after (record {
        next_positive = v.next_positive;
        next_bounded = v.next_bounded;
        once = λ n. rw (← e) (v.once n);
      })
  Step-IsValid (complete_upload c) v =
      IsValid-same c _ (complete-keeps store c.session).0 (complete-keeps store c.session).1 v
  Step-IsValid (abort_upload c) v =
      IsValid-same c _ (abort-keeps store c.session).0 (abort-keeps store c.session).1 v

  pub Reach-IsValid : {c d : Client W} → IsValid c → Reach store c d → IsValid d
  Reach-IsValid v here = v
  Reach-IsValid v (step r s) = Step-IsValid s (Reach-IsValid v r)
