-- ===== src/DurableObject/R2Store/Multipart/Tracked.antt =====
-- An upload of durable-object/src/r2_store.rs and R2's parts of it agree with the payloads that its
-- client has put, until it is complete or aborted.
use slatedb_cloudflare.Prelude.{
  ℕ, suc, Text, Bytes, false, Option, List, [], ◌∷◌, ◌++◌, Result, ok, err, inl, inr, length,
  length-append, get_elem?-last, All, All-append, All-implies, count_key, ◌≡◌, ◌≢◌, refl, sym, ap,
  ◌∙◌, arith,
}
use slatedb_cloudflare.ObjectStore.{Error, PutPayload}
use slatedb_cloudflare.DurableObject.R2Store.{R2Store}
use slatedb_cloudflare.DurableObject.R2Store.Binding.{Bucket}
use slatedb_cloudflare.DurableObject.R2Store.Documented.{Documented}
use slatedb_cloudflare.DurableObject.R2Store.Multipart.{
  R2MultipartUpload, UploadPart, ready, upload, put_part, Session, run_part,
}
use slatedb_cloudflare.DurableObject.R2Store.Multipart.Final.{complete-finished, abort-finished}
use slatedb_cloudflare.DurableObject.R2Store.Multipart.Parts.{
  EchoesNumbers, PartRun, run_part-PartRun,
}
use slatedb_cloudflare.DurableObject.R2Store.Multipart.Pieces.{
  Assembles, PieceSent, run_part-PieceSent,
}
use slatedb_cloudflare.DurableObject.R2Store.Multipart.Numbers.{put_part-cases, Reach-IsValid}
use slatedb_cloudflare.DurableObject.R2Store.Multipart.Clients.{
  Client, number_of, started, start_part, end_part, complete_upload, abort_upload, Reach, here,
  step, IsFresh, IsFresh-IsValid, IsValid, count_pending, count_pending-append,
}
use slatedb_cloudflare.DurableObject.R2Store.Multipart.Payloads.{
  started_bytes, payloads, payload_of, Logged, Logged-append, Held, Held-append, Held-other,
  All-dropped,
}

-- The upload of a client is what its payloads make it.
pub record Tracks {W : Type 0} (pieces : W → Text → ℕ → Option Bytes) (log : List Bytes)
    (c : Client W) : Type 0 where
  pub numbered : c.session.self.next_part ≡ suc (length log)
  pub logged : All (Logged log) c.pending
  pub held :
      All
        (Held (pieces c.session.shared.world c.session.self.upload_id) log)
        c.session.self.uploaded_parts

module _ {W : Type 0} (pieces : W → Text → ℕ → Option Bytes) where
  started-Tracks :
      (payload : PutPayload) (log : List Bytes) (c : Client W)
      → Tracks pieces log c
      → Tracks pieces (log ++ started_bytes (put_part payload c.session.self).0) (started payload c)
  started-Tracks payload log c t = elim (put_part-cases payload c.session.self) [
    | inl (error, e) ↦ rw e (record {
      numbered = ground (arith, t.numbered, length-append log []);
      logged =
          All-append _ c.pending (ready error ∷ [])
            (All-implies c.pending (Logged-append log []) t.logged) (tt, tt);
      held = All-implies c.session.self.uploaded_parts (Held-append _ log []) t.held;
    })
    | inr (bytes, room, e) ↦ rw e (record {
      numbered = omega (arith, t.numbered, length-append log (bytes ∷ []));
      logged =
          All-append _ c.pending (upload c.session.self.next_part bytes ∷ [])
            (All-implies c.pending (Logged-append log (bytes ∷ [])) t.logged)
            (ap (payload_of (log ++ bytes ∷ [])) t.numbered ∙ get_elem?-last log bytes, tt);
      held = All-implies c.session.self.uploaded_parts (Held-append _ log (bytes ∷ [])) t.held;
    })
  ]

  number_free :
      (c : Client W) (number : ℕ) (bytes : Bytes) (before after : List UploadPart)
      → c.pending ≡ before ++ upload number bytes ∷ after
      → IsValid c
      → count_key number_of number c.session.self.uploaded_parts ≡ 0
  number_free c number bytes before after e v = ground (
    arith,
    (v.once number).0,
    ap (count_pending number) e,
    count_pending-append number before (upload number bytes ∷ after),
  )

module _ {W : Type 0} {bucket : Bucket W} {r2 : Documented bucket} (assembles : Assembles r2)
    (store : R2Store W) (available : store.bucket_of store.binding ≡ ok bucket)
    (echoes : EchoesNumbers bucket) where
  open assembles use {pieces, complete_stored}

  -- The parts that have ended are kept by the future of another part.
  earlier_held :
      (log : List Bytes) (number : ℕ) (bytes : Bytes) (before after : List UploadPart)
      (c : Client W) (piece : ℕ → Option Bytes)
      → ((n : ℕ) → n ≢ number → piece n ≡ pieces c.session.shared.world c.session.self.upload_id n)
      → c.pending ≡ before ++ upload number bytes ∷ after
      → IsValid c
      → Tracks pieces log c
      → All (Held piece log) c.session.self.uploaded_parts
  earlier_held log number bytes before after c piece others e v t =
      Held-other _ piece log number c.session.self.uploaded_parts others
        (number_free pieces c number bytes before after e v) t.held

  ended-Tracks :
      (log : List Bytes) (number : ℕ) (bytes : Bytes) (before after : List UploadPart)
      (answer : Result Error (Unit {0})) (c : Client W) (session : Session W)
      → PartRun store available echoes number c.session.self (answer, session.self)
      → PieceSent assembles store available number bytes c.session.self.upload_id answer
          c.session.shared.world session.shared.world
      → c.pending ≡ before ++ upload number bytes ∷ after
      → IsValid c
      → Tracks pieces log c
      → Tracks {W = W} pieces log (record { session = session; pending = before ++ after })
  ended-Tracks log number bytes before after (ok _) c session (part, at, same) (others, stored) e v
        t =
      let (this, rest) = All-dropped log before after (upload number bytes) (rw (← e) t.logged) in
      let piece = pieces session.shared.world c.session.self.upload_id in
      record {
        numbered = rw same t.numbered;
        logged = rest;
        held = rw same (
            All-append (Held piece log) c.session.self.uploaded_parts (part ∷ [])
              (earlier_held log number bytes before after c piece others e v t)
              ((bytes, ap piece at ∙ stored refl, ap (payload_of log) at ∙ this), tt));
      }
  ended-Tracks log number bytes before after (err error) c session same (others, stored) e v t =
      record {
        numbered = rw same t.numbered;
        logged = (All-dropped log before after (upload number bytes) (rw (← e) t.logged)).1;
        held = rw same (earlier_held log number bytes before after c _ others e v t);
      }

  end_part-Tracks :
      (log : List Bytes) (c : Client W) (before after : List UploadPart) (future : UploadPart)
      → c.pending ≡ before ++ future ∷ after
      → IsValid c
      → Tracks pieces log c
      → Tracks {W = W} pieces log
          (record { session = (run_part store future c.session).1; pending = before ++ after })
  end_part-Tracks log c before after (ready error) e v t =
      unfold run_part in
      record {
        numbered = t.numbered;
        logged = (All-dropped log before after (ready error) (rw (← e) t.logged)).1;
        held = t.held;
      }
  end_part-Tracks log c before after (upload number bytes) e v t =
      ended-Tracks log number bytes before after (run_part store (upload number bytes) c.session).0
        c (run_part store (upload number bytes) c.session).1
        (run_part-PartRun store available echoes number bytes c.session)
        (run_part-PieceSent assembles store available number bytes c.session) e v t

  -- as long as the upload is neither complete nor aborted
  abbrev pub WhileGoing : List Bytes → Client W → Type 0
  WhileGoing log c = c.session.self.finished ≡ false → Tracks pieces log c

  put_part-finished :
      (payload : PutPayload) (self : R2MultipartUpload)
      → (put_part payload self).1.finished ≡ self.finished
  unfolding put_part
  put_part-finished payload self = ground arith

  run_part-finished :
      (future : UploadPart) (s : Session W)
      → (run_part store future s).1.self.finished ≡ s.self.finished
  run_part-finished (ready error) s = unfold run_part in refl
  run_part-finished (upload number bytes) s =
      kept (run_part store (upload number bytes) s).0 _
        (run_part-PartRun store available echoes number bytes s)
    where
      kept :
          (answer : Result Error (Unit {0})) (self' : R2MultipartUpload)
          → PartRun store available echoes number s.self (answer, self')
          → self'.finished ≡ s.self.finished
      kept (ok _) self' (part, at, same) = rw same refl
      kept (err error) self' same = rw same refl

  pub Reach-WhileGoing :
      {c d : Client W} (fresh : IsFresh c) (reach : Reach store c d) → WhileGoing (payloads reach) d
  Reach-WhileGoing fresh here going = record {
    numbered = omega (arith, fresh.next_is_one);
    logged = rw fresh.none_pending tt;
    held = rw fresh.none_uploaded tt;
  }
  Reach-WhileGoing fresh (step r (start_part d payload)) going =
      started-Tracks pieces payload (payloads r) d
        (Reach-WhileGoing fresh r (sym (put_part-finished payload d.session.self) ∙ going))
  Reach-WhileGoing fresh (step r (end_part d before after future e)) going =
      end_part-Tracks (payloads r) d before after future e
        (Reach-IsValid store available echoes (IsFresh-IsValid fresh) r)
        (Reach-WhileGoing fresh r (sym (run_part-finished future d.session) ∙ going))
  Reach-WhileGoing fresh (step r (complete_upload d)) going =
      absurd (ground (arith, complete-finished store d.session, going))
  Reach-WhileGoing fresh (step r (abort_upload d)) going =
      absurd (ground (arith, abort-finished store d.session, going))
