-- ===== src/DurableObject/R2Store/Multipart/Final.antt =====
-- An upload of durable-object/src/r2_store.rs after `complete` or `abort`.
use slatedb_cloudflare.Prelude.{true, err, ◌≡◌, arith}
use slatedb_cloudflare.ObjectStore.{PutPayload}
use slatedb_cloudflare.DurableObject.R2Store.{R2Store}
use slatedb_cloudflare.DurableObject.R2Store.Multipart.{
  ready, multipart_finished, put_part, Session, complete, abort,
}

module _ {W : Type 0} (store : R2Store W) where
  -- From this state on, the upload answers that it is finished to every call, and no call changes
  -- anything.
  abbrev pub Ended : Session W → Type 0
  Ended s =
      ((payload : PutPayload)
        → put_part payload s.self ≡ (ready (multipart_finished s.self.location), s.self))
      × (complete store s ≡ (err (multipart_finished s.self.location), s))
      × (abort store s ≡ (err (multipart_finished s.self.location), s))

  Ended-finished : (s : Session W) → s.self.finished ≡ true → Ended s
  unfolding put_part complete abort
  Ended-finished s h = ((λ payload. rw h), rw h, rw h)

  pub complete-finished : (s : Session W) → (complete store s).1.self.finished ≡ true
  unfolding complete
  complete-finished s = ground arith

  pub abort-finished : (s : Session W) → (abort store s).1.self.finished ≡ true
  unfolding abort
  abort-finished s = ground arith

  -- After `complete` or `abort`, whether it succeeded or failed, every further `put_part`,
  -- `complete` and `abort` answers that the upload is finished, sends nothing and changes nothing.
  pub complete-abort-Ended : (s : Session W) → Ended (complete store s).1 × Ended (abort store s).1
  complete-abort-Ended s = (
    Ended-finished (complete store s).1 (complete-finished s),
    Ended-finished (abort store s).1 (abort-finished s),
  )
