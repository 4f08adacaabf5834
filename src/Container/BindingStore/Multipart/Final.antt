-- ===== src/Container/BindingStore/Multipart/Final.antt =====
-- An upload of the container that has been completed or aborted.
use slatedb_cloudflare.Prelude.{true, err, ◌≡◌, arith}
use slatedb_cloudflare.ObjectStore.{PutPayload}
use slatedb_cloudflare.Container.BindingStore.Bridge.{Client}
use slatedb_cloudflare.Container.BindingStore.Multipart.{
  ready, multipart_finished, put_part, Session, complete, abort,
}

module _ {W : Type 0} (client : Client W) where
  -- Every call is refused and leaves the session as it is.
  abbrev pub Refuses : Session W → Type 0
  Refuses s =
      ((payload : PutPayload)
        → put_part payload s.self ≡ (ready (multipart_finished s.self.location), s.self))
      × (complete client s ≡ (err (multipart_finished s.self.location), s))
      × (abort client s ≡ (err (multipart_finished s.self.location), s))

  finished-Refuses : (s : Session W) → s.self.finished ≡ true → Refuses s
  unfolding put_part complete abort
  finished-Refuses s h = ((λ payload. rw h), rw h, rw h)

  complete-finished : (s : Session W) → (complete client s).1.self.finished ≡ true
  unfolding complete
  complete-finished s = ground arith

  abort-finished : (s : Session W) → (abort client s).1.self.finished ≡ true
  unfolding abort
  abort-finished s = ground arith

  -- Once `complete` or `abort` has run, and even if the bridge failed, the upload refuses every further
  -- `put_part`, `complete` and `abort`, and they send nothing.
  pub complete-abort-Refuses :
      (s : Session W) → Refuses (complete client s).1 × Refuses (abort client s).1
  complete-abort-Refuses s = (
    finished-Refuses (complete client s).1 (complete-finished s),
    finished-Refuses (abort client s).1 (abort-finished s),
  )
