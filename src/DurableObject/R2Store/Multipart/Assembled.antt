-- ===== src/DurableObject/R2Store/Multipart/Assembled.antt =====
-- What the bucket holds when an upload of durable-object/src/r2_store.rs is complete: the bytes of the
-- parts that a client has put, whatever the order in which their futures ran.
use mathlib.Core.List.{flatten}
use mathlib.Core.List.Permᴰ as PermD
use mathlib.Core.Option.{some-injective}
use slatedb_cloudflare.Prelude.{
  ℕ, zero, suc, ◌+◌, ◌≤◌, ◌<◌, Text, Bytes, false, Option, some, List, [], ◌∷◌, ok, Result-cases,
  Bool-cases, inl, inr, length, get_elem?, All, All-implies, text_eq, if◌then◌else◌, ◌≡◌, ◌⊎◌, refl,
  sym, ap, ◌∙◌, arith, subst, AscendsFrom, sort_by_key, All-perm, length-perm,
}
use slatedb_cloudflare.ObjectStore.{PutResult}
use slatedb_cloudflare.DurableObject.R2Store.{R2Store}
use slatedb_cloudflare.DurableObject.R2Store.Binding.{Bucket, UploadedPart}
use slatedb_cloudflare.DurableObject.R2Store.Documented.{Documented}
use slatedb_cloudflare.DurableObject.R2Store.Multipart.{Session, parts_to_send, complete}
use slatedb_cloudflare.DurableObject.R2Store.Multipart.Parts.{EchoesNumbers}
use slatedb_cloudflare.DurableObject.R2Store.Multipart.Pieces.{append_bytes, gather, Assembles}
use slatedb_cloudflare.DurableObject.R2Store.Multipart.Clients.{Client, number_of, Reach, IsFresh}
use slatedb_cloudflare.DurableObject.R2Store.Multipart.Payloads.{payloads, payload_of, Held}
use slatedb_cloudflare.DurableObject.R2Store.Multipart.Tracked.{Reach-WhileGoing}
use slatedb_cloudflare.DurableObject.R2Store.Multipart.Order.{
  parts_to_send-AscendsFrom, parts_to_send-succeeded,
}
use slatedb_cloudflare.DurableObject.R2Store.Multipart.Succeeded.{succeeded, uploaded-succeeded}

gather-held :
    (piece : ℕ → Option Bytes) (log : List Bytes) (parts : List UploadedPart)
    → All (Held piece log) parts
    → gather piece parts ≡ gather (payload_of log) parts
gather-held piece log [] h = refl
gather-held piece log (part ∷ parts) ((bytes, e, f), h) =
    rw (e, f) (ap (append_bytes (some bytes)) (gather-held piece log parts h))

-- Ascending numbers below a bound leave it that much room.
AscendsFrom-room :
    (low top : ℕ) (parts : List UploadedPart)
    → low ≤ top
    → AscendsFrom number_of low parts
    → All (λ part. part.part_number < top) parts
    → low + length parts ≤ top
AscendsFrom-room low top [] h a b = omega arith
AscendsFrom-room low top (part ∷ parts) h a b =
    omega
      (arith, AscendsFrom-room (suc part.part_number) top parts (omega (arith, b.0)) a.1 b.1, a.0)

-- As many parts as payloads are all of them.
gather-whole :
    (bytes_of : ℕ → Option Bytes) (log : List Bytes) (low : ℕ) (parts : List UploadedPart)
    → ((i : ℕ) → bytes_of (low + i) ≡ get_elem? log i)
    → AscendsFrom number_of low parts
    → All (λ part. part.part_number < low + length log) parts
    → length parts ≡ length log
    → gather bytes_of parts ≡ some (flatten log)
unfolding flatten
gather-whole bytes_of [] low [] h a b same = refl
gather-whole bytes_of [] low (part ∷ parts) h a b same = absurd (omega (arith, same))
gather-whole bytes_of (bytes ∷ log) low [] h a b same = absurd (omega (arith, same))
gather-whole bytes_of (bytes ∷ log) low (part ∷ parts) h a b same =
    let room =
      AscendsFrom-room (suc part.part_number) (low + length (bytes ∷ log)) parts
        (omega (arith, b.0)) a.1 b.1 in
    let first : part.part_number ≡ low = omega (arith, room, same, a.0) in
    let rest =
      gather-whole bytes_of log (suc low) parts (λ i. ap bytes_of (next i) ∙ h (suc i))
        (rw (← first) a.1) (All-implies parts (λ p below. omega (arith, below)) b.1)
        (omega (arith, same)) in
    rw (ap bytes_of (at_low first) ∙ h 0, rest) refl
  where
    next : (i : ℕ) → suc low + i ≡ low + suc i
    next i = omega arith

    at_low : part.part_number ≡ low → part.part_number ≡ low + 0
    at_low first = omega (arith, first)

payload_of-below :
    (log : List Bytes) (n : ℕ) (bytes : Bytes) → payload_of log n ≡ some bytes → n < 1 + length log
payload_of-below log zero bytes h = omega arith
payload_of-below [] (suc i) bytes h = cc
payload_of-below (first ∷ log) (suc zero) bytes h = omega arith
payload_of-below (first ∷ log) (suc (suc i)) bytes h =
    omega (arith, payload_of-below log (suc i) bytes h)

payload_of-one : (log : List Bytes) (i : ℕ) → payload_of log (1 + i) ≡ get_elem? log i
payload_of-one log i = ap (payload_of log) one
  where
    one : 1 + i ≡ suc i
    one = omega arith

below_or_all :
    (n m : ℕ) (bytes whole : Bytes)
    → 1 + n ≤ 1 + m
    → (n ≡ m → bytes ≡ whole)
    → (n < m) ⊎ (bytes ≡ whole)
below_or_all n m bytes whole h all = ground arith

module _ {W : Type 0} {bucket : Bucket W} {r2 : Documented bucket} (assembles : Assembles r2)
    (store : R2Store W) (available : store.bucket_of store.binding ≡ ok bucket) where
  open assembles use {pieces, resume_keeps, complete_stored}

  -- What a key holds after an upload to `key` is complete, with these bytes.
  abbrev pub Assembled : Text → Bytes → PutResult → W → W → Type 0
  Assembled key bytes answer w w' =
      (etag : Text) × (answer.e_tag ≡ some etag)
      × ((j : Text)
          → r2.stored w' j ≡ (
              if text_eq key j
              then some (record { etag = etag; bytes = bytes })
              else r2.stored w j))

  complete-stored :
      (s : Session W) (answer : PutResult)
      → AscendsFrom number_of 1 (parts_to_send s.self)
      → (complete store s).0 ≡ ok answer
      → (s.self.finished ≡ false)
        × (bytes : Bytes) × (gather (pieces s.shared.world s.self.upload_id) (parts_to_send s.self)
            ≡ some bytes)
        × Assembled s.self.key bytes answer s.shared.world (complete store s).1.shared.world
  unfolding complete parts_to_send
  complete-stored s answer ascends =
      let resumed = bucket.resume_multipart_upload s.self.key s.self.upload_id s.shared.world in
      let sent = sort_by_key number_of s.self.uploaded_parts in
      elim (Bool-cases s.self.finished) [
        | inl finished ↦ rw finished (λ h. cc)
        | inr going ↦ elim (Result-cases resumed.0) [
          | inr (error, e) ↦ rw (going, available, e) (λ h. cc)
          | inl (handle, e) ↦ elim (Bool-cases s.self.lock_poisoned) [
            | inl poisoned ↦ rw (going, available, e) (simp poisoned (λ h. cc))
            | inr sound ↦ elim (Result-cases (bucket.complete handle sent resumed.1).0) [
              | inr (error, f) ↦ rw (going, available, e, sound, f) (λ h. cc)
              | inl (object, f) ↦
                  let (bytes, there, stored) =
                    complete_stored s.self.key s.self.upload_id handle sent s.shared.world object
                      ascends e f in
                  rw (going, available, e, sound, f)
                    (λ h. (
                      refl,
                      bytes,
                      ap (λ g. gather g sent)
                            (λ i n.
                              sym (resume_keeps s.self.key s.self.upload_id s.shared.world n) i)
                          ∙ there,
                      (object.etag, ground (arith, h), stored),
                    ))
            ]
          ]
        ]
      ]

module _ {W : Type 0} {bucket : Bucket W} {r2 : Documented bucket} (assembles : Assembles r2)
    (store : R2Store W) (available : store.bucket_of store.binding ≡ ok bucket)
    (echoes : EchoesNumbers bucket) {c d : Client W} (fresh : IsFresh c)
    (reach : Reach store c d) where
  pub complete-Assembled :
      (answer : PutResult)
      → (complete store d.session).0 ≡ ok answer
      → let parts = succeeded bucket reach in
        (bytes : Bytes) × (gather (payload_of (payloads reach)) (sort_by_key number_of parts)
          ≡ some bytes)
        × ((length parts < length (payloads reach)) ⊎ (bytes ≡ flatten (payloads reach)))
        × Assembled assembles store available d.session.self.key bytes answer d.session.shared.world
            (complete store d.session).1.shared.world
  complete-Assembled answer h =
      let log = payloads reach in
      let sent = parts_to_send d.session.self in
      let (ascends, bounded, perm) = parts_to_send-AscendsFrom store available echoes fresh reach in
      let (going, bytes, there, stored) =
        complete-stored assembles store available d.session answer ascends h in
      let held = All-perm _ (PermD.symm perm) (
        subst (All (Held _ log)) (uploaded-succeeded store available fresh reach)
          (Reach-WhileGoing assembles store available echoes fresh reach going).held) in
      let below : All (λ part. part.part_number < 1 + length log) sent =
        All-implies sent (λ part (payload, e, f). payload_of-below log part.part_number payload f)
          held in
      let one_up : 1 ≤ 1 + length log = omega arith in
      let room : 1 + length sent ≤ 1 + length log =
        AscendsFrom-room 1 (1 + length log) sent one_up ascends below in
      let gathered = sym (gather-held _ log sent held) ∙ there in
      (
        bytes,
        rw (← parts_to_send-succeeded store available echoes fresh reach) gathered,
        below_or_all _ _ bytes (flatten log) (rw (← length-perm perm) room) (λ all.
            some-injective _ _ (
              sym gathered
              ∙ gather-whole (payload_of log) log 1 sent (payload_of-one log) ascends below
                  (length-perm perm ∙ all))),
        stored,
      )
