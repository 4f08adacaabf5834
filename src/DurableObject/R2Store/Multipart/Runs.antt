-- ===== src/DurableObject/R2Store/Multipart/Runs.antt =====
-- Two runs of one upload of durable-object/src/r2_store.rs, whose futures end in different orders.
use mathlib.Core.List.{Permᴰ}
use mathlib.Core.Option.{some-injective}
use slatedb_cloudflare.Prelude.{
  ℕ, Bytes, Option, some, List, [], ◌∷◌, map, ok, ◌≡◌, refl, sym, ap, ◌∙◌, sort_by_key,
  sort-eq_of_perm, map-sort, count_key-map, Distinct, arith,
}
use slatedb_cloudflare.ObjectStore.{PutPayload, PutResult}
use slatedb_cloudflare.DurableObject.R2Store.{R2Store}
use slatedb_cloudflare.DurableObject.R2Store.Binding.{Bucket, UploadedPart}
use slatedb_cloudflare.DurableObject.R2Store.Documented.{Documented}
use slatedb_cloudflare.DurableObject.R2Store.Multipart.{
  R2MultipartUpload, UploadPart, ready, upload, put_part, Session, run_part, parts_to_send,
  complete, abort,
}
use slatedb_cloudflare.DurableObject.R2Store.Multipart.Parts.{EchoesNumbers}
use slatedb_cloudflare.DurableObject.R2Store.Multipart.Pieces.{append_bytes, gather, Assembles}
use slatedb_cloudflare.DurableObject.R2Store.Multipart.Clients.{
  Client, number_of, Reach, here, step, start_part, end_part, complete_upload, abort_upload,
  IsFresh,
}
use slatedb_cloudflare.DurableObject.R2Store.Multipart.Payloads.{payloads, payload_of}
use slatedb_cloudflare.DurableObject.R2Store.Multipart.Succeeded.{succeeded}
use slatedb_cloudflare.DurableObject.R2Store.Multipart.Order.{
  succeeded-Distinct, parts_to_send-succeeded,
}
use slatedb_cloudflare.DurableObject.R2Store.Multipart.Assembled.{Assembled, complete-Assembled}

-- `gather` reads the numbers of the parts alone.
gather_numbers : (ℕ → Option Bytes) → List ℕ → Option Bytes
gather_numbers bytes_of [] = some []
gather_numbers bytes_of (number ∷ numbers) =
    append_bytes (bytes_of number) (gather_numbers bytes_of numbers)

gather-numbers :
    (bytes_of : ℕ → Option Bytes) (parts : List UploadedPart)
    → gather bytes_of parts ≡ gather_numbers bytes_of (map number_of parts)
unfolding gather_numbers
gather-numbers bytes_of [] = refl
gather-numbers bytes_of (part ∷ parts) =
    ap (append_bytes (bytes_of part.part_number)) (gather-numbers bytes_of parts)

sorted_numbers :
    (parts parts' : List UploadedPart)
    → Distinct number_of parts
    → Permᴰ (map number_of parts) (map number_of parts')
    → map number_of (sort_by_key number_of parts) ≡ map number_of (sort_by_key number_of parts')
sorted_numbers parts parts' distinct perm =
    map-sort number_of parts
    ∙ sort-eq_of_perm (λ n. n) perm (λ n. rw (count_key-map number_of n parts) (distinct n))
    ∙ sym (map-sort number_of parts')

put_part-key :
    (payload : PutPayload) (self : R2MultipartUpload) → (put_part payload self).1.key ≡ self.key
unfolding put_part
put_part-key payload self = ground arith

module _ {W : Type 0} (store : R2Store W) (s : Session W) where
  complete-key : (complete store s).1.self.key ≡ s.self.key
  unfolding complete
  complete-key = ground arith

  abort-key : (abort store s).1.self.key ≡ s.self.key
  unfolding abort
  abort-key = ground arith

  run_part-key : (future : UploadPart) → (run_part store future s).1.self.key ≡ s.self.key
  unfolding run_part
  run_part-key (ready error) = refl
  run_part-key (upload number bytes) = ground arith

-- An upload keeps its key.
Reach-key :
    {W : Type 0} {store : R2Store W} {c d : Client W}
    → Reach store c d
    → d.session.self.key ≡ c.session.self.key
Reach-key here = refl
Reach-key (step r (start_part d payload)) = put_part-key payload d.session.self ∙ Reach-key r
Reach-key {store} (step r (end_part d before after future e)) =
    run_part-key store d.session future ∙ Reach-key r
Reach-key {store} (step r (complete_upload d)) = complete-key store d.session ∙ Reach-key r
Reach-key {store} (step r (abort_upload d)) = abort-key store d.session ∙ Reach-key r

module _ {W : Type 0} {bucket : Bucket W} {r2 : Documented bucket} (assembles : Assembles r2)
    (store : R2Store W) (available : store.bucket_of store.binding ≡ ok bucket)
    (echoes : EchoesNumbers bucket) {c d d' : Client W} (fresh : IsFresh c)
    (reach : Reach store c d) (reach' : Reach store c d') where
  -- The order in which the futures of an upload end makes no difference: two runs of one upload in
  -- which the client put the same payloads and the futures of the same parts succeeded, in whatever
  -- orders, send the same numbers in the same order, and if both complete, they put the same bytes
  -- under the key and change no other. The binding is available, R2 answers a part with its own
  -- number and behaves as documented.
  pub complete-any_order :
      (answer answer' : PutResult)
      → payloads reach ≡ payloads reach'
      → Permᴰ (map number_of (succeeded bucket reach)) (map number_of (succeeded bucket reach'))
      → (complete store d.session).0 ≡ ok answer
      → (complete store d'.session).0 ≡ ok answer'
      → (map number_of (parts_to_send d.session.self)
          ≡ map number_of (parts_to_send d'.session.self))
        × (bytes : Bytes) × Assembled assembles store available c.session.self.key bytes answer
            d.session.shared.world
            (complete store d.session).1.shared.world
        × Assembled assembles store available c.session.self.key bytes answer'
            d'.session.shared.world
            (complete store d'.session).1.shared.world
  complete-any_order answer answer' same perm h h' =
      let (bytes, gathered, all, stored) =
        complete-Assembled assembles store available echoes fresh reach answer h in
      let (bytes', gathered', all', stored') =
        complete-Assembled assembles store available echoes fresh reach' answer' h' in
      let numbers =
        sorted_numbers _ _ (succeeded-Distinct store available echoes fresh reach) perm in
      let equal : bytes' ≡ bytes = some-injective _ _ (
        sym gathered'
        ∙ gather-numbers _ _
        ∙ sym (λ i. gather_numbers (payload_of (same i)) (numbers i))
        ∙ sym (gather-numbers _ _)
        ∙ gathered) in
      (
        ap (map number_of) (parts_to_send-succeeded store available echoes fresh reach)
            ∙ numbers
            ∙ ap (map number_of)
                (sym (parts_to_send-succeeded store available echoes fresh reach')),
        bytes,
        rw (← Reach-key reach) stored,
        rw (← equal, ← Reach-key reach') stored',
      )
