-- ===== src/DurableObject/R2Store/Multipart/Order.antt =====
-- Which parts `complete` of durable-object/src/r2_store.rs sends, and in which order.
use mathlib.Core.List.{Permᴰ}
use slatedb_cloudflare.Prelude.{
  ℕ, ◌≤◌, ◌<◌, List, [], ◌∷◌, ok, All, ◌≡◌, ap, arith, sort_by_key, count_key, Distinct,
  AscendsFrom, count_key-sort, sort-AscendsFrom, sort-perm,
}
use slatedb_cloudflare.DurableObject.R2Store.{R2Store}
use slatedb_cloudflare.DurableObject.R2Store.Binding.{Bucket, UploadedPart}
use slatedb_cloudflare.DurableObject.R2Store.Multipart.{parts_to_send, max_multipart_parts}
use slatedb_cloudflare.DurableObject.R2Store.Multipart.Parts.{EchoesNumbers}
use slatedb_cloudflare.DurableObject.R2Store.Multipart.Clients.{
  Client, number_of, IsValid, Reach, IsFresh, IsFresh-IsValid,
}
use slatedb_cloudflare.DurableObject.R2Store.Multipart.Succeeded.{succeeded, uploaded-succeeded}
use slatedb_cloudflare.DurableObject.R2Store.Multipart.Numbers.{Reach-IsValid}

IsValid-Distinct :
    {W : Type 0} (c : Client W) → IsValid c → Distinct number_of c.session.self.uploaded_parts
IsValid-Distinct c v n = omega (arith, v.once n)

-- An ascending list whose keys are all positive ascends from 1.
AscendsFrom-one :
    (parts : List UploadedPart)
    → ((n : ℕ) → 0 < count_key number_of n parts → 1 ≤ n)
    → AscendsFrom number_of 0 parts
    → AscendsFrom number_of 1 parts
AscendsFrom-one [] positive h = tt
AscendsFrom-one (part ∷ parts) positive h = ground (arith, positive part.part_number)

All-numbers :
    (top : ℕ) (parts : List UploadedPart)
    → ((n : ℕ) → 0 < count_key number_of n parts → n ≤ top)
    → All (λ part. part.part_number ≤ top) parts
All-numbers top [] bound = tt
All-numbers top (part ∷ parts) bound =
    (ground (arith, bound part.part_number), All-numbers top parts (λ n h. bound n (omega arith)))

module _ {W : Type 0} {bucket : Bucket W} (store : R2Store W)
    (available : store.bucket_of store.binding ≡ ok bucket) (echoes : EchoesNumbers bucket)
    {c d : Client W} (fresh : IsFresh c) (reach : Reach store c d) where
  valid : IsValid d
  valid = Reach-IsValid store available echoes (IsFresh-IsValid fresh) reach

  sent_in_use :
      (n : ℕ)
      → 0 < count_key number_of n (parts_to_send d.session.self)
      → (1 ≤ n) × (n ≤ max_multipart_parts)
  unfolding parts_to_send
  sent_in_use n h = ground (
    arith,
    valid.once n,
    valid.next_bounded,
    count_key-sort number_of n d.session.self.uploaded_parts,
  )

  -- However the client starts parts and in whatever order their futures end, `complete` sends
  -- exactly the parts that R2 answered to the futures that succeeded, by strictly ascending numbers
  -- from 1 to 10,000. The client has driven a fresh upload, the binding is available and R2 answers
  -- a part with its own number.
  pub parts_to_send-AscendsFrom :
      let sent = parts_to_send d.session.self in
      AscendsFrom number_of 1 sent
      × All (λ part. part.part_number ≤ max_multipart_parts) sent
      × Permᴰ sent (succeeded bucket reach)
  unfolding parts_to_send
  parts_to_send-AscendsFrom = (
    AscendsFrom-one _ (λ n h. (sent_in_use n h).0)
        (sort-AscendsFrom number_of d.session.self.uploaded_parts (IsValid-Distinct d valid)),
    All-numbers max_multipart_parts _ (λ n h. (sent_in_use n h).1),
    rw (← uploaded-succeeded store available fresh reach)
        (sort-perm number_of d.session.self.uploaded_parts),
  )

  pub succeeded-Distinct : Distinct number_of (succeeded bucket reach)
  succeeded-Distinct n =
      rw (← uploaded-succeeded store available fresh reach) (IsValid-Distinct d valid n)

  pub parts_to_send-succeeded :
      parts_to_send d.session.self ≡ sort_by_key number_of (succeeded bucket reach)
  unfolding parts_to_send
  parts_to_send-succeeded =
      ap (sort_by_key number_of) (uploaded-succeeded store available fresh reach)
