-- ===== src/Container/BindingStore/Multipart/Numbers.antt =====
-- The numbers under which the container's upload sends its parts.
use slatedb_cloudflare.Prelude.{
  ℕ, ◌+◌, ◌≤◌, ◌<◌, min, false, List, [], ◌∷◌, length, ltb, Bool-cases, inl, inr, if◌then◌else◌,
  ◌≡◌, refl, ap, subst, ◌∙◌, ◌%◌, ◌^◌, arith,
}
use slatedb_cloudflare.ObjectStore.{not_supported, PutPayload}
use slatedb_cloudflare.Container.BindingStore.Multipart.{
  max_multipart_parts, BindingMultipartUpload, UploadPart, ready, upload, put_part,
}

-- The answers of successive calls of `put_part`, and the upload that they leave.
unfoldable pub put_parts :
    List PutPayload → BindingMultipartUpload → List UploadPart × BindingMultipartUpload
put_parts [] self = ([], self)
put_parts (payload ∷ payloads) self =
    let (part, self₁) = put_part payload self in
    let (parts, self₂) = put_parts payloads self₁ in (part ∷ parts, self₂)

-- The parts counted without a bound from `n` on: the first 10,000 are uploaded under their number, and
-- the others are refused.
unfoldable pub numbered : ℕ → List PutPayload → List UploadPart
numbered n [] = []
numbered n (payload ∷ payloads) =
    (if ltb max_multipart_parts n
      then ready (not_supported "R2 supports at most 10,000 multipart parts")
      else upload n payload)
    ∷ numbered (n + 1) payloads

numbered-refused :
    (n m : ℕ) (payloads : List PutPayload)
    → max_multipart_parts < n
    → max_multipart_parts < m
    → numbered n payloads ≡ numbered m payloads
unfolding numbered
numbered-refused n m [] h k = refl
numbered-refused n m (payload ∷ payloads) h k =
    ground (arith, numbered-refused (n + 1) (m + 1) payloads)

put_parts-numbered_from :
    (payloads : List PutPayload) (self : BindingMultipartUpload)
    → self.finished ≡ false
    → self.next_part ≤ max_multipart_parts + 1
    → let (parts, self') = put_parts payloads self in
      (parts ≡ numbered self.next_part payloads)
      × (self'.next_part ≡ min (self.next_part + length payloads) (max_multipart_parts + 1))
unfolding put_parts numbered put_part
put_parts-numbered_from [] self open_now h = (refl, ground arith)
put_parts-numbered_from (payload ∷ payloads) self open_now h =
    elim (Bool-cases (ltb max_multipart_parts self.next_part)) [
      | inl full ↦
          let (parts, next) = put_parts-numbered_from payloads self open_now h in
          simp (open_now, full)
            (
              ap (λ rest. ready (not_supported "R2 supports at most 10,000 multipart parts") ∷ rest)
                  (parts
                    ∙ numbered-refused self.next_part (self.next_part + 1) payloads
                        (ground (arith, full)) (ground (arith, full))),
              ground (arith, next, full),
            )
      | inr room ↦
          let moved : BindingMultipartUpload = record self {
            next_part = (self.next_part + 1) % 2 ^ 16;
            finished = false;
          } in
          let (parts, next) = put_parts-numbered_from payloads moved refl (ground (arith, room)) in
          let small : (self.next_part + 1) % 2 ^ 16 ≡ self.next_part + 1 = ground (arith, room) in
          simp (open_now, room)
            (
              ap (λ rest. upload self.next_part payload ∷ rest)
                  (parts ∙ ap (λ n. numbered n payloads) small),
              ground (arith, next, small, room),
            )
    ]

-- An upload that has just been started gives its parts, in the order in which they are put, the
-- numbers from 1 to 10,000; every further part is refused as not supported, and is given no number. The
-- number of the next part stays below 10,002, so that it never wraps at 2 ^ 16.
pub put_parts-numbered :
    (payloads : List PutPayload) (self : BindingMultipartUpload)
    → self.finished ≡ false
    → self.next_part ≡ 1
    → let (parts, self') = put_parts payloads self in
      (parts ≡ numbered 1 payloads)
      × (self'.next_part ≡ min (1 + length payloads) (max_multipart_parts + 1))
put_parts-numbered payloads self open_now first =
    subst
      (λ n.
        ((put_parts payloads self).0 ≡ numbered n payloads)
        × ((put_parts payloads self).1.next_part
            ≡ min (n + length payloads) (max_multipart_parts + 1)))
      first (put_parts-numbered_from payloads self open_now (omega (arith, first)))
