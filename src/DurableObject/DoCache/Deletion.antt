-- ===== src/DurableObject/DoCache/Deletion.antt =====
-- What `delete` removes from the storage, and what it leaves there.
mod PartKeys
use slatedb_cloudflare.Prelude.{
  ◌^◌, ◌-◌, ℕ, zero, suc, ◌+◌, ◌*◌, ◌/◌, ◌<◌, ◌≤◌, Text, String, Bool, true, false, ◌||◌, Option,
  none, some, List, [], ◌∷◌, Result, ok, err, Result-cases, Bool-cases, inl, inr, text_eq,
  text_eq-other, text_eq_refl, length, any, All, any-chunks_up_to, chunks_up_to-length, ltb, ltb→lt,
  if◌then◌else◌, ◌≡◌, ◌≢◌, ◌⊎◌, refl, sym, ap, ◌∙◌, arith,
}
use native.Mathlib.Nat.{le-div_iff_mul-le, div-add-mod}
use slatedb_cloudflare.ObjectStore.{ObjectMeta}
use slatedb_cloudflare.DurableObject.State.{Shared}
use slatedb_cloudflare.DurableObject.DoCache.{
  DoCacheEntry, entry, part_key, head_key, entry_prefix, read_head, part_count, part_keys,
  count_deleted, delete_chunks, delete_parts, delete,
}
use slatedb_cloudflare.DurableObject.DoCache.KeyValue.{Storage, HeadCodec}
use slatedb_cloudflare.DurableObject.DoCache.Documented.{Value, of_head, Documented, Deletes}
use slatedb_cloudflare.DurableObject.DoCache.Unambiguous.{
  Slot, head, part, slot_key, slot_key-injective,
}
use slatedb_cloudflare.DurableObject.DoCache.Deletion.PartKeys.{
  ltb-part_count, part_keys-other, slot-other, entry-same, part_keys-part,
}

module _ {W Head Attributes : Type 0} {storage : Storage W Head} (kv : Documented storage)
    (deletes : Deletes storage) (codec : HeadCodec Head Attributes) where
  open kv use {held, get_head_found, get_head_keeps, delete_held, delete_multiple_held}

  count_deleted-world :
      (answer : Result String ℕ) (s : Shared W)
      → (count_deleted storage codec (answer, s)).world ≡ s.world
  count_deleted-world (ok n) s = refl
  count_deleted-world (err error) s = refl

  delete_chunks-held :
      (chunks : List (List Text)) (s : Shared W) (j : Text)
      → All (λ chunk. length chunk ≤ 128) chunks
      → held (delete_chunks storage codec chunks s).world j
        ≡ (if any (any (λ key. text_eq key j)) chunks then none else held s.world j)
  unfolding delete_chunks
  delete_chunks-held [] s j h = refl
  delete_chunks-held (chunk ∷ chunks) s j h =
      let deleted = deletes.delete_multiple_succeeds chunk s.world h.0 in
      let step = delete_multiple_held chunk s.world deleted.0 deleted.1 j in
      delete_chunks-held chunks _ j h.1
      ∙ ground (arith, step, ap (λ w. held w j) (count_deleted-world _ _))

  none_if_or :
      (a b : Bool) (x : Option (Value Head))
      → (if b then none else (if a then none else x)) ≡ (if a || b then none else x)
  none_if_or a b x = ground arith

  read_head-found :
      (self : DoCacheEntry) (found : Head) (s : Shared W)
      → held s.world (head_key self.prefix) ≡ some (of_head found)
      → (read_head storage codec self s).0 ≡ ok (some (codec.meta found, codec.attributes found))
  unfolding read_head
  read_head-found self found s h = rw (get_head_found (head_key self.prefix) found s.world h) refl

  read_head-keeps :
      (self : DoCacheEntry) (s : Shared W) (j : Text)
      → held (read_head storage codec self s).1.world j ≡ held s.world j
  unfolding read_head
  read_head-keeps self s j =
      let keeps = get_head_keeps (head_key self.prefix) s.world j in
      elim (Result-cases (storage.get_head (head_key self.prefix) s.world).0) [
        | inl (none, e) ↦ rw e keeps
        | inl (some found, e) ↦ rw e keeps
        | inr (error, e) ↦ rw e keeps
      ]

  delete_parts-held :
      (self : DoCacheEntry) (meta : ObjectMeta) (attributes : Attributes) (s : Shared W) (j : Text)
      → held (delete_parts storage codec self (some (meta, attributes)) s).world j ≡ (
          if any
            (λ key. text_eq key j)
            (part_keys self.prefix 0 (part_count meta.size self.part_size))
          then none
          else held s.world j)
  delete_parts-held self meta attributes s j =
      let keys = part_keys self.prefix 0 (part_count meta.size self.part_size) in
      delete_chunks-held _ s j (chunks_up_to-length (length keys) 128 keys)
      ∙ ap (λ b. if b then none else held s.world j)
          (any-chunks_up_to (λ key. text_eq key j) (length keys) 128 keys (omega arith)
            (omega arith))

  -- all of `delete` when the head is there
  delete-held :
      (self : DoCacheEntry) (found : Head) (s : Shared W) (j : Text)
      → held s.world (head_key self.prefix) ≡ some (of_head found)
      → held (delete storage codec self s).world j ≡ (
          if text_eq (head_key self.prefix) j
            || any
                (λ key. text_eq key j)
                (part_keys self.prefix 0 (part_count (codec.meta found).size self.part_size))
          then none
          else held s.world j)
  unfolding delete
  delete-held self found s j h =
      let (there, e) =
        deletes.delete_succeeds (head_key self.prefix) (read_head storage codec self s).1.world in
      rw (read_head-found self found s h) (
        delete_parts-held self (codec.meta found) (codec.attributes found) _ j
        ∙ ap
            (λ x.
              if any (λ key. text_eq key j)
                (part_keys self.prefix 0 (part_count (codec.meta found).size self.part_size))
              then none
              else x)
            (ap (λ w. held w j) (count_deleted-world _ _)
              ∙ delete_held (head_key self.prefix) _ there e j
              ∙ ap (λ x. if text_eq (head_key self.prefix) j then none else x)
                  (read_head-keeps self s j))
        ∙ none_if_or (text_eq (head_key self.prefix) j)
            (any (λ key. text_eq key j)
              (part_keys self.prefix 0 (part_count (codec.meta found).size self.part_size)))
            (held s.world j))

  -- When the head of an object is stored, the part size is not 0 and the object has fewer than 2 ^ 32
  -- parts, `delete` removes its head and
  -- every part that begins before the size in its head, and changes nothing else that is stored:
  -- no part of a larger number, and nothing of another object or of another part size. The
  -- storage behaves as documented and its deletions succeed.
  pub delete-Deleted :
      (location : Text) (part_size : ℕ) (found : Head) (s : Shared W)
      → 0 < part_size
      → (codec.meta found).size ≤ (2 ^ 32 - 1) * part_size
      → held s.world (slot_key location part_size head) ≡ some (of_head found)
      → let s' = delete storage codec (entry location part_size) s in
        (held s'.world (slot_key location part_size head) ≡ none)
        × ((n : ℕ)
            → held s'.world (slot_key location part_size (part n)) ≡ (
                if ltb (n * part_size) (codec.meta found).size
                then none
                else held s.world (slot_key location part_size (part n))))
        × ((l : Text) (p : ℕ) (slot : Slot)
            → ◌≢◌ {A = Text × ℕ} (l, p) (location, part_size)
            → held s'.world (slot_key l p slot) ≡ held s.world (slot_key l p slot))
  unfolding entry
  delete-Deleted location part_size found s positive few h =
      let self = entry location part_size in
      let count = part_count (codec.meta found).size part_size in
      (
        delete-held self found s (head_key self.prefix) h
            ∙ rw (text_eq_refl (head_key self.prefix)) refl,
        λ n.
            delete-held self found s (part_key self.prefix n) h
            ∙ rw
                (
                  slot-other location location part_size part_size head (part n)
                      (λ (e, g, f). absurd (ground (arith, f))),
                  part_keys-part location part_size count n,
                )
                (ap (λ b. if b then none else held s.world (part_key self.prefix n))
                  (ltb-part_count n (codec.meta found).size part_size positive few)),
        λ l p slot other.
            delete-held self found s (slot_key l p slot) h
            ∙ rw
                (
                  slot-other location l part_size p head slot
                      (λ (e, g, f). other (λ i. (sym e i, sym g i))),
                  part_keys-other self.prefix (slot_key l p slot) 0 count
                      (λ k a b e. other (entry-same location l part_size p (part k) slot e)),
                )
                refl,
      )
