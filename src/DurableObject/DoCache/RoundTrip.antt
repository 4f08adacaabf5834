-- ===== src/DurableObject/DoCache/RoundTrip.antt =====
-- `save_part` and `read_part` of durable-object/src/do_cache.rs, one after the other.
use slatedb_cloudflare.Prelude.{
  ℕ, ◌-◌, Text, Bytes, ◌&&◌, Option, some, Result, ok, err, Result-cases, inl, inr, text_eq,
  text_eq-other, text_eq_refl, take, drop, length, leb, if◌then◌else◌, ◌≡◌, ◌≢◌, refl, sym, ◌∙◌,
  arith,
}
use slatedb_cloudflare.ObjectStore.{Error, ByteRange}
use slatedb_cloudflare.DurableObject.State.{Shared}
use slatedb_cloudflare.DurableObject.Perf.{PerfCounters}
use slatedb_cloudflare.DurableObject.DoCache.{
  DoCacheEntry, entry, part_key, entry_prefix, cache_message, cached_range, save_part, read_part,
}
use slatedb_cloudflare.DurableObject.DoCache.KeyValue.{Storage, HeadCodec}
use slatedb_cloudflare.DurableObject.DoCache.Documented.{of_bytes, Documented}
use slatedb_cloudflare.DurableObject.DoCache.Unambiguous.{Slot, part, slot_key, slot_key-injective}

-- The bytes of a range, or the error that the part is too short for it.
abbrev pub slice_or_error : Bytes → ByteRange → Result Error (Option Bytes)
slice_or_error bytes range =
    if leb range.start range.end && leb range.end (length bytes)
    then ok (some (take (range.end - range.start) (drop range.start bytes)))
    else err (cache_message "cached part is shorter than requested range")

module _ {W Head Attributes : Type 0} {storage : Storage W Head} (kv : Documented storage)
    (codec : HeadCodec Head Attributes) where
  open kv use {held, put_bytes_held, put_bytes_failed, get_bytes_found}

  read_part-held :
      (self : DoCacheEntry) (number : ℕ) (bytes : Bytes) (range : ByteRange) (s : Shared W)
      → held s.world (part_key self.prefix number) ≡ some (of_bytes bytes)
      → (read_part storage codec self number range s).0 ≡ slice_or_error bytes range
  unfolding read_part cached_range
  read_part-held self number bytes range s h =
      rw (get_bytes_found (part_key self.prefix number) bytes s.world h) (ground arith)

  save_part-held :
      (self : DoCacheEntry) (number : ℕ) (bytes : Bytes) (s : Shared W)
      → (save_part storage codec self number bytes s).0 ≡ ok tt
      → (j : Text)
      → held (save_part storage codec self number bytes s).1.world j ≡ (
          if text_eq (part_key self.prefix number) j then some (of_bytes bytes) else held s.world j)
  unfolding save_part
  save_part-held self number bytes s h j =
      elim (Result-cases (storage.put_bytes (part_key self.prefix number) bytes s.world).0) [
        | inl (_, e) ↦ rw e (put_bytes_held (part_key self.prefix number) bytes s.world e j)
        | inr (error, e) ↦ absurd (ground (arith, e))
      ]

  -- A part that `save_part` stored is what `read_part` then reads, from any other state of the
  -- counters: the bytes of the range, or an error when the part is too short for it. Every other
  -- key of the cache holds what it held: that of another number or of the head, of another object
  -- or of another part size. The storage behaves as documented.
  pub read_part-save_part :
      (location : Text) (part_size number : ℕ) (bytes : Bytes) (range : ByteRange) (s : Shared W)
      (perf : PerfCounters)
      → let self = entry location part_size in
        let (answer, s') = save_part storage codec self number bytes s in
        answer ≡ ok tt
        → ((read_part storage codec self number range (record s' { perf = perf })).0
            ≡ slice_or_error bytes range)
          × ((l : Text) (p : ℕ) (slot : Slot)
              → ◌≢◌ {A = Text × ℕ × Slot} (l, p, slot) (location, part_size, part number)
              → held s'.world (slot_key l p slot) ≡ held s.world (slot_key l p slot))
  unfolding entry
  read_part-save_part location part_size number bytes range s perf h =
      let self = entry location part_size in
      let key = part_key self.prefix number in
      let saved = save_part-held self number bytes s h in
      (
        read_part-held self number bytes range _ (saved key ∙ rw (text_eq_refl key) refl),
        λ l p slot other.
            saved (slot_key l p slot)
            ∙ rw (text_eq-other key (slot_key l p slot) (λ e. other (same l p slot e))) refl,
      )
    where
      same :
          (l : Text) (p : ℕ) (slot : Slot)
          → part_key (entry_prefix location part_size) number ≡ slot_key l p slot
          → ◌≡◌ {A = Text × ℕ × Slot} (l, p, slot) (location, part_size, part number)
      same l p slot e =
          let parts = slot_key-injective location l part_size p (part number) slot e in
          λ i. (sym parts.0 i, sym parts.1 i, sym parts.2 i)
