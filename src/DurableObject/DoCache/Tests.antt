-- ===== src/DurableObject/DoCache/Tests.antt =====
-- A storage in memory, which behaves as documented, and the theorems on the cache at concrete inputs.
use slatedb_cloudflare.Prelude.{
  ℕ, ◌+◌, ◌*◌, Text, Bytes, String, codes, Bool, true, false, Option, none, some, List, [], ◌∷◌,
  Result, ok, err, ◌≡◌, ◌≢◌, refl, text_eq, any, length, is_some, if◌then◌else◌, ◌≤◌, arith, ltb,
}
use slatedb_cloudflare.ObjectStore.{pos, ObjectMeta, ByteRange}
use slatedb_cloudflare.DurableObject.Perf.{default}
use slatedb_cloudflare.DurableObject.State.{Shared, new_shared}
use slatedb_cloudflare.DurableObject.DoCache.{
  entry, save_part, read_part, delete, head_key, entry_prefix,
}
use slatedb_cloudflare.DurableObject.DoCache.KeyValue.{Storage, HeadCodec}
use slatedb_cloudflare.DurableObject.DoCache.Documented.{
  Value, of_bytes, of_head, Documented, Deletes,
}
use slatedb_cloudflare.DurableObject.DoCache.Unambiguous.{
  Slot, head, part, slot_key, slot_key-injective,
}
use slatedb_cloudflare.DurableObject.DoCache.RoundTrip.{read_part-save_part, slice_or_error}
use slatedb_cloudflare.DurableObject.DoCache.Accounting.{after_all, fail_in, after_all-Accounted}
use slatedb_cloudflare.DurableObject.DoCache.Accounting.Calls.{
  no_failures, Accounted, CacheCall, to_save_part, to_read_part, to_read_head, to_delete,
}
use slatedb_cloudflare.DurableObject.DoCache.Deletion.{delete-Deleted}

abbrev pub Memory : Type 0
Memory = Text → Option (Value ObjectMeta)

abbrev pub bytes_at : Option (Value ObjectMeta) → Result String (Option Bytes)
bytes_at none = ok none
bytes_at (some (of_bytes bytes)) = ok (some bytes)
bytes_at (some (of_head meta)) = err "not bytes"

abbrev pub head_at : Option (Value ObjectMeta) → Result String (Option ObjectMeta)
head_at none = ok none
head_at (some (of_bytes bytes)) = err "not a head"
head_at (some (of_head meta)) = ok (some meta)

abbrev pub memory : Storage Memory ObjectMeta
memory = record {
  put_bytes = λ key bytes w. (ok tt, λ j. if text_eq key j then some (of_bytes bytes) else w j);
  put_head = λ key meta w. (ok tt, λ j. if text_eq key j then some (of_head meta) else w j);
  get_bytes = λ key w. (bytes_at (w key), w);
  get_head = λ key w. (head_at (w key), w);
  delete = λ key w. (ok (is_some (w key)), λ j. if text_eq key j then none else w j);
  delete_multiple =
      λ keys w. (ok (length keys), λ j. if any (λ key. text_eq key j) keys then none else w j);
  delete_all = λ w. (ok tt, λ j. none);
  list_size = λ prefix limit w. (ok 0, w);
  database_size = λ w. 0;
}

abbrev memory-Documented : Documented memory
memory-Documented = record {
  held = λ w. w;
  put_bytes_held = λ key bytes w e j. refl;
  put_bytes_failed = λ key bytes w error e j other. absurd (ground (arith, e));
  get_bytes_found = λ key bytes w h. rw h refl;
  get_head_found = λ key meta w h. rw h refl;
  get_head_keeps = λ key w j. refl;
  delete_held = λ key w there e j. refl;
  delete_multiple_held = λ keys w deleted e j. refl;
}

abbrev memory-Deletes : Deletes memory
memory-Deletes = record {
  delete_succeeds = λ key w. (is_some (w key), refl);
  delete_multiple_succeeds = λ keys w small. (length keys, refl);
}

abbrev pub codec : HeadCodec ObjectMeta (Unit {0})
codec = record { from = λ meta attributes. meta; meta = λ meta. meta; attributes = λ meta. tt }

abbrev meta_of_size : ℕ → ObjectMeta
meta_of_size size = record {
  location = codes "a";
  last_modified = pos 0;
  size = size;
  e_tag = none;
  version = none;
}

abbrev pub state : Memory → Shared Memory
state w = record { perf = default; world = w }

abbrev range : ByteRange
range = record { start = 1; end = 3 }

-- the object `a` of size 5 in parts of 2, and the object `a:` beside it
abbrev two_objects : Memory
two_objects j =
    if text_eq (slot_key (codes "a") 2 head) j
    then some (of_head (meta_of_size 5))
    else some (of_bytes [])

read_part-save_part_example :
    let s' =
      (save_part memory codec (entry (codes "a") 4) 0 (codes "data") (state two_objects)).1 in
    ((read_part memory codec (entry (codes "a") 4) 0 range (record s' { perf = default })).0
      ≡ slice_or_error (codes "data") range)
    × ((l : Text) (p : ℕ) (slot : Slot)
        → ◌≢◌ {A = Text × ℕ × Slot} (l, p, slot) (codes "a", 4, part 0)
        → s'.world (slot_key l p slot) ≡ two_objects (slot_key l p slot))
unfolding save_part entry
read_part-save_part_example =
    read_part-save_part memory-Documented codec (codes "a") 4 0 (codes "data") range
      (state two_objects) default refl

delete-Deleted_example :
    let s' = delete memory codec (entry (codes "a") 2) (state two_objects) in
    (s'.world (slot_key (codes "a") 2 head) ≡ none)
    × ((n : ℕ)
        → s'.world (slot_key (codes "a") 2 (part n))
          ≡ (if ltb (n * 2) 5 then none else two_objects (slot_key (codes "a") 2 (part n))))
    × ((l : Text) (p : ℕ) (slot : Slot)
        → ◌≢◌ {A = Text × ℕ} (l, p) (codes "a", 2)
        → s'.world (slot_key l p slot) ≡ two_objects (slot_key l p slot))
unfolding text_eq head_key entry_prefix slatedb_cloudflare.Prelude.decimal
delete-Deleted_example =
    delete-Deleted memory-Documented memory-Deletes codec (codes "a") 2 (meta_of_size 5)
      (state two_objects) (omega arith) (omega arith) refl

slot_key-injective_example : (codes "a" ≡ codes "a") × (◌≡◌ {A = ℕ} 2 2) × (part 7 ≡ part 7)
slot_key-injective_example = slot_key-injective (codes "a") (codes "a") 2 2 (part 7) (part 7) refl

-- A part is stored and read, another is not there, and what is no head is not read as one.
abbrev calls : List (CacheCall (Unit {0}))
calls =
    to_save_part (entry (codes "a") 4) 0 (codes "data")
    ∷ to_read_part (entry (codes "a") 4) 0 range
    ∷ to_read_head (entry (codes "b") 4)
    ∷ to_delete (entry (codes "a") 2)
    ∷ []

after_all-Accounted_example :
    Accounted
      (after_all memory codec calls (new_shared two_objects)).perf
      (fail_in memory codec calls (new_shared two_objects) no_failures)
after_all-Accounted_example = after_all-Accounted memory codec calls two_objects
