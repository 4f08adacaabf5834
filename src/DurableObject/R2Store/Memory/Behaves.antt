-- ===== src/DurableObject/R2Store/Memory/Behaves.antt =====
-- The bucket in memory behaves as documented: the assumptions on R2 can be met.
use slatedb_cloudflare.Prelude.{
  ℕ, String, Text, Bytes, Bool, true, false, Option, none, some, List, [], ◌∷◌, ok, err, ◌≡◌, refl,
  ap, arith, text_eq, text_eq_iff, Bool-cases, inl, inr, get_elem?, get_elem?-last, if◌then◌else◌,
}
use slatedb_cloudflare.DurableObject.R2Store.Binding.{Object}
use slatedb_cloudflare.DurableObject.R2Store.Documented.{
  Stored, EtagCondition, unconditional, empty, absent, is_at, to_conditional, meets, Documented,
}
use slatedb_cloudflare.DurableObject.R2Store.List.Removal.{Removes}
use slatedb_cloudflare.DurableObject.R2Store.Multipart.Pieces.{gather, Assembles}
use slatedb_cloudflare.DurableObject.R2Store.Memory.{
  Memory, lookup, without, allowed, put_if, get_found, body_of, piece, complete_with, memory,
}

allowed-meets :
    (condition : EtagCondition) (found : Option Stored)
    → allowed (to_conditional condition) found ≡ meets condition found
unfolding text_eq
allowed-meets unconditional found = refl
allowed-meets empty found = refl
allowed-meets absent none = refl
allowed-meets absent (some found) = refl
allowed-meets (is_at etag) none = refl
allowed-meets (is_at etag) (some found) = ground arith

whole :
    (key : Text) (w : Memory) (found : Option Stored) (object : Object) (body : ℕ) (bytes : Bytes)
    → (get_found key found w).0 ≡ ok (some object)
    → object.body ≡ some body
    → (body_of (get_elem? (get_found key found w).1.opened body) (get_found key found w).1).0
      ≡ ok bytes
    → found ≡ some (record { etag = object.etag; bytes = bytes })
whole key w none object body bytes h e f = cc
whole key w (some found) object body bytes h e f =
    ground (arith, get_elem?-last w.opened found.bytes)

keeps :
    (key : Text) (found : Option Stored) (w : Memory)
    → (get_found key found w).1.objects ≡ w.objects
keeps key none w = refl
keeps key (some found) w = refl

body_keeps : (body : Option Bytes) (w : Memory) → (body_of body w).1 ≡ w
body_keeps none w = refl
body_keeps (some bytes) w = refl

put_if-stored :
    (allow : Bool) (key : Text) (bytes : Bytes) (w : Memory) (object : Object)
    → (put_if allow key bytes w).0 ≡ ok (some object)
    → (allow ≡ true)
      × ((j : Text)
          → lookup j (put_if allow key bytes w).1.objects ≡ (
              if text_eq key j
              then some (record { etag = object.etag; bytes = bytes })
              else lookup j w.objects))
unfolding lookup
put_if-stored true key bytes w object h = (refl, λ j. ground arith)
put_if-stored false key bytes w object h = cc

put_if-refused :
    (allow : Bool) (key : Text) (bytes : Bytes) (w : Memory)
    → (put_if allow key bytes w).0 ≡ ok none
    → (allow ≡ false)
      × ((j : Text) → lookup j (put_if allow key bytes w).1.objects ≡ lookup j w.objects)
put_if-refused true key bytes w h = cc
put_if-refused false key bytes w h = (refl, λ j. refl)

put_if-failed :
    (allow : Bool) (key : Text) (bytes : Bytes) (w : Memory) (error : String)
    → (put_if allow key bytes w).0 ≡ err error
    → (j : Text) → text_eq key j ≡ false
    → lookup j (put_if allow key bytes w).1.objects ≡ lookup j w.objects
put_if-failed true key bytes w error h = cc
put_if-failed false key bytes w error h = cc

pub memory-Documented : Documented memory
memory-Documented = record {
  stored = λ w key. lookup key w.objects;
  put_stored = λ key bytes condition w object.
      rw allowed-meets (put_if-stored (meets condition (lookup key w.objects)) key bytes w object);
  put_refused = λ key bytes condition w.
      rw allowed-meets (put_if-refused (meets condition (lookup key w.objects)) key bytes w);
  put_failed = λ key bytes condition w error.
      rw allowed-meets (put_if-failed (meets condition (lookup key w.objects)) key bytes w error);
  get_keeps = λ key w j. ap (lookup j) (keeps key (lookup key w.objects) w);
  body_keeps =
      λ body w j. ap (λ (m : Memory). lookup j m.objects) (body_keeps (get_elem? w.opened body) w);
  body_whole = λ key w object body bytes. whole key w (lookup key w.objects) object body bytes;
}

lookup-without :
    (key j : Text) (objects : List (Text × Stored))
    → lookup j (without key objects) ≡ (if text_eq key j then none else lookup j objects)
unfolding lookup without
lookup-without key j [] = ground arith
lookup-without key j ((k, found) ∷ objects) = elim (Bool-cases (text_eq key j)) [
  | inl same ↦
      let moved : text_eq k key ≡ text_eq k j = ap (text_eq k) ((text_eq_iff key j).0 same) in
      ground (arith, lookup-without key j objects, same, moved)
  | inr other ↦ elim (Bool-cases (text_eq k key)) [
    | inl here ↦
        let moved : text_eq k j ≡ text_eq key j =
          ap (λ t. text_eq t j) ((text_eq_iff k key).0 here) in
        ground (arith, lookup-without key j objects, other, here, moved)
    | inr there ↦ ground (arith, lookup-without key j objects, other, there)
  ]
]

pub memory-Removes : Removes memory-Documented
unfolding memory-Documented
memory-Removes = record {
  delete_stored = λ key w e j. lookup-without key j w.objects;
  delete_other = λ key w error e j other. absurd (ground (arith, e));
  delete_failed = λ key w error e. absurd (ground (arith, e));
}

complete_with-stored :
    (found : Option Bytes) (w : Memory) (object : Object)
    → (complete_with found w).0 ≡ ok object
    → (bytes : Bytes) × (found ≡ some bytes)
      × ((j : Text)
          → lookup j (complete_with found w).1.objects ≡ (
              if text_eq w.resumed j
              then some (record { etag = object.etag; bytes = bytes })
              else lookup j w.objects))
unfolding lookup
complete_with-stored none w object h = cc
complete_with-stored (some bytes) w object h = (bytes, refl, λ j. ground arith)

pub memory-Assembles : Assembles memory-Documented
unfolding memory-Documented
memory-Assembles = record {
  pieces = λ w id. piece w.parts;
  resume_keeps = λ key id w n. refl;
  upload_part_stored = λ key id handle number bytes w part e f. ground arith;
  upload_part_other = λ key id handle number bytes w n e other. ground arith;
  complete_stored = λ key id handle parts w object ascends e f.
      complete_with-stored (gather (piece w.parts) parts) (record w { resumed = key }) object f;
}
