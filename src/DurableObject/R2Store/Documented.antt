-- ===== src/DurableObject/R2Store/Documented.antt =====
-- What Cloudflare documents of R2 and the stores rely on, over a view of what a bucket holds: a
-- conditional put is one atomic test-and-write, and a whole read answers the bytes that were put.
use slatedb_cloudflare.Prelude.{
  ℕ, Text, Bytes, codes, Bool, true, false, Option, none, some, ok, err, String, is_none, text_eq,
  if◌then◌else◌, ◌≡◌,
}
use slatedb_cloudflare.DurableObject.R2Store.Binding.{
  Conditional, default_conditional, Object, Bucket,
}

pub record Stored : Type 0 where
  pub etag : Text
  pub bytes : Bytes

-- The conditions that a put of the store can carry: none at all, a condition with no part, that the
-- key is free, that the object has an ETag.
pub data EtagCondition : Type 0 where
  unconditional empty absent : EtagCondition
  is_at : Text → EtagCondition

abbrev pub to_conditional : EtagCondition → Option Conditional
to_conditional unconditional = none
to_conditional empty = some default_conditional
to_conditional absent = some (record default_conditional { etag_does_not_match = some (codes "*") })
to_conditional (is_at etag) = some (record default_conditional { etag_matches = some etag })

-- Whether what a key holds meets a condition.
abbrev pub meets : EtagCondition → Option Stored → Bool
meets unconditional found = true
meets empty found = true
meets absent found = is_none found
meets (is_at etag) none = false
meets (is_at etag) (some found) = text_eq found.etag etag

pub record Documented {W : Type 0} (bucket : Bucket W) : Type 0 where
  pub stored : W → Text → Option Stored
  -- A put that answers an object has found its condition met, and has written that key alone.
  pub put_stored :
      (key : Text) (bytes : Bytes) (condition : EtagCondition) (w : W) (object : Object)
      → (bucket.put key bytes (to_conditional condition) w).0 ≡ ok (some object)
      → (meets condition (stored w key) ≡ true)
        × ((j : Text)
            → stored (bucket.put key bytes (to_conditional condition) w).1 j ≡ (
                if text_eq key j
                then some (record { etag = object.etag; bytes = bytes })
                else stored w j))
  -- A put that answers no object has found its condition failing, and has written nothing.
  pub put_refused :
      (key : Text) (bytes : Bytes) (condition : EtagCondition) (w : W)
      → (bucket.put key bytes (to_conditional condition) w).0 ≡ ok none
      → (meets condition (stored w key) ≡ false)
        × ((j : Text) → stored (bucket.put key bytes (to_conditional condition) w).1 j ≡ stored w j)
  -- A put that fails has written that key at most.
  pub put_failed :
      (key : Text) (bytes : Bytes) (condition : EtagCondition) (w : W) (error : String)
      → (bucket.put key bytes (to_conditional condition) w).0 ≡ err error
      → (j : Text) → text_eq key j ≡ false
      → stored (bucket.put key bytes (to_conditional condition) w).1 j ≡ stored w j
  -- A read without condition and range changes nothing, and its body is what the key held.
  pub get_keeps :
      (key : Text) (w : W) (j : Text) → stored (bucket.get key none none w).1 j ≡ stored w j
  pub body_keeps :
      (body : ℕ) (w : W) (j : Text) → stored (bucket.body_bytes body w).1 j ≡ stored w j
  pub body_whole :
      (key : Text) (w : W) (object : Object) (body : ℕ) (bytes : Bytes)
      → (bucket.get key none none w).0 ≡ ok (some object)
      → object.body ≡ some body
      → (bucket.body_bytes body (bucket.get key none none w).1).0 ≡ ok bytes
      → stored w key ≡ some (record { etag = object.etag; bytes = bytes })
