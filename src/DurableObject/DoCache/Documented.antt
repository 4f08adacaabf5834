-- ===== src/DurableObject/DoCache/Documented.antt =====
-- What is documented of the storage of a Durable Object and the cache relies on, over a view of what it
-- holds: writes are seen by later reads, and touch no key but their own.
use slatedb_cloudflare.Prelude.{
  ℕ, ◌≤◌, Text, Bytes, String, Bool, false, Option, none, some, List, ok, err, text_eq, any, length,
  if◌then◌else◌, ◌≡◌,
}
use slatedb_cloudflare.DurableObject.DoCache.KeyValue.{Storage}

pub data Value (Head : Type 0) : Type 0 where
  of_bytes : Bytes → Value Head
  of_head : Head → Value Head

pub record Documented {W Head : Type 0} (storage : Storage W Head) : Type 0 where
  pub held : W → Text → Option (Value Head)
  pub put_bytes_held :
      (key : Text) (bytes : Bytes) (w : W)
      → (storage.put_bytes key bytes w).0 ≡ ok tt
      → (j : Text)
      → held (storage.put_bytes key bytes w).1 j
        ≡ (if text_eq key j then some (of_bytes bytes) else held w j)
  pub put_bytes_failed :
      (key : Text) (bytes : Bytes) (w : W) (error : String)
      → (storage.put_bytes key bytes w).0 ≡ err error
      → (j : Text) → text_eq key j ≡ false
      → held (storage.put_bytes key bytes w).1 j ≡ held w j
  pub get_bytes_found :
      (key : Text) (bytes : Bytes) (w : W)
      → held w key ≡ some (of_bytes bytes)
      → (storage.get_bytes key w).0 ≡ ok (some bytes)
  pub get_head_found :
      (key : Text) (head : Head) (w : W)
      → held w key ≡ some (of_head head)
      → (storage.get_head key w).0 ≡ ok (some head)
  pub get_head_keeps :
      (key : Text) (w : W) (j : Text) → held (storage.get_head key w).1 j ≡ held w j
  pub delete_held :
      (key : Text) (w : W) (there : Bool)
      → (storage.delete key w).0 ≡ ok there
      → (j : Text) → held (storage.delete key w).1 j ≡ (if text_eq key j then none else held w j)
  pub delete_multiple_held :
      (keys : List Text) (w : W) (deleted : ℕ)
      → (storage.delete_multiple keys w).0 ≡ ok deleted
      → (j : Text)
      → held (storage.delete_multiple keys w).1 j
        ≡ (if any (λ key. text_eq key j) keys then none else held w j)

-- A storage whose deletions succeed. It takes at most 128 keys at once.
pub record Deletes {W Head : Type 0} (storage : Storage W Head) : Type 0 where
  pub delete_succeeds :
      (key : Text) (w : W) → (there : Bool) × ((storage.delete key w).0 ≡ ok there)
  pub delete_multiple_succeeds :
      (keys : List Text) (w : W)
      → length keys ≤ 128
      → (deleted : ℕ) × ((storage.delete_multiple keys w).0 ≡ ok deleted)
