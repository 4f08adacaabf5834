-- ===== src/DurableObject/DoCache/KeyValue.antt =====
-- The storage of a Durable Object (the crate `worker`) and the head of a cached object (the crate
-- `slatedb`), which are not in this repository: the calls that durable-object/src/do_cache.rs makes. A
-- `worker::Error` is its text.
use slatedb_cloudflare.Prelude.{ℕ, Text, Bytes, String, Bool, Option, List, Result}
use slatedb_cloudflare.ObjectStore.{ObjectMeta}

-- `LocalCacheHead` and `Attributes`, and the conversions between them and an `ObjectMeta`.
pub record HeadCodec (Head Attributes : Type 0) : Type 0 where
  pub from : ObjectMeta → Attributes → Head
  pub meta : Head → ObjectMeta
  pub attributes : Head → Attributes

abbrev pub Call : Type 0 → Type 0 → Type 0
Call W A = W → Result String A × W

pub record Storage (W Head : Type 0) : Type 0 where
  -- `put` of a byte string and of a head
  pub put_bytes : Text → Bytes → Call W (Unit {0})
  pub put_head : Text → Head → Call W (Unit {0})
  -- `get::<ByteBuf>` and `get::<LocalCacheHead>`; a value of another type is an error
  pub get_bytes : Text → Call W (Option Bytes)
  pub get_head : Text → Call W (Option Head)
  -- `delete`, which tells whether the key was there, and `delete_multiple`, which counts them
  pub delete : Text → Call W Bool
  pub delete_multiple : List Text → Call W ℕ
  pub delete_all : Call W (Unit {0})
  -- `list_with_options(prefix, limit)`: the number of entries
  pub list_size : Text → ℕ → Call W ℕ
  -- `sql().database_size()`
  pub database_size : W → ℕ
