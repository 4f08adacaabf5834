-- ===== src/DurableObject/DbCache.antt =====
-- `QuickDbCache` of durable-object/src/db_cache.rs: SlateDB's cache of decoded blocks, over the crate
-- `quick_cache`.
pub mod Fresh
mod Tests
use slatedb_cloudflare.Prelude.{ℕ, ◌*◌, Text, Option, Exec, pure}

-- What is called of the crate `quick_cache`, which is not in this repository: the cache is given its
-- estimated number of entries, its capacity and the weight of an entry.
pub record QuickCache (S Key Entry : Type 0) : Type 0 where
  pub with_weighter : (estimated capacity : ℕ) → (Key → Entry → ℕ) → S
  pub get : Key → S → Option Entry × S
  pub insert : Key → Entry → S → S
  pub remove : Key → S → S
  pub len : S → ℕ

abbrev pub cache_bytes : ℕ
cache_bytes = 4 * 1024 * 1024

abbrev pub estimated_entries : ℕ
estimated_entries = 4096

-- `EntryWeighter`, over the `size` of an entry
abbrev pub weight : {Key Entry : Type 0} → (Entry → ℕ) → Key → Entry → ℕ
weight size key value = size value

-- An error of SlateDB is its text; no method makes one.
module _ {S Key Entry : Type 0} (entries : QuickCache S Key Entry) where
  unfoldable pub new : (Entry → ℕ) → S
  new size = entries.with_weighter estimated_entries cache_bytes (weight size)

  abbrev get : Key → S → Option Entry × S
  get key s = entries.get key s

  unfoldable pub get_block : Key → Exec S Text (Option Entry)
  get_block key s = let (entry, s') = get key s in pure entry s'

  unfoldable pub get_index : Key → Exec S Text (Option Entry)
  get_index key s = let (entry, s') = get key s in pure entry s'

  unfoldable pub get_filter : Key → Exec S Text (Option Entry)
  get_filter key s = let (entry, s') = get key s in pure entry s'

  unfoldable pub get_stats : Key → Exec S Text (Option Entry)
  get_stats key s = let (entry, s') = get key s in pure entry s'

  unfoldable pub insert : Key → Entry → S → S
  insert key value s = entries.insert key value s

  unfoldable pub remove : Key → S → S
  remove key s = entries.remove key s

  unfoldable pub entry_count : S → ℕ
  entry_count s = entries.len s
