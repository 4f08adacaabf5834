-- ===== src/DurableObject/DoCache/Keys.antt =====
-- The keys under which an entry of the cache is stored.
use slatedb_cloudflare.Prelude.{ℕ, Text, codes, [], ◌∷◌, ◌++◌, decimal, length}

abbrev pub cache_prefix : Text
cache_prefix = codes "slatedb-cache:"

-- `format!("{CACHE_PREFIX}{part_size}:{}:{location}:", location.len())`
unfoldable pub entry_prefix : Text → ℕ → Text
entry_prefix location part_size =
    cache_prefix
    ++ (decimal part_size
        ++ (b':' ∷ (decimal (length location) ++ (b':' ∷ (location ++ (b':' ∷ []))))))

unfoldable pub head_key : Text → Text
head_key prefix = prefix ++ codes "head"

unfoldable pub part_key : Text → ℕ → Text
part_key prefix part_number = prefix ++ (codes "part:" ++ decimal part_number)
