-- ===== src/DurableObject/Names.antt =====
-- `validate_database_name`, `route_segments` and `query` of durable-object/src/lib.rs. An error of the
-- crate `worker` is its text.
pub mod Paths
pub mod Addresses
use slatedb_cloudflare.Prelude.{
  ℕ, Text, codes, Bool, true, false, ◌&&◌, ◌||◌, not, Option, none, some, List, [], ◌∷◌, ◌++◌, ◌-◌,
  Result, ok, err, ok_or, ltb, leb, ◌==◌, if◌then◌else◌, text_eq, length, all, trim_start_matches,
  trim_end_matches,
}
use mathlib.Core.Option

-- `u8::is_ascii_alphanumeric`
abbrev pub is_ascii_alphanumeric : ℕ → Bool
is_ascii_alphanumeric byte =
    leb b'0' byte && leb byte b'9'
    || (leb b'a' byte && leb byte b'z' || leb b'A' byte && leb byte b'Z')

abbrev pub is_name_byte : ℕ → Bool
is_name_byte byte = is_ascii_alphanumeric byte || (byte == b'-' || byte == b'_')

abbrev pub is_database_name : Text → Bool
is_database_name name = not (length name == 0) && (leb (length name) 128 && all is_name_byte name)

unfoldable pub validate_database_name : Text → Result Text (Unit {0})
validate_database_name name =
    if is_database_name name then ok tt else err (codes "invalid database name")

abbrev pub onto_first : ℕ → List Text → List Text
onto_first b [] = (b ∷ []) ∷ []
onto_first b (segment ∷ segments) = (b ∷ segment) ∷ segments

-- `split(char)`
unfoldable pub split : ℕ → Text → List Text
split c [] = [] ∷ []
split c (b ∷ s) = let rest = split c s in if b == c then [] ∷ rest else onto_first b rest

-- `trim_matches(char)`
abbrev pub trim_matches : ℕ → Text → Text
trim_matches c s = trim_end_matches c (trim_start_matches c s)

-- whether a list has a text at an index
abbrev pub is_at : List Text → ℕ → Text → Bool
is_at [] i t = false
is_at (s ∷ segments) i t = if i == 0 then text_eq s t else is_at segments (i - 1) t

unfoldable pub route_segments : Text → Result Text (List Text)
route_segments path =
    let segments = split b'/' (trim_matches b'/' path) in
    if ltb (length segments) 4
      || (not (is_at segments 0 (codes "v1")) || not (is_at segments 1 (codes "db")))
    then err (codes "route not found")
    else ok segments

abbrev pub Pairs : Type 0
Pairs = List (Text × Text)

-- `query_pairs().find(|(name, _)| name == …).map(|(_, value)| value)`
unfoldable pub find_pair : Text → Pairs → Option Text
find_pair name [] = none
find_pair name ((candidate, value) ∷ pairs) =
    let rest = find_pair name pairs in if text_eq candidate name then some value else rest

unfoldable pub query : Pairs → Text → Result Text Text
unfolding find_pair
query pairs name = ok_or (find_pair name pairs) (codes "missing query parameter: " ++ name)
