-- ===== src/DurableObject/Names/Paths.antt =====
-- Names of databases as segments of paths.
use slatedb_cloudflare.Prelude.{
  ℕ, ◌≤◌, Text, true, [], ◌∷◌, All, all, ok, length, ◌==◌, Bool-cases, inl, inr, ◌≡◌, ◌≢◌, ap,
  arith, text_eq_iff, ◌||◌, not, subst, ltb, List, codes, Bool, false,
}
use slatedb_cloudflare.DurableObject.Names.{
  route_segments, trim_matches, is_at, is_name_byte, validate_database_name, split, onto_first,
}

-- A byte that may stand in the name of a database.
abbrev pub NameByte : ℕ → Type 0
NameByte byte = (byte ≢ b'/') × (byte ≢ b'.') × (byte ≤ b'z')

name_bytes : (name : Text) → all is_name_byte name ≡ true → All NameByte name
name_bytes [] h = tt
name_bytes (byte ∷ name) h = (
  (λ e. absurd (ground arith), λ e. absurd (ground arith), ground arith),
  name_bytes name (ground arith),
)

split-one :
    (byte : ℕ) (name : Text)
    → All NameByte (byte ∷ name)
    → split b'/' (byte ∷ name) ≡ (byte ∷ name) ∷ []
unfolding split
split-one byte [] h = ground (arith, h)
split-one byte (next_byte ∷ name) h = elim (Bool-cases (byte == b'/')) [
  | inl e ↦ absurd (ground (arith, h))
  | inr e ↦ rw e (ap (onto_first byte) (split-one next_byte name h.1))
]

-- A name that is accepted has 1 to 128 bytes, none of them a slash or a dot or beyond ASCII: it is
-- one segment of a path, and neither of the segments that lead elsewhere.
pub validate_database_name-split :
    (name : Text)
    → validate_database_name name ≡ ok tt
    → (1 ≤ length name) × (length name ≤ 128) × All NameByte name × (split b'/' name ≡ name ∷ [])
unfolding validate_database_name
validate_database_name-split [] h = absurd (ground (arith, h))
validate_database_name-split (byte ∷ name) h =
    let bytes = name_bytes (byte ∷ name) (ground (arith, h)) in
    (omega arith, ground (arith, h), bytes, split-one byte name bytes)

-- The segments of a route: a version, the word `db`, the name of a database and an operation.
abbrev pub Routed : List Text → Type 0
Routed segments =
    (name operation : Text) × (tail : List Text) × (segments
      ≡ codes "v1" ∷ codes "db" ∷ name ∷ operation ∷ tail)

abbrev is_unrouted : List Text → Bool
is_unrouted segments =
    ltb (length segments) 4
    || (not (is_at segments 0 (codes "v1")) || not (is_at segments 1 (codes "db")))

routed : (segments : List Text) → is_unrouted segments ≡ false → Routed segments
routed [] h = absurd (ground (arith, h))
routed (a ∷ []) h = absurd (ground (arith, h))
routed (a ∷ b ∷ []) h = absurd (ground (arith, h))
routed (a ∷ b ∷ c ∷ []) h = absurd (ground (arith, h))
routed (a ∷ b ∷ name ∷ operation ∷ tail) h =
    let first = (text_eq_iff a (codes "v1")).0 (ground (arith, h)) in
    let second = (text_eq_iff b (codes "db")).0 (ground (arith, h)) in
    (name, operation, tail, λ i. first i ∷ second i ∷ name ∷ operation ∷ tail)

-- Whatever the path, the segments that are answered are a version, `db`, the name of a database and
-- at least one more: reading the name and the operation from them stays within bounds.
pub route_segments-Routed :
    (path : Text) (segments : List Text) → route_segments path ≡ ok segments → Routed segments
unfolding route_segments
route_segments-Routed path segments h =
    let split_path = split b'/' (trim_matches b'/' path) in
    elim (Bool-cases (is_unrouted split_path)) [
      | inl e ↦ absurd (ground (arith, h, e))
      | inr e ↦ subst Routed (ground (arith, h, e)) (routed split_path e)
    ]
