-- ===== src/DurableObject/Names/Addresses.antt =====
-- The segments of the path that addresses an operation of a database.
use slatedb_cloudflare.Prelude.{
  ℕ, ◌≤◌, Text, codes, false, [], ◌∷◌, ◌++◌, List, reverse, All, ok, length, ◌==◌, Bool-cases, inl,
  inr, ◌≡◌, ◌≢◌, refl, ap, sym, text_eq_refl, subst, append_assoc, ◌∙◌, arith, trim_start_matches,
  trim_end_matches,
}
use mathlib.Core.List.{reverse-append, reverse-reverse}
use slatedb_cloudflare.DurableObject.Names.{
  route_segments, trim_matches, validate_database_name, split, onto_first,
}
use slatedb_cloudflare.DurableObject.Names.Paths.{NameByte, validate_database_name-split}

-- the path `/v1/db/{name}/{operation}`, where the last byte of the operation is given apart
abbrev pub address : Text → Text → ℕ → Text
address name operation last = codes "/v1/db/" ++ (name ++ (b'/' ∷ (operation ++ last ∷ [])))

split-name :
    (name tail : Text)
    → All NameByte name
    → split b'/' (name ++ (b'/' ∷ tail)) ≡ name ∷ split b'/' tail
unfolding split
split-name [] tail h = refl
split-name (byte ∷ name) tail h = elim (Bool-cases (byte == b'/')) [
  | inl e ↦ absurd (ground (arith, h))
  | inr e ↦ rw e (ap (onto_first byte) (split-name name tail h.1))
]

length-onto_first : (byte : ℕ) (segments : List Text) → 1 ≤ length (onto_first byte segments)
length-onto_first byte [] = omega arith
length-onto_first byte (segment ∷ segments) = omega arith

length-split : (s : Text) → 1 ≤ length (split b'/' s)
unfolding split
length-split [] = omega arith
length-split (byte ∷ s) = elim (Bool-cases (byte == b'/')) [
  | inl e ↦ rw e (omega arith)
  | inr e ↦ rw e (length-onto_first byte (split b'/' s))
]

-- Only the ends of a path are trimmed.
trim_end-last :
    (s : Text) (last : ℕ) → last ≢ b'/' → trim_end_matches b'/' (s ++ last ∷ []) ≡ s ++ last ∷ []
unfolding trim_end_matches trim_start_matches
trim_end-last s last h =
    let plain : (last == b'/') ≡ false = ground (arith, h) in
    rw (reverse-append s (last ∷ []), plain)
      (ap reverse (sym (reverse-append s (last ∷ []))) ∙ reverse-reverse (s ++ last ∷ []))

trim-address :
    (name operation : Text) (last : ℕ)
    → last ≢ b'/'
    → trim_matches b'/' (address name operation last)
      ≡ codes "v1/db/" ++ (name ++ (b'/' ∷ (operation ++ last ∷ [])))
unfolding trim_start_matches
trim-address name operation last h =
    subst (λ t. trim_end_matches b'/' t ≡ t)
      (ap (λ t. codes "v1/db/" ++ t) (append_assoc name (b'/' ∷ operation) (last ∷ [])))
      (trim_end-last (codes "v1/db/" ++ (name ++ (b'/' ∷ operation))) last h)

-- The path of an operation under a name that is accepted has the version, `db`, the name and the
-- segments of the operation, whatever slashes these hold before the last byte.
pub route_segments-address :
    (name operation : Text) (last : ℕ)
    → validate_database_name name ≡ ok tt
    → last ≢ b'/'
    → route_segments (address name operation last)
      ≡ ok (codes "v1" ∷ codes "db" ∷ name ∷ split b'/' (operation ++ last ∷ []))
unfolding route_segments split
route_segments-address name operation last valid h =
    let (_, _, bytes, _) = validate_database_name-split name valid in
    rw (trim-address name operation last h, split-name name (operation ++ last ∷ []) bytes)
      (ground (
        arith,
        length-split (operation ++ last ∷ []),
        text_eq_refl (codes "v1"),
        text_eq_refl (codes "db"),
      ))
