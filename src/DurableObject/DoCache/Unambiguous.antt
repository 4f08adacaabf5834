-- ===== src/DurableObject/DoCache/Unambiguous.antt =====
-- The keys of durable-object/src/do_cache.rs, by entry and by place in the entry.
use slatedb_cloudflare.Prelude.{
  ℕ, Text, codes, [], ◌∷◌, ◌++◌, append_assoc, decimal, decimal-IsDigit, decimal-injective, IsDigit,
  All, length, ◌≡◌, refl, ap, sym, ◌∙◌, arith,
}
use slatedb_cloudflare.DurableObject.DoCache.{cache_prefix, entry_prefix, head_key, part_key}

-- What is stored under a key of an entry.
pub data Slot : Type 0 where
  head : Slot
  part : ℕ → Slot

abbrev pub slot_key : Text → ℕ → Slot → Text
slot_key location part_size head = head_key (entry_prefix location part_size)
slot_key location part_size (part number) = part_key (entry_prefix location part_size) number

-- Digits up to a colon are read in one way only.
split_colon :
    (ds es rest rest' : Text)
    → All IsDigit ds
    → All IsDigit es
    → ds ++ b':' ∷ rest ≡ es ++ b':' ∷ rest'
    → (ds ≡ es) × (rest ≡ rest')
split_colon [] [] rest rest' h k e = ground arith
split_colon [] (d ∷ es) rest rest' h k e = ground arith
split_colon (d ∷ ds) [] rest rest' h k e = ground arith
split_colon (d ∷ ds) (d' ∷ es) rest rest' h k e =
    ground (arith, split_colon ds es rest rest' h.1 k.1)

split_length :
    (xs ys rest rest' : Text)
    → length xs ≡ length ys
    → xs ++ rest ≡ ys ++ rest'
    → (xs ≡ ys) × (rest ≡ rest')
split_length [] [] rest rest' h e = (refl, e)
split_length [] (y ∷ ys) rest rest' h e = absurd (omega arith)
split_length (x ∷ xs) [] rest rest' h e = absurd (omega arith)
split_length (x ∷ xs) (y ∷ ys) rest rest' h e = ground (arith, split_length xs ys rest rest')

abbrev ending : Slot → Text
ending head = codes "head"
ending (part number) = codes "part:" ++ decimal number

ending-injective : (a b : Slot) → ending a ≡ ending b → a ≡ b
ending-injective head head e = refl
ending-injective head (part n) e = ground arith
ending-injective (part m) head e = ground arith
ending-injective (part m) (part n) e = ap part (decimal-injective m n (ground arith))

-- the key after the prefix of the cache
abbrev body : Text → ℕ → Slot → Text
body location part_size slot =
    decimal part_size
    ++ (b':' ∷ (decimal (length location) ++ (b':' ∷ (location ++ (b':' ∷ ending slot)))))

slot_key-body :
    (location : Text) (part_size : ℕ) (slot : Slot)
    → slot_key location part_size slot ≡ cache_prefix ++ body location part_size slot
unfolding entry_prefix head_key part_key
slot_key-body location part_size head = simp append_assoc
slot_key-body location part_size (part n) = simp append_assoc

body-injective :
    (l l' : Text) (p p' : ℕ) (slot slot' : Slot)
    → body l p slot ≡ body l' p' slot'
    → (l ≡ l') × (p ≡ p') × (slot ≡ slot')
body-injective l l' p p' slot slot' e =
    let sizes =
      split_colon (decimal p) (decimal p') _ _ (decimal-IsDigit p) (decimal-IsDigit p') e in
    let lengths =
      split_colon (decimal (length l)) (decimal (length l')) _ _ (decimal-IsDigit (length l))
        (decimal-IsDigit (length l')) sizes.1 in
    let locations = split_length l l' _ _ (decimal-injective _ _ lengths.0) lengths.1 in
    (
      locations.0,
      decimal-injective p p' sizes.0,
      ending-injective slot slot' (split_length (b':' ∷ []) (b':' ∷ []) _ _ refl locations.1).1,
    )

-- Two keys of the cache are equal only if they are of the same object, under the same part size,
-- and both of the head or both of the same part: whatever bytes the location holds, colons
-- included.
pub slot_key-injective :
    (l l' : Text) (p p' : ℕ) (slot slot' : Slot)
    → slot_key l p slot ≡ slot_key l' p' slot'
    → (l ≡ l') × (p ≡ p') × (slot ≡ slot')
slot_key-injective l l' p p' slot slot' e =
    body-injective l l' p p' slot slot'
      (split_length cache_prefix cache_prefix _ _ refl
        (sym (slot_key-body l p slot) ∙ e ∙ slot_key-body l' p' slot')).1
