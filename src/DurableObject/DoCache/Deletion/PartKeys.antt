-- ===== src/DurableObject/DoCache/Deletion/PartKeys.antt =====
-- Which keys of an entry are among its part keys.
use slatedb_cloudflare.Prelude.{
  ◌^◌, ◌-◌, ℕ, zero, suc, ◌+◌, ◌*◌, ◌/◌, ◌<◌, ◌≤◌, Text, true, false, Bool-cases, inl, inr, text_eq,
  text_eq-other, text_eq_refl, any, ltb, ltb→lt, ◌≡◌, ◌≢◌, ◌⊎◌, refl, sym, ap, ◌∙◌, arith,
}
use native.Mathlib.Nat.{le-div_iff_mul-le, div-add-mod, mod-eq_of_lt}
use slatedb_cloudflare.DurableObject.DoCache.{
  part_key, entry_prefix, div_ceil, part_count, part_keys,
}
use slatedb_cloudflare.DurableObject.DoCache.Unambiguous.{Slot, part, slot_key, slot_key-injective}

before_at_after : (n q : ℕ) → (n + 1 ≤ q) ⊎ (n ≡ q) ⊎ (q + 1 ≤ n)
before_at_after n q = ground arith

-- A part has a number below the number of parts if it begins before the size.
ltb-div_ceil :
    (n size part_size : ℕ)
    → 0 < part_size
    → ltb n (div_ceil size part_size) ≡ ltb (n * part_size) size
ltb-div_ceil n size part_size h =
    let below = le-div_iff_mul-le {k = part_size} {x = n + 1} {y = size} h in
    let upto = le-div_iff_mul-le {k = part_size} {x = n} {y = size} h in
    let whole = div-add-mod size part_size in
    elim (before_at_after n (size / part_size)) [
      | inl before ↦ ground (arith, below.0 before)
      | inr (inl at) ↦ ground (arith, whole, ap (λ q. part_size * q) at)
      | inr (inr after) ↦ ground (arith, upto.1, after)
    ]

div_ceil-below :
    (size part_size : ℕ)
    → 0 < part_size
    → size ≤ (2 ^ 32 - 1) * part_size
    → div_ceil size part_size < 2 ^ 32
div_ceil-below size part_size h few =
    let above = ltb-div_ceil (2 ^ 32 - 1) size part_size h in ground (arith, above, few)

-- The number of parts is not cut off where there are fewer than 2 ^ 32.
pub ltb-part_count :
    (n size part_size : ℕ)
    → 0 < part_size
    → size ≤ (2 ^ 32 - 1) * part_size
    → ltb n (part_count size part_size) ≡ ltb (n * part_size) size
ltb-part_count n size part_size h few =
    ap (ltb n) (mod-eq_of_lt (div_ceil-below size part_size h few))
    ∙ ltb-div_ceil n size part_size h

pub part_keys-other :
    (prefix j : Text) (from n : ℕ)
    → ((k : ℕ) → from ≤ k → k < from + n → part_key prefix k ≢ j)
    → any (λ key. text_eq key j) (part_keys prefix from n) ≡ false
part_keys-other prefix j from zero h = refl
part_keys-other prefix j from (suc n) h = ground (
  arith,
  text_eq-other (part_key prefix from) j (h from (omega arith) (omega arith)),
  part_keys-other prefix j (from + 1) n (λ k a b. h k (omega arith) (omega arith)),
)

le_cases : (a b : ℕ) → a ≤ b → (a ≡ b) ⊎ (a + 1 ≤ b)
le_cases a b h = ground arith

part_keys-found :
    (prefix : Text) (from n k : ℕ)
    → from ≤ k
    → k < from + n
    → any (λ key. text_eq key (part_key prefix k)) (part_keys prefix from n) ≡ true
part_keys-found prefix from zero k h g = absurd (omega arith)
part_keys-found prefix from (suc n) k h g = elim (le_cases from k h) [
  | inl e ↦ ground (arith, text_eq_refl (part_key prefix k), ap (part_key prefix) e)
  | inr later ↦ ground (arith, part_keys-found prefix (from + 1) n k later (omega arith))
]

pub slot-other :
    (l l' : Text) (p p' : ℕ) (slot slot' : Slot)
    → ((l ≡ l') × (p ≡ p') × (slot ≡ slot') → ⊥)
    → text_eq (slot_key l p slot) (slot_key l' p' slot') ≡ false
slot-other l l' p p' slot slot' h =
    text_eq-other (slot_key l p slot) (slot_key l' p' slot')
      (λ e. h (slot_key-injective l l' p p' slot slot' e))

pub entry-same :
    (l l' : Text) (p p' : ℕ) (slot slot' : Slot)
    → slot_key l p slot ≡ slot_key l' p' slot'
    → ◌≡◌ {A = Text × ℕ} (l', p') (l, p)
entry-same l l' p p' slot slot' e =
    let same = slot_key-injective l l' p p' slot slot' e in λ i. (sym same.0 i, sym same.1 i)

pub part_keys-part :
    (location : Text) (part_size count n : ℕ)
    → any
        (λ key. text_eq key (slot_key location part_size (part n)))
        (part_keys (entry_prefix location part_size) 0 count)
      ≡ ltb n count
part_keys-part location part_size count n = elim (Bool-cases (ltb n count)) [
  | inl e ↦
      part_keys-found (entry_prefix location part_size) 0 count n (omega arith)
        (omega (arith, ltb→lt n count e))
      ∙ sym e
  | inr e ↦
      part_keys-other (entry_prefix location part_size) (slot_key location part_size (part n)) 0
        count (λ k a b same. absurd (ground (arith, number k same)))
      ∙ sym e
]
  where
    number :
        (k : ℕ)
        → slot_key location part_size (part k) ≡ slot_key location part_size (part n)
        → k ≡ n
    number k same =
        let e =
          (slot_key-injective location location part_size part_size (part k) (part n) same).2 in
        ground (arith, e)
