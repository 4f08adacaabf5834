-- ===== src/Container/BindingStore/Ranges.antt =====
-- The header of a range, against what HTTP says of such headers.
use slatedb_cloudflare.Prelude.{
  ℕ, ◌+◌, ◌-◌, ◌<◌, ◌≤◌, Text, codes, [], ◌∷◌, ◌++◌, decimal, decimal-IsDigit, decimal-injective,
  IsDigit, All, ok, Result-cases, inl, inr, ◌≡◌, ◌≢◌, ◌↔◌, decimal-nonempty, drop, refl, sym, ap,
  ◌∙◌, subst, arith,
}
use slatedb_cloudflare.ObjectStore.{ByteRange, GetRange, bounded, offset, suffix, Crate}
use slatedb_cloudflare.Container.BindingStore.{range_text, range_header}
use slatedb_cloudflare.Container.BindingStore.Bridge.{Client}

-- A range that `GetRange::is_valid` accepts is not empty.
abbrev pub AcceptsNonempty : Crate → Type 0
AcceptsNonempty crate =
    (range : ByteRange) → crate.is_valid (bounded range) ≡ ok tt → range.start < range.end

-- A range of bytes in HTTP: from a first position through a last one, from a position on, or so many
-- of the last bytes.
pub data HttpRange : Type 0 where
  first_last : ℕ → ℕ → HttpRange
  first_on last_bytes : ℕ → HttpRange

-- How HTTP writes it.
abbrev pub http_text : HttpRange → Text
http_text (first_last first last) = codes "bytes=" ++ (decimal first ++ b'-' ∷ decimal last)
http_text (first_on first) = codes "bytes=" ++ (decimal first ++ b'-' ∷ [])
http_text (last_bytes count) = codes "bytes=" ++ b'-' ∷ decimal count

-- Whether it selects the byte at a position, of so many bytes.
abbrev pub Selects : HttpRange → ℕ → ℕ → Type 0
Selects (first_last first last) size position = (first ≤ position) × (position ≤ last)
Selects (first_on first) size position = first ≤ position
Selects (last_bytes count) size position = size ≤ position + count

-- Whether a range of the crate asks for the byte.
abbrev pub AsksFor : GetRange → ℕ → ℕ → Type 0
AsksFor (bounded range) size position = (range.start ≤ position) × (position < range.end)
AsksFor (offset start) size position = start ≤ position
AsksFor (suffix count) size position = size ≤ position + count

-- Digits up to a dash are read in one way only.
split_dash :
    (ds es rest rest' : Text)
    → All IsDigit ds
    → All IsDigit es
    → ds ++ b'-' ∷ rest ≡ es ++ b'-' ∷ rest'
    → (ds ≡ es) × (rest ≡ rest')
split_dash [] [] rest rest' h k e = ground arith
split_dash [] (d ∷ es) rest rest' h k e = ground arith
split_dash (d ∷ ds) [] rest rest' h k e = ground arith
split_dash (d ∷ ds) (d' ∷ es) rest rest' h k e = ground (arith, split_dash ds es rest rest' h.1 k.1)

digit-dash : (ds es rest : Text) → All IsDigit ds → ds ≢ [] → ds ++ rest ≡ b'-' ∷ es → ⊥
digit-dash [] es rest h some_digit e = some_digit refl
digit-dash (d ∷ ds) es rest h some_digit e = absurd (ground (arith, h.0))

-- A header is written for one range only.
http_text-injective : (h h' : HttpRange) → http_text h ≡ http_text h' → h ≡ h'
http_text-injective (first_last first last) (first_last first' last') e =
    let parts =
      split_dash (decimal first) (decimal first') _ _ (decimal-IsDigit first)
        (decimal-IsDigit first') (ap (drop 6) e) in
    λ i.
      first_last (decimal-injective first first' parts.0 i) (decimal-injective last last' parts.1 i)
http_text-injective (first_last first last) (first_on start) e = absurd (
    decimal-nonempty _
      (split_dash (decimal first) (decimal start) _ _ (decimal-IsDigit first)
        (decimal-IsDigit start) (ap (drop 6) e)).1)
http_text-injective (first_last first last) (last_bytes count) e =
    absurd (digit-dash _ _ _ (decimal-IsDigit first) (decimal-nonempty first) (ap (drop 6) e))
http_text-injective (first_on start) (first_last first last) e = absurd (
    decimal-nonempty _ (
      sym
        (split_dash (decimal start) (decimal first) _ _ (decimal-IsDigit start)
          (decimal-IsDigit first) (ap (drop 6) e)).1))
http_text-injective (first_on start) (first_on start') e = ap first_on (
    decimal-injective start start'
      (split_dash (decimal start) (decimal start') [] [] (decimal-IsDigit start)
        (decimal-IsDigit start') (ap (drop 6) e)).0)
http_text-injective (first_on start) (last_bytes count) e =
    absurd (digit-dash _ _ _ (decimal-IsDigit start) (decimal-nonempty start) (ap (drop 6) e))
http_text-injective (last_bytes count) (first_last first last) e =
    absurd (digit-dash _ _ _ (decimal-IsDigit first) (decimal-nonempty first) (ap (drop 6) (sym e)))
http_text-injective (last_bytes count) (first_on start) e =
    absurd (digit-dash _ _ _ (decimal-IsDigit start) (decimal-nonempty start) (ap (drop 6) (sym e)))
http_text-injective (last_bytes count) (last_bytes count') e =
    ap last_bytes (decimal-injective count count' (ap (drop 7) e))

-- A header is that of one range of HTTP, which selects the bytes that are asked for.
abbrev pub Describes : Text → GetRange → Type 0
Describes text range =
    (h : HttpRange) × (text ≡ http_text h)
    × ((h' : HttpRange) → text ≡ http_text h' → h' ≡ h)
    × ((size position : ℕ) → Selects h size position ↔ AsksFor range size position)

written :
    (range : GetRange) (h : HttpRange)
    → range_text range ≡ http_text h
    → ((size position : ℕ) → Selects h size position ↔ AsksFor range size position)
    → Describes (range_text range) range
written range h e selects = (h, e, (λ h' e'. http_text-injective h' h (sym e' ∙ e)), selects)

module _ {W : Type 0} (client : Client W) (accepts : AcceptsNonempty client.crate) where
  range_text-Describes :
      (range : GetRange) → client.crate.is_valid range ≡ ok tt → Describes (range_text range) range
  unfolding range_text
  range_text-Describes (bounded range) valid =
      let nonempty = accepts range valid in
      written (bounded range) (first_last range.start (range.end - 1)) refl (λ size position.
        ((λ h. (h.0, omega (arith, h.1, nonempty))), (λ h. (h.0, omega (arith, h.1)))))
  range_text-Describes (offset start) valid =
      written (offset start) (first_on start) refl (λ size position. ((λ h. h), (λ h. h)))
  range_text-Describes (suffix count) valid =
      written (suffix count) (last_bytes count) refl (λ size position. ((λ h. h), (λ h. h)))

  -- The header of a range that is accepted is that of one range of HTTP and of no other, and of an
  -- object of any size that selects the bytes that the range asks for, when the crate accepts no
  -- empty bounded range.
  pub range_header-Describes :
      (range : GetRange) (text : Text) → range_header client range ≡ ok text → Describes text range
  unfolding range_header
  range_header-Describes range text e = elim (Result-cases (client.crate.is_valid range)) [
    | inr (error, f) ↦ absurd (ground (arith, e, f))
    | inl (_, f) ↦
        let same : range_text range ≡ text = ground (arith, e, f) in
        subst (λ t. Describes t range) same (range_text-Describes range f)
  ]
