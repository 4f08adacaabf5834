-- ===== src/Prelude/Numerals.antt =====
-- `str::parse` of Rust for unsigned integers below a bound, with the texts of its errors.
use Prim.Native.Nat.{ℕ, ◌+◌, ◌-◌, ◌*◌}
use Prim.Native.String.{String}
use mathlib.Core.Bool.{Bool, ◌&&◌, not}
use mathlib.Core.List.{[], ◌∷◌}
use slatedb_cloudflare.Prelude.Tests.{leb, ltb, ◌==◌, if◌then◌else◌}
use slatedb_cloudflare.Prelude.Results.{Result, ok, err}
use slatedb_cloudflare.Prelude.Texts.{Text}

-- `format!("{}{}", s, t)`
unfoldable pub append : String → String → String
append String.[] t = t
append (String.◌∷◌ c s) t = String.◌∷◌ c (append s t)

abbrev is_digit : ℕ → Bool
is_digit byte = leb b'0' byte && leb byte b'9'

unfoldable pub parse_digits : ℕ → ℕ → Text → Result String ℕ
parse_digits bound value [] = ok value
parse_digits bound value (byte ∷ text) =
    let next = value * 10 + (byte - b'0') in
    let rest = parse_digits bound next text in
    if not (is_digit byte)
    then err "invalid digit found in string"
    else if ltb next bound
    then rest
    else err "number too large to fit in target type"

unfoldable pub parse_unsigned : ℕ → Text → Result String ℕ
unfolding parse_digits
parse_unsigned bound [] = err "cannot parse integer from empty string"
parse_unsigned bound (byte ∷ []) =
    if byte == b'+' then err "invalid digit found in string" else parse_digits bound 0 (byte ∷ [])
parse_unsigned bound (byte ∷ text) =
    if byte == b'+' then parse_digits bound 0 text else parse_digits bound 0 (byte ∷ text)
