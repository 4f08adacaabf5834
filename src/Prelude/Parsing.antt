-- ===== src/Prelude/Parsing.antt =====
-- `str::parse` reads back what `Display` writes.
use Prim.Native.Nat.{ℕ, ◌+◌, ◌-◌, ◌*◌, ◌≤◌, ◌<◌}
use mathlib.Core.List.{[], ◌∷◌}
use mathlib.Core.Logic.{◌≢◌}
use mathlib.Core.Path.{◌≡◌, refl, ap, ◌∙◌}
use native.Mathlib.Omega.{arith}
use slatedb_cloudflare.Prelude.Lists.{All}
use slatedb_cloudflare.Prelude.Results.{ok}
use slatedb_cloudflare.Prelude.Texts.{Text}
use slatedb_cloudflare.Prelude.Decimal.{
  decimal, value, value-decimal, IsDigit, decimal-IsDigit, decimal-nonempty,
}
use slatedb_cloudflare.Prelude.Numerals.{parse_digits, parse_unsigned}

le-value : (n : ℕ) (ds : Text) → n ≤ value n ds
unfolding value
le-value n [] = omega arith
le-value n (d ∷ ds) = omega (arith, le-value (n * 10 + (d - 48)) ds)

parse_digits-value :
    (bound n : ℕ) (ds : Text)
    → All IsDigit ds
    → value n ds < bound
    → parse_digits bound n ds ≡ ok (value n ds)
unfolding parse_digits value
parse_digits-value bound n [] digits h = refl
parse_digits-value bound n (d ∷ ds) digits h =
    let next = n * 10 + (d - 48) in
    ground (arith, digits, h, le-value next ds, parse_digits-value bound next ds digits.1 h)

parse_unsigned-digits :
    (bound : ℕ) (ds : Text)
    → ds ≢ []
    → All IsDigit ds
    → parse_unsigned bound ds ≡ parse_digits bound 0 ds
unfolding parse_unsigned
parse_unsigned-digits bound [] some_digit digits = absurd (some_digit refl)
parse_unsigned-digits bound (d ∷ []) some_digit digits = ground (arith, digits)
parse_unsigned-digits bound (d ∷ e ∷ ds) some_digit digits = ground (arith, digits)

-- A number below the bound is parsed from its decimal digits.
pub parse_unsigned-decimal : (bound n : ℕ) → n < bound → parse_unsigned bound (decimal n) ≡ ok n
parse_unsigned-decimal bound n h =
    parse_unsigned-digits bound (decimal n) (decimal-nonempty n) (decimal-IsDigit n)
    ∙ (parse_digits-value bound 0 (decimal n) (decimal-IsDigit n) (rw (value-decimal n) h)
        ∙ ap ok (value-decimal n))
