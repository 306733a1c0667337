-- ===== src/Prelude/Decimal.antt =====
-- `to_string` and `parse` of the unsigned integers.
pub mod ReadBack
use Prim.Native.Nat.{ℕ, zero, suc, ◌+◌, ◌-◌, ◌*◌, ◌/◌, ◌%◌}
use mathlib.Core.Bool.{Bool, true, false, ◌&&◌, ◌||◌}
use mathlib.Core.Option.{Option, none, some}
use mathlib.Core.List.{List, [], ◌∷◌}
use qcore_rs.Prelude.Tests.{ltb, leb, ◌==◌, if◌then◌else◌}
use qcore_rs.Prelude.Strings.{Bytes, Text, is_ascii_digit}

-- the digits of a number in front of `out`; as many rounds as the number are enough
unfoldable pub digits : ℕ → ℕ → Text → Text
digits zero n out = (b'0' + n % 10) ∷ out
digits (suc fuel) n out = elim (ltb n 10) [
  | true ↦ (b'0' + n) ∷ out
  | false ↦ digits fuel (n / 10) ((b'0' + n % 10) ∷ out)
]

unfoldable pub decimal : ℕ → Text
unfolding digits
decimal n = digits n n []

-- the digits of `text` behind the number read so far, none over `top` or at another character
unfoldable pub scan : ℕ → ℕ → Text → Option ℕ
scan top n [] = some n
scan top n (c ∷ rest) = elim (is_ascii_digit c && leb (n * 10 + (c - b'0')) top) [
  | true ↦ scan top (n * 10 + (c - b'0')) rest
  | false ↦ none
]

-- `parse::<u..>()`: one sign `+` may stand before the digits
unfoldable pub parse_uint : ℕ → Text → Option ℕ
unfolding scan
parse_uint top [] = none
parse_uint top (c ∷ []) = scan top 0 (c ∷ [])
parse_uint top (c ∷ (d ∷ rest)) =
    if c == b'+' then scan top 0 (d ∷ rest) else scan top 0 (c ∷ d ∷ rest)
