-- ===== src/Prelude/Spaces.antt =====
-- `str::trim`: Unicode white space, by its bytes.
use Prim.Native.Nat.{ℕ, zero, suc}
use mathlib.Core.Bool.{Bool, ◌&&◌, ◌||◌}
use mathlib.Core.List.{[], ◌∷◌}
use qcore_rs.Prelude.Tests.{leb, ◌==◌, if◌then◌else◌}
use qcore_rs.Prelude.Strings.{Bytes, Text}
use qcore_rs.Prelude.Lists.{length, drop}

abbrev pub is_ascii_space : ℕ → Bool
is_ascii_space c = c == 32 || leb 9 c && leb c 13

-- U+0085 and U+00A0
abbrev pub is_space_2 : ℕ → ℕ → Bool
is_space_2 a b = a == 194 && (b == 133 || b == 160)

-- U+1680, U+2000 to U+200A, U+2028, U+2029, U+202F, U+205F and U+3000
abbrev pub is_space_3 : ℕ → ℕ → ℕ → Bool
is_space_3 a b c =
    a == 225 && b == 154 && c == 128
    || a == 226 && b == 128 && (leb 128 c && leb c 138 || c == 168 || c == 169 || c == 175)
    || a == 226 && b == 129 && c == 159
    || a == 227 && b == 128 && c == 128

-- how many bytes the white space at the front takes
abbrev pub space_front : Bytes → ℕ
space_front [] = 0
space_front (a ∷ []) = if is_ascii_space a then 1 else 0
space_front (a ∷ (b ∷ [])) = if is_ascii_space a then 1 else if is_space_2 a b then 2 else 0
space_front (a ∷ (b ∷ (c ∷ rest))) =
    if is_ascii_space a then 1 else if is_space_2 a b then 2 else if is_space_3 a b c then 3 else 0

-- the same at the end, of the bytes in reverse
abbrev pub space_back : Bytes → ℕ
space_back [] = 0
space_back (a ∷ []) = if is_ascii_space a then 1 else 0
space_back (b ∷ (a ∷ [])) = if is_ascii_space b then 1 else if is_space_2 a b then 2 else 0
space_back (c ∷ (b ∷ (a ∷ rest))) =
    if is_ascii_space c then 1 else if is_space_2 b c then 2 else if is_space_3 a b c then 3 else 0

-- white space dropped from the front, as long as there is some
unfoldable pub drop_spaces : (Bytes → ℕ) → ℕ → Bytes → Bytes
drop_spaces width zero s = s
drop_spaces width (suc fuel) s = elim (width s) [
  | zero ↦ s
  | suc n ↦ drop_spaces width fuel (drop (suc n) s)
]

abbrev pub reverse_onto : Bytes → Bytes → Bytes
reverse_onto [] out = out
reverse_onto (c ∷ rest) out = reverse_onto rest (c ∷ out)

unfoldable pub trim_start : Text → Text
unfolding drop_spaces
trim_start s = drop_spaces space_front (length s) s

unfoldable pub trim_end : Text → Text
unfolding drop_spaces
trim_end s = reverse_onto (drop_spaces space_back (length s) (reverse_onto s [])) []

unfoldable pub trim : Text → Text
unfolding trim_start trim_end
trim s = trim_end (trim_start s)
