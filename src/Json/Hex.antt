-- ===== src/Json/Hex.antt =====
-- `to_hex` and `from_hex` of src/json.rs.
use mathlib.Core.List.{append-nil}
use qcore_rs.Prelude.{
  ℕ, zero, suc, ◌+◌, ◌-◌, ◌*◌, ◌/◌, ◌%◌, ◌<◌, ◌≡◌, refl, ap, ◌∙◌, ◌&&◌, not, [], ◌∷◌, ◌++◌, Result,
  ok, err, ◌>>=◌, ◌>>◌, refuse, leb, ◌==◌, if◌then◌else◌, length, Bytes, Text, All, arith,
}
use qcore_rs.Prelude.Spaces.{
  trim, trim_start, trim_end, drop_spaces, space_front, space_back, reverse_onto,
}
use qcore_rs.Json.{hex_digit}

pub data HexError : Type 0 where
  odd_length not_hex : HexError

unfoldable pub to_hex : Bytes → Text
to_hex [] = []
to_hex (b ∷ rest) = hex_digit (b / 16) ∷ hex_digit (b % 16) ∷ to_hex rest

unfoldable pub nibble : ℕ → Result HexError ℕ
nibble c =
    if leb b'0' c && leb c b'9'
    then ok (c - b'0')
    else if leb b'a' c && leb c b'f'
    then ok (c - b'a' + 10)
    else if leb b'A' c && leb c b'F'
    then ok (c - b'A' + 10)
    else err HexError.not_hex

-- the loop over the pairs
unfoldable pub pairs : Bytes → Result HexError Bytes
unfolding nibble
pairs [] = ok []
pairs (a ∷ []) = ok []
pairs (a ∷ (b ∷ rest)) = do
  hi ← nibble a
  lo ← nibble b
  out ← pairs rest
  ok ((hi * 16 + lo) ∷ out)

unfoldable pub from_hex : Text → Result HexError Bytes
unfolding trim pairs
from_hex s = do refuse (not (length (trim s) % 2 == 0)) HexError.odd_length; pairs (trim s)

nibble-hex_digit : (n : ℕ) → n < 16 → nibble (hex_digit n) ≡ ok n
unfolding nibble
nibble-hex_digit n h = ground arith

pairs-to_hex : (bs : Bytes) → All (λ b. b < 256) bs → pairs (to_hex bs) ≡ ok bs
unfolding pairs to_hex
pairs-to_hex [] a = refl
pairs-to_hex (b ∷ bs) a =
    let whole : b / 16 * 16 + b % 16 ≡ b = omega arith in
    rw
      (
        nibble-hex_digit (b / 16) (omega (arith, a.0)),
        nibble-hex_digit (b % 16) (omega arith),
        pairs-to_hex bs a.1,
      )
      (ap {B = Result HexError Bytes} (λ (t : ℕ). ok (t ∷ bs)) whole)

length-to_hex : (bs : Bytes) → length (to_hex bs) % 2 ≡ 0
unfolding to_hex
length-to_hex [] = refl
length-to_hex (b ∷ bs) = omega (arith, length-to_hex bs)

-- Hex digits are ASCII and no white space, so there is nothing to trim.
abbrev pub IsInk : ℕ → Type 0
IsInk c = (32 < c) × (c < 128)

pub to_hex-IsInk : (bs : Bytes) → All (λ b. b < 256) bs → All IsInk (to_hex bs)
unfolding to_hex
to_hex-IsInk [] a = tt
to_hex-IsInk (b ∷ bs) a = (
  (ground (arith, a.0), ground (arith, a.0)),
  ((ground arith, ground arith), to_hex-IsInk bs a.1),
)

space_front-ink : (s : Text) → All IsInk s → space_front s ≡ 0
space_front-ink [] a = refl
space_front-ink (x ∷ []) a = ground arith
space_front-ink (x ∷ (y ∷ [])) a = ground arith
space_front-ink (x ∷ (y ∷ (z ∷ s))) a = ground arith

space_back-ink : (s : Text) → All IsInk s → space_back s ≡ 0
space_back-ink [] a = refl
space_back-ink (x ∷ []) a = ground arith
space_back-ink (x ∷ (y ∷ [])) a = ground arith
space_back-ink (x ∷ (y ∷ (z ∷ s))) a = ground arith

drop_spaces-none :
    (width : Bytes → ℕ) (fuel : ℕ) (s : Bytes) → width s ≡ 0 → drop_spaces width fuel s ≡ s
unfolding drop_spaces
drop_spaces-none width zero s h = refl
drop_spaces-none width (suc fuel) s h = ground (arith, h)

reverse_onto-IsInk : (s out : Bytes) → All IsInk s → All IsInk out → All IsInk (reverse_onto s out)
reverse_onto-IsInk [] out a b = b
reverse_onto-IsInk (c ∷ s) out a b = reverse_onto-IsInk s (c ∷ out) a.1 (a.0, b)

reverse_onto-twice :
    (s out more : Bytes) → reverse_onto (reverse_onto s out) more ≡ reverse_onto out (s ++ more)
reverse_onto-twice [] out more = refl
reverse_onto-twice (c ∷ s) out more = reverse_onto-twice s (c ∷ out) more

trim-ink : (s : Text) → All IsInk s → trim s ≡ s
unfolding trim trim_start trim_end
trim-ink s a =
    let back = reverse_onto s [] in
    let front = drop_spaces-none space_front (length s) s (space_front-ink s a) in
    let ends =
      drop_spaces-none space_back (length s) back
        (space_back-ink back (reverse_onto-IsInk s [] a tt)) in
    rw (front, ends) (reverse_onto-twice s [] [] ∙ append-nil s)

-- Bytes are read back from their hex.
pub from_hex-to_hex : (bs : Bytes) → All (λ b. b < 256) bs → from_hex (to_hex bs) ≡ ok bs
unfolding from_hex
from_hex-to_hex bs a =
    let same = trim-ink (to_hex bs) (to_hex-IsInk bs a) in
    rw (same, length-to_hex bs, pairs-to_hex bs a) refl
