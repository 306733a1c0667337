-- ===== src/Contract/Field.antt =====
-- `FieldValue` and `FieldArg` of src/contract.rs.
use qcore_rs.Prelude.{
  ℕ, zero, suc, ◌+◌, ◌-◌, ◌/◌, ◌%◌, ◌^◌, ◌<◌, ◌≡◌, refl, ap, [], ◌∷◌, ◌++◌, Result, ok, err, ltb,
  if◌then◌else◌, length, take, arith, Bytes, min, length-append,
}
use qcore_rs.Contract.Word.{be_bytes, length-be_bytes}

-- `WORD` and `NAME_WINDOW`
abbrev pub word_bytes : ℕ
word_bytes = 8

abbrev pub name_window : ℕ
name_window = 32

pub data FieldValue : Type 0 where
  word : ℕ → FieldValue
  wide address name : Bytes → FieldValue

pub record FieldArg : Type 0 where
  pub offset : ℕ
  pub value : FieldValue

pub data FieldError : Type 0 where
  label_too_long : FieldError

-- `FieldValue::wide`
unfoldable pub wide_value : ℕ → FieldValue
unfolding be_bytes
wide_value value =
    FieldValue.wide (be_bytes 8 (value % 2 ^ 64) ++ be_bytes 8 (value / 2 ^ 64 % 2 ^ 64))

abbrev pub zeroes : ℕ → Bytes
zeroes zero = []
zeroes (suc n) = 0 ∷ zeroes n

-- `FieldValue::bytes`; a label longer than its window is cut to it
unfoldable pub bytes : FieldValue → Bytes
unfolding be_bytes
bytes (FieldValue.word w) = be_bytes 8 w
bytes (FieldValue.wide b) = b
bytes (FieldValue.address a) = a
bytes (FieldValue.name label) =
    take name_window label ++ (zeroes (name_window - length label) ++ be_bytes 8 (length label))

abbrev pub width : FieldValue → ℕ
width (FieldValue.word w) = word_bytes
width (FieldValue.wide b) = 16
width (FieldValue.address a) = 32
width (FieldValue.name label) = name_window + word_bytes

unfoldable pub ensure_fits : FieldValue → Result FieldError (Unit {0})
ensure_fits (FieldValue.name label) =
    if ltb name_window (length label) then err FieldError.label_too_long else ok tt
ensure_fits (FieldValue.word w) = ok tt
ensure_fits (FieldValue.wide b) = ok tt
ensure_fits (FieldValue.address a) = ok tt

-- The sizes that the source's types fix: a u64, sixteen bytes, thirty-two bytes.
abbrev pub IsTyped : FieldValue → Type 0
IsTyped (FieldValue.word w) = w < 2 ^ 64
IsTyped (FieldValue.wide b) = length b ≡ 16
IsTyped (FieldValue.address a) = length a ≡ 32
IsTyped (FieldValue.name label) = Unit

pub length-zeroes : (n : ℕ) → length (zeroes n) ≡ n
length-zeroes zero = refl
length-zeroes (suc n) = ap suc (length-zeroes n)

pub length-take : (n : ℕ) (bs : Bytes) → length (take n bs) ≡ min n (length bs)
length-take zero bs = omega arith
length-take (suc n) [] = omega arith
length-take (suc n) (b ∷ bs) = omega (arith, length-take n bs)

-- Every value takes the bytes that its width announces.
pub length-bytes : (v : FieldValue) → IsTyped v → length (bytes v) ≡ width v
unfolding bytes
length-bytes (FieldValue.word w) t = length-be_bytes 8 w
length-bytes (FieldValue.wide b) t = t
length-bytes (FieldValue.address a) t = t
length-bytes (FieldValue.name label) t = omega (
  arith,
  length-append (take name_window label)
      (zeroes (name_window - length label) ++ be_bytes 8 (length label)),
  length-append (zeroes (name_window - length label)) (be_bytes 8 (length label)),
  length-zeroes (name_window - length label),
  length-be_bytes 8 (length label),
  length-take name_window label,
)
