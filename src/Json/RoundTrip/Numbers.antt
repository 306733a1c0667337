-- ===== src/Json/RoundTrip/Numbers.antt =====
-- A number is read back from its decimal print, in front of what may follow a value.
use qcore_rs.Prelude.{
  ℕ, ◌≤◌, ◌≡◌, refl, false, [], ◌∷◌, ◌++◌, ok, ◌==◌, Bytes, Text, arith, ◌⊎◌, All, All-imp,
  is_ascii_digit, u64_max,
}
use qcore_rs.Prelude.Decimal.{decimal}
use qcore_rs.Prelude.Decimal.ReadBack.{
  IsDigit, LeadsWell, decimal-IsDigit, decimal-LeadsWell, parse_uint-decimal,
}
use qcore_rs.Json.{Json}
use qcore_rs.Json.Parser.{span, number_text, read_number, number, starts_fraction, leads_zero}
use qcore_rs.Json.RoundTrip.Strings.{span_run, span_all}

-- What follows a value: nothing, a comma or a closing bracket.
abbrev pub Stops : Bytes → Type 0
Stops [] = Unit
Stops (c ∷ rest) = (c ≡ b',') ⊎ ((c ≡ b']') ⊎ (c ≡ b'}'))

pub leads_zero-LeadsWell : (text : Text) → LeadsWell text → leads_zero text ≡ false
leads_zero-LeadsWell [] w = refl
leads_zero-LeadsWell (c ∷ []) w = refl
leads_zero-LeadsWell (c ∷ (d ∷ rest)) w = ground (arith, w)

starts_fraction-Stops : (rest : Bytes) → Stops rest → starts_fraction rest ≡ false
starts_fraction-Stops [] s = refl
starts_fraction-Stops (c ∷ rest) s = ground arith

span_digits :
    (text : Text) (rest : Bytes)
    → All IsDigit text
    → Stops rest
    → span is_ascii_digit (text ++ rest) ≡ (text, rest)
span_digits text [] a s = span_all is_ascii_digit text (All-imp (λ c d. ground arith) text a)
span_digits text (c ∷ rest) a s =
    span_run is_ascii_digit text c rest (All-imp (λ x d. ground arith) text a) (ground arith)

number_text_digits :
    (text : Text) (rest : Bytes)
    → LeadsWell text
    → All IsDigit text
    → Stops rest
    → number_text (text ++ rest) ≡ (text, rest)
unfolding number_text
number_text_digits [] rest w a s = absurd w
number_text_digits (c ∷ text) rest w a s =
    let whole = span_digits (c ∷ text) rest a s in
    let digit : b'0' ≤ c = a.0.0 in
    let other : (c == b'-') ≡ false = ground arith in rw (other) whole

pub number-decimal :
    (n : ℕ) (rest : Bytes)
    → n ≤ u64_max
    → Stops rest
    → number (decimal n ++ rest) ≡ ok (Json.int n, rest)
unfolding number read_number
number-decimal n rest h s =
    let text = number_text_digits (decimal n) rest (decimal-LeadsWell n) (decimal-IsDigit n) s in
    rw
      (
        text,
        starts_fraction-Stops rest s,
        leads_zero-LeadsWell (decimal n) (decimal-LeadsWell n),
        parse_uint-decimal u64_max n h,
      )
      refl

-- The first byte of a number.
pub decimal_first : (n : ℕ) → (c : ℕ) × (rest : Text) × (decimal n ≡ c ∷ rest) × IsDigit c
decimal_first n = first (decimal n) (decimal-LeadsWell n) (decimal-IsDigit n)
  where
    first :
        (text : Text)
        → LeadsWell text
        → All IsDigit text
        → (c : ℕ) × (rest : Text) × (text ≡ c ∷ rest) × IsDigit c
    first [] w a = absurd w
    first (c ∷ rest) w a = (c, rest, refl, a.0)
