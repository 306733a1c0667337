-- ===== src/Http/Sizes.antt =====
-- `size_of` of src/http.rs: the size that a line of a chunked body gives, on lines as they are written.
use native.Mathlib.Nat.{mul-le-mul_right}
use qcore_rs.Prelude.{
  ℕ, zero, suc, ◌+◌, ◌*◌, ◌≤◌, ◌<◌, ◌≡◌, refl, ap, ◌∙◌, Bool, true, false, not, some, List, [], ◌∷◌,
  ◌++◌, ok, ◌==◌, ◌||◌, ltb, if◌then◌else◌, length, all, Text, All, arith,
}
use qcore_rs.Prelude.Utf8.{start, utf8_run, utf8_step, is_utf8}
use qcore_rs.Json.Parser.{span, to_digit}
use qcore_rs.Http.{
  is_blank, is_hex, trim_back, trim_blank, size_text, hex_value, digit_or_zero, size_of,
}

-- A hexadecimal digit: whether its letter is a capital, and its value.
abbrev pub Digit : Type 0
Digit = Bool × ℕ

abbrev pub digit_char : Digit → ℕ
digit_char (capital, d) = if ltb d 10 then b'0' + d else if capital then 55 + d else 87 + d

abbrev pub written : List Digit → Text
written [] = []
written (d ∷ digits) = digit_char d ∷ written digits

abbrev pub pow16 : ℕ → ℕ
pow16 zero = 1
pow16 (suc n) = 16 * pow16 n

-- The number of the digits, by their places.
abbrev pub worth : List Digit → ℕ
worth [] = 0
worth (d ∷ digits) = d.1 * pow16 (length digits) + worth digits

-- Nothing, or a semicolon and a text without a line break.
abbrev pub IsExtension : Text → Type 0
IsExtension [] = Unit
IsExtension (c ∷ rest) =
    (c ≡ b';') × (utf8_run start rest ≡ some start) × All (λ b. (b == 13) ≡ false) rest

-- The line is one to eight digits of this size, and an extension.
pub record IsSized (line : Text) (size : ℕ) : Type 0 where
  pub digits : List Digit
  pub extension : Text
  pub line_is : line ≡ written digits ++ extension
  pub some_digits : 0 < length digits
  pub few : length digits ≤ 8
  pub under_16 : All (λ d. d.1 < 16) digits
  pub size_is : worth digits ≡ size
  pub extends : IsExtension extension

pow16_le : (n m : ℕ) → n ≤ m → pow16 n ≤ pow16 m
pow16_le zero zero h = omega arith
pow16_le zero (suc m) h = omega (arith, pow16_le zero m (omega arith))
pow16_le (suc n) zero h = absurd (omega (arith, h))
pow16_le (suc n) (suc m) h = omega (arith, pow16_le n m (omega (arith, h)))

worth-bound :
    (digits : List Digit) → All (λ d. d.1 < 16) digits → worth digits < pow16 (length digits)
worth-bound [] a = omega arith
worth-bound (d ∷ digits) a =
    let fits : d.1 ≤ 15 = omega (arith, a.0) in
    omega (arith, mul-le-mul_right (pow16 (length digits)) fits, worth-bound digits a.1)

digit_read : (d : Digit) → d.1 < 16 → to_digit (digit_char d) ≡ some d.1
digit_read (true, d) h = ground arith
digit_read (false, d) h = ground arith

digit_plain :
    (d : Digit)
    → d.1 < 16
    → (is_blank (digit_char d) ≡ false)
      × ((digit_char d == b';') ≡ false)
      × ((digit_char d == 13) ≡ false)
      × (digit_char d < 128)
digit_plain (true, d) h = ground arith
digit_plain (false, d) h = ground arith

hex_value-written :
    (n : ℕ) (digits : List Digit)
    → All (λ d. d.1 < 16) digits
    → hex_value n (written digits) ≡ n * pow16 (length digits) + worth digits
unfolding hex_value
hex_value-written n [] a = omega arith
hex_value-written n (d ∷ digits) a =
    ap (λ o. hex_value (n * 16 + digit_or_zero o) (written digits)) (digit_read d a.0)
    ∙ hex_value-written (n * 16 + d.1) digits a.1
    ∙ omega arith

all-written :
    (digits : List Digit) → All (λ d. d.1 < 16) digits → all is_hex (written digits) ≡ true
all-written [] a = refl
all-written (d ∷ digits) a = rw (is_hex, digit_read d a.0) (all-written digits a.1)

length-written : (digits : List Digit) → length (written digits) ≡ length digits
length-written [] = refl
length-written (d ∷ digits) = ap suc (length-written digits)

span_pass :
    (test : ℕ → Bool) (c : ℕ) (rest : Text)
    → test c ≡ true
    → (span test (c ∷ rest)).0 ≡ c ∷ (span test rest).0
unfolding span
span_pass test c rest h = ground (arith, h)

span_stop :
    (test : ℕ → Bool) (c : ℕ) (rest : Text) → test c ≡ false → span test (c ∷ rest) ≡ ([], c ∷ rest)
unfolding span
span_stop test c rest h = ground (arith, h)

span-written :
    (digits : List Digit) (extension : Text)
    → All (λ d. d.1 < 16) digits
    → IsExtension extension
    → (span (λ c. not (c == b';')) (written digits ++ extension)).0 ≡ written digits
unfolding span
span-written [] [] a e = refl
span-written [] (c ∷ rest) a e = ground (arith, e.0)
span-written (d ∷ digits) extension a e =
    span_pass (λ c. not (c == b';')) (digit_char d) (written digits ++ extension)
      (ap not (digit_plain d a.0).1)
    ∙ ap (λ t. digit_char d ∷ t) (span-written digits extension a.1 e)

trim_back-written :
    (digits : List Digit) → All (λ d. d.1 < 16) digits → trim_back (written digits) ≡ written digits
unfolding trim_back
trim_back-written [] a = refl
trim_back-written (d ∷ []) a = rw ((digit_plain d a.0).0) refl
trim_back-written (d ∷ (e ∷ digits)) a = rw (trim_back-written (e ∷ digits) a.1) refl

utf8_run-sized :
    (digits : List Digit) (extension : Text)
    → All (λ d. d.1 < 16) digits
    → IsExtension extension
    → utf8_run start (written digits ++ extension) ≡ some start
unfolding utf8_run utf8_step
utf8_run-sized [] [] a e = refl
utf8_run-sized [] (c ∷ rest) a e = rw (e.0) (e.1)
utf8_run-sized (d ∷ digits) extension a e =
    ground (arith, (digit_plain d a.0).3, utf8_run-sized digits extension a.1 e)

trim_blank-written :
    (digits : List Digit)
    → All (λ d. d.1 < 16) digits
    → trim_blank (written digits) ≡ written digits
unfolding trim_blank span
trim_blank-written [] a = trim_back-written [] a
trim_blank-written (d ∷ digits) a =
    ap (λ r. trim_back r.1)
      (span_stop is_blank (digit_char d) (written digits) (digit_plain d a.0).0)
    ∙ trim_back-written (d ∷ digits) a

size_of-text :
    (line text : Text)
    → utf8_run start line ≡ some start
    → size_text line ≡ text
    → (length text == 0 || ltb 8 (length text) || not (all is_hex text)) ≡ false
    → size_of line ≡ ok (hex_value 0 text)
unfolding size_of is_utf8 trim_blank
size_of-text line text u t good = rw (u, t, good) refl

-- The code reads the size that the line says.
pub size_of-IsSized : (line : Text) (size : ℕ) → IsSized line size → size_of line ≡ ok size
size_of-IsSized line size s =
    let text = size_text line in
    let read : text ≡ written s.digits =
      ap size_text s.line_is
      ∙ ap trim_blank (span-written s.digits s.extension s.under_16 s.extends)
      ∙ trim_blank-written s.digits s.under_16 in
    let whole =
      ap (utf8_run start) s.line_is ∙ utf8_run-sized s.digits s.extension s.under_16 s.extends in
    let good : (length (written s.digits) == 0
          || ltb 8 (length (written s.digits))
          || not (all is_hex (written s.digits)))
        ≡ false =
      rw (all-written s.digits s.under_16, length-written s.digits)
        (ground (arith, s.some_digits, s.few)) in
    size_of-text line (written s.digits) whole read good
    ∙ ap ok (hex_value-written 0 s.digits s.under_16 ∙ omega (arith, s.size_is))

written-IsLine :
    (digits : List Digit) (extension : Text)
    → All (λ d. d.1 < 16) digits
    → IsExtension extension
    → All (λ b. (b == 13) ≡ false) (written digits ++ extension)
written-IsLine [] [] a e = tt
written-IsLine [] (c ∷ rest) a e = (ground (arith, e.0), e.2)
written-IsLine (d ∷ digits) extension a e =
    ((digit_plain d a.0).2, written-IsLine digits extension a.1 e)

pub sized-IsLine : (line : Text) (size : ℕ) → IsSized line size → All (λ b. (b == 13) ≡ false) line
sized-IsLine line size s = rw s.line_is (written-IsLine s.digits s.extension s.under_16 s.extends)

-- No size of eight digits comes near the greatest u64.
pub size-bound : (line : Text) (size : ℕ) → IsSized line size → size < pow16 8
size-bound line size s =
    omega (arith, worth-bound s.digits s.under_16, pow16_le (length s.digits) 8 s.few, s.size_is)
