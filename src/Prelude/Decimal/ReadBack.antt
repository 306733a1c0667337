-- ===== src/Prelude/Decimal/ReadBack.antt =====
-- What `to_string` prints, `parse` reads back.
use Prim.Native.Nat.{ℕ, zero, suc, ◌+◌, ◌-◌, ◌*◌, ◌/◌, ◌%◌, ◌≤◌, ◌<◌}
use mathlib.Core.Path.{◌≡◌, refl, ap, ◌∙◌}
use mathlib.Core.Logic.{inl, inr, ◌⊎◌, ◌≢◌}
use mathlib.Core.Option.{some}
use mathlib.Core.List.{[], ◌∷◌}
use native.Mathlib.Omega.{arith}
use qcore_rs.Prelude.Tests.{ltb, Bool-cases}
use qcore_rs.Prelude.Strings.{Text}
use qcore_rs.Prelude.Lists.{All}
use qcore_rs.Prelude.Decimal.{digits, decimal, scan, parse_uint}

abbrev pub IsDigit : ℕ → Type 0
IsDigit c = (b'0' ≤ c) × (c ≤ b'9')

scan_digit :
    (top n d : ℕ) (rest : Text)
    → d < 10
    → n * 10 + d ≤ top
    → scan top n ((b'0' + d) ∷ rest) ≡ scan top (n * 10 + d) rest
unfolding scan
scan_digit top n d rest h fits = let e : b'0' + d - b'0' ≡ d = omega arith in ground (arith, e)

digits_small : (fuel n : ℕ) (out : Text) → n < 10 → digits (suc fuel) n out ≡ (b'0' + n) ∷ out
unfolding digits
digits_small fuel n out h = ground arith

digits_large :
    (fuel n : ℕ) (out : Text)
    → 10 ≤ n
    → digits (suc fuel) n out ≡ digits fuel (n / 10) ((b'0' + n % 10) ∷ out)
unfolding digits
digits_large fuel n out h = ground arith

scan-digits :
    (top fuel n : ℕ) (out : Text)
    → n ≤ fuel
    → n ≤ top
    → scan top 0 (digits fuel n out) ≡ scan top n out
unfolding digits
scan-digits top zero n out h fits =
    let e : n % 10 ≡ 0 * 10 + n = omega arith in
    scan_digit top 0 (n % 10) out (omega arith) (omega arith)
    ∙ ap (λ (k : ℕ). scan top k out) (omega arith)
scan-digits top (suc fuel) n out h fits = elim (Bool-cases (ltb n 10)) [
  | inl small ↦ rw (digits_small fuel n out (ground arith)) (
      scan_digit top 0 n out (ground arith) (omega arith)
      ∙ ap (λ (k : ℕ). scan top k out) (omega arith))
  | inr large ↦ rw (digits_large fuel n out (ground arith)) (
      scan-digits top fuel (n / 10) ((b'0' + n % 10) ∷ out) (ground arith) (omega arith)
      ∙ scan_digit top (n / 10) (n % 10) out (omega arith) (omega arith)
      ∙ ap (λ (k : ℕ). scan top k out) (omega arith))
]

-- The first digit is 0 only of the number 0, which has one digit.
abbrev pub LeadsWell : Text → Type 0
LeadsWell [] = ⊥
LeadsWell (c ∷ []) = Unit
LeadsWell (c ∷ (d ∷ rest)) = c ≢ b'0'

digits-LeadsWell :
    (fuel n : ℕ) (out : Text) → n ≤ fuel → (out ≡ []) ⊎ (0 < n) → LeadsWell (digits fuel n out)
unfolding digits
digits-LeadsWell zero n [] h p = tt
digits-LeadsWell zero n (c ∷ out) h (inl e) = absurd (cc)
digits-LeadsWell zero n (c ∷ out) h (inr p) = absurd (omega arith)
digits-LeadsWell (suc fuel) n out h p = elim (Bool-cases (ltb n 10)) [
  | inl small ↦ rw (digits_small fuel n out (ground arith)) (leads out p)
  | inr large ↦
      rw (digits_large fuel n out (ground arith))
        (digits-LeadsWell fuel (n / 10) ((b'0' + n % 10) ∷ out) (ground arith) (inr (ground arith)))
]
  where
    leads : (out : Text) → (out ≡ []) ⊎ (0 < n) → LeadsWell ((b'0' + n) ∷ out)
    leads [] p = tt
    leads (c ∷ out) (inl e) = absurd (cc)
    leads (c ∷ out) (inr p) = λ e. omega arith

digits-IsDigit :
    (fuel n : ℕ) (out : Text) → All IsDigit out → n ≤ fuel → All IsDigit (digits fuel n out)
unfolding digits
digits-IsDigit zero n out a h = ((omega arith, omega arith), a)
digits-IsDigit (suc fuel) n out a h = elim (Bool-cases (ltb n 10)) [
  | inl small ↦ rw (digits_small fuel n out (ground arith)) (((omega arith, ground arith), a))
  | inr large ↦ rw (digits_large fuel n out (ground arith)) (
      digits-IsDigit fuel (n / 10) ((b'0' + n % 10) ∷ out) ((omega arith, omega arith), a)
        (ground arith))
]

pub decimal-IsDigit : (n : ℕ) → All IsDigit (decimal n)
unfolding decimal
decimal-IsDigit n = digits-IsDigit n n [] tt (omega arith)

pub decimal-LeadsWell : (n : ℕ) → LeadsWell (decimal n)
unfolding decimal
decimal-LeadsWell n = digits-LeadsWell n n [] (omega arith) (inl refl)

parse_uint-scan :
    (top : ℕ) (text : Text)
    → LeadsWell text
    → All IsDigit text
    → parse_uint top text ≡ scan top 0 text
unfolding parse_uint
parse_uint-scan top [] w a = absurd w
parse_uint-scan top (c ∷ []) w a = refl
parse_uint-scan top (c ∷ (d ∷ rest)) w a = let digit : b'0' ≤ c = a.0.0 in ground arith

-- A number up to `top` is read back from its decimal print.
pub parse_uint-decimal : (top n : ℕ) → n ≤ top → parse_uint top (decimal n) ≡ some n
unfolding decimal scan
parse_uint-decimal top n fits =
    parse_uint-scan top (decimal n) (decimal-LeadsWell n) (decimal-IsDigit n)
    ∙ scan-digits top n n [] (omega arith) fits
