-- ===== src/Json/Parser/Steps.antt =====
-- Each part of a value takes some input, or is refused for what it says.
use qcore_rs.Prelude.{
  ℕ, zero, suc, ◌+◌, ◌*◌, ◌-◌, ◌≤◌, ◌<◌, ◌≡◌, ◌≢◌, Bool, true, false, ◌&&◌, ◌||◌, Option, none,
  some, [], ◌∷◌, ◌++◌, Result, ok, err, ◌>>=◌, ◌>>◌, refuse, ok_or, not, ◌==◌, if◌then◌else◌,
  list_eq, nat_eq, length, drop, Bytes, Text, arith, inl, inr, Bool-cases, Option-cases,
  is_ascii_digit, u64_max, codes,
}
use qcore_rs.Prelude.Utf8.{is_utf8, char_from_u32}
use qcore_rs.Prelude.Decimal.{parse_uint}
use qcore_rs.Json.{Json}
use qcore_rs.Json.Parser.{
  Parser, JsonError, skip_ws, span, is_plain, to_digit, hex_digits, hex4, surrogate_pair,
  unicode_char, in_range, with_char, escape, after_run, string_loop, string, number_text,
  read_number, literal, or_else, boolean, null, starts_fraction, leads_zero,
}

-- A result that leaves less than `bound`, or an error that is not of the fuel.
abbrev pub Steps {ℓ} : {A : Type ℓ} → ℕ → Result JsonError (A × Bytes) → Type 0
Steps bound (ok a) = length a.1 < bound
Steps bound (err e) = e ≢ JsonError.out_of_fuel

pub Steps-weaken {ℓ} :
    {A : Type ℓ} (n m : ℕ) (r : Result JsonError (A × Bytes)) → n ≤ m → Steps n r → Steps m r
Steps-weaken n m (ok a) h s = omega arith
Steps-weaken n m (err e) h s = s

pub Steps-bind {ℓ κ} :
    {A : Type ℓ} {B : Type κ} (n m : ℕ) (r : Result JsonError (A × Bytes))
    (f : A × Bytes → Result JsonError (B × Bytes))
    → Steps n r
    → ((a : A × Bytes) → length a.1 < n → Steps m (f a))
    → Steps m (r >>= f)
Steps-bind n m (ok a) f s k = k a s
Steps-bind n m (err e) f s k = s

pub Steps-refuse {ℓ} :
    {A : Type ℓ} (m : ℕ) (test : Bool) (e : JsonError) (r : Result JsonError (A × Bytes))
    → e ≢ JsonError.out_of_fuel
    → Steps m r
    → Steps m (refuse test e >> r)
Steps-refuse m true e r h s = h
Steps-refuse m false e r h s = s

pub Steps-if {ℓ} :
    {A : Type ℓ} (m : ℕ) (test : Bool) (r s : Result JsonError (A × Bytes))
    → Steps m r
    → Steps m s
    → Steps m (if test then r else s)
Steps-if m true r s a b = a
Steps-if m false r s a b = b

pub length-skip_ws : (input : Bytes) → length (skip_ws input) ≤ length input
unfolding skip_ws
length-skip_ws [] = omega arith
length-skip_ws (c ∷ rest) = ground (arith, length-skip_ws rest)

pub length-drop : (input : Bytes) → length (drop 1 input) ≤ length input
length-drop [] = omega arith
length-drop (c ∷ rest) = omega arith

length-span : (test : ℕ → Bool) (input : Bytes) → length (span test input).1 ≤ length input
unfolding span
length-span test [] = omega arith
length-span test (c ∷ rest) = elim (Bool-cases (test c)) [
  | inl plain ↦ ground (arith, plain, length-span test rest)
  | inr other ↦ ground (arith, other)
]

hex_digits-Steps :
    (left code : ℕ) (input : Bytes) → Steps (suc (length input)) (hex_digits left code input)
unfolding hex_digits
hex_digits-Steps zero code input = omega arith
hex_digits-Steps (suc left) code [] = λ e. cc
hex_digits-Steps (suc left) code (c ∷ rest) = elim (Option-cases (to_digit c)) [
  | inl bad ↦ rw bad (λ e. cc)
  | inr (digit, at) ↦ rw at (
      Steps-weaken (suc (length rest)) (suc (length (c ∷ rest)))
        (hex_digits left (code * 16 + digit) rest) (omega arith)
        (hex_digits-Steps left (code * 16 + digit) rest))
]

with_char-Steps :
    (m : ℕ) (o : Option Bytes) (rest : Bytes) → length rest < m → Steps m (with_char o rest)
with_char-Steps m none rest h = λ e. cc
with_char-Steps m (some char) rest h = h

surrogate_pair-Steps :
    (hi : ℕ) (input : Bytes) → Steps (suc (length input)) (surrogate_pair hi input)
unfolding surrogate_pair hex4
surrogate_pair-Steps hi [] = λ e. cc
surrogate_pair-Steps hi (c ∷ []) = λ e. cc
surrogate_pair-Steps hi (c ∷ (u ∷ rest)) = elim (Bool-cases (c == 92 && u == b'u')) [
  | inl low ↦ rw low (
      Steps-bind (suc (length rest)) (suc (length (c ∷ u ∷ rest))) (hex_digits 4 0 rest) _
        (hex_digits-Steps 4 0 rest)
        (λ a h.
          Steps-refuse (suc (length (c ∷ u ∷ rest))) (not (in_range 56_320 57_343 a.0))
            JsonError.bad_surrogate_pair
            (with_char (char_from_u32 (65_536 + (hi - 55_296) * 1_024 + (a.0 - 56_320))) a.1)
            (λ e. cc)
            (with_char-Steps (suc (length (c ∷ u ∷ rest)))
              (char_from_u32 (65_536 + (hi - 55_296) * 1_024 + (a.0 - 56_320))) a.1 (omega arith))))
  | inr other ↦ rw other (λ e. cc)
]

unicode_char-Steps : (input : Bytes) → Steps (suc (length input)) (unicode_char input)
unfolding unicode_char hex4
unicode_char-Steps input =
    Steps-bind (suc (length input)) (suc (length input)) (hex_digits 4 0 input) _
      (hex_digits-Steps 4 0 input)
      (λ a h.
        Steps-if (suc (length input)) (in_range 55_296 56_319 a.0) (surrogate_pair a.0 a.1) _
          (Steps-weaken (suc (length a.1)) (suc (length input)) (surrogate_pair a.0 a.1)
            (omega arith) (surrogate_pair-Steps a.0 a.1))
          (Steps-if (suc (length input)) (in_range 56_320 57_343 a.0) _
            (with_char (char_from_u32 a.0) a.1) (λ e. cc)
            (with_char-Steps (suc (length input)) (char_from_u32 a.0) a.1 h)))

escape-Steps : (input : Bytes) → Steps (suc (length input)) (escape input)
unfolding escape
escape-Steps [] = λ e. cc
escape-Steps (c ∷ rest) =
    let n = suc (length (c ∷ rest)) in
    Steps-if n (c == 34) _ _ (omega arith) (
      Steps-if n (c == 92) _ _ (omega arith) (
        Steps-if n (c == b'/') _ _ (omega arith) (
          Steps-if n (c == b'n') _ _ (omega arith) (
            Steps-if n (c == b'r') _ _ (omega arith) (
              Steps-if n (c == b't') _ _ (omega arith) (
                Steps-if n (c == b'b') _ _ (omega arith) (
                  Steps-if n (c == b'f') _ _ (omega arith) (
                    Steps-if n (c == b'u') (unicode_char rest) _
                      (Steps-weaken (suc (length rest)) n (unicode_char rest) (omega arith)
                        (unicode_char-Steps rest))
                      (λ e. cc)))))))))

after_run-Steps :
    (m : ℕ) (loop : Text → Parser Text) (t : Text) (rest : Bytes)
    → length rest < m
    → ((u : Text) (left : Bytes) → length left < length rest → Steps m (loop u left))
    → Steps m (after_run loop t rest)
unfolding after_run
after_run-Steps m loop t [] h k = λ e. cc
after_run-Steps m loop t (c ∷ rest) h k = Steps-if m (c == 34) _ _ (omega arith) (
    Steps-if m (c == 92) (escape rest >>= λ next. loop (t ++ next.0) next.1) _
      (Steps-bind (suc (length rest)) m (escape rest) _ (escape-Steps rest)
        (λ a lt. k (t ++ a.0) a.1 (omega arith)))
      (λ e. cc))

string_loop-Steps :
    (fuel : ℕ) (s : Text) (input : Bytes)
    → length input < fuel
    → Steps (suc (length input)) (string_loop fuel s input)
unfolding string_loop
string_loop-Steps zero s input h = absurd (omega arith)
string_loop-Steps (suc fuel) s input h =
    let shorter = length-span is_plain input in
    Steps-refuse (suc (length input)) (not (is_utf8 (span is_plain input).0)) JsonError.not_utf8
      (after_run (string_loop fuel) (s ++ (span is_plain input).0) (span is_plain input).1)
      (λ e. cc)
      (after_run-Steps (suc (length input)) (string_loop fuel) (s ++ (span is_plain input).0)
        (span is_plain input).1 (omega (arith, shorter))
        (λ u left lt.
          Steps-weaken (suc (length left)) (suc (length input)) (string_loop fuel u left)
            (omega (arith, shorter)) (string_loop-Steps fuel u left (omega (arith, shorter)))))

pub string-Steps : (input : Bytes) → Steps (length input) (string input)
unfolding string string_loop after_run is_utf8
string-Steps [] = λ e. cc
string-Steps (c ∷ rest) = string_loop-Steps (suc (length (c ∷ rest))) [] rest (omega arith)

pub length-number_text :
    (c : ℕ) (rest : Bytes)
    → ((c == b'-' || is_ascii_digit c) ≡ true)
    → length (number_text (c ∷ rest)).1 < length (c ∷ rest)
unfolding number_text span
length-number_text c rest h = ground (arith, length-span is_ascii_digit rest)

pub read_number-Steps :
    (m : ℕ) (text : Text) (rest : Bytes) → length rest < m → Steps m (read_number text rest)
unfolding read_number
read_number-Steps m text rest h =
    Steps-refuse m (starts_fraction rest) JsonError.fraction _ (λ e. cc)
      (Steps-refuse m (leads_zero text) JsonError.leading_zero _ (λ e. cc)
        (read (parse_uint u64_max text)))
  where
    read : (o : Option ℕ) → Steps m (ok_or o JsonError.not_whole >>= λ n. ok (Json.int n, rest))
    read none = λ e. cc
    read (some n) = h

literal-length :
    (word : Text) (input rest : Bytes) → literal word input ≡ some rest → length rest ≤ length input
unfolding literal
literal-length [] input rest h = ground arith
literal-length (w ∷ word) [] rest h = absurd (cc)
literal-length (w ∷ word) (c ∷ input) rest h = ground (arith, literal-length word input rest)

literal_advances :
    (w : ℕ) (word : Text) (input rest : Bytes)
    → literal (w ∷ word) input ≡ some rest
    → length rest < length input
unfolding literal
literal_advances w word [] rest h = absurd (cc)
literal_advances w word (c ∷ input) rest h = ground (arith, literal-length word input rest)

literal-Steps :
    (w : ℕ) (word : Text) (input : Bytes) (v : Json) (other : Result JsonError (Json × Bytes))
    → Steps (length input) other
    → Steps (length input) (or_else (literal (w ∷ word) input) v other)
literal-Steps w word input v other s = elim (Option-cases (literal (w ∷ word) input)) [
  | inl fails ↦ rw fails s
  | inr (left, at) ↦ rw at (literal_advances w word input left at)
]

pub boolean-Steps : (input : Bytes) → Steps (length input) (boolean input)
unfolding boolean
boolean-Steps input =
    literal-Steps b't' (codes "rue") input (Json.bool true) _
      (literal-Steps b'f' (codes "alse") input (Json.bool false) _ (λ e. cc))

pub null-Steps : (input : Bytes) → Steps (length input) (null input)
unfolding null
null-Steps input = literal-Steps b'n' (codes "ull") input Json.null _ (λ e. cc)
