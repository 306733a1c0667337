-- ===== src/Json/Parser.antt =====
-- `parse` of src/json.rs. The parser's position is the input that is left. The levels of nesting that
-- are left go down with each array and object; the loops over elements and over the parts of a
-- string have fuel, as much as there is input.
pub mod Steps
pub mod Total
mod Gives
pub mod Bounds
use qcore_rs.Prelude.{
  ℕ, zero, suc, ◌+◌, ◌-◌, ◌*◌, ◌≡◌, Bool, true, false, ◌&&◌, ◌||◌, Option, none, some, List, [],
  ◌∷◌, ◌++◌, Result, ok, err, ◌>>=◌, ◌>>◌, refuse, ok_or, ltb, leb, not, ◌==◌, if◌then◌else◌,
  is_same, list_eq, nat_eq, length, drop, any, Bytes, Text, codes, is_ascii_digit, u64_max,
}
use qcore_rs.Prelude.Utf8.{is_utf8, char_from_u32}
use qcore_rs.Prelude.Decimal.{parse_uint}
use qcore_rs.Json.{Json, Items, Fields, no_items, item, no_fields, field}

pub data JsonError : Type 0 where
  out_of_fuel trailing expected_value too_deep expected_key same_key expected_colon expected_brace
        expected_bracket not_utf8 bad_escape control_character not_closed bad_unicode_escape
        no_low_surrogate bad_surrogate_pair no_high_surrogate bad_code_point fraction leading_zero
        not_whole expected_bool expected_null :
      JsonError

abbrev pub Parser : Type 0 → Type 0
Parser A = Bytes → Result JsonError (A × Bytes)

abbrev pub max_depth : ℕ
max_depth = 128

abbrev pub is_ws : ℕ → Bool
is_ws c = c == 32 || c == 9 || c == 10 || c == 13

unfoldable pub skip_ws : Bytes → Bytes
skip_ws [] = []
skip_ws (c ∷ rest) = elim (is_ws c) [ true ↦ skip_ws rest | false ↦ c ∷ rest ]

-- the longest prefix of bytes that meet the test, and what follows it
unfoldable pub span : (ℕ → Bool) → Bytes → Bytes × Bytes
span test [] = ([], [])
span test (c ∷ rest) = elim (test c) [
  | true ↦ let (front, back) = span test rest in (c ∷ front, back)
  | false ↦ ([], c ∷ rest)
]

-- a byte that a string carries as it is
abbrev pub is_plain : ℕ → Bool
is_plain c = not (c == 34) && not (c == 92) && leb 32 c

-- `to_digit(16)`
abbrev pub to_digit : ℕ → Option ℕ
to_digit c =
    if is_ascii_digit c
    then some (c - b'0')
    else if leb b'a' c && leb c b'f'
    then some (c - 87)
    else if leb b'A' c && leb c b'F'
    then some (c - 55)
    else none

unfoldable pub hex_digits : ℕ → ℕ → Parser ℕ
hex_digits zero code rest = ok (code, rest)
hex_digits (suc left) code [] = err JsonError.bad_unicode_escape
hex_digits (suc left) code (c ∷ rest) = do
  digit ← ok_or (to_digit c) JsonError.bad_unicode_escape
  hex_digits left (code * 16 + digit) rest

unfoldable pub hex4 : Parser ℕ
unfolding hex_digits
hex4 = hex_digits 4 0

-- `\u` between the surrogates
abbrev pub low_escape : Bytes → Option Bytes
low_escape (c ∷ (u ∷ rest)) = if c == 92 && u == b'u' then some rest else none
low_escape _ = none

abbrev pub in_range : ℕ → ℕ → ℕ → Bool
in_range low high code = leb low code && leb code high

abbrev pub with_char : Option Bytes → Bytes → Result JsonError (Bytes × Bytes)
with_char none rest = err JsonError.bad_code_point
with_char (some char) rest = ok (char, rest)

unfoldable pub surrogate_pair : ℕ → Parser Bytes
unfolding hex4 char_from_u32
surrogate_pair hi rest = do
  rest ← ok_or (low_escape rest) JsonError.no_low_surrogate
  (lo, rest) ← hex4 rest
  refuse (not (in_range 56_320 57_343 lo)) JsonError.bad_surrogate_pair
  with_char (char_from_u32 (65_536 + (hi - 55_296) * 1_024 + (lo - 56_320))) rest

unfoldable pub unicode_char : Parser Bytes
unfolding surrogate_pair
unicode_char rest = do
  (hi, rest) ← hex4 rest
  if in_range 55_296 56_319 hi
      then surrogate_pair hi rest
      else if in_range 56_320 57_343 hi
      then err JsonError.no_high_surrogate
      else with_char (char_from_u32 hi) rest

-- what follows a backslash
unfoldable pub escape : Parser Bytes
unfolding unicode_char
escape [] = err JsonError.bad_escape
escape (c ∷ rest) =
    if c == 34
    then ok (34 ∷ [], rest)
    else if c == 92
    then ok (92 ∷ [], rest)
    else if c == b'/'
    then ok (b'/' ∷ [], rest)
    else if c == b'n'
    then ok (10 ∷ [], rest)
    else if c == b'r'
    then ok (13 ∷ [], rest)
    else if c == b't'
    then ok (9 ∷ [], rest)
    else if c == b'b'
    then ok (8 ∷ [], rest)
    else if c == b'f'
    then ok (12 ∷ [], rest)
    else if c == b'u'
    then unicode_char rest
    else err JsonError.bad_escape

-- the rest of a round: a closing quote, or an escape and the next round
unfoldable pub after_run : (Text → Parser Text) → Text → Parser Text
unfolding escape
after_run loop s [] = err JsonError.not_closed
after_run loop s (c ∷ rest) =
    if c == 34
    then ok (s, rest)
    else if c == 92
    then (escape rest >>= λ next. loop (s ++ next.0) next.1)
    else err JsonError.control_character

unfoldable pub string_loop : ℕ → Text → Parser Text
unfolding span after_run
string_loop zero s input = err JsonError.out_of_fuel
string_loop (suc fuel) s input = do
  refuse (not (is_utf8 (span is_plain input).0)) JsonError.not_utf8
  after_run (string_loop fuel) (s ++ (span is_plain input).0) (span is_plain input).1

-- `string`, which drops the quote that it stands at
unfoldable pub string : Parser Text
unfolding string_loop
string input = string_loop (suc (length input)) [] (drop 1 input)

-- the sign and the digits of a number, and what follows
unfoldable pub number_text : Bytes → Text × Bytes
unfolding span
number_text [] = ([], [])
number_text (c ∷ rest) =
    if c == b'-'
    then (c ∷ (span is_ascii_digit rest).0, (span is_ascii_digit rest).1)
    else span is_ascii_digit (c ∷ rest)

abbrev pub starts_fraction : Bytes → Bool
starts_fraction [] = false
starts_fraction (c ∷ rest) = c == b'.' || c == b'e' || c == b'E'

abbrev pub leads_zero : Text → Bool
leads_zero (c ∷ (d ∷ rest)) = c == b'0'
leads_zero _ = false

unfoldable pub read_number : Text → Parser Json
read_number text rest = do
  refuse (starts_fraction rest) JsonError.fraction
  refuse (leads_zero text) JsonError.leading_zero
  n ← ok_or (parse_uint u64_max text) JsonError.not_whole
  ok (Json.int n, rest)

unfoldable pub number : Parser Json
unfolding number_text read_number
number input = read_number (number_text input).0 (number_text input).1

-- `literal`, with what follows the word
unfoldable pub literal : Text → Bytes → Option Bytes
literal [] input = some input
literal (w ∷ word) [] = none
literal (w ∷ word) (c ∷ rest) = elim (w == c) [ true ↦ literal word rest | false ↦ none ]

abbrev pub or_else {ℓ} :
    {A : Type ℓ} → Option Bytes → A → Result JsonError (A × Bytes) → Result JsonError (A × Bytes)
or_else (some rest) a other = ok (a, rest)
or_else none a other = other

unfoldable pub boolean : Parser Json
unfolding literal
boolean input =
    or_else (literal (codes "true") input) (Json.bool true)
      (or_else (literal (codes "false") input) (Json.bool false) (err JsonError.expected_bool))

unfoldable pub null : Parser Json
unfolding literal
null input = or_else (literal (codes "null") input) Json.null (err JsonError.expected_null)

abbrev pub peeks : ℕ → Bytes → Bool
peeks byte [] = false
peeks byte (c ∷ rest) = c == byte

module _ (value : Parser Json) where
  -- after an element: a comma and the next round, or the closing bracket
  unfoldable pub more_items : Parser Items → Json → Parser Items
  more_items loop v [] = err JsonError.expected_bracket
  more_items loop v (c ∷ rest) =
      if c == b','
      then (loop rest >>= λ later. ok (item v later.0, later.1))
      else if c == b']'
      then ok (item v no_items, rest)
      else err JsonError.expected_bracket

  unfoldable pub array_loop : ℕ → Parser Items
  unfolding more_items
  array_loop zero input = err JsonError.out_of_fuel
  array_loop (suc fuel) input = do
    (v, rest) ← value input
    more_items (array_loop fuel) v (skip_ws rest)

  unfoldable pub array : Parser Json
  unfolding array_loop skip_ws
  array input =
      let first = skip_ws (drop 1 input) in
      if peeks b']' first
      then ok (Json.array no_items, drop 1 first)
      else (array_loop (suc (length first)) first >>= λ all. ok (Json.array all.0, all.1))

  unfoldable pub more_fields : Parser Fields → Text → Json → Parser Fields
  more_fields loop key v [] = err JsonError.expected_brace
  more_fields loop key v (c ∷ rest) =
      if c == b','
      then (loop rest >>= λ later. ok (field key v later.0, later.1))
      else if c == b'}'
      then ok (field key v no_fields, rest)
      else err JsonError.expected_brace

  unfoldable pub object_loop : ℕ → List Text → Parser Fields
  unfolding more_fields string skip_ws
  object_loop zero seen input = err JsonError.out_of_fuel
  object_loop (suc fuel) seen input = do
    refuse (not (peeks 34 (skip_ws input))) JsonError.expected_key
    (key, rest) ← string (skip_ws input)
    refuse (any (λ k. is_same k key) seen) JsonError.same_key
    refuse (not (peeks b':' (skip_ws rest))) JsonError.expected_colon
    (v, rest) ← value (drop 1 (skip_ws rest))
    more_fields (object_loop fuel (key ∷ seen)) key v (skip_ws rest)

  unfoldable pub object : Parser Json
  unfolding object_loop
  object input =
      let first = skip_ws (drop 1 input) in
      if peeks b'}' first
      then ok (Json.object no_fields, drop 1 first)
      else (object_loop (suc (length first)) [] first >>= λ all. ok (Json.object all.0, all.1))

-- the dispatch of `value` on the next byte, for the parsers of what nests
unfoldable pub value_by : Parser Json → Parser Json → Parser Json
unfolding string number boolean null
value_by objects arrays [] = err JsonError.expected_value
value_by objects arrays (c ∷ rest) =
    if c == b'{'
    then objects (c ∷ rest)
    else if c == b'['
    then arrays (c ∷ rest)
    else if c == 34
    then (string (c ∷ rest) >>= λ s. ok (Json.str s.0, s.1))
    else if c == b't' || c == b'f'
    then boolean (c ∷ rest)
    else if c == b'n'
    then null (c ∷ rest)
    else if c == b'-' || is_ascii_digit c
    then number (c ∷ rest)
    else err JsonError.expected_value

abbrev pub refuse_depth : Parser Json
refuse_depth input = err JsonError.too_deep

unfoldable pub value : ℕ → Parser Json
unfolding value_by object array skip_ws
value zero input = value_by refuse_depth refuse_depth (skip_ws input)
value (suc left) input = value_by (object (value left)) (array (value left)) (skip_ws input)

abbrev pub finish : Json → Bytes → Result JsonError Json
finish v [] = ok v
finish v (c ∷ rest) = err JsonError.trailing

unfoldable pub parse : Bytes → Result JsonError Json
unfolding value skip_ws
parse input = do (v, rest) ← value max_depth (skip_ws input); finish v (skip_ws rest)
