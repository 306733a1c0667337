-- ===== src/Json/RoundTrip/Values.antt =====
-- What the wire can carry, and how the values that nest nothing are read back.
use qcore_rs.Prelude.{
  ℕ, zero, suc, ◌≤◌, ◌≡◌, refl, ◌∙◌, Bool, true, false, some, List, [], ◌∷◌, ◌++◌, ok, ◌==◌, any,
  is_same, list_eq, nat_eq, Bytes, Text, arith, u64_max,
}
use qcore_rs.Prelude.Utf8.{start, utf8_run}
use qcore_rs.Json.{Json, Items, Fields, no_items, item, no_fields, field, write, write_string}
use qcore_rs.Json.Parser.{
  Parser, skip_ws, is_ws, peeks, number, boolean, null, literal, array, object, value_by, value,
  refuse_depth,
}
use qcore_rs.Json.RoundTrip.Strings.{string-write_string}
use qcore_rs.Json.RoundTrip.Numbers.{Stops, number-decimal, decimal_first}

-- What the wire can carry: u64 numbers, texts that are UTF-8, fields with keys of their own, and no
-- more levels of arrays and objects than `left`.
unfoldable mutual
  pub IsWritable : ℕ → Json → Type 0
  IsWritable left Json.null = Unit
  IsWritable left (Json.bool b) = Unit
  IsWritable left (Json.int n) = n ≤ u64_max
  IsWritable left (Json.str s) = utf8_run start s ≡ some start
  IsWritable zero (Json.array items) = ⊥
  IsWritable (suc left) (Json.array items) = AreWritable left items
  IsWritable zero (Json.object members) = ⊥
  IsWritable (suc left) (Json.object members) = AreFields left [] members

  pub AreWritable : ℕ → Items → Type 0
  AreWritable left no_items = Unit
  AreWritable left (item v rest) = IsWritable left v × AreWritable left rest

  pub AreFields : ℕ → List Text → Fields → Type 0
  AreFields left seen no_fields = Unit
  AreFields left seen (field key v rest) =
      (utf8_run start key ≡ some start)
      × (any (λ k. is_same k key) seen ≡ false)
      × IsWritable left v
      × AreFields left (key ∷ seen) rest

-- A text that starts with none of white space, a comma and a closing bracket.
abbrev IsOpening : Text → Type 0
IsOpening [] = ⊥
IsOpening (c ∷ rest) = (is_ws c ≡ false) × (c == b']' ≡ false) × (c == b'}' ≡ false)

pub write-IsOpening : (v : Json) → IsOpening (write v)
unfolding write write_string
write-IsOpening Json.null = (refl, refl, refl)
write-IsOpening (Json.bool true) = (refl, refl, refl)
write-IsOpening (Json.bool false) = (refl, refl, refl)
write-IsOpening (Json.int n) =
    let (c, rest, text, digit) = decimal_first n in
    rw text (ground arith, ground arith, ground arith)
write-IsOpening (Json.str s) = (refl, refl, refl)
write-IsOpening (Json.array items) = (refl, refl, refl)
write-IsOpening (Json.object members) = (refl, refl, refl)

pub skip_ws_opening : (text rest : Text) → IsOpening text → skip_ws (text ++ rest) ≡ text ++ rest
unfolding skip_ws
skip_ws_opening [] rest h = absurd h
skip_ws_opening (c ∷ text) rest h = ground (arith, h.0)

pub peeks_opening :
    (text rest : Text)
    → IsOpening text
    → (peeks b']' (text ++ rest) ≡ false) × (peeks b'}' (text ++ rest) ≡ false)
peeks_opening [] rest h = absurd h
peeks_opening (c ∷ text) rest h = (h.1, h.2)

pub skip_ws-Stops : (rest : Bytes) → Stops rest → skip_ws rest ≡ rest
unfolding skip_ws
skip_ws-Stops [] s = refl
skip_ws-Stops (c ∷ rest) s = ground arith

-- What a written value is read as by the dispatch, where what nests is read by other parsers.
abbrev pub Reads : Parser Json → Json → Type 0
Reads p v = (rest : Bytes) → Stops rest → p (write v ++ rest) ≡ ok (v, rest)

pub value_by-null : (o a : Parser Json) → Reads (value_by o a) Json.null
unfolding value_by write null literal
value_by-null o a rest s = refl

pub value_by-bool : (o a : Parser Json) (b : Bool) → Reads (value_by o a) (Json.bool b)
unfolding value_by write boolean literal
value_by-bool o a true rest s = refl
value_by-bool o a false rest s = refl

dispatch_digit :
    (o a : Parser Json) (c : ℕ) (later : Bytes)
    → (b'0' ≤ c) × (c ≤ b'9')
    → value_by o a (c ∷ later) ≡ number (c ∷ later)
unfolding value_by
dispatch_digit o a c later d = ground arith

pub value_by-int : (o a : Parser Json) (n : ℕ) → n ≤ u64_max → Reads (value_by o a) (Json.int n)
unfolding write
value_by-int o a n h rest s =
    let (c, digits, text, digit) = decimal_first n in
    let whole = number-decimal n rest h s in
    rw (text) (dispatch_digit o a c (digits ++ rest) digit ∙ rw text at whole)

pub value_by-str :
    (o a : Parser Json) (s : Text)
    → utf8_run start s ≡ some start
    → Reads (value_by o a) (Json.str s)
unfolding value_by write
value_by-str o a s v rest stops = rw (string-write_string s rest v) refl

pub value-Reads :
    (left : ℕ) (v : Json)
    → Reads (value_by (object (value left)) (array (value left))) v
    → Reads (value (suc left)) v
unfolding value
value-Reads left v h rest s = rw (skip_ws_opening (write v) rest (write-IsOpening v)) (h rest s)

pub scalar :
    (left : ℕ) (v : Json) → ((o a : Parser Json) → Reads (value_by o a) v) → Reads (value left) v
unfolding value
scalar zero v h rest s =
    rw (skip_ws_opening (write v) rest (write-IsOpening v)) (h refuse_depth refuse_depth rest s)
scalar (suc left) v h rest s =
    value-Reads left v (h (object (value left)) (array (value left))) rest s
