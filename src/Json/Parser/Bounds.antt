-- ===== src/Json/Parser/Bounds.antt =====
-- The numbers of a value that `parse` of src/json.rs reads: each is a u64.
use mathlib.Core.Path.{subst}
use qcore_rs.Prelude.{
  ℕ, zero, suc, ◌≤◌, ◌≡◌, ◌||◌, true, false, Option, Option-cases, none, some, List, [], ◌∷◌, ok,
  err, ◌>>=◌, ok_or, not, ◌==◌, is_same, list_eq, nat_eq, length, drop, any, Bytes, Text, arith,
  is_ascii_digit, u64_max, inl, inr, codes, bind_ok,
}
use qcore_rs.Prelude.Decimal.{parse_uint}
use qcore_rs.Json.{
  Json, Items, Fields, no_items, item, no_fields, field, get, get_last, as_u64, as_array,
}
use qcore_rs.Json.Parser.{
  Parser, JsonError, skip_ws, peeks, string, read_number, number, number_text, literal, or_else,
  boolean, null, starts_fraction, leads_zero, more_items, array_loop, array, more_fields,
  object_loop, object, value_by, refuse_depth, value, finish, parse, max_depth,
}
use qcore_rs.Json.Parser.Gives.{
  Gives, Gives-bind, Gives-refuse, Gives-if, Gives-any, Gives-or_else, IsUnder, parse_uint-IsUnder,
  given,
}

unfoldable mutual
  pub IsBounded : Json → Type 0
  IsBounded Json.null = Unit
  IsBounded (Json.bool b) = Unit
  IsBounded (Json.int n) = n ≤ u64_max
  IsBounded (Json.str s) = Unit
  IsBounded (Json.array items) = AreBounded items
  IsBounded (Json.object members) = AreFieldsBounded members

  pub AreBounded : Items → Type 0
  AreBounded no_items = Unit
  AreBounded (item v rest) = IsBounded v × AreBounded rest

  pub AreFieldsBounded : Fields → Type 0
  AreFieldsBounded no_fields = Unit
  AreFieldsBounded (field key v rest) = IsBounded v × AreFieldsBounded rest

int_given :
    (n : Option ℕ) (rest : Bytes)
    → IsUnder u64_max n
    → Gives IsBounded (ok_or n JsonError.not_whole >>= λ k. ok (Json.int k, rest))
unfolding IsBounded
int_given none rest h = tt
int_given (some n) rest h = h

read_number-IsBounded : (text : Text) (rest : Bytes) → Gives IsBounded (read_number text rest)
unfolding read_number
read_number-IsBounded text rest =
    Gives-refuse IsBounded (starts_fraction rest) JsonError.fraction _ (
      Gives-refuse IsBounded (leads_zero text) JsonError.leading_zero _
        (int_given (parse_uint u64_max text) rest (parse_uint-IsUnder u64_max text)))

boolean-IsBounded : (input : Bytes) → Gives IsBounded (boolean input)
unfolding boolean IsBounded
boolean-IsBounded input =
    let refused = err JsonError.expected_bool in
    Gives-or_else IsBounded (literal (codes "true") input) (Json.bool true)
      (or_else (literal (codes "false") input) (Json.bool false) refused) tt
      (Gives-or_else IsBounded (literal (codes "false") input) (Json.bool false) refused tt tt)

null-IsBounded : (input : Bytes) → Gives IsBounded (null input)
unfolding null IsBounded
null-IsBounded input =
    Gives-or_else IsBounded (literal (codes "null") input) Json.null (err JsonError.expected_null)
      tt tt

module _ (inner : Parser Json) (bounded : (input : Bytes) → Gives IsBounded (inner input)) where
  more_items-AreBounded :
      (loop : Parser Items) (v : Json) (input : Bytes)
      → ((rest : Bytes) → Gives AreBounded (loop rest))
      → IsBounded v
      → Gives AreBounded (more_items inner loop v input)
  unfolding more_items IsBounded
  more_items-AreBounded loop v [] later h = tt
  more_items-AreBounded loop v (c ∷ rest) later h =
      Gives-if AreBounded (c == b',') _ _
        (Gives-bind AreBounded AreBounded (loop rest) _ (later rest) (λ a b. (h, b)))
        (Gives-if AreBounded (c == b']') _ _ (h, tt) tt)

  array_loop-AreBounded :
      (fuel : ℕ) (input : Bytes) → Gives AreBounded (array_loop inner fuel input)
  unfolding array_loop
  array_loop-AreBounded zero input = tt
  array_loop-AreBounded (suc fuel) input =
      Gives-bind IsBounded AreBounded (inner input) _ (bounded input) (λ a h.
        more_items-AreBounded (array_loop inner fuel) a.0 (skip_ws a.1) (array_loop-AreBounded fuel)
          h)

  array-IsBounded : (input : Bytes) → Gives IsBounded (array inner input)
  unfolding array IsBounded
  array-IsBounded input =
      let first = skip_ws (drop 1 input) in
      Gives-if IsBounded (peeks b']' first) _ _ tt (
        Gives-bind AreBounded IsBounded (array_loop inner (suc (length first)) first) _
          (array_loop-AreBounded (suc (length first)) first) (λ a h. h))

  more_fields-AreBounded :
      (loop : Parser Fields) (key : Text) (v : Json) (input : Bytes)
      → ((rest : Bytes) → Gives AreFieldsBounded (loop rest))
      → IsBounded v
      → Gives AreFieldsBounded (more_fields inner loop key v input)
  unfolding more_fields IsBounded
  more_fields-AreBounded loop key v [] later h = tt
  more_fields-AreBounded loop key v (c ∷ rest) later h =
      Gives-if AreFieldsBounded (c == b',') _ _
        (Gives-bind AreFieldsBounded AreFieldsBounded (loop rest) _ (later rest) (λ a b. (h, b)))
        (Gives-if AreFieldsBounded (c == b'}') _ _ (h, tt) tt)

  object_loop-AreBounded :
      (fuel : ℕ) (seen : List Text) (input : Bytes)
      → Gives AreFieldsBounded (object_loop inner fuel seen input)
  unfolding object_loop
  object_loop-AreBounded zero seen input = tt
  object_loop-AreBounded (suc fuel) seen input =
      Gives-refuse AreFieldsBounded (not (peeks 34 (skip_ws input))) JsonError.expected_key _ (
        Gives-bind (λ _. Unit {0}) AreFieldsBounded (string (skip_ws input)) _
          (Gives-any (string (skip_ws input)))
          (λ k _.
            Gives-refuse AreFieldsBounded (any (λ j. is_same j k.0) seen) JsonError.same_key _ (
              Gives-refuse AreFieldsBounded (not (peeks b':' (skip_ws k.1)))
                JsonError.expected_colon _
                (Gives-bind IsBounded AreFieldsBounded (inner (drop 1 (skip_ws k.1))) _
                  (bounded (drop 1 (skip_ws k.1)))
                  (λ a h.
                    more_fields-AreBounded (object_loop inner fuel (k.0 ∷ seen)) k.0 a.0
                      (skip_ws a.1) (object_loop-AreBounded fuel (k.0 ∷ seen)) h)))))

  object-IsBounded : (input : Bytes) → Gives IsBounded (object inner input)
  unfolding object IsBounded
  object-IsBounded input =
      let first = skip_ws (drop 1 input) in
      Gives-if IsBounded (peeks b'}' first) _ _ tt (
        Gives-bind AreFieldsBounded IsBounded (object_loop inner (suc (length first)) [] first) _
          (object_loop-AreBounded (suc (length first)) [] first) (λ a h. h))

value_by-IsBounded :
    (objects arrays : Parser Json) (input : Bytes)
    → ((rest : Bytes) → Gives IsBounded (objects rest))
    → ((rest : Bytes) → Gives IsBounded (arrays rest))
    → Gives IsBounded (value_by objects arrays input)
unfolding value_by IsBounded number
value_by-IsBounded objects arrays [] o a = tt
value_by-IsBounded objects arrays (c ∷ rest) o a =
    let input = c ∷ rest in
    Gives-if IsBounded (c == b'{') _ _ (o input) (
      Gives-if IsBounded (c == b'[') _ _ (a input) (
        Gives-if IsBounded (c == 34) _ _
          (Gives-bind (λ _. Unit {0}) IsBounded (string input) _ (Gives-any (string input))
            (λ s _. tt))
          (Gives-if IsBounded (c == b't' || c == b'f') _ _ (boolean-IsBounded input) (
            Gives-if IsBounded (c == b'n') _ _ (null-IsBounded input) (
              Gives-if IsBounded (c == b'-' || is_ascii_digit c) _ _
                (read_number-IsBounded (number_text input).0 (number_text input).1) tt)))))

value-IsBounded : (left : ℕ) (input : Bytes) → Gives IsBounded (value left input)
unfolding value
value-IsBounded zero input =
    value_by-IsBounded refuse_depth refuse_depth (skip_ws input) (λ _. tt) (λ _. tt)
value-IsBounded (suc left) input =
    value_by-IsBounded (object (value left)) (array (value left)) (skip_ws input)
      (object-IsBounded (value left) (value-IsBounded left))
      (array-IsBounded (value left) (value-IsBounded left))

finished : (v w : Json) (rest : Bytes) → finish v rest ≡ ok w → IsBounded v → IsBounded w
finished v w [] h b = let same : v ≡ w = cc in subst IsBounded same b
finished v w (c ∷ rest) h b = absurd (cc)

get_last-IsBounded :
    (key : Text) (members : Fields) (w : Json)
    → AreFieldsBounded members
    → get_last key members ≡ some w
    → IsBounded w
unfolding get_last IsBounded
get_last-IsBounded key no_fields w b h = absurd (cc)
get_last-IsBounded key (field k v rest) w b h = elim (Option-cases (get_last key rest)) [
  | inl e ↦ let same : v ≡ w = ground (arith, h, e) in subst IsBounded same b.0
  | inr (u, e) ↦
      let same : u ≡ w = ground (arith, h, e) in
      subst IsBounded same (get_last-IsBounded key rest u b.1 e)
]

-- Every number in what the parser returns is a u64.
pub parse-IsBounded : (text : Text) (v : Json) → parse text ≡ ok v → IsBounded v
unfolding parse
parse-IsBounded text v h =
    let (read, e, h1) = bind_ok (value max_depth (skip_ws text)) _ v h in
    finished read.0 v (skip_ws read.1) h1 (
      given IsBounded (value max_depth (skip_ws text)) read e
        (value-IsBounded max_depth (skip_ws text)))

pub get-IsBounded : (key : Text) (v w : Json) → IsBounded v → get key v ≡ some w → IsBounded w
unfolding get IsBounded
get-IsBounded key (Json.object members) w b h = get_last-IsBounded key members w b h
get-IsBounded key Json.null w b h = absurd (cc)
get-IsBounded key (Json.bool x) w b h = absurd (cc)
get-IsBounded key (Json.int n) w b h = absurd (cc)
get-IsBounded key (Json.str s) w b h = absurd (cc)
get-IsBounded key (Json.array items) w b h = absurd (cc)

pub as_u64-bound : (v : Json) (n : ℕ) → IsBounded v → as_u64 v ≡ some n → n ≤ u64_max
unfolding as_u64 IsBounded
as_u64-bound (Json.int m) n b h = ground (arith, b, h)
as_u64-bound Json.null n b h = absurd (cc)
as_u64-bound (Json.bool x) n b h = absurd (cc)
as_u64-bound (Json.str s) n b h = absurd (cc)
as_u64-bound (Json.array items) n b h = absurd (cc)
as_u64-bound (Json.object members) n b h = absurd (cc)

pub as_array-AreBounded :
    (v : Json) (items : Items) → IsBounded v → as_array v ≡ some items → AreBounded items
unfolding as_array IsBounded
as_array-AreBounded (Json.array own) items b h =
    let same : own ≡ items = cc in subst AreBounded same b
as_array-AreBounded Json.null items b h = absurd (cc)
as_array-AreBounded (Json.bool x) items b h = absurd (cc)
as_array-AreBounded (Json.int n) items b h = absurd (cc)
as_array-AreBounded (Json.str s) items b h = absurd (cc)
as_array-AreBounded (Json.object members) items b h = absurd (cc)
