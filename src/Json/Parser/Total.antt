-- ===== src/Json/Parser/Total.antt =====
-- The parser does not run out of fuel: every element and every part of a string takes some input.
use qcore_rs.Prelude.{
  ℕ, zero, suc, ◌<◌, ◌≡◌, ◌≢◌, refl, Bool, true, false, ◌||◌, List, [], ◌∷◌, Result, ok, err, ◌>>=◌,
  not, ◌==◌, if◌then◌else◌, is_same, list_eq, nat_eq, length, drop, any, Bytes, Text, arith,
  is_ascii_digit,
}
use qcore_rs.Json.{Json, Items, Fields, item, field}
use qcore_rs.Json.Parser.{
  Parser, JsonError, skip_ws, string, number_text, number, peeks, more_items, array_loop, array,
  more_fields, object_loop, object, value_by, value, parse, refuse_depth, max_depth, finish,
}
use qcore_rs.Json.Parser.Steps.{
  Steps, Steps-bind, Steps-if, Steps-refuse, Steps-weaken, boolean-Steps, length-drop,
  length-number_text, length-skip_ws, null-Steps, read_number-Steps, string-Steps,
}

-- Each parse of a value takes some input.
abbrev Advances : Parser Json → Type 0
Advances p = (input : Bytes) → Steps (length input) (p input)

module _ (p : Parser Json) (advances : Advances p) where
  more_items-Steps :
      (m : ℕ) (loop : Parser Items) (v : Json) (rest : Bytes)
      → length rest < m
      → ((left : Bytes) → length left < length rest → Steps m (loop left))
      → Steps m (more_items p loop v rest)
  unfolding more_items
  more_items-Steps m loop v [] h k = λ e. cc
  more_items-Steps m loop v (c ∷ rest) h k =
      Steps-if m (c == b',') (loop rest >>= λ later. ok (item v later.0, later.1)) _
        (Steps-bind m m (loop rest) _ (k rest (omega arith)) (λ a lt. lt))
        (Steps-if m (c == b']') _ _ (omega arith) (λ e. cc))

  array_loop-Steps :
      (fuel : ℕ) (input : Bytes)
      → length input < fuel
      → Steps (length input) (array_loop p fuel input)
  unfolding array_loop
  array_loop-Steps zero input h = absurd (omega arith)
  array_loop-Steps (suc fuel) input h =
      Steps-bind (length input) (length input) (p input) _ (advances input) (λ a lt.
        let shorter = length-skip_ws a.1 in
        more_items-Steps (length input) (array_loop p fuel) a.0 (skip_ws a.1)
          (omega (arith, shorter))
          (λ left less.
            Steps-weaken (length left) (length input) (array_loop p fuel left)
              (omega (arith, shorter)) (array_loop-Steps fuel left (omega (arith, shorter)))))

  array-Steps : (c : ℕ) (rest : Bytes) → Steps (length (c ∷ rest)) (array p (c ∷ rest))
  unfolding array
  array-Steps c rest =
      let first = skip_ws rest in
      let shorter = length-skip_ws rest in
      Steps-if (length (c ∷ rest)) (peeks b']' first) _ _
        (omega (arith, shorter, length-drop first))
        (Steps-bind (length first) (length (c ∷ rest)) (array_loop p (suc (length first)) first) _
          (array_loop-Steps (suc (length first)) first (omega arith))
          (λ a lt. omega (arith, shorter)))

  more_fields-Steps :
      (m : ℕ) (loop : Parser Fields) (key : Text) (v : Json) (rest : Bytes)
      → length rest < m
      → ((left : Bytes) → length left < length rest → Steps m (loop left))
      → Steps m (more_fields p loop key v rest)
  unfolding more_fields
  more_fields-Steps m loop key v [] h k = λ e. cc
  more_fields-Steps m loop key v (c ∷ rest) h k =
      Steps-if m (c == b',') (loop rest >>= λ later. ok (field key v later.0, later.1)) _
        (Steps-bind m m (loop rest) _ (k rest (omega arith)) (λ a lt. lt))
        (Steps-if m (c == b'}') _ _ (omega arith) (λ e. cc))

  object_loop-Steps :
      (fuel : ℕ) (seen : List Text) (input : Bytes)
      → length input < fuel
      → Steps (length input) (object_loop p fuel seen input)
  unfolding object_loop
  object_loop-Steps zero seen input h = absurd (omega arith)
  object_loop-Steps (suc fuel) seen input h =
      let n = length input in
      let start = skip_ws input in
      let shorter = length-skip_ws input in
      Steps-refuse n (not (peeks 34 start)) JsonError.expected_key _ (λ e. cc)
        (Steps-bind (length start) n (string start) _ (string-Steps start) (λ key lt.
          let colon = skip_ws key.1 in
          let nearer = length-skip_ws key.1 in
          let dropped = length-drop colon in
          Steps-refuse n (any (λ k. is_same k key.0) seen) JsonError.same_key _ (λ e. cc)
            (Steps-refuse n (not (peeks b':' colon)) JsonError.expected_colon _ (λ e. cc)
              (Steps-bind (length (drop 1 colon)) n (p (drop 1 colon)) _ (advances (drop 1 colon))
                (λ v less.
                  let last = length-skip_ws v.1 in
                  more_fields-Steps n (object_loop p fuel (key.0 ∷ seen)) key.0 v.0 (skip_ws v.1)
                    (omega (arith, shorter, nearer, dropped, last))
                    (λ left fewer.
                      Steps-weaken (length left) n (object_loop p fuel (key.0 ∷ seen) left)
                        (omega (arith, shorter, nearer, dropped, last))
                        (object_loop-Steps fuel (key.0 ∷ seen) left
                          (omega (arith, shorter, nearer, dropped, last)))))))))

  object-Steps : (c : ℕ) (rest : Bytes) → Steps (length (c ∷ rest)) (object p (c ∷ rest))
  unfolding object
  object-Steps c rest =
      let first = skip_ws rest in
      let shorter = length-skip_ws rest in
      Steps-if (length (c ∷ rest)) (peeks b'}' first) _ _
        (omega (arith, shorter, length-drop first))
        (Steps-bind (length first) (length (c ∷ rest)) (object_loop p (suc (length first)) [] first)
          _ (object_loop-Steps (suc (length first)) [] first (omega arith))
          (λ a lt. omega (arith, shorter)))

number-Steps :
    (c : ℕ) (rest : Bytes)
    → (c == b'-' || is_ascii_digit c) ≡ true
    → Steps (length (c ∷ rest)) (number (c ∷ rest))
unfolding number
number-Steps c rest h =
    read_number-Steps (length (c ∷ rest)) (number_text (c ∷ rest)).0 (number_text (c ∷ rest)).1
      (length-number_text c rest h)

Steps-if_true {ℓ} :
    {A : Type ℓ} (m : ℕ) (test : Bool) (r s : Result JsonError (A × Bytes))
    → (test ≡ true → Steps m r)
    → Steps m s
    → Steps m (if test then r else s)
Steps-if_true m true r s a b = a refl
Steps-if_true m false r s a b = b

value_by-Steps :
    (objects arrays : Parser Json)
    → ((c : ℕ) (rest : Bytes) → Steps (length (c ∷ rest)) (objects (c ∷ rest)))
    → ((c : ℕ) (rest : Bytes) → Steps (length (c ∷ rest)) (arrays (c ∷ rest)))
    → Advances (value_by objects arrays)
unfolding value_by
value_by-Steps objects arrays o a [] = λ e. cc
value_by-Steps objects arrays o a (c ∷ rest) =
    let n = length (c ∷ rest) in
    Steps-if n (c == b'{') _ _ (o c rest) (
      Steps-if n (c == b'[') _ _ (a c rest) (
        Steps-if n (c == 34) _ _
          (Steps-bind n n (string (c ∷ rest)) _ (string-Steps (c ∷ rest)) (λ s lt. lt))
          (Steps-if n (c == b't' || c == b'f') _ _ (boolean-Steps (c ∷ rest)) (
            Steps-if n (c == b'n') _ _ (null-Steps (c ∷ rest)) (
              Steps-if_true n (c == b'-' || is_ascii_digit c) _ _ (number-Steps c rest)
                (λ e. cc))))))

pub value-Steps : (left : ℕ) → Advances (value left)
unfolding value
value-Steps zero input =
    let shorter = length-skip_ws input in
    Steps-weaken (length (skip_ws input)) (length input) _ shorter
      (value_by-Steps refuse_depth refuse_depth (λ c rest e. cc) (λ c rest e. cc) (skip_ws input))
value-Steps (suc left) input =
    let shorter = length-skip_ws input in
    Steps-weaken (length (skip_ws input)) (length input) _ shorter (
      value_by-Steps (object (value left)) (array (value left))
        (object-Steps (value left) (value-Steps left)) (array-Steps (value left) (value-Steps left))
        (skip_ws input))

-- Every text is parsed or refused for what it says: the fuel of the loops is enough.
pub parse_total : (input : Bytes) → parse input ≢ err JsonError.out_of_fuel
unfolding parse
parse_total input = ends (value max_depth (skip_ws input)) (value-Steps max_depth (skip_ws input))
  where
    last : (v : Json) (rest : Bytes) → finish v rest ≢ err JsonError.out_of_fuel
    last v [] = λ e. cc
    last v (c ∷ rest) = λ e. cc

    ends :
        (r : Result JsonError (Json × Bytes))
        → Steps (length (skip_ws input)) r
        → (r >>= λ a. finish a.0 (skip_ws a.1)) ≢ err JsonError.out_of_fuel
    ends (ok a) s = last a.0 (skip_ws a.1)
    ends (err e) s = λ same. s (cc)
