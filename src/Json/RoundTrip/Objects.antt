-- ===== src/Json/RoundTrip/Objects.antt =====
-- The fields of an object are read back.
use mathlib.Core.List.{append_assoc}
use qcore_rs.Prelude.{
  ℕ, zero, suc, ◌≤◌, ◌≡◌, refl, ap, ◌∙◌, true, false, List, [], ◌∷◌, ◌++◌, ok, length,
  length-append, any, is_same, list_eq, nat_eq, drop, Bytes, Text, arith, inl, inr,
}
use qcore_rs.Json.{
  Json, Fields, no_fields, field, write, write_fields, write_more_fields, write_string,
}
use qcore_rs.Json.Parser.{
  Parser, skip_ws, peeks, string, array, more_fields, object_loop, object, value_by, value,
}
use qcore_rs.Json.RoundTrip.Strings.{string-write_string}
use qcore_rs.Json.RoundTrip.Numbers.{Stops}
use qcore_rs.Json.RoundTrip.Arrays.{ReadsValue}
use qcore_rs.Json.RoundTrip.Values.{AreFields, IsWritable, Reads, skip_ws-Stops, value-Reads}

abbrev field_count : Fields → ℕ
field_count no_fields = 0
field_count (field key v rest) = suc (field_count rest)

abbrev pub ReadsMoreFields : Fields → Type 0
ReadsMoreFields members =
    (left fuel : ℕ) (seen : List Text) (key : Text) (v : Json) (rest : Bytes)
    → AreFields left seen members
    → field_count members ≤ fuel
    → more_fields (value left) (object_loop (value left) fuel seen) key v
        (write_more_fields members ++ rest)
      ≡ ok (field key v members, rest)

abbrev pub ReadsFields : Fields → Type 0
ReadsFields no_fields = Unit
ReadsFields (field key v members) =
    (left fuel : ℕ) (seen : List Text) (rest : Bytes)
    → AreFields left seen (field key v members)
    → field_count members ≤ fuel
    → object_loop (value left) (suc fuel) seen
        (write_string key ++ (b':' ∷ (write v ++ (write_more_fields members ++ rest))))
      ≡ ok (field key v members, rest)

more_fields-Stops : (members : Fields) (rest : Bytes) → Stops (write_more_fields members ++ rest)
unfolding write
more_fields-Stops no_fields rest = inr (inr refl)
more_fields-Stops (field key v members) rest = inl refl

dispatch_object :
    (o a : Parser Json) (members : Fields) (rest : Bytes)
    → value_by o a (write (Json.object members) ++ rest) ≡ o (write (Json.object members) ++ rest)
unfolding value_by write
dispatch_object o a members rest = refl

-- A text that starts with a quote.
abbrev IsQuoted : Text → Type 0
IsQuoted [] = ⊥
IsQuoted (c ∷ rest) = c ≡ 34

write_string_quote : (s : Text) → IsQuoted (write_string s)
unfolding write_string
write_string_quote s = refl

skip_ws_quote : (text rest : Text) → IsQuoted text → skip_ws (text ++ rest) ≡ text ++ rest
unfolding skip_ws
skip_ws_quote [] rest h = absurd h
skip_ws_quote (c ∷ text) rest h = ground arith

peeks_quote :
    (text rest : Text)
    → IsQuoted text
    → (peeks 34 (text ++ rest) ≡ true) × (peeks b'}' (text ++ rest) ≡ false)
peeks_quote [] rest h = absurd h
peeks_quote (c ∷ text) rest h = (ground arith, ground arith)

skip_ws_colon : (rest : Text) → skip_ws (b':' ∷ rest) ≡ b':' ∷ rest
unfolding skip_ws
skip_ws_colon rest = refl

-- One round of the loop over the fields of an object.
object_round :
    (p : Parser Json) (fuel : ℕ) (seen : List Text) (input opened colon later : Bytes) (key : Text)
    (rest : Bytes) (v : Json) (after : Bytes)
    → skip_ws input ≡ opened
    → peeks 34 opened ≡ true
    → string opened ≡ ok (key, rest)
    → any (λ k. is_same k key) seen ≡ false
    → skip_ws rest ≡ colon
    → peeks b':' colon ≡ true
    → p (drop 1 colon) ≡ ok (v, later)
    → skip_ws later ≡ after
    → object_loop p (suc fuel) seen input
      ≡ more_fields p (object_loop p fuel (key ∷ seen)) key v after
unfolding object_loop
object_round p fuel seen input opened colon later key rest v after a b c d e f g h =
    rw (a, b, c, d, e, f, g, h) refl

object_opens :
    (p : Parser Json) (input first : Bytes) (members : Fields) (rest : Bytes)
    → skip_ws (drop 1 input) ≡ first
    → peeks b'}' first ≡ false
    → object_loop p (suc (length first)) [] first ≡ ok (members, rest)
    → object p input ≡ ok (Json.object members, rest)
unfolding object
object_opens p input first members rest a b c = rw (a, b, c) refl

pub field-ReadsFields :
    (key : Text) (v : Json) (members : Fields)
    → ReadsValue v
    → ReadsMoreFields members
    → ReadsFields (field key v members)
unfolding IsWritable
field-ReadsFields key v members one more left fuel seen rest h n =
    let after = write_more_fields members ++ rest in
    let stops = more_fields-Stops members rest in
    let colon = b':' ∷ (write v ++ after) in
    let opened = write_string key ++ colon in
    let quote = write_string_quote key in
    object_round (value left) fuel seen opened opened colon after key colon v after
      (skip_ws_quote (write_string key) colon quote) (peeks_quote (write_string key) colon quote).0
      (string-write_string key colon h.0) h.1 (skip_ws_colon (write v ++ after)) refl
      (one left h.2 after stops) (skip_ws-Stops after stops)
    ∙ more left fuel (key ∷ seen) key v rest h.3 n

pub more-ReadsMoreFields :
    (key : Text) (v : Json) (members : Fields)
    → ReadsFields (field key v members)
    → ReadsMoreFields (field key v members)
unfolding more_fields write
more-ReadsMoreFields key v members whole left zero seen k w rest h n = absurd (omega arith)
more-ReadsMoreFields key v members whole left (suc fuel) seen k w rest h n =
    rw
      (
        append_assoc (write_string key) (b':' ∷ (write v ++ write_more_fields members)) rest,
        append_assoc (write v) (write_more_fields members) rest,
        whole left fuel seen rest h (omega arith),
      )
      refl

pub no_fields-ReadsMoreFields : ReadsMoreFields no_fields
unfolding more_fields write
no_fields-ReadsMoreFields left fuel seen key v rest h n = refl

field_count-le :
    (members : Fields) (rest : Bytes)
    → field_count members ≤ length (write_more_fields members ++ rest)
unfolding write
field_count-le no_fields rest = omega arith
field_count-le (field key v members) rest =
    let a = length-append (write_string key) (b':' ∷ (write v ++ write_more_fields members)) in
    let b = length-append (write v) (write_more_fields members) in
    let c =
      length-append (write_string key ++ (b':' ∷ (write v ++ write_more_fields members))) rest in
    let d = length-append (write_more_fields members) rest in
    omega (arith, a, b, c, d, field_count-le members rest)

object-Reads :
    (left : ℕ) (members : Fields) (rest : Bytes)
    → AreFields left [] members
    → ReadsFields members
    → object (value left) (write (Json.object members) ++ rest) ≡ ok (Json.object members, rest)
unfolding write
object-Reads left no_fields rest h r = unfold object in refl
object-Reads left (field key v members) rest h r =
    let after = write_more_fields members ++ rest in
    let colon = b':' ∷ (write v ++ after) in
    let text = write_string key ++ colon in
    let quote = write_string_quote key in
    let enough = field_count-le members rest in
    let a = length-append (write_string key) colon in
    let b = length-append (write v) after in
    let same : write_fields (field key v members) ++ rest ≡ text =
      append_assoc (write_string key) (b':' ∷ (write v ++ write_more_fields members)) rest
      ∙ ap {B = Text} (λ (t : Text). write_string key ++ (b':' ∷ t))
          (append_assoc (write v) (write_more_fields members) rest) in
    object_opens (value left) (write (Json.object (field key v members)) ++ rest) text
      (field key v members) rest (ap skip_ws same ∙ skip_ws_quote (write_string key) colon quote)
      (peeks_quote (write_string key) colon quote).1
      (r left (length text) [] rest h (omega (arith, enough, a, b)))

pub object-ReadsValue : (members : Fields) → ReadsFields members → ReadsValue (Json.object members)
unfolding IsWritable
object-ReadsValue members r zero h = absurd h
object-ReadsValue members r (suc left) h =
    value-Reads left (Json.object members) (object_by left members r h)
  where
    object_by :
        (left : ℕ) (members : Fields)
        → ReadsFields members
        → AreFields left [] members
        → Reads (value_by (object (value left)) (array (value left))) (Json.object members)
    object_by left members r h rest s =
        dispatch_object (object (value left)) (array (value left)) members rest
        ∙ object-Reads left members rest h r
