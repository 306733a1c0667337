-- ===== src/Json/RoundTrip.antt =====
-- `parse` of src/json.rs, on what `render` writes.
pub mod Strings
pub mod Numbers
pub mod Values
pub mod Arrays
pub mod Objects
use mathlib.Core.List.{append_assoc, append-nil}
use qcore_rs.Prelude.{
  ℕ, zero, suc, ◌+◌, ◌≤◌, ◌<◌, ◌≡◌, refl, sym, ap, ◌∙◌, Bool, true, false, ◌&&◌, ◌||◌, not, Option,
  none, some, List, [], ◌∷◌, ◌++◌, Result, ok, err, ◌>>=◌, ◌>>◌, refuse, leb, ◌==◌, if◌then◌else◌,
  length, length-append, any, is_same, list_eq, nat_eq, drop, Bytes, Text, arith, inl, inr, ◌⊎◌,
  u64_max, is_ascii_digit, codes,
}
use qcore_rs.Prelude.Utf8.{start, utf8_run}
use qcore_rs.Prelude.Decimal.{decimal}
use qcore_rs.Json.{
  Json, Items, Fields, no_items, item, no_fields, field, write, write_items, write_more_items,
  write_fields, write_more_fields, render, write_string,
}
use qcore_rs.Json.Parser.{
  JsonError, Parser, skip_ws, is_ws, peeks, string, number, boolean, null, literal, more_items,
  array_loop, array, more_fields, object_loop, object, value_by, value, parse, max_depth,
  refuse_depth, finish,
}
use qcore_rs.Json.RoundTrip.Strings.{string-write_string}
use qcore_rs.Json.RoundTrip.Numbers.{Stops, number-decimal, decimal_first}
use qcore_rs.Json.RoundTrip.Values.{
  IsWritable, scalar, skip_ws_opening, value_by-bool, value_by-int, value_by-null, value_by-str,
  write-IsOpening,
}
use qcore_rs.Json.RoundTrip.Objects.{
  ReadsFields, ReadsMoreFields, field-ReadsFields, more-ReadsMoreFields, no_fields-ReadsMoreFields,
  object-ReadsValue,
}
use qcore_rs.Json.RoundTrip.Arrays.{
  ReadsItems, ReadsMore, ReadsValue, array-ReadsValue, item-ReadsItems, more-ReadsMore,
  no_items-ReadsMore,
}

pub write-ReadsValue : (v : Json) → ReadsValue v
unfolding IsWritable
write-ReadsValue v =
    elim v
      as (λ v. ReadsValue v) (λ items. ReadsMore items × ReadsItems items) (λ members.
        ReadsMoreFields members × ReadsFields members) [
          | Json.null ↦ λ left h. scalar left Json.null (λ o a. value_by-null o a)
          | Json.bool b ↦ λ left h. scalar left (Json.bool b) (λ o a. value_by-bool o a b)
          | Json.int n ↦ λ left h. scalar left (Json.int n) (λ o a. value_by-int o a n h)
          | Json.str s ↦ λ left h. scalar left (Json.str s) (λ o a. value_by-str o a s h)
          | Json.array (items → ih) ↦ array-ReadsValue items ih.1
          | Json.object (members → ih) ↦ object-ReadsValue members ih.1
          | no_items ↦ (no_items-ReadsMore, tt)
          | item (w → ih) (rest → ihs) ↦
              let whole = item-ReadsItems w rest ih ihs.0 in (more-ReadsMore w rest whole, whole)
          | no_fields ↦ (no_fields-ReadsMoreFields, tt)
          | field key (w → ih) (rest → ihs) ↦
              let whole = field-ReadsFields key w rest ih ihs.0 in
              (more-ReadsMoreFields key w rest whole, whole)
        ]

-- What the wire can carry, in at most 128 levels, is parsed back from what `render` writes.
pub parse-render : (v : Json) → IsWritable max_depth v → parse (render v) ≡ ok v
unfolding parse render skip_ws
parse-render v h =
    let opens = skip_ws_opening (write v) [] (write-IsOpening v) in
    let text = append-nil (write v) in
    let read = write-ReadsValue v max_depth h [] tt in
    let start_at : skip_ws (write v) ≡ write v = ap skip_ws (sym text) ∙ opens ∙ text in
    let whole : value max_depth (skip_ws (write v)) ≡ ok (v, []) =
      ap (value max_depth) (start_at ∙ sym text) ∙ read in
    ap {B = Result JsonError Json}
      (λ (r : Result JsonError (Json × Bytes)). r >>= λ a. finish a.0 (skip_ws a.1)) whole
