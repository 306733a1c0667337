-- ===== src/Examples/Json.antt =====
-- JSON of src/json.rs on concrete texts.
use qcore_rs.Prelude.{◌≡◌, refl, true, some, [], ◌∷◌, ◌++◌, ok, err, codes, arith}
use qcore_rs.Prelude.Decimal.{parse_uint}
use qcore_rs.Prelude.Utf8.{is_utf8, utf8_run}
use qcore_rs.Json.{Json, no_items, item, no_fields, field, render, get}
use qcore_rs.Json.Parser.{JsonError, max_depth, parse}
use qcore_rs.Json.Parser.Total.{parse_total}
use qcore_rs.Json.RoundTrip.{parse-render}
use qcore_rs.Json.RoundTrip.Values.{IsWritable}
use qcore_rs.Json.Hex.{to_hex, from_hex, from_hex-to_hex}

abbrev request : Json
request = Json.object (
    field (codes "a")
      (Json.array (item (Json.int 1) (item (Json.int 20) (item (Json.bool true) no_items))))
      (field (codes "b") (Json.str (10 ∷ 34 ∷ 1 ∷ 195 ∷ 169 ∷ [])) no_fields))

request_parsed :
    parse (codes " { \"a\" : [1, 20,true ], \"b\":\"\\n\\\"\\u0001" ++ (195 ∷ 169 ∷ codes "\"} "))
    ≡ ok request
unfolding parse parse_uint is_utf8
request_parsed = refl

request_rendered :
    render request ≡ codes "{\"a\":[1,20,true],\"b\":\"\\n\\\"\\u0001" ++ (195 ∷ 169 ∷ codes "\"}")
unfolding render
request_rendered = refl

same_key_refused : parse (codes "{\"a\":1,\"a\":2}") ≡ err JsonError.same_key
unfolding parse parse_uint is_utf8
same_key_refused = refl

leading_zero_refused : parse (codes "[01]") ≡ err JsonError.leading_zero
unfolding parse parse_uint is_utf8
leading_zero_refused = refl

pair_decoded : parse (codes "\"\\ud83d\\ude00\"") ≡ ok (Json.str (240 ∷ 159 ∷ 152 ∷ 128 ∷ []))
unfolding parse parse_uint is_utf8
pair_decoded = refl

last_field_got :
    get (codes "a") request
    ≡ some (Json.array (item (Json.int 1) (item (Json.int 20) (item (Json.bool true) no_items))))
unfolding get
last_field_got = refl

hex_upper : from_hex (codes " 0aFF ") ≡ ok (10 ∷ 255 ∷ [])
unfolding from_hex
hex_upper = refl

parse_total_example : ¬ (parse (codes "[{\"a\":") ≡ err JsonError.out_of_fuel)
parse_total_example = parse_total (codes "[{\"a\":")

from_hex-to_hex_example : from_hex (to_hex (10 ∷ 255 ∷ [])) ≡ ok (10 ∷ 255 ∷ [])
from_hex-to_hex_example = from_hex-to_hex (10 ∷ 255 ∷ []) (omega arith, (omega arith, tt))

request-IsWritable : IsWritable max_depth request
unfolding IsWritable utf8_run
request-IsWritable = (refl, refl, (omega arith, (omega arith, (tt, tt))), (refl, refl, refl, tt))

parse-render_example : parse (render request) ≡ ok request
parse-render_example = parse-render request request-IsWritable
