-- ===== src/Contract/Answers.antt =====
-- The requests and answers of src/contract.rs: storage, events, assets, and the fields of an order as
-- texts.
pub mod ReadBack
use qcore_rs.Prelude.{
  ℕ, ◌*◌, ◌-◌, Bool, true, false, not, ◌&&◌, ◌||◌, Option, none, some, List, [], ◌∷◌, ◌++◌, Result,
  ok, err, ◌>>=◌, ◌>>◌, refuse, ok_or, map_err, ltb, leb, ◌==◌, if◌then◌else◌, is_same, list_eq,
  nat_eq, length, take, find, min, Bytes, Text, codes, u64_max,
}
use qcore_rs.Json.{Json, Items, no_items, item, no_fields, field, render, get, as_str, as_array}
use qcore_rs.Json.Parser.{JsonError, parse}
use qcore_rs.Json.Hex.{HexError, to_hex, from_hex}
use qcore_rs.Gateway.{canonical_decimal, and_then, at_most}
use qcore_rs.Contract.Word.{from_be_bytes}
use qcore_rs.Contract.Field.{FieldArg, FieldValue, wide_value, word_bytes, zeroes}
use qcore_rs.Contract.OrderCall.{
  OrderCrates, OrderSpec, OrderError, SignedOrderCall, build_typed_order_call,
}

pub data AnswerError : Type 0 where
  not_json : JsonError → AnswerError
  not_hex : HexError → AnswerError
  no_slots no_slot_key slot_not_32_bytes value_not_whole value_not_a_string no_value no_events
        no_contract no_selector selector_not_four_bytes no_data hash_not_32_bytes word_not_whole
        wide_not_whole address_not_32_bytes expiry_passed expiry_too_far :
      AnswerError
  width_not_supported : ℕ → AnswerError
  order : OrderError → AnswerError

abbrev pub sized : ℕ → Bytes → AnswerError → Result AnswerError Bytes
sized n bytes e = if length bytes == n then ok bytes else err e

abbrev pub hex_of : Text → Result AnswerError Bytes
hex_of text = map_err AnswerError.not_hex (from_hex text)

unfoldable pub layout_hash_from_hex : Text → Result AnswerError Bytes
unfolding from_hex
layout_hash_from_hex hex = do bytes ← hex_of hex; sized 32 bytes AnswerError.hash_not_32_bytes

-- A text of a whole number that a u64 holds.
abbrev pub u64_of : Text → Option ℕ
u64_of text = at_most u64_max (canonical_decimal text)

unfoldable pub field_value_of_width : ℕ → Text → Result AnswerError FieldValue
unfolding canonical_decimal from_hex
field_value_of_width width value =
    if width == word_bytes
    then (ok_or (u64_of value) AnswerError.word_not_whole >>= λ n. ok (FieldValue.word n))
    else if width == 16
    then (ok_or (canonical_decimal value) AnswerError.wide_not_whole >>= λ n. ok (wide_value n))
    else if width == 32
    then (hex_of value >>= λ bytes. sized 32 bytes AnswerError.address_not_32_bytes >>= λ address.
        ok (FieldValue.address address))
    else err (AnswerError.width_not_supported width)

pub record TypedField : Type 0 where
  pub offset : ℕ
  pub width : ℕ
  pub value : Text

unfoldable pub typed_args : List TypedField → Result AnswerError (List FieldArg)
unfolding field_value_of_width
typed_args [] = ok []
typed_args (f ∷ rest) = do
  value ← field_value_of_width f.width f.value
  later ← typed_args rest
  ok (record { offset = f.offset; value = value } ∷ later)

-- `build_order_from_typed`, on the other arguments of `build_typed_order_call`
unfoldable pub build_order_from_typed :
    OrderCrates → Option Bytes → OrderSpec → List TypedField → Result AnswerError SignedOrderCall
unfolding typed_args build_typed_order_call
build_order_from_typed c drawn s fields = do
  typed ← typed_args fields
  map_err AnswerError.order (build_typed_order_call c drawn (record s { fields = typed }))

abbrev pub address_field : Text → Text → Json
address_field key address = Json.object (field key (Json.str address) no_fields)

abbrev pub storage_body : Text → Text
storage_body address = render (address_field (codes "address") address)

unfoldable pub key_items : List Bytes → Items
unfolding to_hex
key_items [] = no_items
key_items (key ∷ keys) = item (Json.str (to_hex key)) (key_items keys)

abbrev pub storage_at_body : Text → List Bytes → Text
storage_at_body address keys = render (
    Json.object (
      field (codes "address") (Json.str address)
        (field (codes "keys") (Json.array (key_items keys)) no_fields)))

abbrev pub events_body : ℕ → Text
events_body height = render (Json.object (field (codes "height") (Json.int height) no_fields))

abbrev pub asset_balance_body : Text → Text → Text
asset_balance_body issuer holder = render (
    Json.object (
      field (codes "issuer") (Json.str issuer)
        (field (codes "holder") (Json.str holder) no_fields)))

abbrev pub asset_supply_body : Text → Text
asset_supply_body issuer = render (address_field (codes "issuer") issuer)

-- The first eight bytes of a symbol, as a big endian word.
unfoldable pub pack_symbol : Text → ℕ
unfolding from_be_bytes
pack_symbol symbol =
    let n = min (length symbol) 8 in from_be_bytes (take n symbol ++ zeroes (8 - n))

pub record StorageSlot : Type 0 where
  pub slot : Bytes
  pub value : ℕ

abbrev pub value_in : Option Json → Result AnswerError ℕ
value_in none = err AnswerError.no_value
value_in (some (Json.str text)) = ok_or (u64_of text) AnswerError.value_not_whole
value_in (some _) = err AnswerError.value_not_a_string

unfoldable pub slots_of : Items → Result AnswerError (List StorageSlot)
unfolding get as_str from_hex canonical_decimal
slots_of no_items = ok []
slots_of (item entry rest) = do
  text ← ok_or (and_then (get (codes "slot") entry) as_str) AnswerError.no_slot_key
  bytes ← hex_of text
  slot ← sized 32 bytes AnswerError.slot_not_32_bytes
  value ← value_in (get (codes "value") entry)
  later ← slots_of rest
  ok (record { slot = slot; value = value } ∷ later)

unfoldable pub parse_storage : Text → Result AnswerError (List StorageSlot)
unfolding parse slots_of
parse_storage response = do
  v ← map_err AnswerError.not_json (parse response)
  items ← ok_or (and_then (get (codes "slots") v) as_array) AnswerError.no_slots
  slots_of items

abbrev pub value_at : Option StorageSlot → Option ℕ
value_at none = none
value_at (some slot) = some slot.value

unfoldable pub storage_value_reported : List StorageSlot → Bytes → Option ℕ
storage_value_reported slots key = value_at (find (λ s. is_same s.slot key) slots)

abbrev pub or_zero : Option ℕ → ℕ
or_zero none = 0
or_zero (some n) = n

unfoldable pub storage_value : List StorageSlot → Bytes → ℕ
storage_value slots key = or_zero (value_at (find (λ s. is_same s.slot key) slots))

abbrev pub max_order_lifetime_secs : ℕ
max_order_lifetime_secs = 86_400

unfoldable pub check_order_expiry : ℕ → ℕ → Result AnswerError (Unit {0})
check_order_expiry expiry now_secs = do
  refuse (expiry == 0 || leb expiry now_secs) AnswerError.expiry_passed
  refuse (ltb max_order_lifetime_secs (expiry - now_secs)) AnswerError.expiry_too_far

pub record ContractEvent : Type 0 where
  pub contract : Text
  pub selector : Bytes
  pub data_bytes : Bytes

unfoldable pub events_of : Items → Result AnswerError (List ContractEvent)
unfolding get as_str from_hex
events_of no_items = ok []
events_of (item entry rest) = do
  contract ← ok_or (and_then (get (codes "contract") entry) as_str) AnswerError.no_contract
  selector_text ← ok_or (and_then (get (codes "selector") entry) as_str) AnswerError.no_selector
  selector_bytes ← hex_of selector_text
  selector ← sized 4 selector_bytes AnswerError.selector_not_four_bytes
  data_text ← ok_or (and_then (get (codes "data") entry) as_str) AnswerError.no_data
  bytes ← hex_of data_text
  later ← events_of rest
  ok (record { contract = contract; selector = selector; data_bytes = bytes } ∷ later)

unfoldable pub parse_events : Text → Result AnswerError (List ContractEvent)
unfolding parse events_of
parse_events response = do
  v ← map_err AnswerError.not_json (parse response)
  items ← ok_or (and_then (get (codes "events") v) as_array) AnswerError.no_events
  events_of items

unfoldable pub event_word : Bytes → Option ℕ
unfolding from_be_bytes
event_word bytes = if length bytes == 8 then some (from_be_bytes bytes) else none
