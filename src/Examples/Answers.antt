-- ===== src/Examples/Answers.antt =====
-- Answers about storage and events, and orders whose fields are texts.
use qcore_rs.Prelude.{ℕ, zero, suc, ◌≡◌, refl, List, [], ◌∷◌, ok, err, codes, arith, ◌<◌, All}
use qcore_rs.Prelude.Decimal.{parse_uint}
use qcore_rs.Prelude.Utf8.{is_utf8}
use qcore_rs.Json.{render, get, as_str, as_array}
use qcore_rs.Json.Parser.{parse}
use qcore_rs.Json.Hex.{from_hex}
use qcore_rs.Gateway.{canonical_decimal}
use qcore_rs.Contract.Field.{FieldValue, zeroes}
use qcore_rs.Contract.Answers.{
  AnswerError, StorageSlot, field_value_of_width, pack_symbol, parse_storage, parse_events,
  storage_value, check_order_expiry,
}
use qcore_rs.Contract.Answers.ReadBack.{storage_answer, parse_storage-answer}

abbrev two_slots : List StorageSlot
two_slots =
    record { slot = 1 ∷ zeroes 31; value = 700 } ∷ record { slot = zeroes 32; value = 0 } ∷ []

pub zeroes_small : (n : ℕ) → All (λ b. b < 256) (zeroes n)
zeroes_small zero = tt
zeroes_small (suc n) = (omega arith, zeroes_small n)

parse_storage-answer_example : parse_storage (render (storage_answer two_slots)) ≡ ok two_slots
parse_storage-answer_example = parse_storage-answer two_slots (
  (refl, (omega arith, zeroes_small 31), omega arith),
  ((refl, zeroes_small 32, omega arith), tt),
)

first_value : storage_value two_slots (1 ∷ zeroes 31) ≡ 700
unfolding storage_value
first_value = refl

missing_is_zero : storage_value two_slots (2 ∷ zeroes 31) ≡ 0
unfolding storage_value
missing_is_zero = refl

number_value_refused :
    parse_storage (
      codes
        "{\"slots\":[{\"slot\":\"0000000000000000000000000000000000000000000000000000000000000000\",\"value\":7}]}")
    ≡ err AnswerError.value_not_a_string
unfolding parse_storage parse parse_uint is_utf8 get as_str as_array from_hex
number_value_refused = refl

no_events_read : parse_events (codes "{\"events\":[]}") ≡ ok []
unfolding parse_events parse get as_array is_utf8
no_events_read = refl

word_field : field_value_of_width 8 (codes "12") ≡ ok (FieldValue.word 12)
unfolding field_value_of_width canonical_decimal parse_uint
word_field = refl

wide_field_width_refused :
    field_value_of_width 9 (codes "12") ≡ err (AnswerError.width_not_supported 9)
unfolding field_value_of_width
wide_field_width_refused = refl

symbol_packed : pack_symbol (codes "QTOV") ≡ 5_860_396_245_901_639_680
unfolding pack_symbol
symbol_packed = refl

one_day_is_admitted : check_order_expiry 86_500 100 ≡ ok tt
unfolding check_order_expiry
one_day_is_admitted = refl

a_second_more_is_refused : check_order_expiry 86_501 100 ≡ err AnswerError.expiry_too_far
unfolding check_order_expiry
a_second_more_is_refused = refl
