-- ===== src/Contract/Answers/ReadBack.antt =====
-- `parse_storage` of src/contract.rs, on a storage as a gateway reports it.
use qcore_rs.Prelude.{
  ℕ, ◌≤◌, ◌<◌, ◌≡◌, refl, true, some, List, [], ◌∷◌, ok, ◌==◌, list_eq, nat_eq, length, Text, codes,
  All, arith, u64_max,
}
use qcore_rs.Prelude.Decimal.{decimal}
use qcore_rs.Prelude.Decimal.ReadBack.{decimal-IsDigit}
use qcore_rs.Prelude.Utf8.{start, utf8_run, utf8_step}
use qcore_rs.Json.{Json, Items, no_items, item, no_fields, field, render, get, as_str, as_array}
use qcore_rs.Json.Parser.{max_depth}
use qcore_rs.Json.Hex.{to_hex, IsInk, to_hex-IsInk, from_hex-to_hex}
use qcore_rs.Json.RoundTrip.{parse-render}
use qcore_rs.Json.RoundTrip.Values.{IsWritable, AreWritable}
use qcore_rs.Gateway.ReadBack.{digits-utf8_run, canonical_decimal-decimal}
use qcore_rs.Contract.Answers.{StorageSlot, slots_of, u64_of, parse_storage}

-- The answer: each slot's key as hex and its value as a decimal text.
abbrev slot_json : StorageSlot → Json
slot_json s = Json.object (
    field (codes "slot") (Json.str (to_hex s.slot))
      (field (codes "value") (Json.str (decimal s.value)) no_fields))

unfoldable pub slot_items : List StorageSlot → Items
slot_items [] = no_items
slot_items (s ∷ slots) = item (slot_json s) (slot_items slots)

abbrev pub storage_answer : List StorageSlot → Json
storage_answer slots = Json.object (field (codes "slots") (Json.array (slot_items slots)) no_fields)

-- A slot whose key is 32 bytes and whose value is a u64.
abbrev pub IsStored : StorageSlot → Type 0
IsStored s = (length s.slot ≡ 32) × All (λ b. b < 256) s.slot × (s.value ≤ u64_max)

pub ink-utf8_run : (text : Text) → All IsInk text → utf8_run start text ≡ some start
unfolding utf8_run utf8_step
ink-utf8_run [] a = refl
ink-utf8_run (c ∷ text) a = ground (arith, a.0.1, ink-utf8_run text a.1)

slot_items-AreWritable :
    (slots : List StorageSlot) → All IsStored slots → AreWritable 126 (slot_items slots)
unfolding slot_items IsWritable utf8_run
slot_items-AreWritable [] a = tt
slot_items-AreWritable (s ∷ slots) a = (
  (
    refl,
    refl,
    ink-utf8_run (to_hex s.slot) (to_hex-IsInk s.slot a.0.1),
    (refl, refl, digits-utf8_run (decimal s.value) (decimal-IsDigit s.value), tt),
  ),
  slot_items-AreWritable slots a.1,
)

storage_answer-IsWritable :
    (slots : List StorageSlot) → All IsStored slots → IsWritable max_depth (storage_answer slots)
unfolding IsWritable utf8_run
storage_answer-IsWritable slots a = (refl, refl, slot_items-AreWritable slots a, tt)

pub u64_of-decimal : (n : ℕ) → n ≤ u64_max → u64_of (decimal n) ≡ some n
u64_of-decimal n h = rw (canonical_decimal-decimal n (omega (arith, h))) (ground (arith, h))

slots_of-slot_items :
    (slots : List StorageSlot) → All IsStored slots → slots_of (slot_items slots) ≡ ok slots
unfolding slots_of slot_items get as_str
slots_of-slot_items [] a = refl
slots_of-slot_items (s ∷ slots) a =
    let wide : (length s.slot == 32) ≡ true = ground (arith, a.0.0) in
    rw
      (
        from_hex-to_hex s.slot a.0.1,
        wide,
        u64_of-decimal s.value a.0.2,
        slots_of-slot_items slots a.1,
      )
      refl

-- The storage that a gateway reports, with keys as hex and values as decimals, is read as that
-- storage.
pub parse_storage-answer :
    (slots : List StorageSlot)
    → All IsStored slots
    → parse_storage (render (storage_answer slots)) ≡ ok slots
unfolding parse_storage get as_array
parse_storage-answer slots a =
    rw (parse-render (storage_answer slots) (storage_answer-IsWritable slots a))
      (slots_of-slot_items slots a)
