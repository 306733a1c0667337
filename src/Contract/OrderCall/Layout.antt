-- ===== src/Contract/OrderCall/Layout.antt =====
-- The argument memory of a signed order: four words, the fields, and the region that the chain
-- verifies. This is `build_typed_order_call` of src/contract.rs from `region_start` on.
use qcore_rs.Prelude.{
  ℕ, ◌+◌, max, ltb, List, [], ◌∷◌, ◌++◌, Result, ok, ◌>>=◌, ◌>>◌, refuse, map_err, ok_or,
  checked_add, length, Bytes, u64_max,
}
use qcore_rs.Contract.Memory.{MemoryError, put_word, splice}
use qcore_rs.Contract.Field.{FieldArg, width, word_bytes, zeroes}
use qcore_rs.Contract.Spans.{Span, SpanError, check_spans}
use qcore_rs.Contract.Place.{place, spans_of}
use qcore_rs.Contract.CallArgs.{contract_context_bytes, max_user_memory}

pub data RegionError : Type 0 where
  region_overflows offset_too_large does_not_fit : RegionError
  span : SpanError → RegionError
  write : MemoryError → RegionError

-- the offsets of an order's layout
pub record Offsets : Type 0 where
  pub scheme_off : ℕ
  pub ptr_off : ℕ
  pub expiry_off : ℕ
  pub region_off : ℕ

-- what stands in the verify region
pub record Region : Type 0 where
  pub public_key : Bytes
  pub signature : Bytes
  pub message : Bytes

abbrev pub region_len : Region → ℕ
region_len r = length r.public_key + length r.signature + length r.message

abbrev pub word_end : ℕ → Result RegionError ℕ
word_end off = ok_or (checked_add u64_max off word_bytes) RegionError.offset_too_large

-- the loop that raises `last_word_end`
unfoldable pub fields_end : ℕ → List FieldArg → Result RegionError ℕ
fields_end last [] = ok last
fields_end last (f ∷ rest) = do
  end ← ok_or (checked_add u64_max f.offset (width f.value)) RegionError.offset_too_large
  fields_end (max last end) rest

unfoldable pub last_word_end : Offsets → List FieldArg → Result RegionError ℕ
unfolding fields_end
last_word_end o fields = do
  scheme_end ← word_end o.scheme_off
  ptr_end ← word_end o.ptr_off
  expiry_end ← word_end o.expiry_off
  fields_end (max (max (max contract_context_bytes scheme_end) ptr_end) expiry_end) fields

abbrev pub order_spans : Offsets → List FieldArg → Region → List Span
order_spans o fields r =
    (o.scheme_off, word_bytes)
    ∷ (o.ptr_off, word_bytes)
    ∷ (o.expiry_off, word_bytes)
    ∷ (spans_of fields ++ ((o.region_off, region_len r) ∷ []))

-- `mem_len`, once it and the spans have been checked
unfoldable pub memory_len : Offsets → List FieldArg → Region → Result RegionError ℕ
unfolding last_word_end check_spans
memory_len o fields r = do
  region_end ← ok_or (checked_add u64_max o.region_off (region_len r)) RegionError.region_overflows
  last ← last_word_end o fields
  refuse (ltb max_user_memory (max region_end last)) RegionError.does_not_fit
  map_err RegionError.span (check_spans (order_spans o fields r))
  ok (max region_end last)

unfoldable pub write_words : Offsets → ℕ → ℕ → List FieldArg → Bytes → Result MemoryError Bytes
unfolding put_word place
write_words o scheme expiry fields memory = do
  memory ← put_word memory o.scheme_off scheme
  memory ← put_word memory o.ptr_off o.region_off
  memory ← put_word memory o.expiry_off expiry
  place memory fields

-- the three copies into the region
unfoldable pub write_region : ℕ → Region → Bytes → Bytes
unfolding splice
write_region start r memory =
    let pk_end = start + length r.public_key in
    let sig_end = pk_end + length r.signature in
    splice sig_end r.message (splice pk_end r.signature (splice start r.public_key memory))

unfoldable pub order_memory : Offsets → ℕ → ℕ → List FieldArg → Region → Result RegionError Bytes
unfolding memory_len write_words write_region
order_memory o scheme expiry fields r = do
  mem_len ← memory_len o fields r
  written ← map_err RegionError.write (write_words o scheme expiry fields (zeroes mem_len))
  ok (write_region o.region_off r written)
