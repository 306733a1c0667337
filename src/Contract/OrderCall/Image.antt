-- ===== src/Contract/OrderCall/Image.antt =====
-- What the memory of a signed order holds.
use qcore_rs.Prelude.{
  ℕ, ◌+◌, ◌-◌, ◌≤◌, ◌≡◌, refl, ap, ◌∙◌, max, List, [], ◌∷◌, ok, length, Bytes, u64_max, All, arith,
  ◌⊎◌, inl,
}
use qcore_rs.Contract.Memory.{splice, get_elem?, length-splice, get-splice}
use qcore_rs.Contract.Field.{FieldArg, FieldValue, bytes, width, word_bytes}
use qcore_rs.Contract.Place.{place, Holds}
use qcore_rs.Contract.CallArgs.{contract_context_bytes}
use qcore_rs.Contract.CallArgs.Ends.{last_end}
use qcore_rs.Contract.OrderCall.Layout.{
  Offsets, Region, region_len, fields_end, last_word_end, write_words, write_region,
}

-- A write leaves what lies apart from it.
splice-Holds_apart :
    (start : ℕ) (x memory : Bytes) (offset : ℕ) (bs : Bytes)
    → start + length x ≤ length memory
    → (offset + length bs ≤ start) ⊎ (start + length x ≤ offset)
    → Holds memory offset bs
    → Holds (splice start x memory) offset bs
splice-Holds_apart start x memory offset bs fits apart h i lt =
    ground (arith, get-splice start x memory (offset + i), h i lt)

-- A write holds what was written.
splice-Holds :
    (start : ℕ) (x memory : Bytes)
    → start + length x ≤ length memory
    → Holds (splice start x memory) start x
splice-Holds start x memory fits i lt =
    let e : start + i - start ≡ i = omega arith in
    ground (arith, get-splice start x memory (start + i), ap (get_elem? x) e)

module _ (start : ℕ) (r : Region) (memory : Bytes)
    (fits : start + region_len r ≤ length memory) where
  abbrev first : Bytes
  first = splice start r.public_key memory

  abbrev second : Bytes
  second = splice (start + length r.public_key) r.signature first

  length-second : length second ≡ length memory
  length-second =
      length-splice (start + length r.public_key) r.signature first
      ∙ length-splice start r.public_key memory

  pub write_region-Holds_apart :
      (offset : ℕ) (bs : Bytes)
      → (offset + length bs ≤ start) ⊎ (start + region_len r ≤ offset)
      → Holds memory offset bs
      → Holds (write_region start r memory) offset bs
  unfolding write_region
  write_region-Holds_apart offset bs apart h =
      let n1 = length-splice start r.public_key memory in
      let n2 = length-second in
      splice-Holds_apart (start + length r.public_key + length r.signature) r.message second offset
        bs (omega (arith, n2)) (ground (arith, apart))
        (splice-Holds_apart (start + length r.public_key) r.signature first offset bs
          (omega (arith, n1)) (ground (arith, apart))
          (splice-Holds_apart start r.public_key memory offset bs (omega arith)
            (ground (arith, apart)) h))

  pub write_region-Holds :
      Holds (write_region start r memory) start r.public_key
      × Holds (write_region start r memory) (start + length r.public_key) r.signature
      × Holds
          (write_region start r memory)
          (start + length r.public_key + length r.signature)
          r.message
  unfolding write_region
  write_region-Holds =
      let n1 = length-splice start r.public_key memory in
      let n2 = length-second in
      let at = start + length r.public_key in
      (
        splice-Holds_apart (at + length r.signature) r.message second start r.public_key
            (omega (arith, n2)) (inl (omega arith))
            (splice-Holds_apart at r.signature first start r.public_key (omega (arith, n1))
              (inl (omega arith)) (splice-Holds start r.public_key memory (omega arith))),
        splice-Holds_apart (at + length r.signature) r.message second at r.signature
            (omega (arith, n2)) (inl (omega arith))
            (splice-Holds at r.signature first (omega (arith, n1))),
        splice-Holds (at + length r.signature) r.message second (omega (arith, n2)),
      )

-- The words of the order and its fields, as one list.
abbrev pub order_args : Offsets → ℕ → ℕ → List FieldArg → List FieldArg
order_args o scheme expiry fields =
    record { offset = o.scheme_off; value = FieldValue.word scheme }
    ∷ record { offset = o.ptr_off; value = FieldValue.word o.region_off }
    ∷ record { offset = o.expiry_off; value = FieldValue.word expiry }
    ∷ fields

pub write_words-place :
    (o : Offsets) (scheme expiry : ℕ) (fields : List FieldArg) (memory : Bytes)
    → write_words o scheme expiry fields memory ≡ place memory (order_args o scheme expiry fields)
unfolding write_words place bytes
write_words-place o scheme expiry fields memory = refl

fields_end_ok :
    (n m : ℕ) (fields : List FieldArg)
    → fields_end n fields ≡ ok m
    → (m ≡ last_end n fields) × All (λ f. f.offset + width f.value ≤ u64_max) fields
unfolding fields_end
fields_end_ok n m [] h = (ground arith, tt)
fields_end_ok n m (f ∷ rest) h =
    let fits : f.offset + width f.value ≤ u64_max = ground arith in
    let later : fields_end (max n (f.offset + width f.value)) rest ≡ ok m = ground arith in
    let (end, all) = fields_end_ok (max n (f.offset + width f.value)) m rest later in
    (end, (fits, all))

pub last_word_end_ok :
    (o : Offsets) (scheme expiry n : ℕ) (fields : List FieldArg)
    → last_word_end o fields ≡ ok n
    → (n ≡ last_end contract_context_bytes (order_args o scheme expiry fields))
      × All (λ f. f.offset + width f.value ≤ u64_max) (order_args o scheme expiry fields)
unfolding last_word_end
last_word_end_ok o scheme expiry n fields h =
    let a : o.scheme_off + word_bytes ≤ u64_max = ground arith in
    let b : o.ptr_off + word_bytes ≤ u64_max = ground arith in
    let c : o.expiry_off + word_bytes ≤ u64_max = ground arith in
    let start =
      max (max (max contract_context_bytes (o.scheme_off + word_bytes)) (o.ptr_off + word_bytes))
        (o.expiry_off + word_bytes) in
    let later : fields_end start fields ≡ ok n = ground arith in
    let (end, all) = fields_end_ok start n fields later in (end, (a, (b, (c, all))))
