-- ===== src/Contract/Place.antt =====
-- The loop that writes the fields of a call into its memory, and what the memory then holds.
use qcore_rs.Prelude.{
  ℕ, zero, suc, ◌+◌, ◌-◌, ◌≤◌, ◌<◌, ◌≡◌, refl, ap, ◌∙◌, some, List, [], ◌∷◌, Result, ok, ◌>>=◌,
  length, arith, Bytes, u64_max, All, ◌⊎◌,
}
use qcore_rs.Contract.Memory.{MemoryError, get_elem?, splice, put_bytes, length-splice, get-splice}
use qcore_rs.Contract.Field.{FieldArg, bytes, width, zeroes, IsTyped, length-bytes}
use qcore_rs.Contract.Spans.{Span, Disjoint, AllDisjoint}

abbrev pub span_of : FieldArg → Span
span_of f = (f.offset, width f.value)

abbrev pub spans_of : List FieldArg → List Span
spans_of [] = []
spans_of (f ∷ rest) = span_of f ∷ spans_of rest

-- `for field in args { put_bytes(..)?; }`
unfoldable pub place : Bytes → List FieldArg → Result MemoryError Bytes
unfolding put_bytes bytes
place memory [] = ok memory
place memory (f ∷ rest) = do written ← put_bytes memory f.offset (bytes f.value); place written rest

-- The memory holds the bytes from the offset on.
abbrev pub Holds : Bytes → ℕ → Bytes → Type 0
Holds memory offset bs = (i : ℕ) → i < length bs → get_elem? memory (offset + i) ≡ get_elem? bs i

-- The index lies in none of the spans.
abbrev pub Outside : ℕ → List Span → Type 0
Outside i = All (λ s. (i < s.0) ⊎ (s.0 + s.1 ≤ i))

abbrev pub FitsIn : ℕ → FieldArg → Type 0
FitsIn size f = (f.offset + width f.value ≤ size) × (f.offset + width f.value ≤ u64_max)

module _ (memory : Bytes) (f : FieldArg) (t : IsTyped f.value) where
  pub put_bytes_fits :
      FitsIn (length memory) f
      → put_bytes memory f.offset (bytes f.value) ≡ ok (splice f.offset (bytes f.value) memory)
  unfolding put_bytes
  put_bytes_fits h = ground (arith, length-bytes f.value t)

  get-splice_inside :
      (i : ℕ)
      → FitsIn (length memory) f
      → i < width f.value
      → get_elem? (splice f.offset (bytes f.value) memory) (f.offset + i)
        ≡ get_elem? (bytes f.value) i
  get-splice_inside i h lt =
      let e : f.offset + i - f.offset ≡ i = omega arith in
      ground (
        arith,
        length-bytes f.value t,
        get-splice f.offset (bytes f.value) memory (f.offset + i),
        ap (get_elem? (bytes f.value)) e,
      )

  get-splice_outside :
      (i : ℕ)
      → FitsIn (length memory) f
      → (i < f.offset) ⊎ (f.offset + width f.value ≤ i)
      → get_elem? (splice f.offset (bytes f.value) memory) i ≡ get_elem? memory i
  get-splice_outside i h out =
      ground (arith, length-bytes f.value t, get-splice f.offset (bytes f.value) memory i)

-- What `place` leaves where it writes nothing.
pub place-Outside :
    (memory : Bytes) (args : List FieldArg) (i : ℕ) (m : Bytes)
    → All (λ f. IsTyped f.value) args
    → All (FitsIn (length memory)) args
    → Outside i (spans_of args)
    → place memory args ≡ ok m
    → get_elem? m i ≡ get_elem? memory i
unfolding place
place-Outside memory [] i m t h out e = ground arith
place-Outside memory (f ∷ rest) i m t h out e =
    let written = splice f.offset (bytes f.value) memory in
    let same = length-splice f.offset (bytes f.value) memory in
    let later =
      place-Outside written rest i m t.1 (rw same h.1) out.1
        (ground (arith, put_bytes_fits memory f t.0 h.0)) in
    later ∙ get-splice_outside memory f t.0 i h.0 out.0

-- A span that is disjoint from the others: none of its places lies in them.
Outside-Disjoint :
    (a : Span) (i : ℕ) (spans : List Span)
    → All (Disjoint a) spans
    → i < a.1
    → Outside (a.0 + i) spans
Outside-Disjoint a i [] d lt = tt
Outside-Disjoint a i (s ∷ spans) d lt = (ground (arith, d.0), Outside-Disjoint a i spans d.1 lt)

pub place-Holds :
    (memory : Bytes) (args : List FieldArg) (m : Bytes)
    → All (λ f. IsTyped f.value) args
    → All (FitsIn (length memory)) args
    → AllDisjoint (spans_of args)
    → place memory args ≡ ok m
    → All (λ f. Holds m f.offset (bytes f.value)) args
unfolding place
place-Holds memory [] m t h d e = tt
place-Holds memory (f ∷ rest) m t h d e =
    let written = splice f.offset (bytes f.value) memory in
    let same = length-splice f.offset (bytes f.value) memory in
    let later : place written rest ≡ ok m = ground (arith, put_bytes_fits memory f t.0 h.0) in
    (
      λ i lt.
          let inside : i < width f.value = omega (arith, length-bytes f.value t.0) in
          place-Outside written rest (f.offset + i) m t.1 (rw same h.1)
            (Outside-Disjoint (span_of f) i (spans_of rest) d.0 inside) later
          ∙ get-splice_inside memory f t.0 i h.0 inside,
      place-Holds written rest m t.1 (rw same h.1) d.1 later,
    )

-- Where every field fits, all are written, and the size stays.
pub place_total :
    (memory : Bytes) (args : List FieldArg)
    → All (λ f. IsTyped f.value) args
    → All (FitsIn (length memory)) args
    → (m : Bytes) × (place memory args ≡ ok m) × (length m ≡ length memory)
unfolding place
place_total memory [] t h = (memory, refl, refl)
place_total memory (f ∷ rest) t h =
    let written = splice f.offset (bytes f.value) memory in
    let same = length-splice f.offset (bytes f.value) memory in
    let (m, e, n) = place_total written rest t.1 (rw same h.1) in
    (m, rw (put_bytes_fits memory f t.0 h.0) e, n ∙ same)

pub get-zeroes : (n i : ℕ) → i < n → get_elem? (zeroes n) i ≡ some 0
get-zeroes zero i h = absurd (omega arith)
get-zeroes (suc n) zero h = refl
get-zeroes (suc n) (suc i) h = get-zeroes n i (omega arith)
