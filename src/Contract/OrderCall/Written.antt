-- ===== src/Contract/OrderCall/Written.antt =====
-- The whole memory of a signed order.
use qcore_rs.Prelude.{
  ℕ, ◌+◌, ◌≤◌, ◌<◌, ◌≡◌, sym, ap, ◌∙◌, max, List, [], ◌∷◌, ◌++◌, ok, length, Bytes, u64_max, All,
  All-imp, arith, inl, inr, result-cases,
}
use qcore_rs.Contract.Memory.{length-splice, splice}
use qcore_rs.Contract.Field.{FieldArg, bytes, width, zeroes, IsTyped, length-zeroes, length-bytes}
use qcore_rs.Contract.Word.{be_bytes}
use qcore_rs.Contract.Spans.{Span, check_spans, Disjoint, AllDisjoint}
use qcore_rs.Contract.Spans.Check.{IsProper, check_spans_iff}
use qcore_rs.Contract.Place.{place, spans_of, Holds, FitsIn, place-Holds, place_total}
use qcore_rs.Contract.CallArgs.{contract_context_bytes, max_user_memory}
use qcore_rs.Contract.CallArgs.Ends.{last_end, last_end-ge}
use qcore_rs.Contract.CallArgs.Built.{width_pos}
use qcore_rs.Contract.OrderCall.Layout.{
  Offsets, Region, region_len, last_word_end, order_spans, memory_len, write_words, write_region,
  order_memory,
}
use qcore_rs.Contract.OrderCall.Image.{
  order_args, write_words-place, last_word_end_ok, write_region-Holds, write_region-Holds_apart,
}

-- What the memory of a signed order is: within the limit, the scheme, the offset of the region and
-- the expiry at their words, each field in its place, and in the region the public key, the
-- signature and the message one after the other.
pub record IsOrderImage (o : Offsets) (scheme expiry : ℕ) (fields : List FieldArg) (r : Region)
    (memory : Bytes) : Type 0 where
  pub limited : length memory ≤ max_user_memory
  pub scheme_word : Holds memory o.scheme_off (be_bytes 8 scheme)
  pub ptr_word : Holds memory o.ptr_off (be_bytes 8 o.region_off)
  pub expiry_word : Holds memory o.expiry_off (be_bytes 8 expiry)
  pub placed : All (λ f. Holds memory f.offset (bytes f.value)) fields
  pub public_key : Holds memory o.region_off r.public_key
  pub signature : Holds memory (o.region_off + length r.public_key) r.signature
  pub message : Holds memory (o.region_off + length r.public_key + length r.signature) r.message

apart_of :
    (s : Span) (front : List Span)
    → AllDisjoint (front ++ (s ∷ []))
    → AllDisjoint front × All (λ x. Disjoint x s) front
apart_of s [] d = (tt, tt)
apart_of s (x ∷ front) d =
    let (apart, those) = apart_of s front d.1 in
    let (here, last) = all_front front d.0 in ((here, apart), (last, those))
  where
    all_front :
        (l : List Span) → All (Disjoint x) (l ++ (s ∷ [])) → All (Disjoint x) l × Disjoint x s
    all_front [] a = (tt, a.0)
    all_front (y ∷ l) a = let (h, z) = all_front l a.1 in ((a.0, h), z)

IsProper-of :
    (s : Span) (args : List FieldArg)
    → IsProper s
    → All (λ f. f.offset + width f.value ≤ u64_max) args
    → All IsProper (spans_of args ++ (s ∷ []))
IsProper-of s [] p a = (p, tt)
IsProper-of s (f ∷ args) p a = ((width_pos f.value, omega (arith, a.0)), IsProper-of s args p a.1)

abbrev region_span : Offsets → Region → Span
region_span o r = (o.region_off, region_len r)

record Admitted (o : Offsets) (args : List FieldArg) (r : Region) (n : ℕ) : Type 0 where
  limited : n ≤ max_user_memory
  region_fits : o.region_off + region_len r ≤ n
  fits : All (λ f. (f.offset + width f.value ≤ n) × (f.offset + width f.value ≤ u64_max)) args
  disjoint : AllDisjoint (spans_of args)
  apart : All (λ s. Disjoint s (region_span o r)) (spans_of args)

both_fit :
    (last n : ℕ) (args : List FieldArg)
    → last ≤ n
    → All (λ f. f.offset + width f.value ≤ last) args
    → All (λ f. f.offset + width f.value ≤ u64_max) args
    → All (λ f. (f.offset + width f.value ≤ n) × (f.offset + width f.value ≤ u64_max)) args
both_fit last n [] le a b = tt
both_fit last n (f ∷ args) le a b =
    ((omega (arith, a.0), omega (arith, b.0)), both_fit last n args le a.1 b.1)

module _ (o : Offsets) (scheme expiry : ℕ) (fields : List FieldArg) (r : Region) where
  abbrev args : List FieldArg
  args = order_args o scheme expiry fields

  memory_len_ok : (n : ℕ) → 0 < region_len r → memory_len o fields r ≡ ok n → Admitted o args r n
  unfolding memory_len
  memory_len_ok n p h = elim (result-cases (last_word_end o fields)) [
    | inl failed ↦ absurd (ground (arith, failed.1))
    | inr (last, at) ↦
        let (end, bound) = last_word_end_ok o scheme expiry last fields at in
        let region_end : o.region_off + region_len r ≤ u64_max = ground (arith, at) in
        let n_is : n ≡ max (o.region_off + region_len r) last = ground (arith, at) in
        let short : n ≤ max_user_memory = ground (arith, at, n_is) in
        let checked : check_spans (order_spans o fields r) ≡ ok tt = ground (arith, at) in
        let proper = IsProper-of (region_span o r) args (p, region_end) bound in
        let (disjoint, apart) =
          apart_of (region_span o r) (spans_of args)
            ((check_spans_iff (order_spans o fields r) proper).0 checked) in
        let ends = (last_end-ge contract_context_bytes args).1 in
        record {
          limited = short;
          region_fits = omega (arith, n_is);
          fits =
              both_fit (last_end contract_context_bytes args) n args (omega (arith, n_is, end)) ends
                bound;
          disjoint = disjoint;
          apart = apart;
        }
  ]

  region_kept :
      (fs : List FieldArg) (memory : Bytes)
      → o.region_off + region_len r ≤ length memory
      → All (λ f. IsTyped f.value) fs
      → All (λ s. Disjoint s (region_span o r)) (spans_of fs)
      → All (λ f. Holds memory f.offset (bytes f.value)) fs
      → All (λ f. Holds (write_region o.region_off r memory) f.offset (bytes f.value)) fs
  region_kept [] memory fits t a h = tt
  region_kept (f ∷ fs) memory fits t a h =
      let n = length-bytes f.value t.0 in
      (
        write_region-Holds_apart o.region_off r memory fits f.offset (bytes f.value) (rw (n) a.0)
            h.0,
        region_kept fs memory fits t.1 a.1 h.1,
      )

  image_of :
      (n : ℕ) (written : Bytes)
      → Admitted o args r n
      → All (λ f. IsTyped f.value) args
      → write_words o scheme expiry fields (zeroes n) ≡ ok written
      → IsOrderImage o scheme expiry fields r (write_region o.region_off r written)
  unfolding write_region bytes
  image_of n written a t e =
      let e' : place (zeroes n) args ≡ ok written =
        sym (write_words-place o scheme expiry fields (zeroes n)) ∙ e in
      let size = length-zeroes n in
      let fits : All (FitsIn (length (zeroes n))) args =
        All-imp (λ f h. (omega (arith, size, h.0), h.1)) args a.fits in
      let (m, placed, len) = place_total (zeroes n) args t fits in
      let same : written ≡ m = ground (arith, placed, e') in
      let room : o.region_off + region_len r ≤ length written =
        omega (arith, ap length same, len, size, a.region_fits) in
      let held = place-Holds (zeroes n) args written t fits a.disjoint e' in
      let kept = region_kept args written room t a.apart held in
      let (key, signature, message) = write_region-Holds o.region_off r written room in
      record {
        limited = omega (arith, ap length same, len, size, a.limited, length-write_region written);
        scheme_word = kept.0;
        ptr_word = kept.1.0;
        expiry_word = kept.1.1.0;
        placed = kept.1.1.1;
        public_key = key;
        signature = signature;
        message = message;
      }
    where
      length-write_region :
          (memory : Bytes) → length (write_region o.region_off r memory) ≡ length memory
      length-write_region memory =
          let first = splice o.region_off r.public_key memory in
          let second = splice (o.region_off + length r.public_key) r.signature first in
          length-splice (o.region_off + length r.public_key + length r.signature) r.message second
          ∙ length-splice (o.region_off + length r.public_key) r.signature first
          ∙ length-splice o.region_off r.public_key memory

  -- What the builder returns holds the whole order, in a region that is not empty.
  pub order_memory-IsOrderImage :
      (memory : Bytes)
      → 0 < region_len r
      → All (λ f. IsTyped f.value) args
      → order_memory o scheme expiry fields r ≡ ok memory
      → IsOrderImage o scheme expiry fields r memory
  unfolding order_memory
  order_memory-IsOrderImage memory p t h = elim (result-cases (memory_len o fields r)) [
    | inl failed ↦ absurd (ground (arith, failed.1))
    | inr (n, at) ↦ elim (result-cases (write_words o scheme expiry fields (zeroes n))) [
      | inl failed ↦ absurd (ground (arith, at, failed.1))
      | inr (written, e) ↦
          let same : write_region o.region_off r written ≡ memory = ground (arith, at, e) in
          let image = image_of n written (memory_len_ok n p at) t e in rw same at image
    ]
  ]
