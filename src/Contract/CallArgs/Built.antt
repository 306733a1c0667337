-- ===== src/Contract/CallArgs/Built.antt =====
-- Which arguments `build_call_args` takes, and the memory that it builds for them.
use qcore_rs.Prelude.{
  ℕ, ◌+◌, ◌≤◌, ◌<◌, ◌≡◌, refl, ◌∙◌, true, Option, none, some, List, [], ◌∷◌, ◌++◌, Result, ok, err,
  length, arith, Bytes, u64_max, All, All-imp, inl, inr, ◌↔◌, Option-cases, is_ok,
}
use qcore_rs.Contract.Memory.{get_elem?}
use qcore_rs.Contract.Field.{FieldArg, FieldValue, bytes, width, zeroes, IsTyped, length-zeroes}
use qcore_rs.Contract.Spans.{AllDisjoint, check_spans}
use qcore_rs.Contract.Spans.Check.{IsProper, check_spans_iff}
use qcore_rs.Contract.Place.{
  place, spans_of, Holds, Outside, FitsIn, place-Outside, place-Holds, place_total, get-zeroes,
}
use qcore_rs.Contract.CallArgs.{
  CallError, args_end, build_memory, build_call_args, contract_context_bytes, max_user_memory,
}
use qcore_rs.Contract.CallArgs.Ends.{
  HasRoom, IsAdmitted, last_end, last_end-ge, last_end-le, args_end_ok, args_end_of,
}

abbrev ok_part : Result CallError ℕ → Option ℕ
ok_part (ok n) = some n
ok_part (err e) = none

abbrev memory_part : Result CallError Bytes → Option Bytes
memory_part (ok m) = some m
memory_part (err e) = none

pub width_pos : (v : FieldValue) → 0 < width v
width_pos (FieldValue.word w) = omega arith
width_pos (FieldValue.wide w) = omega arith
width_pos (FieldValue.address w) = omega arith
width_pos (FieldValue.name w) = omega arith

spans_of-IsProper :
    (n : ℕ) (args : List FieldArg)
    → n ≤ u64_max
    → All (λ f. f.offset + width f.value ≤ n) args
    → All IsProper (spans_of args)
spans_of-IsProper n [] h a = tt
spans_of-IsProper n (f ∷ rest) h a =
    ((width_pos f.value, omega (arith, a.0)), spans_of-IsProper n rest h a.1)

fits_zeroes :
    (n : ℕ) (args : List FieldArg)
    → n ≤ u64_max
    → All (λ f. f.offset + width f.value ≤ n) args
    → All (FitsIn (length (zeroes n))) args
fits_zeroes n args h a = All-imp (λ f e. (omega (arith, length-zeroes n), omega arith)) args a

-- What a memory must be to hold the arguments: as long as the last of them ends, within the limit,
-- each argument in its place, and 0 everywhere else.
pub record IsImage (args : List FieldArg) (memory : Bytes) : Type 0 where
  pub sized : length memory ≡ last_end contract_context_bytes args
  pub limited : length memory ≤ max_user_memory
  pub placed : All (λ f. Holds memory f.offset (bytes f.value)) args
  pub blank : (i : ℕ) → i < length memory → Outside i (spans_of args) → get_elem? memory i ≡ some 0

record Passed (args : List FieldArg) : Type 0 where
  ends : args_end contract_context_bytes args ≡ ok (last_end contract_context_bytes args)
  admitted : All (λ f. HasRoom f.value × (contract_context_bytes ≤ f.offset)) args
  short : last_end contract_context_bytes args ≤ max_user_memory
  disjoint : AllDisjoint (spans_of args)

module _ (args : List FieldArg) (t : All (λ f. IsTyped f.value) args) where
  abbrev size : ℕ
  size = last_end contract_context_bytes args

  Passed-of_ok : (m : Bytes) → build_memory args ≡ ok m → Passed args
  unfolding build_memory
  Passed-of_ok m h = elim (Option-cases (ok_part (args_end contract_context_bytes args))) [
    | inl e ↦ absurd (ground arith)
    | inr (n, e) ↦
        let at : args_end contract_context_bytes args ≡ ok n = ground arith in
        let (end, all) = args_end_ok contract_context_bytes n args at in
        let short : n ≤ max_user_memory = ground arith in
        let checked : check_spans (spans_of args) ≡ ok tt = ground arith in
        let ends = (last_end-ge contract_context_bytes args).1 in
        record {
          ends = rw (← end) at;
          admitted = all;
          short = omega (arith, end);
          disjoint =
              (check_spans_iff (spans_of args)
                  (spans_of-IsProper size args (omega (arith, end)) ends)).0
                checked;
        }
  ]

  built :
      Passed args
      → (m : Bytes) × (build_memory args ≡ ok m)
        × (place (zeroes size) args ≡ ok m)
        × IsImage args m
  unfolding build_memory
  built p =
      let ends = (last_end-ge contract_context_bytes args).1 in
      let wide : size ≤ u64_max = omega (arith, p.short) in
      let fits = fits_zeroes size args wide ends in
      let (m, e, n) = place_total (zeroes size) args t fits in
      let checked =
        (check_spans_iff (spans_of args) (spans_of-IsProper size args wide ends)).1 p.disjoint in
      (
        m,
        ground (arith, p.ends, p.short, checked, e),
        e,
        record {
          sized = n ∙ length-zeroes size;
          limited = omega (arith, n, length-zeroes size, p.short);
          placed = place-Holds (zeroes size) args m t fits p.disjoint e;
          blank = λ i lt out.
              place-Outside (zeroes size) args i m t fits out e
              ∙ get-zeroes size i (omega (arith, n, length-zeroes size));
        },
      )

  Passed-of : All IsAdmitted args → AllDisjoint (spans_of args) → Passed args
  Passed-of a d = record {
    ends = args_end_of contract_context_bytes args a;
    admitted = All-imp (λ f h. (h.0, h.1)) args a;
    short = last_end-le contract_context_bytes max_user_memory args (omega arith) a refl;
    disjoint = d;
  }

  IsAdmitted-of : Passed args → All IsAdmitted args
  IsAdmitted-of p = both args p.admitted (last_end-ge contract_context_bytes args).1
    where
      both :
          (fs : List FieldArg)
          → All (λ f. HasRoom f.value × (contract_context_bytes ≤ f.offset)) fs
          → All (λ f. f.offset + width f.value ≤ size) fs
          → All IsAdmitted fs
      both [] a e = tt
      both (f ∷ fs) a e = ((a.0.0, a.0.1, omega (arith, e.0, p.short)), both fs a.1 e.1)

-- Arguments of the types that the source gives them are taken exactly when each label fits its
-- window, each argument lies past the call context and within the memory, and no two overlap.
pub build_call_args_iff :
    (selector : Bytes) (args : List FieldArg)
    → All (λ f. IsTyped f.value) args
    → (is_ok (build_call_args selector args) ≡ true)
      ↔ (All IsAdmitted args × AllDisjoint (spans_of args))
unfolding build_call_args
build_call_args_iff selector args t = (
  λ h. elim (Option-cases (memory_part (build_memory args))) [
    | inl e ↦ absurd (ground arith)
    | inr (m, e) ↦
        let p = Passed-of_ok args t m (ground arith) in (IsAdmitted-of args t p, p.disjoint)
  ],
  λ a. let (m, e, placed, image) = built args t (Passed-of args t a.0 a.1) in rw e refl,
)

-- What is taken is built: the call is the selector and then a memory as long as the last argument
-- ends, in which each argument stands at its offset and every other byte, the call context among
-- them, is 0.
pub build_call_args-IsImage :
    (selector : Bytes) (args : List FieldArg) (out : Bytes)
    → All (λ f. IsTyped f.value) args
    → build_call_args selector args ≡ ok out
    → (memory : Bytes) × (out ≡ selector ++ memory) × IsImage args memory
unfolding build_call_args
build_call_args-IsImage selector args out t h =
    elim (Option-cases (memory_part (build_memory args))) [
      | inl e ↦ absurd (ground arith)
      | inr (m, e) ↦
          let at : build_memory args ≡ ok m = ground arith in
          let (m', e', placed, image) = built args t (Passed-of_ok args t m at) in
          (m', ground arith, image)
    ]
