-- ===== src/Contract/CallArgs/Ends.antt =====
-- The first loop of `build_call_args`: what it admits, and where the last argument ends.
use qcore_rs.Prelude.{ℕ, ◌+◌, ◌≤◌, ◌≡◌, refl, max, List, [], ◌∷◌, ok, length, arith, All, ◌↔◌}
use qcore_rs.Contract.Field.{FieldArg, FieldValue, ensure_fits, width, name_window}
use qcore_rs.Contract.CallArgs.{args_end, contract_context_bytes, max_user_memory}

-- A label that its window can hold.
abbrev pub HasRoom : FieldValue → Type 0
HasRoom (FieldValue.name label) = length label ≤ name_window
HasRoom _ = Unit

pub ensure_fits_iff : (v : FieldValue) → (ensure_fits v ≡ ok tt) ↔ HasRoom v
unfolding ensure_fits
ensure_fits_iff (FieldValue.name label) = (λ h. ground arith, λ h. ground arith)
ensure_fits_iff (FieldValue.word w) = (λ h. tt, λ h. refl)
ensure_fits_iff (FieldValue.wide w) = (λ h. tt, λ h. refl)
ensure_fits_iff (FieldValue.address w) = (λ h. tt, λ h. refl)

-- An argument that the first loop lets pass.
abbrev pub IsAdmitted : FieldArg → Type 0
IsAdmitted f =
    HasRoom f.value
    × (contract_context_bytes ≤ f.offset)
    × (f.offset + width f.value ≤ max_user_memory)

-- Where the last argument ends, and at least `mem_len`.
abbrev pub last_end : ℕ → List FieldArg → ℕ
last_end mem_len [] = mem_len
last_end mem_len (f ∷ rest) = last_end (max mem_len (f.offset + width f.value)) rest

pub last_end-ge :
    (n : ℕ) (args : List FieldArg)
    → (n ≤ last_end n args) × All (λ f. f.offset + width f.value ≤ last_end n args) args
last_end-ge n [] = (omega arith, tt)
last_end-ge n (f ∷ rest) =
    let (low, all) = last_end-ge (max n (f.offset + width f.value)) rest in
    (omega arith, (omega arith, all))

pub last_end-le :
    (n k : ℕ) (args : List FieldArg)
    → n ≤ k
    → All IsAdmitted args
    → k ≡ max_user_memory
    → last_end n args ≤ k
last_end-le n k [] h a e = h
last_end-le n k (f ∷ rest) h a e =
    last_end-le (max n (f.offset + width f.value)) k rest (omega (arith, a.0)) a.1 e

pub args_end_ok :
    (n m : ℕ) (args : List FieldArg)
    → args_end n args ≡ ok m
    → (m ≡ last_end n args) × All (λ f. HasRoom f.value × (contract_context_bytes ≤ f.offset)) args
unfolding args_end
args_end_ok n m [] h = (ground arith, tt)
args_end_ok n m (f ∷ rest) h =
    let fits : ensure_fits f.value ≡ ok tt = ground arith in
    let later : args_end (max n (f.offset + width f.value)) rest ≡ ok m = ground arith in
    let (end, all) = args_end_ok (max n (f.offset + width f.value)) m rest later in
    (end, (((ensure_fits_iff f.value).0 fits, ground arith), all))

pub args_end_of :
    (n : ℕ) (args : List FieldArg) → All IsAdmitted args → args_end n args ≡ ok (last_end n args)
unfolding args_end
args_end_of n [] a = refl
args_end_of n (f ∷ rest) a = ground (
  arith,
  (ensure_fits_iff f.value).1 a.0.0,
  a.0,
  args_end_of (max n (f.offset + width f.value)) rest a.1,
)
