-- ===== src/Json/Parser/Gives.antt =====
-- What the parts of `parse` of src/json.rs give, where they give something, by their steps.
use mathlib.Core.Path.{subst}
use qcore_rs.Prelude.{
  ℕ, ◌*◌, ◌+◌, ◌-◌, ◌≤◌, ◌≡◌, Bool, true, false, Option, none, some, [], ◌∷◌, Result, ok, err,
  ◌>>=◌, ◌>>◌, refuse, if◌then◌else◌, list_eq, nat_eq, Bytes, Text, arith,
}
use qcore_rs.Prelude.Decimal.{scan, parse_uint}
use qcore_rs.Json.Parser.{JsonError, or_else}

-- What a parser gives, where it gives something, meets `P`.
abbrev pub Gives {ℓ κ} : {A : Type ℓ} → (A → Type κ) → Result JsonError (A × Bytes) → Type κ
Gives P (ok a) = P a.0
Gives P (err e) = Unit

pub Gives-bind {ℓ κ μ ν} :
    {A : Type ℓ} {B : Type κ} (P : A → Type μ) (Q : B → Type ν) (r : Result JsonError (A × Bytes))
    (f : A × Bytes → Result JsonError (B × Bytes))
    → Gives P r
    → ((a : A × Bytes) → P a.0 → Gives Q (f a))
    → Gives Q (r >>= f)
Gives-bind P Q (ok a) f h later = later a h
Gives-bind P Q (err e) f h later = tt

pub Gives-refuse {ℓ κ} :
    {A : Type ℓ} (P : A → Type κ) (test : Bool) (e : JsonError) (r : Result JsonError (A × Bytes))
    → Gives P r
    → Gives P (refuse test e >> r)
Gives-refuse P true e r h = tt
Gives-refuse P false e r h = h

pub Gives-if {ℓ κ} :
    {A : Type ℓ} (P : A → Type κ) (test : Bool) (r s : Result JsonError (A × Bytes))
    → Gives P r
    → Gives P s
    → Gives P (if test then r else s)
Gives-if P true r s a b = a
Gives-if P false r s a b = b

pub Gives-any {ℓ} : {A : Type ℓ} (r : Result JsonError (A × Bytes)) → Gives (λ a. Unit {0}) r
Gives-any (ok a) = tt
Gives-any (err e) = tt

pub Gives-or_else {ℓ κ} :
    {A : Type ℓ} (P : A → Type κ) (found : Option Bytes) (a : A)
    (other : Result JsonError (A × Bytes))
    → P a
    → Gives P other
    → Gives P (or_else found a other)
Gives-or_else P (some rest) a other h more = h
Gives-or_else P none a other h more = more

abbrev pub IsUnder : ℕ → Option ℕ → Type 0
IsUnder top none = Unit
IsUnder top (some n) = n ≤ top

scan-IsUnder : (top n : ℕ) (text : Text) → n ≤ top → IsUnder top (scan top n text)
unfolding scan
scan-IsUnder top n [] h = h
scan-IsUnder top n (c ∷ rest) h = ground (arith, scan-IsUnder top (n * 10 + (c - b'0')) rest)

pub parse_uint-IsUnder : (top : ℕ) (text : Text) → IsUnder top (parse_uint top text)
unfolding parse_uint
parse_uint-IsUnder top [] = tt
parse_uint-IsUnder top (c ∷ []) = scan-IsUnder top 0 (c ∷ []) (omega arith)
parse_uint-IsUnder top (c ∷ (d ∷ rest)) = ground (
  arith,
  scan-IsUnder top 0 (d ∷ rest) (omega arith),
  scan-IsUnder top 0 (c ∷ (d ∷ rest)) (omega arith),
)

pub given {ℓ κ} :
    {A : Type ℓ} (P : A → Type κ) (r : Result JsonError (A × Bytes)) (a : A × Bytes)
    → r ≡ ok a
    → Gives P r
    → P a.0
given P r a e h = subst (Gives P) e h
