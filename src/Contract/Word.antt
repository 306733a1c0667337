-- ===== src/Contract/Word.antt =====
-- `to_be_bytes` and `from_be_bytes`.
use native.Mathlib.Nat.{div-add-mod, div-div-eq-div-mul, pow-suc, mod-eq_of_lt}
use qcore_rs.Prelude.{
  ℕ, zero, suc, ◌+◌, ◌*◌, ◌/◌, ◌%◌, ◌^◌, ◌<◌, ◌≡◌, refl, [], ◌∷◌, arith, Bytes, length, ap, sym,
  ◌∙◌,
}

-- The `count` low bytes of a number, the highest first.
unfoldable pub be_bytes : ℕ → ℕ → Bytes
be_bytes zero x = []
be_bytes (suc count) x = x / 256 ^ count % 256 ∷ be_bytes count x

unfoldable pub from_be_bytes : Bytes → ℕ
from_be_bytes [] = 0
from_be_bytes (b ∷ bs) = b * 256 ^ length bs + from_be_bytes bs

pub length-be_bytes : (count x : ℕ) → length (be_bytes count x) ≡ count
unfolding be_bytes
length-be_bytes zero x = refl
length-be_bytes (suc count) x = ap suc (length-be_bytes count x)

digit_step : (x p : ℕ) → x / p % 256 * p + x % p ≡ x % (p * 256)
digit_step x p = omega (
  arith,
  div-add-mod x p,
  div-add-mod x (p * 256),
  ap (λ (t : ℕ). t * p) (div-add-mod (x / p) 256),
  ap (λ (t : ℕ). p * t) (div-div-eq-div-mul x p 256),
)

-- `to_be_bytes` keeps the number modulo its width.
pub from_be_bytes-be_bytes : (count x : ℕ) → from_be_bytes (be_bytes count x) ≡ x % 256 ^ count
unfolding be_bytes from_be_bytes
from_be_bytes-be_bytes zero x = omega arith
from_be_bytes-be_bytes (suc count) x =
    rw (length-be_bytes count x, from_be_bytes-be_bytes count x, pow-suc)
      (digit_step x (256 ^ count))

-- Within its width a number is read back.
pub be_bytes-injective :
    (count x y : ℕ)
    → x < 256 ^ count
    → y < 256 ^ count
    → be_bytes count x ≡ be_bytes count y
    → x ≡ y
be_bytes-injective count x y hx hy e =
    sym (mod-eq_of_lt hx)
    ∙ sym (from_be_bytes-be_bytes count x)
    ∙ ap from_be_bytes e
    ∙ from_be_bytes-be_bytes count y
    ∙ mod-eq_of_lt hy
