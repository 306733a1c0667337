-- ===== src/Prelude/Utf8.antt =====
-- `str::from_utf8` as a machine over bytes, and the encoding of a character.
use Prim.Native.Nat.{ℕ, ◌+◌, ◌/◌, ◌%◌, ◌<◌}
use mathlib.Core.Path.{◌≡◌, refl, ap}
use mathlib.Core.Bool.{Bool, true, false, ◌&&◌}
use mathlib.Core.Option.{Option, none, some}
use mathlib.Core.List.{[], ◌∷◌, ◌++◌}
use native.Mathlib.Omega.{arith}
use mathlib.Core.Logic.{inl, inr}
use qcore_rs.Prelude.Tests.{Option-cases, leb, ltb, ◌==◌, if◌then◌else◌}
use qcore_rs.Prelude.Strings.{Bytes}

-- between characters, or with so many continuation bytes to come; after E0, ED, F0 and F4 the next
-- byte has a range of its own
pub data Utf8 : Type 0 where
  start one two three after_e0 after_ed after_f0 after_f4 : Utf8

abbrev between : ℕ → ℕ → ℕ → Bool
between low high c = leb low c && leb c high

abbrev first_byte : ℕ → Option Utf8
first_byte c =
    if ltb c 128
    then some start
    else if between 194 223 c
    then some one
    else if c == 224
    then some after_e0
    else if c == 237
    then some after_ed
    else if between 225 239 c
    then some two
    else if c == 240
    then some after_f0
    else if between 241 243 c
    then some three
    else if c == 244
    then some after_f4
    else none

abbrev expect_byte : Bool → Utf8 → Option Utf8
expect_byte test next = if test then some next else none

unfoldable pub utf8_step : Utf8 → ℕ → Option Utf8
utf8_step start c = first_byte c
utf8_step one c = expect_byte (between 128 191 c) start
utf8_step two c = expect_byte (between 128 191 c) one
utf8_step three c = expect_byte (between 128 191 c) two
utf8_step after_e0 c = expect_byte (between 160 191 c) one
utf8_step after_ed c = expect_byte (between 128 159 c) one
utf8_step after_f0 c = expect_byte (between 144 191 c) two
utf8_step after_f4 c = expect_byte (between 128 143 c) two

unfoldable pub utf8_run : Utf8 → Bytes → Option Utf8
unfolding utf8_step
utf8_run s [] = some s
utf8_run s (c ∷ rest) = elim (utf8_step s c) [ none ↦ none | some t ↦ utf8_run t rest ]

abbrev is_start : Option Utf8 → Bool
is_start (some start) = true
is_start _ = false

unfoldable pub is_utf8 : Bytes → Bool
unfolding utf8_run
is_utf8 bytes = is_start (utf8_run start bytes)

-- `char::from_u32`, and the bytes of the character
unfoldable pub char_from_u32 : ℕ → Option Bytes
char_from_u32 code =
    if between 55_296 57_343 code
    then none
    else if ltb code 128
    then some (code ∷ [])
    else if ltb code 2_048
    then some ((192 + code / 64) ∷ (128 + code % 64) ∷ [])
    else if ltb code 65_536
    then some ((224 + code / 4_096) ∷ (128 + code / 64 % 64) ∷ (128 + code % 64) ∷ [])
    else if leb code 1_114_111
    then some (
        (240 + code / 262_144)
        ∷ (128 + code / 4_096 % 64)
        ∷ (128 + code / 64 % 64)
        ∷ (128 + code % 64)
        ∷ [])
    else none

-- What is valid splits at an ASCII byte into valid parts.
ascii_step :
    (s : Utf8) (c : ℕ) (t : Utf8) → c < 128 → utf8_step s c ≡ some t → (s ≡ start) × (t ≡ start)
unfolding utf8_step
ascii_step start c t h e = (refl, ground arith)
ascii_step one c t h e = absurd (ground arith)
ascii_step two c t h e = absurd (ground arith)
ascii_step three c t h e = absurd (ground arith)
ascii_step after_e0 c t h e = absurd (ground arith)
ascii_step after_ed c t h e = absurd (ground arith)
ascii_step after_f0 c t h e = absurd (ground arith)
ascii_step after_f4 c t h e = absurd (ground arith)

pub utf8_run-split :
    (p q : Bytes) (s : Utf8) (c : ℕ)
    → c < 128
    → utf8_run s (p ++ c ∷ q) ≡ some start
    → (utf8_run s p ≡ some start) × (utf8_run start q ≡ some start)
unfolding utf8_run
utf8_run-split [] q s c h e = elim (Option-cases (utf8_step s c)) [
  | inl bad ↦ absurd (ground (arith, bad))
  | inr (t, at) ↦
      let (here, next) = ascii_step s c t h at in (ap some here, rw (← next) (ground (arith, at)))
]
utf8_run-split (x ∷ p) q s c h e = elim (Option-cases (utf8_step s x)) [
  | inl bad ↦ absurd (ground (arith, bad))
  | inr (t, at) ↦
      let later : utf8_run t (p ++ c ∷ q) ≡ some start = ground (arith, at) in
      let (front, back) = utf8_run-split p q t c h later in (ground (arith, at, front), back)
]
