-- ===== src/Contract/Message/Values.antt =====
-- Field values of one width are told apart by their bytes.
use mathlib.Core.List.{append_assoc}
use qcore_rs.Prelude.{
  ℕ, zero, suc, ◌-◌, ◌^◌, ◌≤◌, ◌<◌, ◌≡◌, refl, sym, ap, ◌∙◌, List, [], ◌∷◌, ◌++◌, Bytes, length,
  take, All, arith, length-append,
}
use qcore_rs.Contract.Word.{be_bytes, be_bytes-injective}
use qcore_rs.Contract.Field.{
  FieldValue, bytes, width, zeroes, IsTyped, length-bytes, length-zeroes, length-take, name_window,
}
use qcore_rs.Contract.Message.{field_bytes}

abbrev tail_of : Bytes → Bytes
tail_of [] = []
tail_of (x ∷ xs) = xs

abbrev head_of : Bytes → ℕ
head_of [] = 0
head_of (x ∷ xs) = x

pub split : (a b : Bytes) {x y : Bytes} → length a ≡ length b → a ++ x ≡ b ++ y → (a ≡ b) × (x ≡ y)
split [] [] n h = (refl, h)
split [] (b ∷ bs) n h = absurd (omega (arith, n))
split (a ∷ xs) [] n h = absurd (omega (arith, n))
split (a ∷ xs) (b ∷ bs) n h =
    let (e, r) = split xs bs (omega (arith, n)) (ap tail_of h) in
    let first : a ≡ b = ap head_of h in (cc, r)

-- A value that its type admits, a label within its window among them.
abbrev pub IsExact : FieldValue → Type 0
IsExact (FieldValue.word w) = w < 2 ^ 64
IsExact (FieldValue.wide b) = length b ≡ 16
IsExact (FieldValue.address a) = length a ≡ 32
IsExact (FieldValue.name label) = length label ≤ name_window

IsTyped-of_IsExact : (v : FieldValue) → IsExact v → IsTyped v
IsTyped-of_IsExact (FieldValue.word w) h = h
IsTyped-of_IsExact (FieldValue.wide b) h = h
IsTyped-of_IsExact (FieldValue.address a) h = h
IsTyped-of_IsExact (FieldValue.name label) h = tt

take-whole : (n : ℕ) (bs : Bytes) → length bs ≤ n → take n bs ≡ bs
take-whole zero [] h = refl
take-whole zero (b ∷ bs) h = absurd (omega arith)
take-whole (suc n) [] h = refl
take-whole (suc n) (b ∷ bs) h =
    ap {B = Bytes} (λ (t : Bytes). b ∷ t) (take-whole n bs (omega arith))

abbrev window : Bytes → Bytes
window label = take name_window label ++ zeroes (name_window - length label)

length-window : (label : Bytes) → length label ≤ name_window → length (window label) ≡ name_window
length-window label h = omega (
  arith,
  length-append (take name_window label) (zeroes (name_window - length label)),
  length-zeroes (name_window - length label),
  length-take name_window label,
)

name-injective :
    (a b : Bytes)
    → length a ≤ name_window
    → length b ≤ name_window
    → bytes (FieldValue.name a) ≡ bytes (FieldValue.name b)
    → a ≡ b
unfolding bytes
name-injective a b ha hb h =
    let regrouped : window a ++ be_bytes 8 (length a) ≡ window b ++ be_bytes 8 (length b) =
      append_assoc (take name_window a) (zeroes (name_window - length a)) (be_bytes 8 (length a))
      ∙ h
      ∙ sym (
          append_assoc (take name_window b) (zeroes (name_window - length b))
            (be_bytes 8 (length b))) in
    let wa = length-window a ha in
    let wb = length-window b hb in
    let (windows, lengths) = split (window a) (window b) (omega (arith, wa, wb)) regrouped in
    let small : (n : ℕ) → n ≤ name_window → n < 256 ^ 8 = λ n le. omega arith in
    let n : length a ≡ length b =
      be_bytes-injective 8 (length a) (length b) (small (length a) ha) (small (length b) hb)
        lengths in
    let ta = length-take name_window a in
    let tb = length-take name_window b in
    let labels =
      (split (take name_window a) (take name_window b) (omega (arith, ta, tb, n)) windows).0 in
    sym (take-whole name_window a ha) ∙ labels ∙ take-whole name_window b hb

bytes-injective :
    (v w : FieldValue) → IsExact v → IsExact w → width v ≡ width w → bytes v ≡ bytes w → v ≡ w
unfolding bytes
bytes-injective (FieldValue.word a) (FieldValue.word b) x y n h =
    ap FieldValue.word (be_bytes-injective 8 a b (omega (arith, x)) (omega (arith, y)) h)
bytes-injective (FieldValue.wide a) (FieldValue.wide b) x y n h = ap FieldValue.wide h
bytes-injective (FieldValue.address a) (FieldValue.address b) x y n h = ap FieldValue.address h
bytes-injective (FieldValue.name a) (FieldValue.name b) x y n h =
    ap FieldValue.name (name-injective a b x y h)
bytes-injective (FieldValue.word a) (FieldValue.wide b) x y n h = absurd (omega (arith, n))
bytes-injective (FieldValue.word a) (FieldValue.address b) x y n h = absurd (omega (arith, n))
bytes-injective (FieldValue.word a) (FieldValue.name b) x y n h = absurd (omega (arith, n))
bytes-injective (FieldValue.wide a) (FieldValue.word b) x y n h = absurd (omega (arith, n))
bytes-injective (FieldValue.wide a) (FieldValue.address b) x y n h = absurd (omega (arith, n))
bytes-injective (FieldValue.wide a) (FieldValue.name b) x y n h = absurd (omega (arith, n))
bytes-injective (FieldValue.address a) (FieldValue.word b) x y n h = absurd (omega (arith, n))
bytes-injective (FieldValue.address a) (FieldValue.wide b) x y n h = absurd (omega (arith, n))
bytes-injective (FieldValue.address a) (FieldValue.name b) x y n h = absurd (omega (arith, n))
bytes-injective (FieldValue.name a) (FieldValue.word b) x y n h = absurd (omega (arith, n))
bytes-injective (FieldValue.name a) (FieldValue.wide b) x y n h = absurd (omega (arith, n))
bytes-injective (FieldValue.name a) (FieldValue.address b) x y n h = absurd (omega (arith, n))

-- The fields of one list have the widths of the other's.
abbrev pub SameWidths : List FieldValue → List FieldValue → Type 0
SameWidths [] [] = Unit
SameWidths (v ∷ vs) (w ∷ ws) = (width v ≡ width w) × SameWidths vs ws
SameWidths _ _ = ⊥

pub field_bytes-injective :
    (vs ws : List FieldValue)
    → All IsExact vs
    → All IsExact ws
    → SameWidths vs ws
    → field_bytes vs ≡ field_bytes ws
    → vs ≡ ws
unfolding field_bytes
field_bytes-injective [] [] x y n h = refl
field_bytes-injective [] (w ∷ ws) x y n h = absurd n
field_bytes-injective (v ∷ vs) [] x y n h = absurd n
field_bytes-injective (v ∷ vs) (w ∷ ws) x y n h =
    let lv = length-bytes v (IsTyped-of_IsExact v x.0) in
    let lw = length-bytes w (IsTyped-of_IsExact w y.0) in
    let (here, later) = split (bytes v) (bytes w) (lv ∙ n.0 ∙ sym lw) h in
    let first = bytes-injective v w x.0 y.0 n.0 here in
    let rest = field_bytes-injective vs ws x.1 y.1 n.1 later in cc
