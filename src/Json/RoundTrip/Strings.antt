-- ===== src/Json/RoundTrip/Strings.antt =====
-- A string is read back from what `write_string` writes.
use mathlib.Core.List.{append_assoc, append-nil}
use qcore_rs.Prelude.{
  ℕ, zero, suc, ◌+◌, ◌*◌, ◌/◌, ◌%◌, ◌≤◌, ◌<◌, ◌≡◌, refl, sym, ap, ◌∙◌, Bool, true, false, ◌&&◌,
  ◌||◌, not, some, [], ◌∷◌, ◌++◌, Result, ok, ltb, ◌==◌, length, length-append, Bytes, Text, arith,
  inl, inr, ◌⊎◌, Bool-cases, All,
}
use qcore_rs.Prelude.Utf8.{start, utf8_run, is_utf8, char_from_u32, utf8_run-split}
use qcore_rs.Json.{escaped_byte, escaped, write_string, hex_digit}
use qcore_rs.Json.Parser.{
  JsonError, is_plain, span, to_digit, hex_digits, hex4, unicode_char, escape, after_run,
  string_loop, string,
}

-- A byte is plain, or below 128.
special-lt : (c : ℕ) → is_plain c ≡ false → c < 128
special-lt c h = ground arith

escaped_byte_plain : (c : ℕ) → is_plain c ≡ true → escaped_byte c ≡ c ∷ []
unfolding escaped_byte
escaped_byte_plain c h = ground arith

to_digit-hex_digit : (n : ℕ) → n < 16 → to_digit (hex_digit n) ≡ some n
to_digit-hex_digit n h = ground arith

hex_step :
    (left code n : ℕ) (rest : Bytes)
    → n < 16
    → hex_digits (suc left) code (hex_digit n ∷ rest) ≡ hex_digits left (code * 16 + n) rest
unfolding hex_digits
hex_step left code n rest h = rw (to_digit-hex_digit n h) refl

unicode_char-control :
    (c : ℕ) (rest : Bytes)
    → c < 32
    → unicode_char (b'0' ∷ b'0' ∷ hex_digit (c / 16) ∷ hex_digit (c % 16) ∷ rest)
      ≡ ok (c ∷ [], rest)
unfolding unicode_char hex4 char_from_u32
unicode_char-control c rest h =
    let read : hex_digits 4 0 (b'0' ∷ b'0' ∷ hex_digit (c / 16) ∷ hex_digit (c % 16) ∷ rest)
        ≡ ok (c, rest) =
      hex_step 3 0 0 (b'0' ∷ hex_digit (c / 16) ∷ hex_digit (c % 16) ∷ rest) (omega arith)
      ∙ hex_step 2 0 0 (hex_digit (c / 16) ∷ hex_digit (c % 16) ∷ rest) (omega arith)
      ∙ hex_step 1 0 (c / 16) (hex_digit (c % 16) ∷ rest) (omega arith)
      ∙ hex_step 0 (0 * 16 + c / 16) (c % 16) rest (omega arith)
      ∙ last ((0 * 16 + c / 16) * 16 + c % 16) (omega arith) in
    rw read (ground arith)
  where
    last : (k : ℕ) → k ≡ c → hex_digits 0 k rest ≡ ok (c, rest)
    last k e = rw e refl

-- The escape of a byte is a backslash, and then what `escape` reads as that byte.
escaped_byte_special :
    (c : ℕ)
    → is_plain c ≡ false
    → (e : Text) × (escaped_byte c ≡ 92 ∷ e)
      × ((rest : Bytes) → escape (e ++ rest) ≡ ok (c ∷ [], rest))
unfolding escaped_byte escape
escaped_byte_special c h = elim (Bool-cases (ltb c 32 && not (c == 10 || c == 13 || c == 9))) [
  | inl control ↦ (
    b'u' ∷ b'0' ∷ b'0' ∷ hex_digit (c / 16) ∷ hex_digit (c % 16) ∷ [],
    ground arith,
    λ rest. unicode_char-control c rest (ground arith),
  )
  | inr other ↦ named c (ground arith)
]
  where
    named :
        (c : ℕ)
        → (c ≡ 34) ⊎ ((c ≡ 92) ⊎ ((c ≡ 10) ⊎ ((c ≡ 13) ⊎ (c ≡ 9))))
        → (e : Text) × (escaped_byte c ≡ 92 ∷ e)
          × ((rest : Bytes) → escape (e ++ rest) ≡ ok (c ∷ [], rest))
    named c (inl e) = rw e (34 ∷ [], refl, λ rest. refl)
    named c (inr (inl e)) = rw e (92 ∷ [], refl, λ rest. refl)
    named c (inr (inr (inl e))) = rw e (b'n' ∷ [], refl, λ rest. refl)
    named c (inr (inr (inr (inl e)))) = rw e (b'r' ∷ [], refl, λ rest. refl)
    named c (inr (inr (inr (inr e)))) = rw e (b't' ∷ [], refl, λ rest. refl)

length-escaped_byte : (c : ℕ) → 0 < length (escaped_byte c)
length-escaped_byte c = elim (Bool-cases (is_plain c)) [
  | inl plain ↦ rw (escaped_byte_plain c plain) (omega arith)
  | inr special ↦ let (e, byte, read) = escaped_byte_special c special in rw byte (omega arith)
]

length-escaped : (s : Text) → length s ≤ length (escaped s)
unfolding escaped
length-escaped [] = omega arith
length-escaped (c ∷ s) =
    omega
      (arith, length-append (escaped_byte c) (escaped s), length-escaped_byte c, length-escaped s)

-- A text is a plain run and then nothing, or a byte that is not plain and what follows.
record IsCut (s : Text) : Type 0 where
  run : Text
  after : Text
  whole : s ≡ run ++ after
  plain : All (λ c. is_plain c ≡ true) run
  stops : (after ≡ []) ⊎ ((c : ℕ) × (rest : Text) × (after ≡ c ∷ rest) × (is_plain c ≡ false))

cut : (s : Text) → IsCut s
cut [] = record { run = []; after = []; whole = refl; plain = tt; stops = inl refl }
cut (c ∷ s) = elim (Bool-cases (is_plain c)) [
  | inr special ↦ record {
    run = [];
    after = c ∷ s;
    whole = refl;
    plain = tt;
    stops = inr (c, s, refl, special);
  }
  | inl plain ↦
      let x = cut s in
      record {
        run = c ∷ x.run;
        after = x.after;
        whole = ap {B = Text} (λ (t : Text). c ∷ t) x.whole;
        plain = (plain, x.plain);
        stops = x.stops;
      }
]

escaped-append : (p q : Text) → All (λ c. is_plain c ≡ true) p → escaped (p ++ q) ≡ p ++ escaped q
unfolding escaped
escaped-append [] q a = refl
escaped-append (c ∷ p) q a =
    rw (escaped_byte_plain c a.0) (ap {B = Text} (λ (t : Text). c ∷ t) (escaped-append p q a.1))

span_stop :
    (test : ℕ → Bool) (c : ℕ) (rest : Bytes)
    → test c ≡ false
    → span test (c ∷ rest) ≡ ([], c ∷ rest)
unfolding span
span_stop test c rest h = ground (arith, h)

span_more :
    (test : ℕ → Bool) (c : ℕ) (front back rest : Bytes)
    → test c ≡ true
    → span test rest ≡ (front, back)
    → span test (c ∷ rest) ≡ (c ∷ front, back)
unfolding span
span_more test c front back rest h e = ground (arith, h, e)

pub span_run :
    (test : ℕ → Bool) (p : Text) (c : ℕ) (rest : Bytes)
    → All (λ x. test x ≡ true) p
    → test c ≡ false
    → span test (p ++ c ∷ rest) ≡ (p, c ∷ rest)
span_run test [] c rest a h = span_stop test c rest h
span_run test (x ∷ p) c rest a h =
    span_more test x p (c ∷ rest) (p ++ c ∷ rest) a.0 (span_run test p c rest a.1 h)

-- One round of the loop.
round :
    (fuel : ℕ) (s p : Text) (c : ℕ) (rest : Bytes)
    → All (λ x. is_plain x ≡ true) p
    → is_plain c ≡ false
    → is_utf8 p ≡ true
    → string_loop (suc fuel) s (p ++ c ∷ rest) ≡ after_run (string_loop fuel) (s ++ p) (c ∷ rest)
unfolding string_loop
round fuel s p c rest a h v = rw (span_run is_plain p c rest a h, v) refl

is_utf8-of : (p : Text) → utf8_run start p ≡ some start → is_utf8 p ≡ true
unfolding is_utf8
is_utf8-of p h = rw h refl

abbrev IsWhole : Text → Type 0
IsWhole s = utf8_run start s ≡ some start

closing :
    (fuel : ℕ) (acc p : Text) (rest : Bytes)
    → All (λ x. is_plain x ≡ true) p
    → IsWhole p
    → string_loop (suc fuel) acc (escaped p ++ 34 ∷ rest) ≡ ok (acc ++ p, rest)
unfolding after_run escaped
closing fuel acc p rest a v =
    let same : escaped p ≡ p =
      ap escaped (sym (append-nil p)) ∙ escaped-append p [] a ∙ append-nil p in
    rw same (round fuel acc p 34 rest a refl (is_utf8-of p v))

escaping :
    (fuel : ℕ) (acc p q : Text) (c : ℕ) (rest : Bytes)
    → All (λ x. is_plain x ≡ true) p
    → is_plain c ≡ false
    → IsWhole p
    → string_loop (suc fuel) acc (escaped (p ++ c ∷ q) ++ 34 ∷ rest)
      ≡ string_loop fuel ((acc ++ p) ++ c ∷ []) (escaped q ++ 34 ∷ rest)
unfolding after_run escaped
escaping fuel acc p q c rest a special v =
    let (e, byte, read) = escaped_byte_special c special in
    let tail = escaped q ++ 34 ∷ rest in
    let text : escaped (p ++ c ∷ q) ≡ p ++ (92 ∷ (e ++ escaped q)) =
      escaped-append p (c ∷ q) a ∙ ap {B = Text} (λ (t : Text). p ++ (t ++ escaped q)) byte in
    let whole : escaped (p ++ c ∷ q) ++ 34 ∷ rest ≡ p ++ (92 ∷ (e ++ tail)) =
      ap {B = Bytes} (λ (t : Bytes). t ++ 34 ∷ rest) text
      ∙ append_assoc p (92 ∷ (e ++ escaped q)) (34 ∷ rest)
      ∙ ap {B = Bytes} (λ (t : Bytes). p ++ (92 ∷ t)) (append_assoc e (escaped q) (34 ∷ rest)) in
    ap (string_loop (suc fuel) acc) whole
    ∙ round fuel acc p 92 (e ++ tail) a refl (is_utf8-of p v)
    ∙ rw (read tail) refl

string_loop-escaped :
    (n fuel : ℕ) (acc s : Text) (rest : Bytes)
    → length s < n
    → n ≤ fuel
    → IsWhole s
    → string_loop fuel acc (escaped s ++ 34 ∷ rest) ≡ ok (acc ++ s, rest)
string_loop-escaped zero fuel acc s rest h f v = absurd (omega arith)
string_loop-escaped (suc n) zero acc s rest h f v = absurd (omega arith)
string_loop-escaped (suc n) (suc fuel) acc s rest h f v =
    let x = cut s in
    elim x.stops [
      | inl done ↦
          let same : s ≡ x.run =
            x.whole ∙ ap {B = Text} (λ (t : Text). x.run ++ t) done ∙ append-nil x.run in
          rw same (closing fuel acc x.run rest x.plain (rw same at v))
      | inr (c, q, after, special) ↦
          let same : s ≡ x.run ++ c ∷ q =
            x.whole ∙ ap {B = Text} (λ (t : Text). x.run ++ t) after in
          let halves = utf8_run-split x.run q start c (special-lt c special) (rw same at v) in
          let shorter : length s ≡ length x.run + suc (length q) =
            ap length same ∙ length-append x.run (c ∷ q) in
          let ih =
            string_loop-escaped n fuel ((acc ++ x.run) ++ c ∷ []) q rest (omega (arith, shorter))
              (omega arith) halves.1 in
          rw same (
            escaping fuel acc x.run q c rest x.plain special halves.0
            ∙ ih
            ∙ ap {B = Result JsonError (Text × Bytes)} (λ (t : Text). ok (t, rest))
                (append_assoc (acc ++ x.run) (c ∷ []) q ∙ append_assoc acc x.run (c ∷ q)))
    ]

-- A text that is UTF-8 is read back from what `write_string` writes, whatever follows it.
pub string-write_string :
    (s : Text) (rest : Bytes)
    → utf8_run start s ≡ some start
    → string (write_string s ++ rest) ≡ ok (s, rest)
unfolding string write_string
string-write_string s rest v =
    let moved : (escaped s ++ (34 ∷ [])) ++ rest ≡ escaped s ++ 34 ∷ rest =
      append_assoc (escaped s) (34 ∷ []) rest in
    rw moved (
      string_loop-escaped (suc (length s)) (suc (suc (length (escaped s ++ 34 ∷ rest)))) [] s rest
        (omega arith) (omega (arith, length-append (escaped s) (34 ∷ rest), length-escaped s)) v)

pub span_all :
    (test : ℕ → Bool) (p : Text) → All (λ x. test x ≡ true) p → span test (p ++ []) ≡ (p, [])
unfolding span
span_all test [] a = refl
span_all test (x ∷ p) a = span_more test x p [] (p ++ []) a.0 (span_all test p a.1)
