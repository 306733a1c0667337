-- ===== src/Prelude/Strings.antt =====
-- `&str`, `String` and `&[u8]` as lists of bytes; a text is its UTF-8 encoding.
use Prim.Native.Nat.{ℕ, zero, suc, ◌+◌, ◌-◌}
use Prim.Native.Char.{code}
use Prim.Native.String.{String}
use mathlib.Core.Bool.{Bool, true, false, ◌&&◌}
use mathlib.Core.Option.{Option, none, some}
use mathlib.Core.List.{List, [], ◌∷◌, map}
use qcore_rs.Prelude.Tests.{leb, if◌then◌else◌}

abbrev pub Bytes : Type 0
Bytes = List ℕ

abbrev pub Text : Type 0
Text = Bytes

-- The bytes of an ASCII literal.
abbrev pub codes : String → Text
codes String.[] = []
codes (String.◌∷◌ c s) = code c ∷ codes s

-- `u8::to_ascii_uppercase`, and the same on a text
abbrev pub upper_byte : ℕ → ℕ
upper_byte c = if leb b'a' c && leb c b'z' then c - 32 else c

abbrev pub to_ascii_uppercase : Text → Text
to_ascii_uppercase = map upper_byte

-- `u8::to_ascii_lowercase`, and the same on a text
abbrev pub lower_byte : ℕ → ℕ
lower_byte c = if leb b'A' c && leb c b'Z' then c + 32 else c

abbrev pub to_ascii_lowercase : Text → Text
to_ascii_lowercase = map lower_byte

abbrev pub is_ascii_digit : ℕ → Bool
is_ascii_digit c = leb b'0' c && leb c b'9'

-- `text.get(n..)`: none past the end, and none inside a character.
abbrev pub starts_char : Text → Bool
starts_char [] = true
starts_char (c ∷ rest) = if leb 128 c && leb c 191 then false else true

abbrev pub get_from : ℕ → Text → Option Text
get_from zero s = if starts_char s then some s else none
get_from (suc n) [] = none
get_from (suc n) (c ∷ s) = get_from n s
