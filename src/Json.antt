-- ===== src/Json.antt =====
-- `Json` of src/json.rs: the values, how they are written, and how their parts are reached.
pub mod Parser
pub mod Hex
pub mod RoundTrip
use qcore_rs.Prelude.{
  ℕ, ◌+◌, ◌/◌, ◌%◌, Bool, true, false, ◌&&◌, ◌||◌, Option, none, some, List, [], ◌∷◌, ◌++◌, ltb,
  ◌==◌, if◌then◌else◌, is_same, list_eq, nat_eq, Bytes, Text, codes,
}
use qcore_rs.Prelude.Decimal.{decimal}

-- `Items` and `Fields` are the vectors inside an array and an object.
mutual
  pub data Json : Type 0 where
    null : Json
    bool : Bool → Json
    int : ℕ → Json
    str : Text → Json
    array : Items → Json
    object : Fields → Json

  pub data Items : Type 0 where
    no_items : Items
    item : Json → Items → Items

  pub data Fields : Type 0 where
    no_fields : Fields
    field : Text → Json → Fields → Fields

-- `char::from_digit(n, 16)`
abbrev pub hex_digit : ℕ → ℕ
hex_digit n = if ltb n 10 then b'0' + n else 87 + n

-- A byte of a string as `write_string` writes it: it escapes by characters below 128, which are
-- single bytes, and the bytes of the others stay.
unfoldable pub escaped_byte : ℕ → Text
escaped_byte c =
    if c == 34
    then 92 ∷ 34 ∷ []
    else if c == 92
    then 92 ∷ 92 ∷ []
    else if c == 10
    then 92 ∷ b'n' ∷ []
    else if c == 13
    then 92 ∷ b'r' ∷ []
    else if c == 9
    then 92 ∷ b't' ∷ []
    else if ltb c 32
    then 92 ∷ b'u' ∷ b'0' ∷ b'0' ∷ hex_digit (c / 16) ∷ hex_digit (c % 16) ∷ []
    else c ∷ []

unfoldable pub escaped : Text → Text
unfolding escaped_byte
escaped [] = []
escaped (c ∷ rest) = escaped_byte c ++ escaped rest

unfoldable pub write_string : Text → Text
unfolding escaped
write_string s = 34 ∷ (escaped s ++ (34 ∷ []))

-- `write`, and its loops over the elements, which put a comma before each but the first
unfoldable mutual
  unfolding write_string decimal

  pub write : Json → Text
  write null = codes "null"
  write (bool true) = codes "true"
  write (bool false) = codes "false"
  write (int n) = decimal n
  write (str s) = write_string s
  write (array items) = b'[' ∷ write_items items
  write (object members) = b'{' ∷ write_fields members

  pub write_items : Items → Text
  write_items no_items = b']' ∷ []
  write_items (item v rest) = write v ++ write_more_items rest

  pub write_more_items : Items → Text
  write_more_items no_items = b']' ∷ []
  write_more_items (item v rest) = b',' ∷ (write v ++ write_more_items rest)

  pub write_fields : Fields → Text
  write_fields no_fields = b'}' ∷ []
  write_fields (field key v rest) = write_string key ++ (b':' ∷ (write v ++ write_more_fields rest))

  pub write_more_fields : Fields → Text
  write_more_fields no_fields = b'}' ∷ []
  write_more_fields (field key v rest) =
      b',' ∷ (write_string key ++ (b':' ∷ (write v ++ write_more_fields rest)))

unfoldable pub render : Json → Text
unfolding write
render = write

-- the last field of the key, as `iter().rev().find`
unfoldable pub get_last : Text → Fields → Option Json
get_last key no_fields = none
get_last key (field k v rest) = elim (get_last key rest) [
  | some w ↦ some w
  | none ↦ if is_same k key then some v else none
]

unfoldable pub get : Text → Json → Option Json
unfolding get_last
get key (object members) = get_last key members
get key _ = none

unfoldable pub as_str : Json → Option Text
as_str (str s) = some s
as_str _ = none

unfoldable pub as_u64 : Json → Option ℕ
as_u64 (int n) = some n
as_u64 _ = none

unfoldable pub as_bool : Json → Option Bool
as_bool (bool b) = some b
as_bool _ = none

unfoldable pub as_array : Json → Option Items
as_array (array items) = some items
as_array _ = none
