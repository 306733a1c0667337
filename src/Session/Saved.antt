-- ===== src/Session/Saved.antt =====
-- `export_state` and `import_state` of `SigningSession`: the session as JSON text.
pub mod Kept
pub mod Restored
pub mod Reading
pub mod Flags
pub mod RoundTrip
pub mod Exported
pub mod Covered
use qcore_rs.Prelude.{
  ℕ, max, Bool, true, false, not, ◌==◌, Option, none, some, List, [], ◌∷◌, ◌++◌, map, Result, ok,
  err, ◌>>=◌, ◌>>◌, refuse, ok_or, map_err, ltb, leb, if◌then◌else◌, is_same, list_eq, nat_eq, Text,
  codes, u64_max,
}
use qcore_rs.Prelude.Decimal.{decimal}
use qcore_rs.Map
use qcore_rs.Map.{Map}
use qcore_rs.Map.Ordered
use qcore_rs.Map.Ordered.{OrderedMap}
use qcore_rs.Json.{
  Json, Items, Fields, no_items, item, no_fields, field, render, get, as_str, as_u64,
}
use qcore_rs.Json.Parser.{JsonError, parse}
use qcore_rs.Gateway.{canonical_decimal, and_then, at_most}
use qcore_rs.Session.{SigningSession, next_nonce, held_of, or_default, note_head}

-- the order of `String`
unfoldable pub is_before : Text → Text → Bool
is_before [] [] = false
is_before [] (b ∷ bs) = true
is_before (a ∷ as_) [] = false
is_before (a ∷ as_) (b ∷ bs) =
    let rest = is_before as_ bs in if ltb a b then true else if ltb b a then false else rest

-- `sort` and `dedup`, a text at a time
unfoldable pub add_key : Text → List Text → List Text
unfolding is_before
add_key key [] = key ∷ []
add_key key (other ∷ rest) =
    let later = add_key key rest in
    if is_before key other
    then key ∷ other ∷ rest
    else if is_same key other
    then other ∷ rest
    else other ∷ later

unfoldable pub sorted_keys : List Text → List Text
unfolding add_key
sorted_keys [] = []
sorted_keys (key ∷ rest) = add_key key (sorted_keys rest)

abbrev pub keys_of {κ} : {V : Type κ} → Map Text V → List Text
keys_of [] = []
keys_of ((key, v) ∷ m) = key ∷ keys_of m

abbrev pub Head : Type 0
Head = Text × ℕ × ℕ

unfoldable pub add_head : Head → List Head → List Head
unfolding is_before
add_head h [] = h ∷ []
add_head h (other ∷ rest) =
    let later = add_head h rest in if is_before h.0 other.0 then h ∷ other ∷ rest else other ∷ later

unfoldable pub sorted_heads : Map Text (ℕ × ℕ) → List Head
unfolding add_head
sorted_heads [] = []
sorted_heads ((chain, (height, at)) ∷ m) = add_head (chain, height, at) (sorted_heads m)

unfoldable pub held_json : OrderedMap Bool → Items
held_json [] = no_items
held_json ((slot, accepted) ∷ m) =
    item
      (Json.object (
        field (codes "slot") (Json.str (decimal slot))
          (field (codes "accepted") (Json.bool accepted) no_fields)))
      (held_json m)

abbrev pub next_field : Option ℕ → Fields
next_field none = no_fields
next_field (some next) = field (codes "next") (Json.str (decimal next)) no_fields

abbrev pub key_json : SigningSession → Text → Json
key_json s key = Json.object (
    field (codes "key") (Json.str key) (
      field (codes "held") (Json.array (held_json (held_of s key)))
        (next_field (next_nonce s key))))

unfoldable pub keys_json : SigningSession → List Text → Items
unfolding held_json
keys_json s [] = no_items
keys_json s (key ∷ rest) = item (key_json s key) (keys_json s rest)

unfoldable pub heads_json : List Head → Items
heads_json [] = no_items
heads_json ((chain, height, at) ∷ rest) =
    item
      (Json.object (
        field (codes "chain") (Json.str chain) (
          field (codes "height") (Json.str (decimal height))
            (field (codes "at") (Json.str (decimal at)) no_fields))))
      (heads_json rest)

unfoldable pub export_state : SigningSession → Text
unfolding keys_json heads_json sorted_keys sorted_heads
export_state s = render (
    Json.object (
      field (codes "version") (Json.int 1) (
        field (codes "keys")
          (Json.array (keys_json s (sorted_keys (keys_of s.next ++ keys_of s.held))))
          (field (codes "heads") (Json.array (heads_json (sorted_heads s.heads))) no_fields))))

pub data ImportError : Type 0 where
  not_json : JsonError → ImportError
  not_version_1 no_key_list entry_without_key head_without_chain heads_not_a_list : ImportError
  not_whole : Text → ImportError

abbrev pub decimal_of : Option Text → Option ℕ
decimal_of none = none
decimal_of (some text) = canonical_decimal text

-- `number`
unfoldable pub number_of : Option Json → Text → Result ImportError ℕ
number_of value what =
    ok_or (at_most u64_max (decimal_of (and_then value as_str))) (ImportError.not_whole what)

abbrev pub is_true : Option Json → Bool
is_true (some (Json.bool b)) = b
is_true _ = false

unfoldable pub read_slots : Items → OrderedMap Bool → Result ImportError (OrderedMap Bool)
unfolding number_of
read_slots no_items slots = ok slots
read_slots (item entry rest) slots = do
  slot ← number_of (get (codes "slot") entry) (codes "slot")
  read_slots rest (Ordered.insert slot (is_true (get (codes "accepted") entry)) slots)

abbrev pub read_held : Option Json → Result ImportError (OrderedMap Bool)
read_held (some (Json.array list)) = read_slots list []
read_held _ = ok []

abbrev pub read_next : Text → Option Json → Map Text ℕ → Result ImportError (Map Text ℕ)
read_next key none next = ok next
read_next key (some value) next =
    number_of (some value) (codes "next nonce") >>= λ n. ok (Map.insert key n next)

-- `if !slots.is_empty()`
abbrev pub keep_slots :
    Text → OrderedMap Bool → Map Text (OrderedMap Bool) → Map Text (OrderedMap Bool)
keep_slots key [] held = held
keep_slots key (s ∷ slots) held = Map.insert key (s ∷ slots) held

unfoldable pub read_keys :
    Items
    → Map Text ℕ
    → Map Text (OrderedMap Bool)
    → Result ImportError (Map Text ℕ × Map Text (OrderedMap Bool))
unfolding read_slots
read_keys no_items next held = ok (next, held)
read_keys (item entry rest) next held = do
  key ← ok_or (and_then (get (codes "key") entry) as_str) ImportError.entry_without_key
  next ← read_next key (get (codes "next") entry) next
  slots ← read_held (get (codes "held") entry)
  read_keys rest next (keep_slots key slots held)

unfoldable pub read_heads : Items → Result ImportError (List Head)
unfolding number_of
read_heads no_items = ok []
read_heads (item entry rest) = do
  chain ← ok_or (and_then (get (codes "chain") entry) as_str) ImportError.head_without_chain
  height ← number_of (get (codes "height") entry) (codes "head height")
  at ← number_of (get (codes "at") entry) (codes "head time")
  later ← read_heads rest
  ok ((chain, height, at) ∷ later)

abbrev pub heads_of : Option Json → Result ImportError (List Head)
heads_of none = ok []
heads_of (some (Json.array list)) = read_heads list
heads_of (some _) = err ImportError.heads_not_a_list

abbrev pub raise_next : SigningSession → Text → ℕ → SigningSession
raise_next s key value = record s {
  next = Map.insert key (max (or_default (Map.get key s.next) value) value) s.next;
}

unfoldable pub raise_all : Map Text ℕ → SigningSession → SigningSession
raise_all [] s = s
raise_all ((key, value) ∷ next) s = raise_all next (raise_next s key value)

-- `extend`
unfoldable pub extend : OrderedMap Bool → OrderedMap Bool → OrderedMap Bool
extend [] held = held
extend ((slot, accepted) ∷ slots) held = extend slots (Ordered.insert slot accepted held)

abbrev pub hold_slots : SigningSession → Text → OrderedMap Bool → SigningSession
hold_slots s key slots = record s { held = Map.insert key (extend slots (held_of s key)) s.held }

unfoldable pub hold_all : Map Text (OrderedMap Bool) → SigningSession → SigningSession
unfolding extend
hold_all [] s = s
hold_all ((key, slots) ∷ held) s = hold_all held (hold_slots s key slots)

unfoldable pub note_heads : List Head → SigningSession → SigningSession
note_heads [] s = s
note_heads ((chain, height, at) ∷ rest) s = note_heads rest (note_head s chain height at)

-- After the loop that raises the tracked nonces, which an error in the heads does not undo.
abbrev pub finish_import :
    Result ImportError (List Head)
    → Map Text (OrderedMap Bool)
    → SigningSession
    → Result ImportError (Unit {0}) × SigningSession
finish_import (err e) held s = (err e, s)
finish_import (ok heads) held s = (ok tt, note_heads heads (hold_all held s))

abbrev pub keys_read : Option Json → Result ImportError (Map Text ℕ × Map Text (OrderedMap Bool))
keys_read (some (Json.array items)) = read_keys items [] []
keys_read _ = err ImportError.no_key_list

abbrev pub is_version_1 : Option ℕ → Bool
is_version_1 none = false
is_version_1 (some n) = n == 1

-- the parts that are read before the session changes
unfoldable pub read_saved :
    Text → Result ImportError (Json × Map Text ℕ × Map Text (OrderedMap Bool))
unfolding read_keys
read_saved state = do
  parsed ← map_err ImportError.not_json (parse state)
  refuse (not (is_version_1 (and_then (get (codes "version") parsed) as_u64)))
      ImportError.not_version_1
  (next, held) ← keys_read (get (codes "keys") parsed)
  ok (parsed, next, held)

abbrev pub import_read :
    SigningSession
    → Result ImportError (Json × Map Text ℕ × Map Text (OrderedMap Bool))
    → Result ImportError (Unit {0}) × SigningSession
import_read s (err e) = (err e, s)
import_read s (ok (parsed, next, held)) =
    finish_import (heads_of (get (codes "heads") parsed)) held (raise_all next s)

unfoldable pub import_state : SigningSession → Text → Result ImportError (Unit {0}) × SigningSession
unfolding read_saved raise_all hold_all note_heads read_heads
import_state s state = import_read s (read_saved state)
