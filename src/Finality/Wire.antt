-- ===== src/Finality/Wire.antt =====
-- How src/finality.rs reads rosters, proof steps and event leaves, and `index_fits_path`.
pub mod ReadBack
pub mod Fits
use qcore_rs.Prelude.{
  ℕ, suc, zero, ◌+◌, ◌-◌, ◌*◌, ◌/◌, ◌%◌, ◌^◌, Bool, true, false, not, ◌&&◌, Option, none, some,
  List, [], ◌∷◌, Result, ok, err, ◌>>=◌, ◌>>◌, refuse, ok_or, map_err, ltb, leb, ◌==◌,
  if◌then◌else◌, length, Bytes, Text, codes,
}
use qcore_rs.Prelude.Utf8.{is_utf8}
use qcore_rs.Json.{Json, Items, no_items, item, get, as_str, as_u64, as_array}
use qcore_rs.Json.Parser.{JsonError, parse}
use qcore_rs.Json.Hex.{HexError, from_hex}
use qcore_rs.Gateway.{canonical_decimal, and_then}
use qcore_rs.Contract.Answers.{u64_of}
use qcore_rs.Finality.Crates.{Root}
use qcore_rs.Finality.Quorum.{RosterMember, max_roster}
use qcore_rs.Finality.Inclusion.{InclusionCrates, max_proof_steps}

pub data WireError : Type 0 where
  not_json : JsonError → WireError
  not_hex : HexError → WireError
  not_an_array roster_too_large no_id no_attest_pk no_root root_not_32_bytes steps_not_a_list
        too_many_steps no_sibling sibling_not_32_bytes no_left malformed_event :
      WireError
  no_digits not_canonical : Text → WireError

-- `items.len()`
unfoldable pub count_items : Items → ℕ
count_items no_items = 0
count_items (item v rest) = suc (count_items rest)

abbrev pub hex_in : Json → Text → WireError → Result WireError Bytes
hex_in v key missing = ok_or (and_then (get key v) as_str) missing >>= λ text.
    map_err WireError.not_hex (from_hex text)

-- `try_into` an array of 32 bytes
abbrev pub array_32 : Bytes → WireError → Result WireError Bytes
array_32 bytes e = if length bytes == 32 then ok bytes else err e

-- the closure `digits`
unfoldable pub digits : Json → Text → Result WireError ℕ
unfolding get as_str canonical_decimal
digits v key = do
  text ← ok_or (and_then (get key v) as_str) (WireError.no_digits key)
  ok_or (u64_of text) (WireError.not_canonical key)

unfoldable pub member_of : Json → Result WireError RosterMember
unfolding get as_str as_u64 from_hex digits
member_of v = do
  id ← ok_or (and_then (get (codes "id") v) as_u64) WireError.no_id
  attest_pk ← hex_in v (codes "attest_pk") WireError.no_attest_pk
  root ← hex_in v (codes "root") WireError.no_root
  digest ← array_32 root WireError.root_not_32_bytes
  stake ← digits v (codes "stake")
  slots ← digits v (codes "root_slots")
  ok (record {
    id = id;
    stake = stake;
    attest_pk = attest_pk;
    root = record { digest = digest; slots = slots };
  })

-- the loop over the members
unfoldable pub members_of : Items → Result WireError (List RosterMember)
unfolding member_of
members_of no_items = ok []
members_of (item v rest) = do member ← member_of v; later ← members_of rest; ok (member ∷ later)

unfoldable pub parse_roster : Text → Result WireError (List RosterMember)
unfolding parse as_array count_items members_of
parse_roster text = do
  v ← map_err WireError.not_json (parse text)
  items ← ok_or (as_array v) WireError.not_an_array
  refuse (ltb max_roster (count_items items)) WireError.roster_too_large
  members_of items

abbrev pub left_of : Option Json → Result WireError Bool
left_of (some (Json.bool b)) = ok b
left_of _ = err WireError.no_left

unfoldable pub step_of : Json → Result WireError (Bytes × Bool)
unfolding get as_str from_hex
step_of v = do
  bytes ← hex_in v (codes "sibling") WireError.no_sibling
  sibling ← array_32 bytes WireError.sibling_not_32_bytes
  left ← left_of (get (codes "left") v)
  ok (sibling, left)

-- the loop over the steps
unfoldable pub steps_of : Items → Result WireError (List (Bytes × Bool))
unfolding step_of
steps_of no_items = ok []
steps_of (item v rest) = do step ← step_of v; later ← steps_of rest; ok (step ∷ later)

unfoldable pub parse_steps : Json → Result WireError (List (Bytes × Bool))
unfolding as_array count_items steps_of
parse_steps v = do
  items ← ok_or (as_array v) WireError.steps_not_a_list
  refuse (ltb max_proof_steps (count_items items)) WireError.too_many_steps
  steps_of items

pub record ChainEvent : Type 0 where
  pub contract : Text
  pub selector : Bytes
  pub data_bytes : Bytes
  pub tx : Text

-- `String::from_utf8`
abbrev pub text_of : Bytes → Result WireError Text
text_of bytes = if is_utf8 bytes then ok bytes else err WireError.malformed_event

module _ (c : InclusionCrates) where
  abbrev pub bytes_at : c.Decoder → Result WireError (Bytes × c.Decoder)
  bytes_at d = ok_or (c.get_bytes d) WireError.malformed_event

  -- the transaction, where bytes are left for it
  abbrev pub tx_at : c.Decoder → Result WireError (Text × c.Decoder)
  tx_at d =
      if ltb 0 (c.remaining d)
      then (bytes_at d >>= λ read. text_of (read.0) >>= λ tx. ok (tx, read.1))
      else ok ([], d)

  unfoldable pub decode_event : Bytes → Result WireError ChainEvent
  unfolding is_utf8
  decode_event leaf = do
    (contract, d) ← bytes_at (c.decoder leaf)
    contract ← text_of contract
    (selector, d) ← bytes_at d
    refuse (not (length selector == 4)) WireError.malformed_event
    (bytes, d) ← bytes_at d
    (tx, d) ← tx_at d
    refuse (not (c.finish d)) WireError.malformed_event
    ok (record { contract = contract; selector = selector; data_bytes = bytes; tx = tx })

-- `count_ones` of a u64, for the bits that are left
unfoldable pub ones_below : ℕ → ℕ → ℕ
ones_below zero n = 0
ones_below (suc bits) n = n % 2 + ones_below bits (n / 2)

abbrev pub count_ones : ℕ → ℕ
count_ones = ones_below 64

-- `steps.iter().rev()`, the sides alone
unfoldable pub top_down : List Bool → List (Bytes × Bool) → List Bool
top_down sides [] = sides
top_down sides ((sibling, left) ∷ rest) = top_down (left ∷ sides) rest

abbrev pub one_if : Bool → ℕ
one_if true = 1
one_if false = 0

-- the fold over the sides below the turn, with `<<` on a u64
unfoldable pub low_bits : ℕ → List Bool → ℕ
low_bits acc [] = acc
low_bits acc (right ∷ rest) = low_bits (acc * 2 % 2 ^ 64 + one_if right) rest

-- from the first side that is not a right one on, `turn` right ones having been passed
unfoldable pub fits_below : ℕ → ℕ → List Bool → Bool
unfolding ones_below low_bits
fits_below index turn [] = count_ones index == turn
fits_below index turn (true ∷ rest) = fits_below index (turn + 1) rest
fits_below index turn (false ∷ rest) =
    let depth = length rest in
    if leb 64 depth
    then false
    else index % 2 ^ depth == low_bits 0 rest
      && index / 2 ^ depth % 2 == 0
      && count_ones (if depth == 63 then 0 else index / 2 ^ (depth + 1)) == turn

unfoldable pub index_fits_path : ℕ → List (Bytes × Bool) → Bool
unfolding top_down fits_below
index_fits_path index steps = fits_below index 0 (top_down [] steps)
