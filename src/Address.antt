-- ===== src/Address.antt =====
-- Addresses as src/lib.rs uses them: their payload, equality of two spellings, and the lookalike
-- test. The address codec is another crate's: `parse_address` stands for `qtv_idfmt::parse_address`.
use qcore_rs.Prelude.{
  ℕ, ◌+◌, suc, Bool, true, false, ◌&&◌, Option, none, some, List, [], ◌∷◌, Result, ok, err, ◌==◌,
  leb, if◌then◌else◌, length, is_same, nat_eq, list_eq, Text, Bytes, to_ascii_uppercase, get_from,
}
use mathlib.Core.List.{reverse}

-- `ADDRESS_PAYLOAD_LEN`, `LOOKALIKE_EDGE`, `LOOKALIKE_SPAN`
abbrev pub address_payload_len : ℕ
address_payload_len = 32

abbrev pub lookalike_edge : ℕ
lookalike_edge = 2

abbrev pub lookalike_span : ℕ
lookalike_span = 8

pub data AddressError : Type 0 where
  not_a_q1_address not_canonical_width : AddressError

-- `zip`, `take_while` on equal bytes, `count`
unfoldable pub common_prefix : Bytes → Bytes → ℕ
common_prefix (x ∷ xs) (y ∷ ys) = let rest = common_prefix xs ys in if x == y then suc rest else 0
common_prefix _ _ = 0

abbrev pub edges_agree : Bytes → Bytes → Bool
edges_agree a b =
    let head = common_prefix a b in
    let tail = common_prefix (reverse a) (reverse b) in
    leb lookalike_edge head && leb lookalike_edge tail && leb lookalike_span (head + tail)

abbrev pub both_agree : Option Bytes → Option Bytes → Bool
both_agree (some a) (some b) = edges_agree a b
both_agree _ _ = false

unfoldable pub shares_edges : Text → Text → Bool
unfolding common_prefix
shares_edges a b =
    both_agree (get_from 2 (to_ascii_uppercase a)) (get_from 2 (to_ascii_uppercase b))

abbrev pub same_payload : Result AddressError Bytes → Result AddressError Bytes → Bool
same_payload (ok x) (ok y) = is_same x y
same_payload _ _ = false

module _ (parse_address : Text → Option Bytes) where
  abbrev pub has_width : Option Bytes → Bool
  has_width none = false
  has_width (some payload) = length payload == address_payload_len

  unfoldable pub valid_address : Text → Bool
  valid_address address = has_width (parse_address address)

  abbrev pub thirty_two : Option Bytes → Result AddressError Bytes
  thirty_two none = err not_a_q1_address
  thirty_two (some payload) = if length payload == 32 then ok payload else err not_canonical_width

  unfoldable pub address_payload : Text → Result AddressError Bytes
  address_payload address = thirty_two (parse_address address)

  unfoldable pub same_address : Text → Text → Bool
  unfolding address_payload
  same_address a b = same_payload (address_payload a) (address_payload b)

  abbrev pub lookalike : Bytes → Text → Text → Result AddressError Bytes → Bool
  lookalike target candidate other (err e) = false
  lookalike target candidate other (ok payload) =
      (if is_same payload target then false else true) && shares_edges candidate other

  unfoldable pub first_lookalike : Bytes → Text → List Text → Option Text
  first_lookalike target candidate [] = none
  first_lookalike target candidate (other ∷ known) =
      if lookalike target candidate other (address_payload other)
      then some other
      else first_lookalike target candidate known

  abbrev pub lookalike_among : Text → List Text → Result AddressError Bytes → Option Text
  lookalike_among candidate known (err e) = none
  lookalike_among candidate known (ok target) = first_lookalike target candidate known

  unfoldable pub lookalike_of : Text → List Text → Option Text
  lookalike_of candidate known = lookalike_among candidate known (address_payload candidate)
