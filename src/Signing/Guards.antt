-- ===== src/Signing/Guards.antt =====
-- The guards of `sign_native` one by one: `check_genesis`, and the test of a transfer to its sender.
use qcore_rs.Prelude.{
  ℕ, ◌≡◌, ◌≢◌, ◌↔◌, false, Option, Option-cases, some, map_err, bind_ok, ok, length, All, list_eq,
  nat_eq, Bytes, Text, arith, ◌⊎◌, inl, inr, beq_list_iff,
}
use qcore_rs.Address.{address_payload}
use qcore_rs.Contract.Field.{zeroes}
use qcore_rs.Contract.OrderCall.{OrderCrates, retired_chain_names, testnet_chain_id, check_genesis}
use qcore_rs.Signing.{SigningCrates, SignError, check_other}

-- A chain and a genesis that may be signed for: no retired chain, and on the two public chains not
-- the genesis of zeroes.
abbrev pub MaySign : OrderCrates → ℕ → Bytes → Type 0
MaySign c chain_id genesis =
    All (λ name. c.chain_id_from_name name ≢ chain_id) retired_chain_names
    × ((genesis ≢ zeroes 32) ⊎ ((chain_id ≢ testnet_chain_id c) × (chain_id ≢ c.mainnet_chain_id)))

-- Two addresses with payloads of 32 bytes that differ.
abbrev pub PaysOther : OrderCrates → Text → Text → Type 0
PaysOther c target sender =
    (theirs : Bytes) × (mine : Bytes) × (c.parse_address target ≡ some theirs)
    × (c.parse_address sender ≡ some mine)
    × (length theirs ≡ 32)
    × (length mine ≡ 32)
    × (theirs ≢ mine)

pub check_genesis_iff :
    (c : OrderCrates) (chain_id : ℕ) (genesis : Bytes)
    → (check_genesis c chain_id genesis ≡ ok tt) ↔ MaySign c chain_id genesis
unfolding check_genesis
check_genesis_iff c chain_id genesis = (
  λ h. ground (arith, h, beq_list_iff genesis (zeroes 32)),
  λ m. ground (arith, m, beq_list_iff genesis (zeroes 32)),
)

payload_of :
    (parse : Text → Option Bytes) (address : Text) (payload : Bytes)
    → map_err SignError.address_refused (address_payload parse address) ≡ ok payload
    → (parse address ≡ some payload) × (length payload ≡ 32)
unfolding address_payload
payload_of parse address payload h = elim (Option-cases (parse address)) [
  | inl p ↦ absurd (ground (arith, h, p))
  | inr (bytes, p) ↦ ground (arith, h, p)
]

pub check_other_iff :
    (c : SigningCrates) (target sender : Text)
    → (check_other c false target sender ≡ ok tt) ↔ PaysOther c.shared target sender
unfolding check_other address_payload
check_other_iff c target sender = (
  λ h.
      let (theirs, e1, h1) =
        bind_ok (map_err SignError.address_refused (address_payload c.shared.parse_address target))
          _ tt h in
      let (mine, e2, h2) =
        bind_ok (map_err SignError.address_refused (address_payload c.shared.parse_address sender))
          _ tt h1 in
      let (p, l) = payload_of c.shared.parse_address target theirs e1 in
      let (q, m) = payload_of c.shared.parse_address sender mine e2 in
      (theirs, mine, p, q, l, m, ground (arith, h2, beq_list_iff theirs mine)),
  λ (theirs, mine, p, q, l, m, apart).
      rw (p, q) (ground (arith, l, m, apart, beq_list_iff theirs mine)),
)
