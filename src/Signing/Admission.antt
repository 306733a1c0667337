-- ===== src/Signing/Admission.antt =====
-- Exactly when `sign_native` signs, and what.
use qcore_rs.Prelude.{
  ℕ, ◌+◌, ◌≤◌, ◌<◌, ◌≡◌, ◌⊎◌, true, false, Option, some, list_eq, nat_eq, Bytes, length,
  if◌then◌else◌,
}
use qcore_rs.Chain.{max_plausible_head, max_validity_blocks}
use qcore_rs.Contract.OrderCall.{degenerate_randomness}
use qcore_rs.Signing.{SigningCrates, SignedTransfer, Native}
use qcore_rs.Signing.Guards.{MaySign, PaysOther}

module _ (c : SigningCrates) where
  -- A call of code or a transfer, with the tag of its kind: a transfer pays another than its sender.
  abbrev pub IsKind : Native → ℕ → Type 0
  IsKind a kind =
      ((a.calls_code ≡ true) × (kind ≡ c.kind_call))
      ⊎ ((a.calls_code ≡ false)
          × (kind ≡ c.kind_transfer)
          × PaysOther c.shared a.target (c.address a.seed a.index))

  -- What a signed transaction rests on: a target that is an address of 32 bytes and, in a transfer,
  -- another than the sender's; a deadline past the head and within 3600 blocks; a genesis that may be
  -- signed for; random bytes that are not degenerate; and a signature over the body, written out.
  pub record IsSigned (drawn : Option Bytes) (a : Native) (t : SignedTransfer) : Type 0 where
    pub payload : Bytes
    pub target : (c.shared.parse_address a.target ≡ some payload) × (length payload ≡ 32)
    pub deadline :
        (a.head < a.valid_until)
        × (a.valid_until ≤ a.head + max_validity_blocks)
        × (a.valid_until ≤ max_plausible_head + max_validity_blocks)
    pub genesis : MaySign c.shared a.chain_id a.genesis
    pub kind : ℕ
    pub is_kind : IsKind a kind
    pub random : Bytes
    pub drew : drawn ≡ some random
    pub strong : degenerate_randomness random ≡ false
    pub wrapper : c.Wrapper
    pub signs :
        c.try_sign_hedged a.seed a.index
          (c.until a.valid_until (
            c.with_kind kind (
              c.with_context
                (c.address a.seed a.index)
                a.nonce
                a.meter_limit
                a.fee
                a.target
                a.args
                a.value
                a.chain_id)))
          a.genesis
          random
        ≡ some wrapper
    pub from : t.from ≡ c.address a.seed a.index
    pub named : t.tx_id ≡ c.id wrapper
    pub carried : t.tx_bytes ≡ c.to_bytes wrapper

  abbrev until_kind : Native → ℕ → c.Body
  until_kind a kind = c.until a.valid_until (
      c.with_kind kind (
        c.with_context (c.address a.seed a.index) a.nonce a.meter_limit a.fee a.target a.args
          a.value a.chain_id))

  abbrev tag_of : Native → ℕ
  tag_of a = if a.calls_code then c.kind_call else c.kind_transfer
