-- ===== src/Finality/Epochs.antt =====
-- Epochs and their rosters, and the accounts proven against a final header: src/finality.rs.
pub mod Succession
use qcore_rs.Prelude.{
  ℕ, ◌+◌, ◌-◌, ◌*◌, ◌/◌, Bool, true, false, ◌||◌, Option, none, some, List, map, Result, ok, err,
  ◌>>=◌, ◌>>◌, refuse, ok_or, map_err, ltb, ◌==◌, not, if◌then◌else◌, length, is_same, list_eq,
  nat_eq, Bytes, Text, checked_add, checked_mul, checked_sub, u64_max,
}
use qcore_rs.Address.{valid_address}
use qcore_rs.Finality.Crates.{Crates, RosterEntry}
use qcore_rs.Finality.Quorum.{
  RosterMember, FinalizedHeader, FinalityError, max_roster, verify_finality,
}

pub record VerifiedRoster : Type 0 where
  pub epoch : ℕ
  pub members : List RosterMember

pub data EpochError : Type 0 where
  no_length at_limit malformed_header malformed_proof next_size not_committed not_proven :
      EpochError
  other_epoch : ℕ → ℕ → EpochError
  not_sealing : ℕ → ℕ → ℕ → EpochError
  finality : FinalityError → EpochError
  bad_address account_not_proven malformed_leaf : EpochError

unfoldable pub epoch_of : ℕ → ℕ → Result EpochError ℕ
epoch_of height epoch_length =
    if epoch_length == 0 then err EpochError.no_length else ok (height / epoch_length)

-- the chain of checked operations, with `checked_sub(1)`
abbrev pub seal_of : ℕ → ℕ → Option ℕ
seal_of epoch epoch_length = elim (checked_add u64_max epoch 1) [
  | none ↦ none
  | some next ↦ elim (checked_mul u64_max next epoch_length) [
    | none ↦ none
    | some start ↦ checked_sub start 1
  ]
]

unfoldable pub sealing_height : ℕ → ℕ → Result EpochError ℕ
sealing_height epoch epoch_length = do
  refuse (epoch_length == 0) EpochError.no_length
  ok_or (seal_of epoch epoch_length) EpochError.at_limit

abbrev pub roster_entry : RosterMember → RosterEntry
roster_entry m = record {
  id = m.id;
  stake = m.stake;
  attest_pk = m.attest_pk;
  root_digest = m.root.digest;
  root_slots = m.root.slots;
}

module _ (c : Crates) where
  pub record VerifiedAccount : Type 0 where
    pub address : Text
    pub header : FinalizedHeader
    pub account : Option c.AccountLeaf

  unfoldable pub roster_commitment_of : ℕ → List RosterMember → Bytes
  roster_commitment_of epoch members = c.roster_commitment epoch (map roster_entry members)

  unfoldable pub state_proof : Bytes → Result EpochError c.Proof
  state_proof bytes = ok_or (c.proof_from_bytes bytes) EpochError.malformed_proof

  unfoldable pub header_height : Bytes → Result EpochError ℕ
  header_height bytes = do
    header ← ok_or (c.header_from_bytes bytes) EpochError.malformed_header
    ok header.height

  -- `proof.value() != Some(..)`
  abbrev pub proves_value : c.Proof → Bytes → Bool
  proves_value proof bytes = elim (c.proof_value proof) [
    | none ↦ false
    | some value ↦ is_same value bytes
  ]

  -- what `verify_account` reads from a proven value
  abbrev pub leaf_of : Option Bytes → Result EpochError (Option c.AccountLeaf)
  leaf_of none = ok none
  leaf_of (some bytes) =
      ok_or (c.decode_account_leaf bytes) EpochError.malformed_leaf >>= λ leaf. ok (some leaf)

  -- the last steps of `verify_next_roster`, against the state root of the sealing header
  unfoldable pub admit_next :
      ℕ → List RosterMember → Bytes → Bytes → Result EpochError VerifiedRoster
  unfolding state_proof roster_commitment_of
  admit_next next next_members proof_bytes q_root = do
    proof ← state_proof proof_bytes
    refuse (not (proves_value proof (roster_commitment_of next next_members)))
        EpochError.not_committed
    refuse (not (c.verify_state (c.roster_commitment_key next) proof q_root)) EpochError.not_proven
    ok (record { epoch = next; members = next_members })

  module _ (chain_id : ℕ) (genesis_hash : Bytes) (epoch_length : ℕ) where
    unfoldable pub verify_finality_in_epoch :
        VerifiedRoster → Bytes → Bytes → Result EpochError FinalizedHeader
    unfolding epoch_of header_height
    verify_finality_in_epoch roster header_bytes certificate_bytes = do
      height ← header_height header_bytes
      epoch ← epoch_of height epoch_length
      refuse (not (epoch == roster.epoch)) (EpochError.other_epoch epoch roster.epoch)
      map_err EpochError.finality
          (verify_finality c chain_id genesis_hash header_bytes certificate_bytes roster.members)

    unfoldable pub verify_next_roster :
        VerifiedRoster
        → Bytes
        → Bytes
        → List RosterMember
        → Bytes
        → Result EpochError VerifiedRoster
    unfolding sealing_height verify_finality_in_epoch admit_next
    verify_next_roster current header_bytes certificate_bytes next_members proof_bytes = do
      refuse (length next_members == 0 || ltb max_roster (length next_members)) EpochError.next_size
      next ← ok_or (checked_add u64_max current.epoch 1) EpochError.at_limit
      sealing ← sealing_height current.epoch epoch_length
      height ← header_height header_bytes
      refuse (not (height == sealing)) (EpochError.not_sealing next sealing height)
      header ← verify_finality_in_epoch current header_bytes certificate_bytes
      admit_next next next_members proof_bytes header.q_root

    unfoldable pub verify_account :
        (Text → Option Bytes)
        → VerifiedRoster
        → Text
        → Bytes
        → Bytes
        → Bytes
        → Result EpochError VerifiedAccount
    unfolding verify_finality_in_epoch state_proof valid_address
    verify_account parse_address roster address header_bytes certificate_bytes proof_bytes = do
      refuse (not (valid_address parse_address address)) EpochError.bad_address
      header ← verify_finality_in_epoch roster header_bytes certificate_bytes
      proof ← state_proof proof_bytes
      refuse (not (c.verify_state (c.account_state_key address) proof header.q_root))
          EpochError.account_not_proven
      account ← leaf_of (c.proof_value proof)
      ok (record { address = address; header = header; account = account })
