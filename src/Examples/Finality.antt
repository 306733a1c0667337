-- ===== src/Examples/Finality.antt =====
-- A roster of three validators, a header and a certificate that two of them signed, under a codec
-- that spends one list element on each number.
use qcore_rs.Prelude.{
  ℕ, ◌+◌, ◌*◌, ◌≤◌, ◌<◌, ◌≡◌, refl, Option, none, some, List, [], ◌∷◌, ◌++◌, ok, Bytes, All, arith,
  length, take, drop, is_same, list_eq, nat_eq, leb, ◌==◌, if◌then◌else◌,
}
use qcore_rs.Contract.Field.{zeroes}
use qcore_rs.Finality.Crates.{Crates, Header}
use qcore_rs.Finality.Quorum.{RosterMember, FinalizedHeader, active_set, verify_finality}
use qcore_rs.Finality.Quorum.Weight.{total, IsStaked}
use qcore_rs.Finality.Quorum.Shared.{IsShared, verify_finality-IsShared, verify_finality_stake}
use qcore_rs.Finality.Epochs.{VerifiedRoster, epoch_of, sealing_height, verify_next_roster}
use qcore_rs.Finality.Epochs.Succession.{
  Succeeds, sealing_height-epoch_of, verify_next_roster-Succeeds,
}

abbrev pub one : Bytes → Option (ℕ × Bytes)
one [] = none
one (x ∷ xs) = some (x, xs)

abbrev pub several : Bytes → Option (Bytes × Bytes)
several [] = none
several (n ∷ xs) = if leb n (length xs) then some (take n xs, drop n xs) else none

abbrev pub header_at : ℕ → Header
header_at height = record {
  height = height;
  hash = height ∷ zeroes 31;
  parent_hash = zeroes 32;
  q_root = 3 ∷ [];
  transaction_root = [];
  event_root = [];
  time = 5;
}

abbrev pub toy_header : Bytes → Option Header
toy_header [] = none
toy_header (height ∷ rest) = some (header_at height)

abbrev pub toy : Crates
toy = record {
  Decoder = Bytes;
  decoder = λ bytes. bytes;
  get_u8 = one;
  get_u64 = one;
  get_bytes = several;
  finish = λ d. length d == 0;
  header_from_bytes = toy_header;
  new_block = λ height val parent. record { height = height; val = val; parent = parent; cost = 0 };
  attestation_message =
      λ chain genesis height slot view committee block. chain ∷ height ∷ slot ∷ view ∷ block.val;
  public_key_is_degenerate = λ key. length key == 0;
  verify_attestation = λ key message signature. is_same signature key;
  verify_membership = λ root id slot credential. credential.position == slot;
  public_key_bytes = 1;
  signature_bytes = 1;
  preimage_bytes = 0;
  node_bytes = 0;
  min_self_stake = 10;
  max_active_validators = 100;
  roster_commitment = λ epoch entries. epoch ∷ length entries ∷ [];
  roster_commitment_key = λ epoch. epoch ∷ [];
  account_state_key = λ address. address;
  Proof = Bytes;
  proof_from_bytes = λ bytes. some bytes;
  proof_value = λ proof. some proof;
  verify_state = λ key proof root. is_same root (3 ∷ []);
  AccountLeaf = Bytes;
  decode_account_leaf = λ bytes. some bytes;
}

abbrev pub member : ℕ → ℕ → RosterMember
member id stake = record {
  id = id;
  stake = stake;
  attest_pk = (id + 50) ∷ [];
  root = record { digest = []; slots = 1 };
}

abbrev pub roster : List RosterMember
roster = member 1 40 ∷ member 2 5 ∷ member 3 50 ∷ member 4 20 ∷ []

roster-IsStaked : All IsStaked roster
roster-IsStaked = (omega arith, (omega arith, (omega arith, (omega arith, tt))))

abbrev pub block_bytes : Bytes
block_bytes = 7 ∷ 7 ∷ zeroes 31 ++ 1 ∷ zeroes 32 ++ 0 ∷ []

abbrev pub committee_bytes : Bytes
committee_bytes = 32 ∷ zeroes 32

-- height, slot, view, and a credential whose position is the slot
abbrev pub attestation_bytes : ℕ → Bytes
attestation_bytes id =
    id ∷ 7 ∷ 9 ∷ 0 ∷ committee_bytes ++ block_bytes ++ 9 ∷ 0 ∷ 0 ∷ 1 ∷ (id + 50) ∷ []

abbrev pub certificate_bytes : Bytes
certificate_bytes =
    7 ∷ 9 ∷ block_bytes
    ++ committee_bytes
    ++ 1 ∷ 2 ∷ attestation_bytes 1
    ++ attestation_bytes 3
    ++ 0 ∷ []

abbrev pub final_header : FinalizedHeader
final_header = record {
  height = 7;
  hash = 7 ∷ zeroes 31;
  parent_hash = zeroes 32;
  q_root = 3 ∷ [];
  transaction_root = [];
  event_root = [];
  time = 5;
  signed_stake = 90;
  total_stake = 110;
}

passes : verify_finality toy 1 [] (7 ∷ []) certificate_bytes roster ≡ ok final_header
unfolding verify_finality
passes = refl

verify_finality-IsShared_example :
    IsShared toy 1 [] (active_set toy roster) final_header final_header
verify_finality-IsShared_example =
    verify_finality-IsShared toy 1 [] roster (7 ∷ []) certificate_bytes (7 ∷ []) certificate_bytes
      final_header final_header roster-IsStaked passes passes

verify_finality_stake_example :
    (final_header.total_stake ≡ total (active_set toy roster))
    × (final_header.signed_stake ≤ final_header.total_stake)
    × (2 * final_header.total_stake < 3 * final_header.signed_stake)
verify_finality_stake_example =
    verify_finality_stake toy 1 [] roster (7 ∷ []) certificate_bytes final_header roster-IsStaked
      passes

seals_first : sealing_height 1 4 ≡ ok 7
unfolding sealing_height
seals_first = refl

sealing_height-epoch_of_example : (epoch_of 7 4 ≡ ok 1) × (epoch_of (7 + 1) 4 ≡ ok (1 + 1))
sealing_height-epoch_of_example = sealing_height-epoch_of 1 4 7 seals_first

abbrev pub current_roster : VerifiedRoster
current_roster = record { epoch = 1; members = roster }

abbrev next_members : List RosterMember
next_members = member 8 60 ∷ []

abbrev next_roster : VerifiedRoster
next_roster = record { epoch = 2; members = next_members }

succeeds :
    verify_next_roster toy 1 [] 4 current_roster
      (7 ∷ [])
      certificate_bytes
      next_members
      (2 ∷ 1 ∷ [])
    ≡ ok next_roster
unfolding verify_next_roster verify_finality
succeeds = refl

verify_next_roster-Succeeds_example :
    Succeeds toy 1 [] 4 current_roster
      (7 ∷ [])
      certificate_bytes
      next_members
      (2 ∷ 1 ∷ [])
      next_roster
verify_next_roster-Succeeds_example =
    verify_next_roster-Succeeds toy 1 [] 4 current_roster (7 ∷ []) certificate_bytes next_members
      (2 ∷ 1 ∷ []) next_roster succeeds
