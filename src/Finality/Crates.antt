-- ===== src/Finality/Crates.antt =====
-- What src/finality.rs takes from the other Q crates: the structs whose fields it reads, with their
-- fields, and the operations of the codec, the signatures, the sampler and the state tree, as the
-- fields of a record that the definitions take.
use qcore_rs.Prelude.{
  ℕ, Bool, true, false, ◌&&◌, Option, List, ◌==◌, is_same, list_eq, nat_eq, Bytes, Text,
}

-- `qtv_sampler::onetime::Root`
pub record Root : Type 0 where
  pub digest : Bytes
  pub slots : ℕ

-- `qtv_sampler::sortition::Credential`, with the siblings of its path
pub record Credential : Type 0 where
  pub position : ℕ
  pub preimage : Bytes
  pub siblings : List Bytes

-- `qtv_attest::Parent`
pub data Parent : Type 0 where
  genesis : Parent
  value : Bytes → Parent

-- `qtv_attest::Block`
pub record Block : Type 0 where
  pub height : ℕ
  pub val : Bytes
  pub parent : Parent
  pub cost : ℕ

-- `qtv_attest::Envelope`
pub record Envelope : Type 0 where
  pub height : ℕ
  pub slot : ℕ
  pub block : Block
  pub committee : Bytes

-- `qtv_attest::Attestation`
pub record Attestation : Type 0 where
  pub from : ℕ
  pub height : ℕ
  pub slot : ℕ
  pub view : ℕ
  pub committee : Bytes
  pub block : Block
  pub membership : Credential
  pub sig : Bytes

-- `qtv_block::Header`, by what its methods return
pub record Header : Type 0 where
  pub height : ℕ
  pub hash : Bytes
  pub parent_hash : Bytes
  pub q_root : Bytes
  pub transaction_root : Bytes
  pub event_root : Bytes
  pub time : ℕ

-- `qtv_block::light::RosterEntry`
pub record RosterEntry : Type 0 where
  pub id : ℕ
  pub stake : ℕ
  pub attest_pk : Bytes
  pub root_digest : Bytes
  pub root_slots : ℕ

-- `==` on parents and on blocks
abbrev pub same_parent : Parent → Parent → Bool
same_parent Parent.genesis Parent.genesis = true
same_parent (Parent.value a) (Parent.value b) = is_same a b
same_parent _ _ = false

abbrev pub same_block : Block → Block → Bool
same_block a b =
    a.height == b.height && is_same a.val b.val && same_parent a.parent b.parent && a.cost == b.cost

pub record Crates : Type 1 where
  pub Decoder : Type 0
  pub decoder : Bytes → Decoder
  pub get_u8 : Decoder → Option (ℕ × Decoder)
  pub get_u64 : Decoder → Option (ℕ × Decoder)
  pub get_bytes : Decoder → Option (Bytes × Decoder)
  pub finish : Decoder → Bool
  pub header_from_bytes : Bytes → Option Header
  -- `Block::new`
  pub new_block : ℕ → Bytes → Parent → Block
  pub attestation_message : ℕ → Bytes → ℕ → ℕ → ℕ → Bytes → Block → Bytes
  pub public_key_is_degenerate : Bytes → Bool
  -- `ml_dsa::verify` in the attestation context
  pub verify_attestation : Bytes → Bytes → Bytes → Bool
  pub verify_membership : Root → ℕ → ℕ → Credential → Bool
  pub public_key_bytes : ℕ
  pub signature_bytes : ℕ
  pub preimage_bytes : ℕ
  pub node_bytes : ℕ
  pub min_self_stake : ℕ
  pub max_active_validators : ℕ
  pub roster_commitment : ℕ → List RosterEntry → Bytes
  pub roster_commitment_key : ℕ → Bytes
  pub account_state_key : Text → Bytes
  pub Proof : Type 0
  pub proof_from_bytes : Bytes → Option Proof
  pub proof_value : Proof → Option Bytes
  -- `qtv_state::verify`
  pub verify_state : Bytes → Proof → Bytes → Bool
  pub AccountLeaf : Type 0
  pub decode_account_leaf : Bytes → Option AccountLeaf
