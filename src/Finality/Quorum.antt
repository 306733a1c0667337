-- ===== src/Finality/Quorum.antt =====
-- `active_set` and `verify_finality` of src/finality.rs.
pub mod Weight
pub mod Active
pub mod Attested
pub mod Certified
pub mod Shared
use qcore_rs.Prelude.{
  ℕ, zero, suc, ◌*◌, Bool, true, false, ◌&&◌, ◌||◌, Option, none, some, List, [], ◌∷◌, Result, ok,
  err, ◌>>=◌, ◌>>◌, refuse, ok_or, map_err, ltb, leb, ◌==◌, not, if◌then◌else◌, length, take, any,
  find, is_same, list_eq, nat_eq, Bytes, saturating_add, saturating_mul, u128_max,
}
use qcore_rs.Finality.Crates.{
  Crates, Root, Credential, Parent, Block, Envelope, Attestation, Header, same_block,
}
use qcore_rs.Finality.Certificate.{CertificateError, decode_certificate}

pub record RosterMember : Type 0 where
  pub id : ℕ
  pub stake : ℕ
  pub attest_pk : Bytes
  pub root : Root

pub record FinalizedHeader : Type 0 where
  pub height : ℕ
  pub hash : Bytes
  pub parent_hash : Bytes
  pub q_root : Bytes
  pub transaction_root : Bytes
  pub event_root : Bytes
  pub time : ℕ
  pub signed_stake : ℕ
  pub total_stake : ℕ

pub data FinalityError : Type 0 where
  roster_size named_twice key_length same_key no_stake malformed_header other_header no_attestations
        mismatch attests_twice outside_roster degenerate_key bad_signature no_membership
        reveal_outside_roster reveal_no_membership too_little_stake :
      FinalityError
  certificate : CertificateError → FinalityError

abbrev pub max_roster : ℕ
max_roster = 4096

-- `a.stake > b.stake`, and the lower id first among equals
abbrev pub before : RosterMember → RosterMember → Bool
before a b = ltb b.stake a.stake || (a.stake == b.stake && leb a.id b.id)

unfoldable pub insert_member : RosterMember → List RosterMember → List RosterMember
insert_member a [] = a ∷ []
insert_member a (b ∷ rest) = if before a b then a ∷ b ∷ rest else b ∷ insert_member a rest

unfoldable pub sort_members : List RosterMember → List RosterMember
unfolding insert_member
sort_members [] = []
sort_members (a ∷ rest) = insert_member a (sort_members rest)

abbrev pub total_stake_of : ℕ → List RosterMember → ℕ
total_stake_of acc [] = acc
total_stake_of acc (m ∷ rest) = total_stake_of (saturating_add u128_max acc m.stake) rest

abbrev pub has_id : ℕ → RosterMember → Bool
has_id id m = m.id == id

abbrev pub parent_named : ℕ → Bytes → Parent
parent_named height parent_hash = if height == 1 then Parent.genesis else Parent.value parent_hash

abbrev pub first_view : List Attestation → Option ℕ
first_view [] = none
first_view (a ∷ rest) = some a.view

-- two thirds of the stake or less
unfoldable pub too_little : ℕ → ℕ → Bool
too_little signed total = leb (saturating_mul u128_max signed 3) (saturating_mul u128_max total 2)

abbrev pub finalized : Header → ℕ → ℕ → FinalizedHeader
finalized header signed total = record {
  height = header.height;
  hash = header.hash;
  parent_hash = header.parent_hash;
  q_root = header.q_root;
  transaction_root = header.transaction_root;
  event_root = header.event_root;
  time = header.time;
  signed_stake = signed;
  total_stake = total;
}

module _ (c : Crates) where
  abbrev pub has_stake : RosterMember → Bool
  has_stake m = leb c.min_self_stake m.stake

  unfoldable pub staked : List RosterMember → List RosterMember
  staked [] = []
  staked (m ∷ rest) = let others = staked rest in if has_stake m then m ∷ others else others

  unfoldable pub active_set : List RosterMember → List RosterMember
  unfolding staked sort_members
  active_set roster =
      let active = staked roster in
      if ltb c.max_active_validators (length active)
      then take c.max_active_validators (sort_members active)
      else active

  -- the loop over the roster, with the ids and keys seen so far
  unfoldable pub check_members :
      List ℕ → List Bytes → List RosterMember → Result FinalityError (Unit {0})
  check_members ids keys [] = ok tt
  check_members ids keys (m ∷ rest) = do
    refuse (any (λ i. i == m.id) ids) FinalityError.named_twice
    refuse (not (length m.attest_pk == c.public_key_bytes)) FinalityError.key_length
    refuse (any (λ k. is_same k m.attest_pk) keys) FinalityError.same_key
    check_members (m.id ∷ ids) (m.attest_pk ∷ keys) rest

  unfoldable pub admit_roster : List RosterMember → Result FinalityError (Unit {0})
  unfolding check_members
  admit_roster roster = do
    refuse (length roster == 0 || ltb max_roster (length roster)) FinalityError.roster_size
    check_members [] [] roster

  abbrev pub matches_envelope : Envelope → ℕ → Attestation → Bool
  matches_envelope e view a =
      a.height == e.height
      && a.slot == e.slot
      && is_same a.committee e.committee
      && same_block a.block e.block
      && a.view == view

  unfoldable pub names_header : Header → Envelope → Bool
  names_header h e =
      same_block e.block (c.new_block h.height h.hash (parent_named h.height h.parent_hash))
      && e.height == h.height

  module _ (chain_id : ℕ) (genesis_hash : Bytes) where
    abbrev pub message_of : Attestation → Bytes
    message_of a =
        c.attestation_message chain_id genesis_hash a.height a.slot a.view a.committee a.block

    -- the body of the loop over the attestations, with the stake signed and the validators seen
    unfoldable pub attest_one :
        List RosterMember → Envelope → ℕ → Attestation → ℕ → List ℕ → Result FinalityError ℕ
    attest_one roster e view a signed seen = do
      refuse (not (matches_envelope e view a)) FinalityError.mismatch
      refuse (any (λ i. i == a.from) seen) FinalityError.attests_twice
      m ← ok_or (find (has_id a.from) roster) FinalityError.outside_roster
      refuse (not (length m.attest_pk == c.public_key_bytes)) FinalityError.key_length
      refuse (c.public_key_is_degenerate m.attest_pk) FinalityError.degenerate_key
      refuse (not (c.verify_attestation m.attest_pk (message_of a) a.sig))
          FinalityError.bad_signature
      refuse (m.stake == 0 || not (c.verify_membership m.root a.from a.slot a.membership))
          FinalityError.no_membership
      ok (saturating_add u128_max signed m.stake)

    unfoldable pub attest_all :
        List RosterMember → Envelope → ℕ → List Attestation → ℕ → List ℕ → Result FinalityError ℕ
    unfolding attest_one
    attest_all roster e view [] signed seen = ok signed
    attest_all roster e view (a ∷ rest) signed seen = do
      signed ← attest_one roster e view a signed seen
      attest_all roster e view rest signed (a.from ∷ seen)

    -- the loop over the reveals
    unfoldable pub check_reveals :
        List RosterMember → ℕ → List (ℕ × Credential) → Result FinalityError (Unit {0})
    check_reveals roster slot [] = ok tt
    check_reveals roster slot ((id, credential) ∷ rest) = do
      m ← ok_or (find (has_id id) roster) FinalityError.reveal_outside_roster
      refuse (not (c.verify_membership m.root id slot credential))
          FinalityError.reveal_no_membership
      check_reveals roster slot rest

    -- the loops over the parts of a certificate, and the comparison of the stakes
    unfoldable pub certify :
        List RosterMember
        → ℕ
        → Header
        → Envelope
        → List Attestation
        → List (ℕ × Credential)
        → Result FinalityError FinalizedHeader
    unfolding attest_all check_reveals names_header too_little
    certify roster total header e attestations reveals = do
      refuse (not (names_header header e)) FinalityError.other_header
      view ← ok_or (first_view attestations) FinalityError.no_attestations
      signed ← attest_all roster e view attestations 0 []
      check_reveals roster e.slot reveals
      refuse (too_little signed total) FinalityError.too_little_stake
      ok (finalized header signed total)

    -- from the active validators on
    unfoldable pub verify_active :
        List RosterMember → ℕ → Bytes → Bytes → Result FinalityError FinalizedHeader
    unfolding certify decode_certificate
    verify_active active total header_bytes certificate_bytes = do
      refuse (total == 0) FinalityError.no_stake
      header ← ok_or (c.header_from_bytes header_bytes) FinalityError.malformed_header
      (e, attestations, reveals) ←
          map_err FinalityError.certificate (decode_certificate c certificate_bytes)
      certify active total header e attestations reveals

    unfoldable pub verify_finality :
        Bytes → Bytes → List RosterMember → Result FinalityError FinalizedHeader
    unfolding admit_roster active_set verify_active
    verify_finality header_bytes certificate_bytes roster = do
      admit_roster roster
      let active = active_set roster
      verify_active active (total_stake_of 0 active) header_bytes certificate_bytes
