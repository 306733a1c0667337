-- ===== src/Finality/Quorum/Certified.antt =====
-- What a final header has behind it, and what two final headers share.
use qcore_rs.Prelude.{
  ℕ, ◌*◌, ◌≤◌, ◌<◌, ◌≡◌, refl, sym, true, false, some, List, [], ok, Option-cases, result-cases,
  and_left, and_right, ◌==◌, arith, inl, inr, length, All, u128_max, Bytes,
}
use qcore_rs.Finality.Crates.{Crates, Envelope, Attestation, Header, same_block, Credential}
use qcore_rs.Finality.Certificate.{decode_certificate}
use qcore_rs.Finality.Quorum.{
  RosterMember, FinalizedHeader, parent_named, names_header, first_view, attest_all, check_members,
  active_set, certify, verify_finality, verify_active, admit_roster, too_little, finalized,
  total_stake_of, max_roster,
}
use qcore_rs.Finality.Quorum.Weight.{
  weight, weight-le, total, counted, Has, DistinctIds, IsStaked, weight_none, total_bound,
  total_stake_of-total,
}
use qcore_rs.Finality.Quorum.Active.{
  active_set-DistinctIds, total-active_set, check_members-DistinctIds,
}
use qcore_rs.Finality.Quorum.Attested.{Signed, same_block-eq, attest_all_ok}

module _ (c : Crates) (chain_id : ℕ) (genesis_hash : Bytes) where
  -- The validator signed for the header, in some slot and view.
  pub record SignedFor (h : FinalizedHeader) (m : RosterMember) : Type 0 where
    pub envelope : Envelope
    pub view : ℕ
    pub names_height : envelope.height ≡ h.height
    pub names_block :
        envelope.block ≡ c.new_block h.height h.hash (parent_named h.height h.parent_hash)
    pub signed : Signed c chain_id genesis_hash envelope view m

  -- Validators of the active set that signed for the header, counted once each, and their stake:
  -- more than two thirds of all of it.
  pub record IsCertified (active : List RosterMember) (h : FinalizedHeader) : Type 0 where
    pub ids : List ℕ
    pub counts : h.signed_stake ≡ weight (counted ids) active
    pub totals : h.total_stake ≡ total active
    pub exceeds : 2 * h.total_stake < 3 * h.signed_stake
    pub signers : (m : RosterMember) → Has m active → counted ids m.id ≡ true → SignedFor h m

  certify_ok :
      (active : List RosterMember) (n : ℕ) (header : Header) (e : Envelope)
      (left : List Attestation) (reveals : List (ℕ × Credential)) (h : FinalizedHeader)
      → certify c chain_id genesis_hash active n header e left reveals ≡ ok h
      → (view : ℕ) × (signed : ℕ) × (names_header c header e ≡ true)
        × (attest_all c chain_id genesis_hash active e view left 0 [] ≡ ok signed)
        × (too_little signed n ≡ false)
        × (h ≡ finalized header signed n)
  unfolding certify
  certify_ok active n header e left reveals h ran = elim (Option-cases (first_view left)) [
    | inl missing ↦ absurd (ground (arith, missing))
    | inr (view, first) ↦
        elim (result-cases (attest_all c chain_id genesis_hash active e view left 0 [])) [
          | inl failed ↦ absurd (ground (arith, first, failed.1))
          | inr (signed, attested) ↦ (
            view,
            signed,
            ground arith,
            attested,
            ground (arith, first, attested),
            ground (arith, first, attested),
          )
        ]
  ]

  too_little-exceeds :
      (signed all : ℕ)
      → 3 * signed ≤ u128_max
      → 3 * all ≤ u128_max
      → too_little signed all ≡ false
      → 2 * all < 3 * signed
  unfolding too_little
  too_little-exceeds signed all s a h = ground arith

  names_header-eq :
      (header : Header) (e : Envelope)
      → names_header c header e ≡ true
      → (e.height ≡ header.height)
        × (e.block
            ≡ c.new_block header.height header.hash (parent_named header.height header.parent_hash))
  unfolding names_header
  names_header-eq header e h =
      let block =
        c.new_block header.height header.hash (parent_named header.height header.parent_hash) in
      let same : same_block e.block block ≡ true =
        and_left (same_block e.block block) (e.height == header.height) h in
      let height : (e.height == header.height) ≡ true =
        and_right (same_block e.block block) (e.height == header.height) h in
      (ground arith, same_block-eq e.block block same)

  IsCertified-of_certify :
      (active : List RosterMember) (header : Header) (e : Envelope) (left : List Attestation)
      (reveals : List (ℕ × Credential)) (h : FinalizedHeader)
      → DistinctIds active
      → 3 * total active ≤ u128_max
      → certify c chain_id genesis_hash active (total active) header e left reveals ≡ ok h
      → IsCertified active h
  IsCertified-of_certify active header e left reveals h d small ran =
      let (view, signed, names, attested, enough, out) =
        certify_ok active (total active) header e left reveals h ran in
      let (height, block) = names_header-eq header e names in
      let start = sym (weight_none (counted []) active (λ i. refl)) in
      let (ids, counts, all) =
        attest_all_ok c chain_id genesis_hash active d e view left 0 [] signed (omega arith) start
          (λ m at f. absurd (ground arith)) attested in
      let bound = weight-le (counted ids) active in
      let exceeds = too_little-exceeds signed (total active) (omega arith) small enough in
      rw out record {
        ids = ids;
        counts = counts;
        totals = refl;
        exceeds = exceeds;
        signers = λ m at f. record {
          envelope = e;
          view = view;
          names_height = height;
          names_block = block;
          signed = all m at f;
        };
      }

  admit_roster_ok :
      (roster : List RosterMember)
      → admit_roster c roster ≡ ok tt
      → (length roster ≤ max_roster) × (check_members c [] [] roster ≡ ok tt)
  unfolding admit_roster
  admit_roster_ok roster h = (ground arith, ground arith)

  verify_active_ok :
      (active : List RosterMember) (n : ℕ) (header_bytes certificate_bytes : Bytes)
      (h : FinalizedHeader)
      → verify_active c chain_id genesis_hash active n header_bytes certificate_bytes ≡ ok h
      → (header : Header) × (e : Envelope) × (left : List Attestation) × (reveals : List
          (ℕ × Credential))
        × (c.header_from_bytes header_bytes ≡ some header)
        × (certify c chain_id genesis_hash active n header e left reveals ≡ ok h)
  unfolding verify_active
  verify_active_ok active n header_bytes certificate_bytes h ran =
      elim (Option-cases (c.header_from_bytes header_bytes)) [
        | inl missing ↦ absurd (ground (arith, missing))
        | inr (header, parsed) ↦ elim (result-cases (decode_certificate c certificate_bytes)) [
          | inl failed ↦ absurd (ground (arith, parsed, failed.1))
          | inr ((e, left, reveals), decoded) ↦
              (header, e, left, reveals, parsed, ground (arith, parsed, decoded))
        ]
      ]

  module _ (roster : List RosterMember) (t : All IsStaked roster) where
    -- What passes has the header that its bytes encode, and is certified by the active validators.
    pub verify_finality-IsCertified :
        (header_bytes certificate_bytes : Bytes) (h : FinalizedHeader)
        → verify_finality c chain_id genesis_hash header_bytes certificate_bytes roster ≡ ok h
        → DistinctIds (active_set c roster) × IsCertified (active_set c roster) h
    unfolding verify_finality
    verify_finality-IsCertified header_bytes certificate_bytes h ran =
        let active = active_set c roster in
        let admitted : admit_roster c roster ≡ ok tt = ground arith in
        let later : verify_active c chain_id genesis_hash active (total_stake_of 0 active)
              header_bytes certificate_bytes
            ≡ ok h =
          ground (arith, admitted) in
        let (size, checked) = admit_roster_ok roster admitted in
        let d =
          active_set-DistinctIds c roster (check_members-DistinctIds c [] [] roster checked).0 in
        let bound = total-active_set c roster in
        let small : 3 * total active ≤ u128_max =
          omega (arith, bound, total_bound roster t, size) in
        let sum : total_stake_of 0 active ≡ total active =
          omega (arith, total_stake_of-total 0 active (omega (arith, small))) in
        let (header, e, left, reveals, parsed, ran') =
          verify_active_ok active (total active) header_bytes certificate_bytes h
            (rw sum at later) in
        (d, IsCertified-of_certify active header e left reveals h d small ran')
