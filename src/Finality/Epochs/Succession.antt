-- ===== src/Finality/Epochs/Succession.antt =====
-- Which block seals an epoch, and what the roster of the next epoch rests on.
use native.Mathlib.Nat.{mul-add-div_right, div-eq_of_lt}
use qcore_rs.Prelude.{
  ℕ, ◌+◌, ◌-◌, ◌*◌, ◌/◌, ◌<◌, ◌≡◌, refl, ap, ◌∙◌, true, some, List, ok, is_same, list_eq, nat_eq,
  Bytes, arith, inl, inr, Option-cases, result-cases, beq_list_iff,
}
use qcore_rs.Finality.Crates.{Crates}
use qcore_rs.Finality.Quorum.{RosterMember, FinalizedHeader, verify_finality}
use qcore_rs.Finality.Epochs.{
  VerifiedRoster, epoch_of, sealing_height, header_height, roster_commitment_of, state_proof,
  verify_finality_in_epoch, admit_next, verify_next_roster, proves_value,
}

last_of_epoch : (e n : ℕ) → 0 < n → (e * n + (n - 1)) / n ≡ e
last_of_epoch e n p =
    mul-add-div_right p e (n - 1) ∙ omega (arith, div-eq_of_lt {n = n - 1} {m = n} (omega arith))

first_of_next : (e n : ℕ) → 0 < n → (e * n + (n - 1) + 1) / n ≡ e + 1
first_of_next e n p =
    let same : e * n + (n - 1) + 1 ≡ (e + 1) * n + 0 = omega arith in
    ap (λ (x : ℕ). x / n) same
    ∙ mul-add-div_right p (e + 1) 0
    ∙ omega (arith, div-eq_of_lt {n = 0} {m = n} p)

sealing_height_ok : (e n s : ℕ) → sealing_height e n ≡ ok s → (0 < n) × (s ≡ e * n + (n - 1))
unfolding sealing_height
sealing_height_ok e n s h =
    let p : 0 < n = ground arith in
    let at : s ≡ (e + 1) * n - 1 = ground arith in (p, omega (arith, at))

-- The block that seals an epoch is the last of it: its height lies in that epoch and the next height
-- in the next.
pub sealing_height-epoch_of :
    (epoch epoch_length height : ℕ)
    → sealing_height epoch epoch_length ≡ ok height
    → (epoch_of height epoch_length ≡ ok epoch)
      × (epoch_of (height + 1) epoch_length ≡ ok (epoch + 1))
unfolding epoch_of
sealing_height-epoch_of epoch epoch_length height h =
    let (p, at) = sealing_height_ok epoch epoch_length height h in
    let here = last_of_epoch epoch epoch_length p in
    let next = first_of_next epoch epoch_length p in
    rw at (ground (arith, here), ground (arith, next))

module _ (c : Crates) (chain_id : ℕ) (genesis_hash : Bytes) (epoch_length : ℕ) where
  pub in_epoch_ok :
      (roster : VerifiedRoster) (header_bytes certificate_bytes : Bytes) (h : FinalizedHeader)
      → verify_finality_in_epoch c chain_id genesis_hash epoch_length roster header_bytes
          certificate_bytes
        ≡ ok h
      → verify_finality c chain_id genesis_hash header_bytes certificate_bytes roster.members ≡ ok h
  unfolding verify_finality_in_epoch
  in_epoch_ok roster header_bytes certificate_bytes h ran =
      elim (result-cases (header_height c header_bytes)) [
        | inl failed ↦ absurd (ground (arith, failed.1))
        | inr (height, read) ↦ elim (result-cases (epoch_of height epoch_length)) [
          | inl failed ↦ absurd (ground (arith, read, failed.1))
          | inr (epoch, lies) ↦
              elim (result-cases (
                verify_finality c chain_id genesis_hash header_bytes certificate_bytes
                  roster.members)) [
                    | inl failed ↦ absurd (ground (arith, read, lies, failed.1))
                    | inr (out, final) ↦ ground (arith, read, lies, final)
                  ]
        ]
      ]

  -- What the roster of the next epoch rests on: the header that seals the current epoch, final under
  -- the current roster, and a proof of the commitment to the new members against its state root.
  pub record Succeeds (current : VerifiedRoster) (header_bytes certificate_bytes : Bytes)
      (members : List RosterMember) (proof_bytes : Bytes) (next : VerifiedRoster) : Type 0 where
    pub height : ℕ
    pub header : FinalizedHeader
    pub proof : c.Proof
    pub follows : next.epoch ≡ current.epoch + 1
    pub keeps : next.members ≡ members
    pub read : header_height c header_bytes ≡ ok height
    pub seals : sealing_height current.epoch epoch_length ≡ ok height
    pub final :
        verify_finality c chain_id genesis_hash header_bytes certificate_bytes current.members
        ≡ ok header
    pub decoded : c.proof_from_bytes proof_bytes ≡ some proof
    pub committed : c.proof_value proof ≡ some (roster_commitment_of c next.epoch members)
    pub proven : c.verify_state (c.roster_commitment_key next.epoch) proof header.q_root ≡ true

  proves_value_eq :
      (proof : c.Proof) (bytes : Bytes)
      → proves_value c proof bytes ≡ true
      → c.proof_value proof ≡ some bytes
  proves_value_eq proof bytes h = elim (Option-cases (c.proof_value proof)) [
    | inl missing ↦ absurd (ground (arith, missing))
    | inr (value, at) ↦
        let same : is_same value bytes ≡ true = ground (arith, at) in
        at ∙ ap some ((beq_list_iff value bytes).0 same)
  ]

  admit_next_ok :
      (n : ℕ) (members : List RosterMember) (proof_bytes q_root : Bytes) (next : VerifiedRoster)
      → admit_next c n members proof_bytes q_root ≡ ok next
      → (proof : c.Proof) × (c.proof_from_bytes proof_bytes ≡ some proof)
        × (proves_value c proof (roster_commitment_of c n members) ≡ true)
        × (c.verify_state (c.roster_commitment_key n) proof q_root ≡ true)
        × (next ≡ record { epoch = n; members = members })
  unfolding admit_next state_proof
  admit_next_ok n members proof_bytes q_root next ran =
      elim (Option-cases (c.proof_from_bytes proof_bytes)) [
        | inl missing ↦ absurd (ground (arith, missing))
        | inr (proof, at) ↦
            let committed : proves_value c proof (roster_commitment_of c n members) ≡ true =
              ground (arith, at) in
            let proven : c.verify_state (c.roster_commitment_key n) proof q_root ≡ true =
              ground (arith, at, committed) in
            (proof, at, committed, proven, ground (arith, at, committed, proven))
      ]

  steps_ok :
      (current : VerifiedRoster) (header_bytes certificate_bytes : Bytes)
      (members : List RosterMember) (proof_bytes : Bytes) (next : VerifiedRoster)
      → verify_next_roster c chain_id genesis_hash epoch_length current header_bytes
          certificate_bytes members proof_bytes
        ≡ ok next
      → (height : ℕ) × (header : FinalizedHeader) × (header_height c header_bytes ≡ ok height)
        × (sealing_height current.epoch epoch_length ≡ ok height)
        × (verify_finality_in_epoch c chain_id genesis_hash epoch_length current header_bytes
              certificate_bytes
            ≡ ok header)
        × (admit_next c (current.epoch + 1) members proof_bytes header.q_root ≡ ok next)
  unfolding verify_next_roster
  steps_ok current header_bytes certificate_bytes members proof_bytes next ran =
      elim (result-cases (sealing_height current.epoch epoch_length)) [
        | inl failed ↦ absurd (ground (arith, failed.1))
        | inr (sealing, s) ↦ elim (result-cases (header_height c header_bytes)) [
          | inl failed ↦ absurd (ground (arith, s, failed.1))
          | inr (height, r) ↦
              elim (result-cases (
                verify_finality_in_epoch c chain_id genesis_hash epoch_length current header_bytes
                  certificate_bytes)) [
                    | inl failed ↦ absurd (ground (arith, s, r, failed.1))
                    | inr (header, f) ↦
                        let same : height ≡ sealing = ground (arith, s, r) in
                        (height, header, r, rw same s, f, ground (arith, s, r, f, same))
                  ]
        ]
      ]

  -- A roster that is taken for the next epoch succeeds the current one: it is of that epoch, has the
  -- members offered, and is committed to in the state of the sealing block, which is final under the
  -- current roster.
  pub verify_next_roster-Succeeds :
      (current : VerifiedRoster) (header_bytes certificate_bytes : Bytes)
      (members : List RosterMember) (proof_bytes : Bytes) (next : VerifiedRoster)
      → verify_next_roster c chain_id genesis_hash epoch_length current header_bytes
          certificate_bytes members proof_bytes
        ≡ ok next
      → Succeeds current header_bytes certificate_bytes members proof_bytes next
  verify_next_roster-Succeeds current header_bytes certificate_bytes members proof_bytes next ran =
      let (height, header, read, seals, final, last) =
        steps_ok current header_bytes certificate_bytes members proof_bytes next ran in
      let (proof, at, committed, proven, out) =
        admit_next_ok (current.epoch + 1) members proof_bytes header.q_root next last in
      rw out record {
        height = height;
        header = header;
        proof = proof;
        follows = refl;
        keeps = refl;
        read = read;
        seals = seals;
        final = in_epoch_ok current header_bytes certificate_bytes header final;
        decoded = at;
        committed =
            proves_value_eq proof (roster_commitment_of c (current.epoch + 1) members) committed;
        proven = proven;
      }
