-- ===== src/Finality/Quorum/Attested.antt =====
-- The loop over the attestations: it counts the stake of validators that differ from one another and
-- whose signatures it has checked.
use qcore_rs.Prelude.{
  ℕ, ◌≤◌, ◌≡◌, refl, sym, ap, ◌∙◌, true, false, some, List, [], ◌∷◌, ok, is_same, beq_list_iff,
  list_eq, nat_eq, Option-cases, result-cases, ◌==◌, arith, inl, inr, Bool-cases, find, u128_max,
  Bytes, saturating_add,
}
use qcore_rs.Finality.Crates.{Crates, Block, Parent, Envelope, Attestation, same_block, same_parent}
use qcore_rs.Finality.Quorum.{
  RosterMember, has_id, matches_envelope, message_of, attest_one, attest_all,
}
use qcore_rs.Finality.Quorum.Weight.{
  weight, total, counted, Has, DistinctIds, weight-le, weight_add, find-Has, find-of_Has,
}

same_parent-eq : (p q : Parent) → same_parent p q ≡ true → p ≡ q
same_parent-eq Parent.genesis Parent.genesis h = refl
same_parent-eq Parent.genesis (Parent.value b) h = absurd (ground arith)
same_parent-eq (Parent.value a) Parent.genesis h = absurd (ground arith)
same_parent-eq (Parent.value a) (Parent.value b) h = ap Parent.value ((beq_list_iff a b).0 h)

same_block_parts :
    (a b : Block)
    → same_block a b ≡ true
    → (a.height ≡ b.height) × (a.val ≡ b.val) × (a.parent ≡ b.parent) × (a.cost ≡ b.cost)
same_block_parts a b h =
    let v : is_same a.val b.val ≡ true = ground arith in
    let p : same_parent a.parent b.parent ≡ true = ground arith in
    (ground arith, (beq_list_iff a.val b.val).0 v, same_parent-eq a.parent b.parent p, ground arith)

pub same_block-eq : (a b : Block) → same_block a b ≡ true → a ≡ b
same_block-eq a b h = let (x, y, z, w) = same_block_parts a b h in cc

module _ (c : Crates) (chain_id : ℕ) (genesis_hash : Bytes) where
  -- The validator signed for the block of the envelope at the view, and is of its committee.
  pub record Signed (e : Envelope) (view : ℕ) (m : RosterMember) : Type 0 where
    pub attestation : Attestation
    pub from : attestation.from ≡ m.id
    pub verifies :
        c.verify_attestation m.attest_pk
          (c.attestation_message chain_id genesis_hash e.height e.slot view e.committee e.block)
          attestation.sig
        ≡ true
    pub is_member : c.verify_membership m.root m.id e.slot attestation.membership ≡ true

  message_of_matching :
      (e : Envelope) (view : ℕ) (a : Attestation)
      → matches_envelope c e view a ≡ true
      → message_of c chain_id genesis_hash a
        ≡ c.attestation_message chain_id genesis_hash e.height e.slot view e.committee e.block
  message_of_matching e view a h =
      let block : same_block a.block e.block ≡ true = ground arith in
      let committee : is_same a.committee e.committee ≡ true = ground arith in
      let b = same_block-eq a.block e.block block in
      let k = (beq_list_iff a.committee e.committee).0 committee in
      let x : a.height ≡ e.height = ground arith in
      let y : a.slot ≡ e.slot = ground arith in let z : a.view ≡ view = ground arith in cc

  found_part :
      (roster : List RosterMember) (e : Envelope) (view : ℕ) (a : Attestation) (signed : ℕ)
      (seen : List ℕ) (n : ℕ)
      → attest_one c chain_id genesis_hash roster e view a signed seen ≡ ok n
      → (m : RosterMember) × (find (has_id a.from) roster ≡ some m)
  unfolding attest_one
  found_part roster e view a signed seen n h = elim (Option-cases (find (has_id a.from) roster)) [
    | inl missing ↦ absurd (ground arith)
    | inr found ↦ found
  ]

  pub attest_one_ok :
      (roster : List RosterMember) (e : Envelope) (view : ℕ) (a : Attestation) (signed : ℕ)
      (seen : List ℕ) (n : ℕ)
      → attest_one c chain_id genesis_hash roster e view a signed seen ≡ ok n
      → (m : RosterMember) × (find (has_id a.from) roster ≡ some m)
        × (counted seen a.from ≡ false)
        × (n ≡ saturating_add u128_max signed m.stake)
        × Signed e view m
  unfolding attest_one
  attest_one_ok roster e view a signed seen n h =
      let (m, found) = found_part roster e view a signed seen n h in
      let id = (find-Has a.from roster m found).1 in
      let matching : matches_envelope c e view a ≡ true = ground arith in
      let same = message_of_matching e view a matching in
      let checked : c.verify_attestation m.attest_pk (message_of c chain_id genesis_hash a) a.sig
          ≡ true =
        ground arith in
      let slot : a.slot ≡ e.slot = ground arith in
      let sampled : c.verify_membership m.root a.from a.slot a.membership ≡ true = ground arith in
      (
        m,
        found,
        ground arith,
        ground arith,
        record { attestation = a; from = sym id; verifies = rw same at checked; is_member = cc },
      )

  module _ (roster : List RosterMember) (d : DistinctIds roster) (e : Envelope) (view : ℕ) where
    abbrev AllSigned : List ℕ → Type 0
    AllSigned ids = (m : RosterMember) → Has m roster → counted ids m.id ≡ true → Signed e view m

    AllSigned-add :
        (f : ℕ) (m : RosterMember) (ids : List ℕ)
        → find (has_id f) roster ≡ some m
        → Signed e view m
        → AllSigned ids
        → AllSigned (f ∷ ids)
    AllSigned-add f m ids found s all x at h = elim (Bool-cases (f == x.id)) [
      | inl this ↦
          let id : f ≡ x.id = ground arith in
          let found' : some x ≡ some m = sym (find-of_Has x roster d at) ∙ rw id at found in
          let first : m ≡ x = ground arith in rw first at s
      | inr other ↦ all x at (ground arith)
    ]

    -- What the loop counts is the stake of the validators seen, and each of them signed.
    pub attest_all_ok :
        (left : List Attestation) (signed : ℕ) (seen : List ℕ) (n : ℕ)
        → total roster ≤ u128_max
        → signed ≡ weight (counted seen) roster
        → AllSigned seen
        → attest_all c chain_id genesis_hash roster e view left signed seen ≡ ok n
        → (ids : List ℕ) × (n ≡ weight (counted ids) roster) × AllSigned ids
    unfolding attest_all
    attest_all_ok [] signed seen n small s all h = (seen, ground arith, all)
    attest_all_ok (a ∷ rest) signed seen n small s all h =
        elim (result-cases (attest_one c chain_id genesis_hash roster e view a signed seen)) [
          | inl failed ↦ absurd (ground (arith, failed.1))
          | inr (k, at) ↦
              let (m, found, fresh, sum, proof) = attest_one_ok roster e view a signed seen k at in
              let more = weight_add (counted seen) a.from roster m d found fresh in
              let bound = weight-le (counted (a.from ∷ seen)) roster in
              attest_all_ok rest k (a.from ∷ seen) n small (ground arith)
                (AllSigned-add a.from m seen found proof all) (ground (arith, at))
        ]
