-- ===== src/Finality/Quorum/Shared.antt =====
-- Two headers that are final under one roster.
use qcore_rs.Prelude.{
  ℕ, ◌*◌, ◌≤◌, ◌<◌, ◌≡◌, Bool, true, ◌&&◌, List, ok, All, arith, Bytes, and_left, and_right,
}
use qcore_rs.Finality.Crates.{Crates}
use qcore_rs.Finality.Quorum.{RosterMember, FinalizedHeader, active_set, verify_finality}
use qcore_rs.Finality.Quorum.Weight.{
  weight, weight-le, total, counted, Has, IsStaked, weight_overlap, weight_pos,
}
use qcore_rs.Finality.Quorum.Certified.{SignedFor, verify_finality-IsCertified}

-- A set of validators that hold more than a third of the stake and signed for both.
pub record IsShared (c : Crates) (chain_id : ℕ) (genesis_hash : Bytes) (active : List RosterMember)
    (h k : FinalizedHeader) : Type 0 where
  pub both : ℕ → Bool
  pub third : total active < 3 * weight both active
  pub signers :
      (m : RosterMember)
      → Has m active
      → both m.id ≡ true
      → SignedFor c chain_id genesis_hash h m × SignedFor c chain_id genesis_hash k m
  pub witness : (m : RosterMember) × Has m active × (both m.id ≡ true)

-- Two headers that both pass under one roster of u64 stakes, whatever their heights and
-- certificates: active validators with more than a third of the active stake, at least one among
-- them, signed for both.
pub verify_finality-IsShared :
    (c : Crates) (chain_id : ℕ) (genesis_hash : Bytes) (roster : List RosterMember)
    (header_h certificate_h header_k certificate_k : Bytes) (h k : FinalizedHeader)
    → All IsStaked roster
    → verify_finality c chain_id genesis_hash header_h certificate_h roster ≡ ok h
    → verify_finality c chain_id genesis_hash header_k certificate_k roster ≡ ok k
    → IsShared c chain_id genesis_hash (active_set c roster) h k
verify_finality-IsShared c chain_id genesis_hash roster header_h certificate_h header_k
      certificate_k h k t ran_h ran_k =
    let x =
      (verify_finality-IsCertified c chain_id genesis_hash roster t header_h certificate_h h
        ran_h).1 in
    let y =
      (verify_finality-IsCertified c chain_id genesis_hash roster t header_k certificate_k k
        ran_k).1 in
    let active = active_set c roster in
    let both : ℕ → Bool = λ i. counted x.ids i && counted y.ids i in
    let overlap = weight_overlap (counted x.ids) (counted y.ids) active in
    let third : total active < 3 * weight both active =
      omega (arith, overlap, x.counts, y.counts, x.totals, y.totals, x.exceeds, y.exceeds) in
    record {
      both = both;
      third = third;
      signers = λ m at f. (
        x.signers m at (and_left (counted x.ids m.id) (counted y.ids m.id) f),
        y.signers m at (and_right (counted x.ids m.id) (counted y.ids m.id) f),
      );
      witness = weight_pos both active (omega (arith, third));
    }

-- What passes: its signed stake, each active validator counted once, is at most the stake of the
-- active validators, and more than two thirds of it; and the stake of the active validators is what
-- the result reports.
pub verify_finality_stake :
    (c : Crates) (chain_id : ℕ) (genesis_hash : Bytes) (roster : List RosterMember)
    (header_bytes certificate_bytes : Bytes) (h : FinalizedHeader)
    → All IsStaked roster
    → verify_finality c chain_id genesis_hash header_bytes certificate_bytes roster ≡ ok h
    → (h.total_stake ≡ total (active_set c roster))
      × (h.signed_stake ≤ h.total_stake)
      × (2 * h.total_stake < 3 * h.signed_stake)
verify_finality_stake c chain_id genesis_hash roster header_bytes certificate_bytes h t ran =
    let x =
      (verify_finality-IsCertified c chain_id genesis_hash roster t header_bytes certificate_bytes h
        ran).1 in
    let bound = weight-le (counted x.ids) (active_set c roster) in
    (x.totals, omega (arith, bound, x.counts, x.totals), x.exceeds)
