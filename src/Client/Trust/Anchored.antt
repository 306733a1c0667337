-- ===== src/Client/Trust/Anchored.antt =====
-- `trust_roster_at` and `anchor_pinned_roster` of src/lib.rs: the first roster that a client trusts.
use mathlib.Core.Path.{subst}
use qcore_rs.Prelude.{
  ℕ, ◌≡◌, refl, sym, ◌∙◌, Bool, Bool-cases, true, false, not, Option, none, some, List, Result, ok,
  err, ◌==◌, arith, Bytes, codes, refuse, length, is_same, list_eq, nat_eq, beq_list_iff, ◌⊎◌, inl,
  inr,
}
use qcore_rs.Contract.OrderCall.{OrderCrates}
use qcore_rs.Finality.Crates.{Crates}
use qcore_rs.Finality.Quorum.{RosterMember}
use qcore_rs.Finality.Epochs.{roster_commitment_of}
use qcore_rs.Client.{Setup, Client, ClientError, TrustedRoster, Act, after, give, pure, ◌>>◌}
use qcore_rs.Client.Trust.{
  ask, members_in, epoch_body, trust_roster_at, anchor_at, anchor_pinned_roster,
}
use qcore_rs.Client.Trust.Steps.{ask-Keeps, members_in-Keeps}
use qcore_rs.Client.Trust.Proven.{here, Trusts}

-- How the request for a first roster ends, with the pins of the setup: anchored, both are there and
-- the client trusts members with the pinned commitment; not anchored, one is missing and the client
-- is as it was; refused, both are there and the client still trusts no roster.
abbrev pub IsAnchored :
    {G : Type 0}
    → OrderCrates
    → Crates
    → Setup G
    → ℕ
    → ℕ
    → Client G
    → Result ClientError Bool × Client G
    → Type 0
IsAnchored c f setup chain_id span s (ok true, t) =
    (genesis : Bytes) × (commitment : Bytes) × (members : List RosterMember) × (setup.genesis_hash
      ≡ some genesis)
    × (setup.roster_commitment ≡ some commitment)
    × (roster_commitment_of f 0 members ≡ commitment)
    × Trusts c f setup chain_id genesis span (record { epoch = 0; members = members }) t
IsAnchored c f setup chain_id span s (ok false, t) =
    ((setup.genesis_hash ≡ none) ⊎ (setup.roster_commitment ≡ none)) × (t ≡ s)
IsAnchored c f setup chain_id span s (err e, t) =
    (genesis : Bytes) × (commitment : Bytes) × (setup.genesis_hash ≡ some genesis)
    × (setup.roster_commitment ≡ some commitment)
    × (t.trusted_roster ≡ none)

module _ {G : Type 0} (c : OrderCrates) (f : Crates) (setup : Setup G) (chain_id span : ℕ)
    (s : Client G) where
  abbrev roster_view : Client G → Option TrustedRoster
  roster_view t = t.trusted_roster

  abbrev EndsWell : Result ClientError Bool × Client G → Type 0
  EndsWell = IsAnchored c f setup chain_id span s

  module _ (genesis commitment : Bytes) (pinned : setup.genesis_hash ≡ some genesis)
      (committed : setup.roster_commitment ≡ some commitment) where
    EndsWell-then :
        {A : Type 0} (done : Result ClientError A × Client G) (rest : A → Act G Bool)
        → done.1.trusted_roster ≡ none
        → ((a : A) (t : Client G) → t.trusted_roster ≡ none → EndsWell (rest a t))
        → EndsWell (after done rest)
    EndsWell-then (err e, t) rest h later = (genesis, commitment, pinned, committed, h)
    EndsWell-then (ok a, t) rest h later = later a t h

    -- The members are those that the pin commits to, and are trusted.
    EndsWell-trusted :
        (members : List RosterMember) (t : Client G)
        → roster_commitment_of f 0 members ≡ commitment
        → t.trusted_roster ≡ none
        → EndsWell ((trust_roster_at c f setup genesis 0 members >> pure true) t)
    unfolding trust_roster_at
    EndsWell-trusted members t same h =
        let empty = length members == 0 in
        elim (Bool-cases empty) [
          | inl e ↦ rw e (genesis, commitment, pinned, committed, h)
          | inr e ↦ rw e (
            genesis,
            commitment,
            members,
            pinned,
            committed,
            same,
            (refl, (refl, refl), (tt, tt), (here refl, tt), omega arith),
          )
        ]

    EndsWell-committed :
        (members : List RosterMember) (t : Client G)
        → t.trusted_roster ≡ none
        → EndsWell (
            after
              (give
                (refuse
                  (not (is_same (roster_commitment_of f 0 members) commitment))
                  ClientError.other_pinned_roster)
                t)
              (λ _. trust_roster_at c f setup genesis 0 members >> pure true))
    EndsWell-committed members t h =
        let own = roster_commitment_of f 0 members in
        elim (Bool-cases (is_same own commitment)) [
          | inl e ↦
              let same : own ≡ commitment = (beq_list_iff own commitment).0 e in
              rw e (EndsWell-trusted members t same h)
          | inr e ↦ rw e (genesis, commitment, pinned, committed, h)
        ]

    EndsWell-pinned :
        s.trusted_roster ≡ none
        → EndsWell (anchor_at c f setup none (some genesis) (some commitment) s)
    unfolding anchor_at
    EndsWell-pinned untrusted =
        let asked = ask c f setup (codes "get_roster_proof") (epoch_body 0) s in
        EndsWell-then asked _
          (ask-Keeps roster_view c f setup (λ s g. refl) (codes "get_roster_proof") (epoch_body 0) s
            ∙ untrusted)
          (λ answer t h.
            EndsWell-then (members_in c f setup answer t) _
              (members_in-Keeps roster_view c f setup (λ s g. refl) answer t ∙ h)
              EndsWell-committed)

  anchor_at-EndsWell :
      (genesis commitment : Option Bytes)
      → setup.genesis_hash ≡ genesis
      → setup.roster_commitment ≡ commitment
      → s.trusted_roster ≡ none
      → EndsWell (anchor_at c f setup none genesis commitment s)
  unfolding anchor_at
  anchor_at-EndsWell none commitment pinned committed untrusted = (inl pinned, refl)
  anchor_at-EndsWell (some genesis) none pinned committed untrusted = (inr committed, refl)
  anchor_at-EndsWell (some genesis) (some commitment) pinned committed untrusted =
      EndsWell-pinned genesis commitment pinned committed untrusted

-- However the request for a first roster ends, for a client that trusts none yet: where it says
-- anchored, the setup has a pinned genesis and a pinned roster commitment, and the client trusts, with
-- this genesis, a roster of epoch 0 whose commitment is the pinned one; where it says not anchored, one
-- of the two is missing and the client is as it was; on an error it still trusts no roster.
pub anchor_pinned_roster-Trusts :
    {G : Type 0} (c : OrderCrates) (f : Crates) (setup : Setup G) (chain_id span : ℕ) (s : Client G)
    → s.trusted_roster ≡ none
    → IsAnchored c f setup chain_id span s (anchor_pinned_roster c f setup s)
unfolding anchor_pinned_roster
anchor_pinned_roster-Trusts c f setup chain_id span s untrusted =
    subst
      (λ trusted.
        IsAnchored c f setup chain_id span s
          (anchor_at c f setup trusted setup.genesis_hash setup.roster_commitment s))
      (sym untrusted)
      (anchor_at-EndsWell c f setup chain_id span s setup.genesis_hash setup.roster_commitment refl
        refl untrusted)
