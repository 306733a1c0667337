-- ===== src/Client/Confirm/Included.antt =====
-- `confirm_transaction_trusted` of src/lib.rs: what a confirmed transaction rests on.
use mathlib.Core.Path.{subst}
use qcore_rs.Prelude.{
  ℕ, ◌≡◌, refl, sym, ap, ◌∙◌, Bool, true, Option, none, some, List, ok, arith, Bytes, Text, codes,
  map_err, map_err_ok, list_eq, nat_eq, result-cases, inl, inr,
}
use qcore_rs.Contract.OrderCall.{OrderCrates}
use qcore_rs.Finality.Crates.{Crates}
use qcore_rs.Finality.Quorum.{FinalizedHeader, verify_finality}
use qcore_rs.Finality.Epochs.{VerifiedRoster, verify_finality_in_epoch}
use qcore_rs.Finality.Epochs.Succession.{in_epoch_ok}
use qcore_rs.Finality.Inclusion.{
  InclusionCrates, TxKind, TxOutcome, ConfirmedTransaction, verify_transaction, transaction_kind,
}
use qcore_rs.Finality.Wire.{index_fits_path}
use qcore_rs.Client.{Setup, Client, TrustedRoster, ClientError, give, node_info, ◌>>=◌}
use qcore_rs.Client.Acts.{
  Guarded, act_ok, give_ok, bind-Guarded, then-Guarded, last-Guarded, Ensures, bind-Ensures,
}
use qcore_rs.Client.Endpoint.{checked_chain_id}
use qcore_rs.Client.Trust.{ask, bytes_in, epoch_length}
use qcore_rs.Client.Trust.Steps.{ask-Keeps, bytes_in-Keeps}
use qcore_rs.Client.Trust.Proven.{Proven, Trusts}
use qcore_rs.Client.Heads.{certified_at}
use qcore_rs.Client.Heads.Final.{certified_at-Keeps}
use qcore_rs.Client.Confirm.{
  checked_chain, number_at, steps_in, roster_to_use, check_included, inclusion,
  confirm_inclusion_trusted, confirm_transaction_trusted, settled, settled_kind, transaction_body,
  outcome_of,
}
use qcore_rs.Client.Confirm.Guards.{
  IsUsed, quiet, node_info-Keeps, steps_in-Keeps, checked_chain-Keeps, checked_chain-id,
  roster_to_use-IsUsed,
}

-- What a confirmation rests on: a header that is final under a roster that the first one leads to,
-- and a leaf with a path to its transaction root, of which the id is that of the transaction.
pub record IsIncluded (f : Crates) (i : InclusionCrates) (chain_id : ℕ) (genesis : Bytes) (span : ℕ)
    (first : VerifiedRoster) (tx_id : Text) (r : ConfirmedTransaction) : Type 0 where
  pub roster : VerifiedRoster
  pub header : Bytes
  pub certificate : Bytes
  pub leaf : Bytes
  pub steps : List (Bytes × Bool)
  pub proven : Proven f chain_id genesis span first roster
  pub final : verify_finality f chain_id genesis header certificate roster.members ≡ ok r.header
  pub included : verify_transaction i r.header.transaction_root tx_id leaf steps ≡ true
  pub placed : index_fits_path r.index steps ≡ true
  pub kind : transaction_kind i leaf ≡ ok r.kind
  pub named : r.tx_id ≡ tx_id
  pub outcome : r.outcome ≡ outcome_of r.kind

module _ {G : Type 0} (c : OrderCrates) (f : Crates) (i : InclusionCrates) (setup : Setup G)
    (chain_id : ℕ) (genesis : Bytes) (span : ℕ) (first : VerifiedRoster) where
  abbrev I : Client G → Type 0
  I = Trusts c f setup chain_id genesis span first

  abbrev roster_view : Client G → Option TrustedRoster
  roster_view s = s.trusted_roster

  abbrev Used : ℕ → Bytes × VerifiedRoster → Type 0
  Used = IsUsed c f i setup chain_id genesis span first

  abbrev Included : Text → ConfirmedTransaction → Type 0
  Included = IsIncluded f i chain_id genesis span first

  check_included-Included :
      (tx_id : Text) (height index : ℕ) (header certificate leaf : Bytes)
      (steps : List (Bytes × Bool)) (roster : VerifiedRoster) (verified : FinalizedHeader)
      (r : ConfirmedTransaction)
      → Proven f chain_id genesis span first roster
      → verify_finality f chain_id genesis header certificate roster.members ≡ ok verified
      → check_included c f i setup tx_id height index leaf steps verified ≡ ok r
      → Included tx_id r
  unfolding check_included
  check_included-Included tx_id height index header certificate leaf steps roster verified r proven
        final h =
      elim (result-cases (transaction_kind i leaf)) [
        | inl failed ↦ absurd (ground (arith, h, failed.1))
        | inr (kind, at) ↦
            let confirmed : ConfirmedTransaction = record {
              tx_id = tx_id;
              index = index;
              header = verified;
              kind = kind;
              outcome = outcome_of kind;
            } in
            let same : confirmed ≡ r = ground (arith, h, at) in
            subst (Included tx_id) same (record {
              roster = roster;
              header = header;
              certificate = certificate;
              leaf = leaf;
              steps = steps;
              proven = proven;
              final = final;
              included = ground (arith, h, at);
              placed = ground (arith, h, at);
              kind = at;
              named = refl;
              outcome = refl;
            })
      ]

  verified-Included :
      (tx_id : Text) (height index id : ℕ) (header certificate leaf : Bytes)
      (steps : List (Bytes × Bool)) (epoch : ℕ) (used : Bytes × VerifiedRoster) (length : ℕ)
      → id ≡ chain_id
      → Used epoch used
      → Ensures (Included tx_id) (do
        verified ← give {G = G} (
            map_err ClientError.bad_epoch
              (verify_finality_in_epoch f id used.0 length used.1 header certificate))
        give (check_included c f i setup tx_id height index leaf steps verified))
  verified-Included tx_id height index id header certificate leaf steps epoch used length same
        is_used s r h =
      let checked = verify_finality_in_epoch f id used.0 length used.1 header certificate in
      let (verified, found, whole) = give_ok (map_err ClientError.bad_epoch checked) _ s r h in
      let final =
        in_epoch_ok f id used.0 length used.1 header certificate verified
          (map_err_ok ClientError.bad_epoch checked verified found) in
      check_included-Included tx_id height index header certificate leaf steps used.1 verified r
        is_used.2 (cc (final, same, is_used.0)) (ap (λ x. x.0) (sym whole) ∙ h)

  certified-Included :
      (tx_id : Text) (height index id : ℕ) (leaf : Bytes) (steps : List (Bytes × Bool))
      → id ≡ chain_id
      → setup.epoch_length ≡ some span
      → Guarded I (Included tx_id) (do
        (epoch, header, certificate) ← certified_at c f setup height
        (own, roster) ← roster_to_use c f i setup id epoch none
        length ← epoch_length c f setup
        verified ← give (
            map_err ClientError.bad_epoch
              (verify_finality_in_epoch f id own length roster header certificate))
        give {G = G} (check_included c f i setup tx_id height index leaf steps verified))
  certified-Included tx_id height index id leaf steps same at =
      let P = Included tx_id in
      then-Guarded I P (certified_at c f setup height) _
        (quiet c f i setup chain_id genesis span first (certified_at c f setup height)
          (certified_at-Keeps c f setup height))
        (λ part.
          last-Guarded I (Used part.0) P (roster_to_use c f i setup id part.0 none) _
            (subst (λ id. Guarded I (Used part.0) (roster_to_use c f i setup id part.0 none))
              (sym same) (roster_to_use-IsUsed c f i setup chain_id genesis span first part.0 at))
            (λ used is_used. bind-Ensures P (epoch_length c f setup) _ (λ length.
              verified-Included tx_id height index id part.1 part.2 leaf steps part.0 used length
                same is_used)))

  inclusion-Included :
      (tx_id name : Text)
      → setup.chain_id ≡ some name
      → checked_chain_id c name ≡ ok chain_id
      → setup.epoch_length ≡ some span
      → Guarded I (Included tx_id) (inclusion c f i setup tx_id none)
  unfolding inclusion number_at
  inclusion-Included tx_id name of_setup of_name at =
      let P = Included tx_id in
      let own : (s : Client G) (g : G) → roster_view (record s { gateway = g }) ≡ roster_view s =
        λ s g. refl in
      let method = codes "get_transaction_proof" in
      then-Guarded I P (node_info c setup) _
        (quiet c f i setup chain_id genesis span first (node_info c setup)
          (node_info-Keeps c f i setup chain_id genesis span first))
        (λ info.
          bind-Guarded I (λ id. id ≡ chain_id) P (checked_chain c f i setup info) _
            (quiet c f i setup chain_id genesis span first (checked_chain c f i setup info)
              (checked_chain-Keeps c f i setup chain_id genesis span first info))
            (checked_chain-id c f i setup chain_id genesis span first name info of_setup of_name)
            (λ id same.
              then-Guarded I P (ask c f setup method (transaction_body tx_id)) _
                (quiet c f i setup chain_id genesis span first
                  (ask c f setup method (transaction_body tx_id))
                  (ask-Keeps roster_view c f setup own method (transaction_body tx_id)))
                (λ proof.
                  then-Guarded I P (number_at c f i setup proof (codes "height")) _
                    (λ s holds. holds)
                    (λ height.
                      then-Guarded I P (number_at c f i setup proof (codes "index")) _
                        (λ s holds. holds)
                        (λ index.
                          then-Guarded I P (bytes_in c f setup proof (codes "leaf")) _
                            (quiet c f i setup chain_id genesis span first
                              (bytes_in c f setup proof (codes "leaf"))
                              (bytes_in-Keeps roster_view c f setup own proof (codes "leaf")))
                            (λ leaf.
                              then-Guarded I P (steps_in c f i setup proof) _
                                (quiet c f i setup chain_id genesis span first
                                  (steps_in c f i setup proof)
                                  (steps_in-Keeps c f i setup chain_id genesis span first proof))
                                (λ steps.
                                  certified-Included tx_id height index id leaf steps same at)))))))

settled-transfer :
    (confirmed r : ConfirmedTransaction)
    → settled confirmed ≡ ok r
    → (confirmed.kind ≡ TxKind.transfer) × (confirmed ≡ r)
unfolding settled
settled-transfer confirmed r h = by_kind confirmed.kind refl h
  where
    by_kind :
        (kind : TxKind)
        → confirmed.kind ≡ kind
        → settled_kind kind confirmed ≡ ok r
        → (confirmed.kind ≡ TxKind.transfer) × (confirmed ≡ r)
    by_kind TxKind.call at h = absurd (cc)
    by_kind TxKind.transfer at h = (at, cc)

-- A transaction confirmed by a client that has a configured chain and an epoch length, and trusts a
-- roster of that chain, is a transfer, and its outcome is that it was applied: it has the id asked
-- for, the header it is confirmed in is final under a roster that the trusted one leads to, a leaf
-- that is read as a transfer has a path to the transaction root of this header under that id, and
-- the index fits the path.
pub confirm_transaction_trusted-IsIncluded :
    {G : Type 0} (c : OrderCrates) (f : Crates) (i : InclusionCrates) (setup : Setup G)
    (chain_id : ℕ) (genesis : Bytes) (span : ℕ) (first : VerifiedRoster) (name tx_id : Text)
    (s : Client G) (r : ConfirmedTransaction)
    → setup.chain_id ≡ some name
    → checked_chain_id c name ≡ ok chain_id
    → setup.epoch_length ≡ some span
    → Trusts c f setup chain_id genesis span first s
    → (confirm_transaction_trusted c f i setup tx_id s).0 ≡ ok r
    → IsIncluded f i chain_id genesis span first tx_id r
      × (r.kind ≡ TxKind.transfer)
      × (r.outcome ≡ TxOutcome.applied)
unfolding confirm_transaction_trusted confirm_inclusion_trusted
confirm_transaction_trusted-IsIncluded c f i setup chain_id genesis span first name tx_id s r
      of_setup of_name at holds h =
    let (confirmed, found, whole) = act_ok (inclusion c f i setup tx_id none s) _ r h in
    let included =
      inclusion-Included c f i setup chain_id genesis span first tx_id name of_setup of_name at s
        holds confirmed found in
    let settled_ok = ap (λ x. x.0) (sym whole) ∙ h in
    let (kind, same) = settled-transfer confirmed r settled_ok in
    let all = subst (IsIncluded f i chain_id genesis span first tx_id) same included in
    let transfer : r.kind ≡ TxKind.transfer =
      ap (λ (r : ConfirmedTransaction). r.kind) (sym same) ∙ kind in
    (all, transfer, all.outcome ∙ ap outcome_of transfer)
