-- ===== src/Client/Heads/Final.antt =====
-- `verify_head` and `validity` of src/lib.rs, for a client that trusts a roster.
use mathlib.Core.Path.{subst}
use qcore_rs.Prelude.{
  ℕ, ◌≡◌, refl, sym, ap, ◌∙◌, Bool, true, false, not, Option, none, some, List, ok, arith, Bytes,
  codes, map_err, map_err_ok, refuse, ◌==◌, if◌then◌else◌,
}
use qcore_rs.Gateway.{NodeInfo}
use qcore_rs.Contract.OrderCall.{OrderCrates}
use qcore_rs.Finality.Crates.{Crates}
use qcore_rs.Finality.Quorum.{RosterMember, FinalizedHeader, verify_finality}
use qcore_rs.Finality.Epochs.{VerifiedRoster, header_height, epoch_of, verify_finality_in_epoch}
use qcore_rs.Finality.Epochs.Succession.{in_epoch_ok}
use qcore_rs.Client.{Setup, Client, TrustedRoster, ClientError, after, pure, give, ◌>>◌}
use qcore_rs.Client.Acts.{Keeps, Ensures, act_ok, give_ok, bind-Keeps, bind-Ensures}
use qcore_rs.Client.Endpoint.{checked_chain_id}
use qcore_rs.Client.Trust.{
  ask, bytes_in, number_in, epoch_length, anchor_pinned_roster, roster_for_epoch,
}
use qcore_rs.Client.Trust.Steps.{ask-Keeps, bytes_in-Keeps}
use qcore_rs.Client.Trust.Proven.{Proven, Trusts, IsAnswer, roster_for_epoch-Proven, already}
use qcore_rs.Client.Heads.{
  height_body, is_other_number, epoch_of_header, certified_at, verify_under, verify_certified,
  verify_head, wants_roster,
}

-- A head that is final: a header of that height with a certificate of a roster that the first one
-- leads to.
pub record IsFinalHead (f : Crates) (chain_id : ℕ) (genesis : Bytes) (span : ℕ)
    (first : VerifiedRoster) (head : ℕ) : Type 0 where
  pub roster : VerifiedRoster
  pub header : Bytes
  pub certificate : Bytes
  pub read : FinalizedHeader
  pub proven : Proven f chain_id genesis span first roster
  pub final : verify_finality f chain_id genesis header certificate roster.members ≡ ok read
  pub height : read.height ≡ head

module _ {G : Type 0} (c : OrderCrates) (f : Crates) (setup : Setup G) where
  abbrev pub roster_view : Client G → Option TrustedRoster
  roster_view s = s.trusted_roster

  epoch_of_header-Keeps :
      (header : Bytes) (reported : Option ℕ)
      → Keeps roster_view (epoch_of_header c f setup header reported)
  unfolding epoch_of_header epoch_length
  epoch_of_header-Keeps header reported =
      bind-Keeps roster_view (give (map_err ClientError.bad_epoch (header_height f header))) _
        (λ _. refl)
        (λ height.
          bind-Keeps roster_view (epoch_length c f setup) _ (λ _. refl)
            (λ length.
              bind-Keeps roster_view (give (map_err ClientError.bad_epoch (epoch_of height length)))
                _ (λ _. refl)
                (λ epoch.
                  bind-Keeps roster_view
                    (give (
                      refuse (is_other_number epoch reported)
                        (ClientError.other_epoch epoch height)))
                    _ (λ _. refl) (λ _ _. refl))))

  pub certified_at-Keeps : (height : ℕ) → Keeps roster_view (certified_at c f setup height)
  unfolding certified_at
  certified_at-Keeps height =
      let bytes = bytes_in-Keeps roster_view c f setup (λ s g. refl) in
      bind-Keeps roster_view (ask c f setup (codes "get_finality") (height_body height)) _
        (ask-Keeps roster_view c f setup (λ s g. refl) (codes "get_finality") (height_body height))
        (λ answer.
          bind-Keeps roster_view (bytes_in c f setup answer (codes "header_bytes")) _
            (bytes answer (codes "header_bytes"))
            (λ header.
              bind-Keeps roster_view (bytes_in c f setup answer (codes "certificate")) _
                (bytes answer (codes "certificate"))
                (λ certificate.
                  bind-Keeps roster_view
                    (give (map_err ClientError.bad_epoch (header_height f header))) _ (λ _. refl)
                    (λ found.
                      bind-Keeps roster_view
                        (give (
                          refuse (not (found == height))
                            (ClientError.other_finality_height height)))
                        _ (λ _. refl)
                        (λ _.
                          bind-Keeps roster_view
                            (epoch_of_header c f setup header (number_in answer (codes "epoch"))) _
                            (epoch_of_header-Keeps header (number_in answer (codes "epoch")))
                            (λ _ _. refl))))))

  module _ (chain_id : ℕ) (genesis : Bytes) (span : ℕ) (first : VerifiedRoster) where
    abbrev IsFinal : ℕ → Type 0
    IsFinal = IsFinalHead f chain_id genesis span first

    verify_under-IsFinal :
        (head epoch : ℕ) (header certificate : Bytes) (members : List RosterMember)
        → Proven f chain_id genesis span first (record { epoch = epoch; members = members })
        → Ensures
            (λ (b : Bool). (b ≡ true) × IsFinal head)
            (verify_under c f setup chain_id head epoch header certificate
              (some (genesis, members)))
    unfolding verify_under epoch_length
    verify_under-IsFinal head epoch header certificate members proven =
        let roster : VerifiedRoster = record { epoch = epoch; members = members } in
        let P = λ (b : Bool). (b ≡ true) × IsFinal head in
        bind-Ensures P (epoch_length c f setup) _ (λ length s b h.
          let checked =
            verify_finality_in_epoch f chain_id genesis length roster header certificate in
          let (read, found, at) = give_ok (map_err ClientError.bad_epoch checked) _ s b h in
          let (u, same, done) =
            give_ok (refuse (not (read.height == head)) (ClientError.other_height head read.height))
              _ s b (ap (λ x. x.0) (sym at) ∙ h) in
          (
            ground (arith, ap (λ x. x.0) (sym done) ∙ ap (λ x. x.0) (sym at) ∙ h),
            record {
              roster = roster;
              header = header;
              certificate = certificate;
              read = read;
              proven = proven;
              final =
                  in_epoch_ok f chain_id genesis length roster header certificate read
                    (map_err_ok ClientError.bad_epoch checked read found);
              height = ground (arith, same);
            },
          ))

    from_answer :
        (head epoch : ℕ) (header certificate : Bytes) (held : Option (Bytes × List RosterMember))
        (t : Client G) (b : Bool)
        → IsAnswer c f setup chain_id genesis span first epoch (ok held)
        → (verify_under c f setup chain_id head epoch header certificate held t).0 ≡ ok b
        → (b ≡ true) × IsFinal head
    from_answer head epoch header certificate none t b answer h = absurd answer
    from_answer head epoch header certificate (some (g, members)) t b answer h =
        verify_under-IsFinal head epoch header certificate members answer.1 t b (
          ap
            (λ g.
              (verify_under c f setup chain_id head epoch header certificate (some (g, members))
                t).0)
            (sym answer.0)
          ∙ h)

    verify_certified-IsFinal :
        (info : NodeInfo) (s : Client G) (b : Bool)
        → setup.epoch_length ≡ some span
        → Trusts c f setup chain_id genesis span first s
        → (verify_certified c f setup chain_id info s).0 ≡ ok b
        → (b ≡ true) × IsFinal info.head_height
    unfolding verify_certified
    verify_certified-IsFinal info s b at holds h =
        let t = (certified_at c f setup info.head_height s).1 in
        let (part, e1, p1) = act_ok (certified_at c f setup info.head_height s) _ b h in
        let epoch = part.0 in
        let trusts : Trusts c f setup chain_id genesis span first t =
          subst
            (λ o. Trusts c f setup chain_id genesis span first (record t { trusted_roster = o }))
            (sym (certified_at-Keeps info.head_height s)) holds in
        let answer =
          (roster_for_epoch-Proven c f setup chain_id genesis span first epoch t at trusts).1 in
        let (held, e2, p2) =
          act_ok (roster_for_epoch c f setup chain_id epoch t) _ b (ap (λ x. x.0) (sym p1) ∙ h) in
        from_answer info.head_height epoch part.1 part.2 held
          (roster_for_epoch c f setup chain_id epoch t).1 b
          (subst (IsAnswer c f setup chain_id genesis span first epoch) e2 answer)
          (ap (λ x. x.0) (sym (p1 ∙ p2)) ∙ h)

    pub verify_head-IsFinal :
        (info : NodeInfo) (s : Client G) (b : Bool)
        → checked_chain_id c info.chain_id ≡ ok chain_id
        → setup.epoch_length ≡ some span
        → Trusts c f setup chain_id genesis span first s
        → (verify_head c f setup info s).0 ≡ ok b
        → (b ≡ true) × IsFinal info.head_height
    unfolding verify_head anchor_pinned_roster
    verify_head-IsFinal info s b of_chain at holds h =
        let choice = λ (id : ℕ) (anchored : Bool).
          if anchored
          then verify_certified c f setup id info
          else give {G = G} (refuse (wants_roster c f setup info) ClientError.roster_needed)
            >> pure false in
        let anchored =
          already c f setup chain_id genesis span first s.trusted_roster setup.genesis_hash
            setup.roster_commitment s holds in
        let checked = map_err ClientError.endpoint (checked_chain_id c info.chain_id) in
        let (id, e1, p1) = give_ok checked _ s b h in
        let same : ok id ≡ ok chain_id =
          sym (map_err_ok ClientError.endpoint (checked_chain_id c info.chain_id) id e1)
          ∙ of_chain in
        let chosen : (verify_certified c f setup id info s).0 ≡ ok b =
          ap (λ done. (after done (choice id)).0) (sym anchored) ∙ ap (λ x. x.0) (sym p1) ∙ h in
        verify_certified-IsFinal info s b at holds
          (ap (λ id. (verify_certified c f setup id info s).0) (cc) ∙ chosen)
