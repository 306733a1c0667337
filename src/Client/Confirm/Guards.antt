-- ===== src/Client/Confirm/Guards.antt =====
-- The steps of `inclusion` of src/lib.rs: what they leave, and what is learnt from them.
use mathlib.Core.Path.{subst}
use qcore_rs.Prelude.{
  ℕ, ◌≡◌, refl, sym, ap, ◌∙◌, true, Option, none, some, List, ok, arith, Bytes, Text, codes,
  map_err, map_err_ok, ok_or, is_same, list_eq, nat_eq, beq_list_iff,
}
use qcore_rs.Json.{Json, get}
use qcore_rs.Gateway.{NodeInfo, parse_node_info}
use qcore_rs.Contract.OrderCall.{OrderCrates}
use qcore_rs.Finality.Crates.{Crates}
use qcore_rs.Finality.Quorum.{RosterMember}
use qcore_rs.Finality.Epochs.{VerifiedRoster}
use qcore_rs.Finality.Inclusion.{InclusionCrates}
use qcore_rs.Finality.Wire.{parse_steps}
use qcore_rs.Client.{Setup, Client, TrustedRoster, ClientError, Act, give, rpc, node_info}
use qcore_rs.Client.Acts.{
  Keeps, Guarded, Preserves, act_ok, give_ok, bind-Keeps, give-Keeps, rpc-Keeps, Keeps-Preserves,
}
use qcore_rs.Client.Endpoint.{checked_chain_id}
use qcore_rs.Client.Trust.{roster_for_epoch}
use qcore_rs.Client.Trust.Kept.{Holds}
use qcore_rs.Client.Trust.Proven.{Proven, Trusts, IsAnswer, IsProven, roster_for_epoch-Proven}
use qcore_rs.Client.Confirm.{checked_chain, configured_chain, steps_in, roster_to_use, held_roster}

module _ {G : Type 0} (c : OrderCrates) (f : Crates) (i : InclusionCrates) (setup : Setup G)
    (chain_id : ℕ) (genesis : Bytes) (span : ℕ) (first : VerifiedRoster) where
  abbrev pub roster_view : Client G → Option TrustedRoster
  roster_view s = s.trusted_roster

  abbrev pub I : Client G → Type 0
  I = Trusts c f setup chain_id genesis span first

  pub quiet : {A : Type 0} (act : Act G A) → Keeps roster_view act → Preserves I act
  quiet act keeps =
      Keeps-Preserves roster_view
        (Holds (IsProven c f setup chain_id genesis span first) genesis first) act keeps

  pub node_info-Keeps : Keeps roster_view (node_info c setup)
  unfolding node_info
  node_info-Keeps =
      bind-Keeps roster_view (rpc c setup (codes "node_info") (codes "{}")) _
        (rpc-Keeps roster_view c setup (codes "node_info") (codes "{}") (λ s g. refl))
        (λ text. give-Keeps roster_view (map_err ClientError.response (parse_node_info text)))

  pub steps_in-Keeps : (answer : Json) → Keeps roster_view (steps_in c f i setup answer)
  unfolding steps_in
  steps_in-Keeps answer =
      bind-Keeps roster_view
        (give (ok_or (get (codes "steps") answer) (ClientError.answer_without (codes "steps")))) _
        (λ _. refl)
        (λ steps. give-Keeps roster_view (map_err ClientError.bad_wire (parse_steps steps)))

  pub checked_chain-Keeps : (info : NodeInfo) → Keeps roster_view (checked_chain c f i setup info)
  unfolding checked_chain
  checked_chain-Keeps info =
      bind-Keeps roster_view (give (configured_chain setup.chain_id info)) _ (λ _. refl)
        (λ _.
          give-Keeps roster_view (map_err ClientError.endpoint (checked_chain_id c info.chain_id)))

  configured_name :
      (o : Option Text) (name : Text) (info : NodeInfo)
      → o ≡ some name
      → configured_chain o info ≡ ok tt
      → info.chain_id ≡ name
  configured_name none name info at h = absurd (cc)
  configured_name (some configured) name info at h =
      let same : is_same info.chain_id configured ≡ true = ground arith in
      let equal = (beq_list_iff info.chain_id configured).0 same in cc (equal, at)

  pub checked_chain-id :
      (name : Text) (info : NodeInfo)
      → setup.chain_id ≡ some name
      → checked_chain_id c name ≡ ok chain_id
      → Guarded I (λ id. id ≡ chain_id) (checked_chain c f i setup info)
  unfolding checked_chain
  checked_chain-id name info at of_name s holds id h =
      let (u, e1, p1) = give_ok (configured_chain setup.chain_id info) _ s id h in
      let same = configured_name setup.chain_id name info at e1 in
      let found =
        map_err_ok ClientError.endpoint (checked_chain_id c info.chain_id) id
          (ap (λ x. x.0) (sym p1) ∙ h) in
      let equal : ok id ≡ ok chain_id = sym found ∙ ap (checked_chain_id c) same ∙ of_name in cc

  -- The roster that is used for an epoch, where the caller brings none.
  abbrev pub IsUsed : ℕ → Bytes × VerifiedRoster → Type 0
  IsUsed epoch used =
      (used.0 ≡ genesis) × (used.1.epoch ≡ epoch) × Proven f chain_id genesis span first used.1

  held_roster-IsUsed :
      (epoch : ℕ) (held : Option (Bytes × List RosterMember)) (used : Bytes × VerifiedRoster)
      (s : Client G)
      → IsAnswer c f setup chain_id genesis span first epoch (ok held)
      → (held_roster c f i setup epoch held s).0 ≡ ok used
      → IsUsed epoch used
  held_roster-IsUsed epoch none used s answer h = absurd answer
  held_roster-IsUsed epoch (some (g, members)) used s answer h =
      subst (IsUsed epoch) (cc) (answer.0, refl, answer.1)

  pub roster_to_use-IsUsed :
      (epoch : ℕ)
      → setup.epoch_length ≡ some span
      → Guarded I (IsUsed epoch) (roster_to_use c f i setup chain_id epoch none)
  unfolding roster_to_use
  roster_to_use-IsUsed epoch at s holds used h =
      let answer =
        (roster_for_epoch-Proven c f setup chain_id genesis span first epoch s at holds).1 in
      let (held, found, whole) = act_ok (roster_for_epoch c f setup chain_id epoch s) _ used h in
      held_roster-IsUsed epoch held used (roster_for_epoch c f setup chain_id epoch s).1
        (subst (IsAnswer c f setup chain_id genesis span first epoch) found answer)
        (ap (λ x. x.0) (sym whole) ∙ h)
