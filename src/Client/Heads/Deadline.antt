-- ===== src/Client/Heads/Deadline.antt =====
-- `validity` of src/lib.rs: the heads it gives a deadline for.
use mathlib.Core.Path.{subst}
use qcore_rs.Prelude.{
  ℕ, ◌+◌, ◌≤◌, ◌≡◌, refl, sym, ap, ◌∙◌, Bool, not, ◌&&◌, ◌||◌, Option, some, ok, Bytes, map_err,
  map_err_ok, refuse,
}
use qcore_rs.Chain.{
  ChainClock, network_clock, known_clock, max_plausible_head, default_validity_blocks,
  bounded_valid_until_for,
}
use qcore_rs.Chain.Deadline.{bounded_valid_until_for_iff}
use qcore_rs.Session.{SigningSession, head_floor, note_head}
use qcore_rs.Gateway.{NodeInfo}
use qcore_rs.Contract.OrderCall.{OrderCrates}
use qcore_rs.Finality.Crates.{Crates}
use qcore_rs.Finality.Epochs.{VerifiedRoster}
use qcore_rs.Client.{
  Setup, Client, ClientError, pure, give, on_shared, signing_genesis, ◌>>=◌, ◌>>◌,
}
use qcore_rs.Client.Acts.{Ensures, act_ok, bind-Ensures}
use qcore_rs.Client.Quiet.{signing_genesis-Keeps}
use qcore_rs.Client.Endpoint.{checked_chain_id, is_public_chain}
use qcore_rs.Client.Trust.Proven.{Trusts}
use qcore_rs.Client.Heads.{verify_head, deadline_at, validity, or_known, floor_height, floor_age}
use qcore_rs.Client.Heads.Final.{IsFinalHead, verify_head-IsFinal}

module _ {G : Type 0} (c : OrderCrates) (f : Crates) (setup : Setup G) where
  -- What the last steps give.
  abbrev IsDeadline : NodeInfo → ℕ → Type 0
  IsDeadline info d =
      (d ≡ info.head_height + default_validity_blocks) × (info.head_height ≤ max_plausible_head)

  deadline_at-IsDeadline :
      (clock : Option ChainClock) (verified : Bool) (info : NodeInfo) (wall : ℕ)
      (s : SigningSession) (d : ℕ)
      → deadline_at c f setup clock verified info wall s ≡ ok d
      → IsDeadline info d
  deadline_at-IsDeadline clock verified info wall s d h =
      let floor = head_floor s info.chain_id in
      let given =
        map_err_ok ClientError.bad_chain
          (bounded_valid_until_for clock verified info.head_height wall (floor_height floor)
            (floor_age floor wall))
          d h in
      let (at, admits) =
        (bounded_valid_until_for_iff clock verified info.head_height wall (floor_height floor)
            (floor_age floor wall) d).0
          given in
      (at, admits.plausible)

  rest-IsDeadline :
      (wall : ℕ) (info : NodeInfo) (verified : Bool)
      → Ensures (IsDeadline info) (do
        give (
            refuse
              (not verified && (setup.is_mainnet || is_public_chain c info.chain_id))
              ClientError.head_not_verified)
        clock ← give (map_err ClientError.bad_chain (network_clock setup.network))
        deadline ← (λ s. (
          deadline_at c f setup
              (or_known clock (known_clock info.chain_id))
              verified
              info
              wall
              s.shared,
          s,
        ))
        on_shared c setup (λ s. note_head s info.chain_id info.head_height wall)
        pure {G = G} deadline)
  rest-IsDeadline wall info verified =
      let P = IsDeadline info in
      bind-Ensures P
        (give (
          refuse (not verified && (setup.is_mainnet || is_public_chain c info.chain_id))
            ClientError.head_not_verified))
        _
        (λ _.
          bind-Ensures P (give (map_err ClientError.bad_chain (network_clock setup.network))) _
            (λ clock s d h.
              let bound = or_known clock (known_clock info.chain_id) in
              let (v, found, at) =
                act_ok (deadline_at c f setup bound verified info wall s.shared, s) _ d h in
              let same : ok v ≡ ok d = ap (λ x. x.0) (sym at) ∙ h in
              subst P (cc) (deadline_at-IsDeadline bound verified info wall s.shared v found)))

-- Where a client that trusts a roster of the reported chain, and has an epoch length, gives a
-- deadline out, the reported head is the height of a header that is final under a roster that the
-- trusted one leads to, at most 2^40, and the deadline is 300 blocks past it.
pub validity-IsFinal :
    {G : Type 0} (c : OrderCrates) (f : Crates) (setup : Setup G) (chain_id : ℕ) (genesis : Bytes)
    (span : ℕ) (first : VerifiedRoster) (wall : ℕ) (info : NodeInfo) (s : Client G) (deadline : ℕ)
    → checked_chain_id c info.chain_id ≡ ok chain_id
    → setup.epoch_length ≡ some span
    → Trusts c f setup chain_id genesis span first s
    → (validity c f setup wall info s).0 ≡ ok deadline
    → IsFinalHead f chain_id genesis span first info.head_height
      × (info.head_height ≤ max_plausible_head)
      × (deadline ≡ info.head_height + default_validity_blocks)
unfolding validity
validity-IsFinal {G} c f setup chain_id genesis span first wall info s deadline of_chain at holds
      h =
    let t = (signing_genesis c setup info s).1 in
    let view = λ (s : Client G). s.trusted_roster in
    let (g, e1, p1) = act_ok (signing_genesis c setup info s) _ deadline h in
    let trusts : Trusts c f setup chain_id genesis span first t =
      subst (λ o. Trusts c f setup chain_id genesis span first (record t { trusted_roster = o }))
        (sym (signing_genesis-Keeps view c setup (λ s g. refl) info s)) holds in
    let (verified, e2, p2) =
      act_ok (verify_head c f setup info t) _ deadline (ap (λ x. x.0) (sym p1) ∙ h) in
    let (yes_verified, final) =
      verify_head-IsFinal c f setup chain_id genesis span first info t verified of_chain at trusts
        e2 in
    let (past, low) =
      rest-IsDeadline c f setup wall info verified (verify_head c f setup info t).1 deadline
        (ap (λ x. x.0) (sym (p1 ∙ p2)) ∙ h) in
    (final, low, past)
