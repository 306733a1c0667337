-- ===== src/Client/Pinning.antt =====
-- `signing_chain_id` of src/lib.rs: the chain a client is pinned to.
use mathlib.Core.Path.{subst}
use qcore_rs.Prelude.{
  ℕ, ◌≡◌, refl, sym, ap, ◌∙◌, Bool, true, not, ◌&&◌, ◌||◌, Option, none, some, Result, ok, is_same,
  list_eq, nat_eq, Text, arith, beq_list_iff, map_err_ok, refuse, map_err, length, ◌==◌,
}
use qcore_rs.Contract.OrderCall.{OrderCrates}
use qcore_rs.Gateway.{NodeInfo}
use qcore_rs.Client.{
  Setup, Client, ClientError, signing_chain_id, admit_chain, pin_chain, pin_at, pure,
}
use qcore_rs.Client.Acts.{act_ok, give_ok}
use qcore_rs.Client.Endpoint.{checked_chain_id, is_mainnet_info, is_public_chain}

module _ {G : Type 0} (c : OrderCrates) (setup : Setup G) where
  -- The chain that the client is bound to: the configured one, or the first it signed for.
  abbrev bound_to : Option Text → Option Text → Option Text
  bound_to (some name) pinned = some name
  bound_to none pinned = pinned

  abbrev pub bound_chain : Client G → Option Text
  bound_chain s = bound_to setup.chain_id s.pinned_chain

  -- What holds where a chain id is given out.
  pub record IsBound (info : NodeInfo) (s : Client G) (id : ℕ) (s' : Client G) : Type 0 where
    pub chain : bound_chain s' ≡ some info.chain_id
    pub kept : (name : Text) → bound_chain s ≡ some name → name ≡ info.chain_id
    pub id_of : checked_chain_id c info.chain_id ≡ ok id
    pub mainnet : is_mainnet_info c info ≡ true → setup.acknowledge_mainnet ≡ true
    pub session : s'.shared ≡ s.shared

  -- What the admission of a chain leaves, for the configured chain and the one pinned before.
  record IsAdmitted (configured : Option Text) (name : Text) (s s' : Client G) : Type 0 where
    chain : bound_to configured s'.pinned_chain ≡ some name
    kept : (other : Text) → bound_to configured s.pinned_chain ≡ some other → other ≡ name
    session : s'.shared ≡ s.shared

  pinned :
      (name : Text) (s : Client G) (seen : Option Text)
      → s.pinned_chain ≡ seen
      → (pin_at c setup seen name s).0 ≡ ok tt
      → IsAdmitted none name s (pin_at c setup seen name s).1
  pinned name s none at h = record { chain = refl; kept = λ other e. absurd (cc); session = refl }
  pinned name s (some first) at h =
      let same : is_same first name ≡ true = ground arith in
      let equal = (beq_list_iff first name).0 same in
      record { chain = at ∙ ap some equal; kept = λ other e. cc (at, e, equal); session = refl }

  admitted :
      (configured : Option Text) (name : Text) (mainnet : Bool) (s : Client G)
      → (admit_chain c setup configured name mainnet s).0 ≡ ok tt
      → IsAdmitted configured name s (admit_chain c setup configured name mainnet s).1
  admitted (some chosen) name mainnet s h =
      let same : is_same name chosen ≡ true = ground arith in
      record {
        chain = ap some (sym ((beq_list_iff name chosen).0 same));
        kept = λ other e. cc ((beq_list_iff name chosen).0 same);
        session = refl;
      }
  admitted none name mainnet s h =
      let refusal =
        refuse ((is_public_chain c name || mainnet) && not (mainnet && setup.acknowledge_mainnet))
          ClientError.public_chain_unnamed in
      let (u, passed, at) = give_ok refusal (λ _. pin_chain c setup name) s tt h in
      rw at (pinned name s s.pinned_chain refl (rw at at h))

  given : (n id : ℕ) → ◌≡◌ {A = Result ClientError ℕ} (ok n) (ok id) → n ≡ id
  given n id e = cc

  bound :
      (info : NodeInfo) (s : Client G) (id : ℕ)
      → (signing_chain_id c setup info s).0 ≡ ok id
      → IsBound info s id (signing_chain_id c setup info s).1
  unfolding signing_chain_id
  bound info s id h =
      let reported = refuse (length info.chain_id == 0) ClientError.chain_not_reported in
      let known = map_err ClientError.endpoint (checked_chain_id c info.chain_id) in
      let mainnet = is_mainnet_info c info in
      let unasked =
        refuse (mainnet && not setup.acknowledge_mainnet) ClientError.mainnet_reported in
      let (u, e1, p1) = give_ok reported _ s id h in
      let (found, e2, p2) = give_ok known _ s id (ap (λ r. r.0) (sym p1) ∙ h) in
      let (v, e3, p3) =
        act_ok (admit_chain c setup setup.chain_id info.chain_id mainnet s) _ id
          (ap (λ r. r.0) (sym (p1 ∙ p2)) ∙ h) in
      let (w, e4, p4) =
        give_ok unasked (λ _. pure found)
          (admit_chain c setup setup.chain_id info.chain_id mainnet s).1 id
          (ap (λ r. r.0) (sym (p1 ∙ p2 ∙ p3)) ∙ h) in
      let left = (admit_chain c setup setup.chain_id info.chain_id mainnet s).1 in
      let whole : signing_chain_id c setup info s ≡ (ok found, left) = p1 ∙ p2 ∙ p3 ∙ p4 in
      let same : found ≡ id = given found id (sym (ap (λ r. r.0) whole) ∙ h) in
      let a = admitted setup.chain_id info.chain_id mainnet s e3 in
      subst (λ r. IsBound info s id r.1) (sym whole)
        (record {
          chain = a.chain;
          kept = a.kept;
          id_of =
              map_err_ok ClientError.endpoint (checked_chain_id c info.chain_id) found e2
              ∙ ap ok same;
          mainnet = λ m. ground (arith, m, e4);
          session = a.session;
        })

-- Whatever the gateway reports, a client gives out chain ids of one chain only, the configured one
-- where one is configured, and never those of a mainnet that was not acknowledged: where two are
-- given out, and the pinned chain stays between them as the first left it, the reported chains and
-- the ids are the same.
pub signing_chain_id_once :
    {G : Type 0} (c : OrderCrates) (setup : Setup G) (first later : NodeInfo) (s t : Client G)
    (id other : ℕ)
    → (signing_chain_id c setup first s).0 ≡ ok id
    → t.pinned_chain ≡ (signing_chain_id c setup first s).1.pinned_chain
    → (signing_chain_id c setup later t).0 ≡ ok other
    → (first.chain_id ≡ later.chain_id)
      × (id ≡ other)
      × (bound_chain c setup (signing_chain_id c setup later t).1 ≡ some first.chain_id)
      × (is_mainnet_info c later ≡ true → setup.acknowledge_mainnet ≡ true)
signing_chain_id_once c setup first later s t id other h pinned g =
    let a = bound c setup first s id h in
    let b = bound c setup later t other g in
    let chain = b.kept first.chain_id (ap (bound_to c setup setup.chain_id) pinned ∙ a.chain) in
    let found : ok id ≡ ok other = sym a.id_of ∙ ap (checked_chain_id c) chain ∙ b.id_of in
    (chain, cc, b.chain ∙ ap some (sym chain), b.mainnet)
