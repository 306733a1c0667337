-- ===== src/Client/Trust/Proven.antt =====
-- `roster_for_epoch` of src/lib.rs: what the rosters that it gives and keeps rest on.
use mathlib.Core.Path.{subst}
use qcore_rs.Prelude.{
  ℕ, zero, suc, ◌+◌, ◌-◌, ◌≤◌, ◌<◌, ◌≡◌, refl, sym, ap, true, Bool-cases, Option, none, some, List,
  if◌then◌else◌, Result, ok, err, arith, inl, inr, ltb, Bytes,
}
use qcore_rs.Contract.OrderCall.{OrderCrates}
use qcore_rs.Finality.Crates.{Crates}
use qcore_rs.Finality.Quorum.{RosterMember}
use qcore_rs.Finality.Epochs.{VerifiedRoster}
use qcore_rs.Finality.Epochs.Succession.{verify_next_roster-Succeeds}
use qcore_rs.Client.{Setup, Client, TrustedRoster, ClientError, Act, after, pure, ◌>>=◌, ◌>>◌}
use qcore_rs.Client.Trust.{
  keep, keep_roster, advance, next_roster, advance_from, advance_trusted, last_upto, epoch_length,
  pinned_length, anchor_pinned_roster, anchor_at, roster_for_epoch,
}
use qcore_rs.Client.Trust.Steps.{Follows, next_roster-Keeps, next_roster-Follows}
use qcore_rs.Client.Trust.Kept.{Holds, named, keep_roster-Holds, last_upto-Named}

-- The rosters that the first one leads to: each further one is proven under the one before, by a
-- final header of the last block of its epoch that commits to the next.
pub data Proven (f : Crates) (chain_id : ℕ) (genesis : Bytes) (span : ℕ) (first : VerifiedRoster)
    : VerifiedRoster → Type 0 where
  here : {r : VerifiedRoster} → r ≡ first → Proven f chain_id genesis span first r
  next :
      {current r : VerifiedRoster}
      → Proven f chain_id genesis span first current
      → Follows f chain_id genesis span current r
      → Proven f chain_id genesis span first r

Follows-epoch :
    {f : Crates} {chain_id : ℕ} {genesis : Bytes} {span : ℕ} {current r : VerifiedRoster}
    → Follows f chain_id genesis span current r
    → r.epoch ≡ current.epoch + 1
Follows-epoch {f} {chain_id} {genesis} {span} {current} {r} p =
    (verify_next_roster-Succeeds f chain_id genesis span current p.header p.certificate p.members
      p.proof r p.proven).follows

Proven-epoch :
    {f : Crates} {chain_id : ℕ} {genesis : Bytes} {span : ℕ} {first r : VerifiedRoster}
    → Proven f chain_id genesis span first r
    → first.epoch ≤ r.epoch
Proven-epoch (here e) = omega (arith, ap (λ (r : VerifiedRoster). r.epoch) e)
Proven-epoch (next p follows) = omega (arith, Proven-epoch p, Follows-epoch follows)

module _ {G : Type 0} (c : OrderCrates) (f : Crates) (setup : Setup G) (chain_id : ℕ)
    (genesis : Bytes) (span : ℕ) (first : VerifiedRoster) where
  abbrev pub IsProven : VerifiedRoster → Type 0
  IsProven = Proven f chain_id genesis span first

  -- What holds of the client's rosters: they are those that `first` leads to.
  abbrev pub Trusts : Client G → Type 0
  Trusts s = Holds IsProven genesis first s.trusted_roster

  -- What the loop gives, if it ends well: the roster of the epoch asked for.
  abbrev IsAt : ℕ → Result ClientError VerifiedRoster → Type 0
  IsAt epoch (err e) = Unit
  IsAt epoch (ok r) = IsProven r × (r.epoch ≡ epoch)

  abbrev AdvancesTo : ℕ → Result ClientError VerifiedRoster × Client G → Type 0
  AdvancesTo epoch done = Trusts done.1 × IsAt epoch done.0

  step :
      (epoch : ℕ) (current : VerifiedRoster) (old : Option TrustedRoster)
      (done : Result ClientError VerifiedRoster × Client G)
      (later : VerifiedRoster → Act G VerifiedRoster)
      → Proven f chain_id genesis span first current
      → Holds IsProven genesis first old
      → done.1.trusted_roster ≡ old
      → ((r : VerifiedRoster) → done.0 ≡ ok r → Follows f chain_id genesis span current r)
      → ((r : VerifiedRoster) (t : Client G)
          → r.epoch ≡ current.epoch + 1
          → IsProven r
          → Trusts t
          → AdvancesTo epoch (later r t))
      → AdvancesTo epoch (after done (λ r. keep c f setup r >> later r))
  unfolding keep
  step epoch current old (err e, t) later p holds same follows rest =
      (subst (Holds IsProven genesis first) (sym same) holds, tt)
  step epoch current old (ok r, t) later p holds same follows rest =
      let proven = follows r refl in
      let after_one : r.epoch ≡ current.epoch + 1 = Follows-epoch proven in
      let above : first.epoch < r.epoch = omega (arith, Proven-epoch p, after_one) in
      rest r (record t { trusted_roster = keep_roster r t.trusted_roster }) after_one
        (next p proven)
        (keep_roster-Holds IsProven genesis first r t.trusted_roster above (next p proven)
          (subst (Holds IsProven genesis first) (sym same) holds))

  advance-AdvancesTo :
      (rounds epoch : ℕ) (current : VerifiedRoster) (s : Client G)
      → current.epoch ≤ epoch
      → epoch ≤ current.epoch + rounds
      → IsProven current
      → Trusts s
      → AdvancesTo epoch (advance c f setup rounds chain_id genesis span epoch current s)
  unfolding advance
  advance-AdvancesTo zero epoch current s low high p holds = (holds, (p, omega arith))
  advance-AdvancesTo (suc rounds) epoch current s low high p holds =
      elim (Bool-cases (ltb current.epoch epoch)) [
        | inr there ↦ rw (there, advance) (holds, (p, ground (arith, there)))
        | inl before ↦
            rw (before, advance)
              (step epoch current s.trusted_roster
                (next_roster c f setup chain_id genesis span current s)
                (advance c f setup rounds chain_id genesis span epoch) p holds
                (next_roster-Keeps (λ (s : Client G). s.trusted_roster) c f setup (λ s g. refl)
                  chain_id genesis span current s)
                (next_roster-Follows c f setup chain_id genesis span current s)
                (λ r t at proven kept.
                  advance-AdvancesTo rounds epoch r t (ground (arith, before, at))
                    (omega (arith, at)) proven kept))
      ]

  -- What is answered for an epoch: an error, or the genesis and a roster of that epoch.
  abbrev pub IsAnswer : ℕ → Result ClientError (Option (Bytes × List RosterMember)) → Type 0
  IsAnswer epoch (err e) = Unit
  IsAnswer epoch (ok none) = ⊥
  IsAnswer epoch (ok (some (g, members))) =
      (g ≡ genesis)
      × Proven f chain_id genesis span first (record { epoch = epoch; members = members })

  abbrev named_of : Bytes → VerifiedRoster → Act G (Option (Bytes × List RosterMember))
  named_of own current = pure (some (own, current.members))

  answered :
      (epoch : ℕ) (own : Bytes) (done : Result ClientError VerifiedRoster × Client G)
      → own ≡ genesis
      → AdvancesTo epoch done
      → Trusts (after done (named_of own)).1 × IsAnswer epoch (after done (named_of own)).0
  answered epoch own (err e, t) same a = a
  answered epoch own (ok r, t) same a =
      (a.0, (same, subst (λ e. IsProven (record { epoch = e; members = r.members })) a.1.1 a.1.0))

  abbrev advance_named :
      ℕ → Bytes → ℕ × List RosterMember → ℕ → Act G (Option (Bytes × List RosterMember))
  advance_named epoch own r length =
      advance c f setup (epoch - r.0) chain_id own length epoch
        (record { epoch = r.0; members = r.1 })
      >>= named_of own

  with_span :
      (epoch : ℕ) (own : Bytes) (r : ℕ × List RosterMember) (length : Result ClientError ℕ)
      (s : Client G)
      → ((n : ℕ) → length ≡ ok n → n ≡ span)
      → own ≡ genesis
      → IsProven (named r) × (r.0 ≤ epoch)
      → Trusts s
      → Trusts (after (length, s) (advance_named epoch own r)).1
        × IsAnswer epoch (after (length, s) (advance_named epoch own r)).0
  with_span epoch own r (err e) s spans same from holds = (holds, tt)
  with_span epoch own (start, members) (ok n) s spans same from holds =
      let current = named (start, members) in
      rw (spans n refl, same)
        (answered epoch genesis
          (advance c f setup (epoch - start) chain_id genesis span epoch current s) refl
          (advance-AdvancesTo (epoch - start) epoch current s from.1 (omega (arith, from.1)) from.0
            holds))

  pinned_span : (o : Option ℕ) (n : ℕ) → o ≡ some span → pinned_length c f setup o ≡ ok n → n ≡ span
  pinned_span none n at h = absurd (cc)
  pinned_span (some m) n at h = ground (arith, at, h)

  from_last :
      (epoch : ℕ) (own : Bytes) (last : Option (ℕ × List RosterMember)) (s : Client G)
      → setup.epoch_length ≡ some span
      → own ≡ genesis
      → ((r : ℕ × List RosterMember) → last ≡ some r → IsProven (named r) × (r.0 ≤ epoch))
      → Trusts s
      → Trusts (advance_from c f setup chain_id epoch own last s).1
        × IsAnswer epoch (advance_from c f setup chain_id epoch own last s).0
  unfolding advance_from epoch_length
  from_last epoch own none s at same from holds = (holds, tt)
  from_last epoch own (some r) s at same from holds =
      with_span epoch own r (pinned_length c f setup setup.epoch_length) s
        (λ n h. pinned_span setup.epoch_length n at h) same (from r refl) holds

  from_trusted :
      (epoch : ℕ) (o : Option TrustedRoster) (s : Client G)
      → setup.epoch_length ≡ some span
      → Holds IsProven genesis first o
      → Trusts s
      → Trusts (advance_trusted c f setup chain_id epoch o s).1
        × IsAnswer epoch (advance_trusted c f setup chain_id epoch o s).0
  from_trusted epoch none s at held holds = absurd held
  from_trusted epoch (some trusted) s at held holds =
      from_last epoch trusted.genesis (last_upto epoch trusted.rosters) s at held.0
        (λ r found. last_upto-Named IsProven epoch trusted.rosters r held.3 found) holds

  pub already :
      (o : Option TrustedRoster) (pinned commitment : Option Bytes) (s : Client G)
      → Holds IsProven genesis first o
      → anchor_at c f setup o pinned commitment s ≡ (ok true, s)
  unfolding anchor_at
  already none pinned commitment s held = absurd held
  already (some trusted) pinned commitment s held = refl

-- Where an epoch length is pinned, and the rosters of the client are at most 32, in the order of
-- their epochs, that a first one leads to on a chain, each proven under the one before, they are so
-- after any request for a roster of that chain, whatever the gateway answers and however it ends,
-- with the first one still kept. Where it ends well, a roster is given: it is of the epoch asked
-- for, the first one leads to it, and the genesis with it is the trusted one.
pub roster_for_epoch-Proven :
    {G : Type 0} (c : OrderCrates) (f : Crates) (setup : Setup G) (chain_id : ℕ) (genesis : Bytes)
    (span : ℕ) (first : VerifiedRoster) (epoch : ℕ) (s : Client G)
    → setup.epoch_length ≡ some span
    → Trusts c f setup chain_id genesis span first s
    → Trusts c f setup chain_id genesis span first (roster_for_epoch c f setup chain_id epoch s).1
      × IsAnswer c f setup chain_id genesis span first epoch
          (roster_for_epoch c f setup chain_id epoch s).0
unfolding roster_for_epoch anchor_pinned_roster
roster_for_epoch-Proven {G} c f setup chain_id genesis span first epoch s at holds =
    let anchored =
      already c f setup chain_id genesis span first s.trusted_roster setup.genesis_hash
        setup.roster_commitment s holds in
    let whole : roster_for_epoch c f setup chain_id epoch s
        ≡ advance_trusted c f setup chain_id epoch s.trusted_roster s =
      ap
        (λ done. after done (λ b.
          if b
          then (λ (s : Client G). advance_trusted c f setup chain_id epoch s.trusted_roster s)
          else pure none))
        anchored in
    rw whole
      (from_trusted c f setup chain_id genesis span first epoch s.trusted_roster s at holds holds)
