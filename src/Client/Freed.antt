-- ===== src/Client/Freed.antt =====
-- `sign_and_submit` of src/lib.rs, where the genesis or the signing is refused.
use qcore_rs.Prelude.{
  ℕ, ◌≡◌, refl, sym, ap, ◌∙◌, false, none, List, [], ◌∷◌, Result, ok, err, is_ok, Text, Bytes,
  arith, map_err, map_err_ok,
}
use qcore_rs.Session.{SigningSession, slot, release}
use qcore_rs.Session.Spent.{IsSound}
use qcore_rs.Session.Admission.{slot-release-slot}
use qcore_rs.Contract.OrderCall.{OrderCrates}
use qcore_rs.Gateway.{NodeInfo}
use qcore_rs.Signing.{SignedTransfer, SignError}
use qcore_rs.Client.{
  Setup, Client, ClientError, Act, Slots, after, give, pure, account, account_slot_key,
  checked_nonce, slot_of, signing_genesis, sign_and_submit, signing_part, submit_held,
  remember_targets, dropping, release_all, ◌>>=◌, ◌>>◌,
}
use qcore_rs.Client.Acts.{act_ok, keeps_shared}
use qcore_rs.Client.Quiet.{account-shared, signing_genesis-shared}

slot_reported :
    (s : SigningSession) (key : Text) (reported r : ℕ)
    → (slot s key reported none false).0 ≡ ok r
    → reported ≡ r
unfolding slot
slot_reported s key reported r h = ground arith

inner :
    (own key : Text) (n r : ℕ)
    → ◌≡◌ {A = Result ClientError (Text × ℕ)} (ok (own, n)) (ok (key, r))
    → (own ≡ key) × (n ≡ r)
inner own key n r e = (cc, cc)

slot_moved :
    (t s : SigningSession) (own key : Text) (reported n r : ℕ)
    → t ≡ s
    → reported ≡ n
    → (own ≡ key) × (n ≡ r)
    → (slot t own reported none false).0 ≡ ok n
    → ((slot s key r none false).0 ≡ ok r)
      × ((slot t own reported none false).1 ≡ (slot s key r none false).1)
slot_moved t s own key reported n r same there both granted =
    let nonce = both.1 in
    let name = both.0 in
    let moved : slot t own reported none false ≡ slot s key r none false = cc in
    (ap (λ x. x.0) (sym moved) ∙ granted ∙ ap ok nonce, ap (λ x. x.1) moved)

module _ {G : Type 0} (c : OrderCrates) (setup : Setup G) where
  -- What a granted nonce leaves in the shared session.
  nonce_granted :
      (info : NodeInfo) (sender key : Text) (r : ℕ) (s : Client G)
      → (checked_nonce c setup info sender none s).0 ≡ ok (key, r)
      → ((slot s.shared key r none false).0 ≡ ok r)
        × ((checked_nonce c setup info sender none s).1.shared ≡ (slot s.shared key r none false).1)
  unfolding checked_nonce
  nonce_granted info sender key r s h =
      let t = (account c setup sender s).1 in
      let own = account_slot_key info.chain_id sender in
      let (reported, e1, p1) = act_ok (account c setup sender s) _ (key, r) h in
      let taken = slot t.shared own reported.nonce none false in
      let (n, e2, p2) =
        act_ok (slot_of c setup own reported.nonce none false t) _ (key, r)
          (ap (λ x. x.0) (sym p1) ∙ h) in
      let granted = map_err_ok ClientError.slot_refused taken.0 n e2 in
      let same : t.shared ≡ s.shared = account-shared c setup sender s in
      let there = slot_reported t.shared own reported.nonce n granted in
      let pair = ap (λ x. x.0) (sym (p1 ∙ p2)) ∙ h in
      let (first, left) =
        slot_moved t.shared s.shared own key reported.nonce n r same there (inner own key n r pair)
          granted in
      (first, ap (λ x. x.1.shared) (p1 ∙ p2) ∙ left)

  stopped :
      {B : Type 0} (signed : Result SignError SignedTransfer) (rest : SignedTransfer → Act G B)
      (s : Client G)
      → is_ok signed ≡ false
      → (after (give (map_err ClientError.sign signed) s) rest).1.shared ≡ s.shared
  stopped (err e) rest s h = refl
  stopped (ok tx) rest s h = absurd (cc)

  signing_part-shared :
      (info : NodeInfo) (slots : Slots) (targets : List Text)
      (signing : Bytes → Result SignError SignedTransfer) (s : Client G)
      → ((genesis : Bytes)
          → (signing_genesis c setup info s).0 ≡ ok genesis
          → is_ok (signing genesis) ≡ false)
      → (signing_part c setup info slots targets signing s).1.shared ≡ s.shared
  unfolding signing_part
  signing_part-shared info slots targets signing s refused =
      let rest = λ (tx : SignedTransfer).
        remember_targets c setup targets
        >> (submit_held c setup slots tx >>= λ verdict. pure (tx, verdict)) in
      let found = signing_genesis c setup info s in
      keeps_shared found (λ genesis. give (map_err ClientError.sign (signing genesis)) >>= rest)
        (λ genesis given. stopped (signing genesis) rest found.1 (refused genesis given))
      ∙ signing_genesis-shared c setup info s

-- From a sound session, where a nonce was granted that the caller did not name and nothing was signed
-- at it, the session grants it again. That nothing was signed means that the signing refuses the
-- genesis that `signing_genesis` gives, where it gives one; where it refuses, there is no condition.
pub sign_and_submit-slot :
    {G : Type 0} (c : OrderCrates) (setup : Setup G) (info : NodeInfo) (sender key : Text)
    (targets : List Text) (signing : ℕ → Bytes → Result SignError SignedTransfer) (r : ℕ)
    (s : Client G)
    → IsSound s.shared
    → (checked_nonce c setup info sender none s).0 ≡ ok (key, r)
    → ((genesis : Bytes)
        → (signing_genesis c setup info (checked_nonce c setup info sender none s).1).0 ≡ ok genesis
        → is_ok (signing r genesis) ≡ false)
    → (slot
        (sign_and_submit c setup info sender none targets signing s).1.shared
        key
        r
        none
        false).0
      ≡ ok r
unfolding sign_and_submit release_all
sign_and_submit-slot c setup info sender key targets signing r s v h refused =
    let t = (checked_nonce c setup info sender none s).1 in
    let (granted, left) = nonce_granted c setup info sender key r s h in
    let kept : (signing_part c setup info ((key, r) ∷ []) targets (signing r) t).1.shared
        ≡ t.shared =
      signing_part-shared c setup info ((key, r) ∷ []) targets (signing r) t refused in
    let whole =
      ap
        (λ x.
          (after (x, t)
            (λ e.
              dropping c setup ((e.0, e.1) ∷ [])
                (signing_part c setup info ((e.0, e.1) ∷ []) targets (signing e.1)))).1.shared)
        h in
    let freed = ap (λ x. release x key r) (kept ∙ left) in
    ap (λ x. (slot x key r none false).0) (whole ∙ freed)
    ∙ slot-release-slot s.shared key r false v granted
