-- ===== src/Client/Sending.antt =====
-- `submit_held` of src/lib.rs: the nonces of a submission.
use qcore_rs.Prelude.{
  ℕ, ◌≡◌, refl, ◌∙◌, Bool, true, false, ◌&&◌, ◌||◌, [], ◌∷◌, Result, ok, err, is_same, list_eq,
  nat_eq, Text, arith, beq_list_iff, ◌==◌, any,
}
use qcore_rs.Map
use qcore_rs.Map.Ordered
use qcore_rs.Session.{SigningSession, held_of, is_held, signed, outcome}
use qcore_rs.Session.Effects.{held-signed}
use qcore_rs.Contract.OrderCall.{OrderCrates}
use qcore_rs.Gateway.{Submit}
use qcore_rs.Signing.{SignedTransfer}
use qcore_rs.Client.{
  Setup, Client, ClientError, after, submit, sign_all, settle_all, submit_held, call_hook,
  is_accepted, settle, ◌>>=◌,
}
use qcore_rs.Client.{Slots}
use qcore_rs.Client.Quiet.{submit-shared}

signed-is_held :
    (s : SigningSession) (key other : Text) (n m : ℕ)
    → is_held (signed s key n) other m ≡ ((is_same key other && n == m) || is_held s other m)
unfolding is_held Ordered.contains_key
signed-is_held s key other n m =
    let own = Ordered.insert n false (held_of s key) in
    rw (held-signed s key n) (
      ground (
        arith,
        Map.get-insert key other own s.held,
        Ordered.get-insert n m false (held_of s key),
        beq_list_iff key other,
      ))

outcome-is_held :
    (s : SigningSession) (key other : Text) (n m : ℕ) (accepted : Bool)
    → is_held (outcome s key n accepted) other m
      ≡ ((accepted && is_same key other && n == m) || is_held s other m)
unfolding outcome is_held Ordered.contains_key
outcome-is_held s key other n m false = refl
outcome-is_held s key other n m true =
    let own = Ordered.insert n true (held_of s key) in
    ground (
      arith,
      Map.get-insert key other own s.held,
      Ordered.get-insert n m true (held_of s key),
      beq_list_iff key other,
    )

-- Whether a key and a nonce are among the slots.
abbrev pub is_slot : Text → ℕ → Slots → Bool
is_slot key n slots = any (λ e. is_same e.0 key && e.1 == n) slots

module _ {G : Type 0} (c : OrderCrates) (setup : Setup G) (key : Text) (n : ℕ) where
  sign_all-is_held :
      (slots : Slots) (s : SigningSession)
      → is_held (sign_all c setup slots s) key n ≡ (is_slot key n slots || is_held s key n)
  unfolding sign_all
  sign_all-is_held [] s = refl
  sign_all-is_held ((k, m) ∷ slots) s =
      sign_all-is_held slots (signed s k m) ∙ ground (arith, signed-is_held s k key m n)

  settle_all-is_held :
      (slots : Slots) (accepted : Bool) (s : SigningSession)
      → is_held (settle_all c setup slots accepted s) key n
        ≡ ((accepted && is_slot key n slots) || is_held s key n)
  unfolding settle_all
  settle_all-is_held [] accepted s = ground arith
  settle_all-is_held ((k, m) ∷ slots) accepted s =
      settle_all-is_held slots accepted (outcome s k m accepted)
      ∙ ground (arith, outcome-is_held s k key m n accepted)

  settled :
      (slots : Slots) (before : Bool) (done : Result ClientError Submit × Client G)
      → is_held done.1.shared key n ≡ (is_slot key n slots || before)
      → is_held (after done (settle c setup slots)).1.shared key n ≡ (is_slot key n slots || before)
  settled slots before (err e, t) h = h
  settled slots before (ok verdict, t) h =
      settle_all-is_held slots (is_accepted verdict) t.shared ∙ ground (arith, h)

  saved :
      (slots : Slots) (tx : SignedTransfer) (s : Client G) (before : Bool)
      (hook : Result ClientError (Unit {0}))
      → is_held s.shared key n ≡ (is_slot key n slots || before)
      → is_held
          (after (hook, s) (λ _. submit c setup tx.tx_bytes >>= settle c setup slots)).1.shared
          key
          n
        ≡ (is_slot key n slots || before)
  saved slots tx s before (err e) h = h
  saved slots tx s before (ok u) h =
      let same = submit-shared c setup tx.tx_bytes s in
      settled slots before (submit c setup tx.tx_bytes s) (rw same h)

-- However a submission ends, in a verdict, in a refusal to save the session, or in an error of the
-- gateway: held afterwards are the nonces that were signed at and those that were held before.
pub submit_held-is_held :
    {G : Type 0} (c : OrderCrates) (setup : Setup G) (slots : Slots) (tx : SignedTransfer)
    (s : Client G) (key : Text) (n : ℕ)
    → is_held (submit_held c setup slots tx s).1.shared key n
      ≡ (is_slot key n slots || is_held s.shared key n)
unfolding submit_held
submit_held-is_held c setup slots tx s key n =
    let t = record s { shared = sign_all c setup slots s.shared } in
    saved c setup key n slots tx t (is_held s.shared key n)
      (call_hook c setup setup.on_signed t.shared) (sign_all-is_held c setup key n slots s.shared)
