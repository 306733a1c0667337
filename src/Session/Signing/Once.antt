-- ===== src/Session/Signing/Once.antt =====
-- However the signings of several clients interleave, no nonce is signed at twice.
use qcore_rs.Prelude.{
  ℕ, ◌≤◌, ◌≡◌, refl, Bool, Bool-cases, true, false, Option, none, some, ◌∷◌, beq_list_iff, is_ok,
  list_eq, nat_eq, Text, Bytes, u64_max, All, All-imp, arith, inl, inr,
}
use qcore_rs.Session
use qcore_rs.Session.{
  SigningSession, SlotError, reserve, reserved_of, held_of, superseded, or_default, with_held,
}
use qcore_rs.Session.Known
use qcore_rs.Session.Saved.Kept.{import_state-Keeps}
use qcore_rs.Session.Spent.{IsSound, Spent, slot-Spent}
use qcore_rs.Session.Run
use qcore_rs.Session.Run.{Op, apply}
use qcore_rs.Session.Run.Soundness.{apply-IsSound}
use qcore_rs.Session.Run.Reuse.{keeps-Spent, Spent-signed}
use qcore_rs.Session.Signing.{Ticket, matches, holds, discard, Distinct, World, begin, Step, Reach}
use qcore_rs.Session.Signing.Tickets.{
  All-both, All-every, All-not_holds, All-holds, All-discard, Distinct-discard, holds-cons_ne,
}
use qcore_rs.Session.Signing.Reserved.{
  IsReserved, slot-reserves, slot-keeps-IsReserved, named_reserves, named_keeps-IsReserved,
  release-keeps-IsReserved,
}

-- What the steps keep: the tickets are reserved and unsigned, the signatures spent, none stands twice.
record IsOnce (w : World) : Type 0 where
  sound : IsSound w.session
  reserved : All (λ t. (t.1 ≤ u64_max) × IsReserved w.session t.0 t.1) w.tickets
  apart : Distinct w.tickets
  unsigned : All (λ t. holds t.0 t.1 w.signatures ≡ false) w.tickets
  spent : All (λ t. (t.1 ≤ u64_max) × Spent w.session t.0 t.1) w.signatures
  once : Distinct w.signatures

IsOnce-begin : (s : SigningSession) → IsSound s → IsOnce (begin s)
IsOnce-begin s v = record {
  sound = v;
  reserved = tt;
  apart = tt;
  unsigned = tt;
  spent = tt;
  once = tt;
}

Names-apart :
    (key : Text) (n : ℕ) (order : Bool) (t : Ticket)
    → matches key n t ≡ false
    → ¬ Run.Names t.0 t.1 (Op.slot key n (some n) order)
Names-apart key n order t apart names = ground (arith, apart, names, beq_list_iff key t.0)

module _ (parse : Text → Option Bytes) (w : World) (v : IsOnce w) where
  Spent-after :
      (op : Op)
      → Run.InRange op
      → All (λ t. ¬ Run.Names t.0 t.1 op) w.signatures
      → All (λ t. (t.1 ≤ u64_max) × Spent (apply parse w.session op) t.0 t.1) w.signatures
  Spent-after op hr free =
      All-both (λ t h free. (h.0, keeps-Spent w.session t.0 t.1 v.sound parse op hr h.0 free h.1))
        w.signatures v.spent free

  -- An operation that names no nonce.
  still-Spent :
      (op : Op)
      → Run.InRange op
      → ((t : Ticket) → ¬ Run.Names t.0 t.1 op)
      → All (λ t. (t.1 ≤ u64_max) × Spent (apply parse w.session op) t.0 t.1) w.signatures
  still-Spent op hr free = Spent-after op hr (All-every free w.signatures)

  -- The grant of a nonce: it is fresh among the tickets and among the signatures.
  granted :
      (key : Text) (n : ℕ) (order : Bool)
      → n ≤ u64_max
      → is_ok (Session.slot w.session key n none order).0 ≡ true
      → (holds key n w.tickets ≡ false) × (holds key n w.signatures ≡ false)
  granted key n order hn h = (
    elim (Bool-cases (holds key n w.tickets)) [
      | inl there ↦
          let r =
            All-holds (λ k m. (m ≤ u64_max) × IsReserved w.session k m) key n w.tickets v.reserved
              there in
          cc ((slot-reserves w.session key n order h).0, r.1)
      | inr free ↦ free
    ],
    elim (Bool-cases (holds key n w.signatures)) [
      | inl there ↦
          let r =
            All-holds (λ k m. (m ≤ u64_max) × Spent w.session k m) key n w.signatures v.spent
              there in
          cc (slot-Spent w.session key n order v.sound r.1)
      | inr free ↦ free
    ],
  )

  slot-IsReserved :
      (key : Text) (n : ℕ) (order : Bool)
      → All
          (λ t. (t.1 ≤ u64_max) × IsReserved (Session.slot w.session key n none order).1 t.0 t.1)
          w.tickets
  slot-IsReserved key n order =
      All-imp (λ t h. (h.0, slot-keeps-IsReserved w.session key n order t.0 t.1 h.1)) w.tickets
        v.reserved

  reserve-IsOnce :
      (key : Text) (n : ℕ) (order : Bool)
      → n ≤ u64_max
      → is_ok (Session.slot w.session key n none order).0 ≡ true
      → IsOnce (record w {
        session = (Session.slot w.session key n none order).1;
        tickets = (key, n) ∷ w.tickets;
      })
  reserve-IsOnce key n order hn h = record {
    sound = apply-IsSound w.session v.sound parse (Op.slot key n none order) tt;
    reserved = ((hn, (slot-reserves w.session key n order h).1), slot-IsReserved key n order);
    apart = ((granted key n order hn h).0, v.apart);
    unsigned = ((granted key n order hn h).1, v.unsigned);
    spent = still-Spent (Op.slot key n none order) hn (λ t e. e);
    once = v.once;
  }

  -- A caller names a nonce that nobody has reserved or signed at.
  named-IsOnce :
      (key : Text) (n : ℕ) (order : Bool)
      → n ≤ u64_max
      → holds key n w.tickets ≡ false
      → holds key n w.signatures ≡ false
      → IsOnce (record w {
        session = (Session.slot w.session key n (some n) order).1;
        tickets = (key, n) ∷ w.tickets;
      })
  named-IsOnce key n order hn fresh new = record {
    sound = apply-IsSound w.session v.sound parse (Op.slot key n (some n) order) tt;
    reserved = (
      (hn, named_reserves w.session key n order),
      All-imp (λ t h. (h.0, named_keeps-IsReserved w.session key n order t.0 t.1 h.1)) w.tickets
          v.reserved,
    );
    apart = (fresh, v.apart);
    unsigned = (new, v.unsigned);
    spent = Spent-after (Op.slot key n (some n) order) hn (
        All-imp (λ t apart. Names-apart key n order t apart) w.signatures
          (All-not_holds key n w.signatures new));
    once = v.once;
  }

  refused-IsOnce :
      (key : Text) (n : ℕ) (order : Bool)
      → n ≤ u64_max
      → IsOnce (record w { session = (Session.slot w.session key n none order).1 })
  refused-IsOnce key n order hn = record {
    sound = apply-IsSound w.session v.sound parse (Op.slot key n none order) tt;
    reserved = slot-IsReserved key n order;
    apart = v.apart;
    unsigned = v.unsigned;
    spent = still-Spent (Op.slot key n none order) hn (λ t e. e);
    once = v.once;
  }

  released :
      (key : Text) (n : ℕ)
      → All
          (λ t. (t.1 ≤ u64_max) × IsReserved (Session.release w.session key n) t.0 t.1)
          (discard key n w.tickets)
  released key n =
      All-imp (λ t h. (h.0.0, release-keeps-IsReserved w.session key n t h.1 h.0.1))
        (discard key n w.tickets)
        (All-discard (λ t. (t.1 ≤ u64_max) × IsReserved w.session t.0 t.1) key n w.tickets
          v.reserved)

  signed-IsReserved :
      (key : Text) (n : ℕ)
      → All
          (λ t. (t.1 ≤ u64_max) × IsReserved (Session.signed w.session key n) t.0 t.1)
          (discard key n w.tickets)
  unfolding Session.signed
  signed-IsReserved key n = released key n

  sign-IsOnce :
      (key : Text) (n : ℕ)
      → holds key n w.tickets ≡ true
      → IsOnce (record {
        session = Session.signed w.session key n;
        tickets = discard key n w.tickets;
        signatures = (key, n) ∷ w.signatures;
      })
  sign-IsOnce key n h =
      let range =
        All-holds (λ k m. (m ≤ u64_max) × IsReserved w.session k m) key n w.tickets v.reserved h in
      let fresh = All-holds (λ k m. holds k m w.signatures ≡ false) key n w.tickets v.unsigned h in
      record {
        sound = apply-IsSound w.session v.sound parse (Op.signed key n) tt;
        reserved = signed-IsReserved key n;
        apart = Distinct-discard key n w.tickets v.apart;
        unsigned =
            All-imp (λ t a. holds-cons_ne key n t w.signatures a.1 a.0) (discard key n w.tickets)
              (All-discard (λ t. holds t.0 t.1 w.signatures ≡ false) key n w.tickets v.unsigned);
        spent = (
          (range.0, Spent-signed w.session key n),
          still-Spent (Op.signed key n) range.0 (λ t e. e),
        );
        once = (fresh, v.once);
      }

  give_up-IsOnce :
      (key : Text) (n : ℕ)
      → IsOnce (record w {
        session = Session.release w.session key n;
        tickets = discard key n w.tickets;
      })
  give_up-IsOnce key n = record {
    sound = apply-IsSound w.session v.sound parse (Op.release key n) tt;
    reserved = released key n;
    apart = Distinct-discard key n w.tickets v.apart;
    unsigned =
        All-imp (λ t a. a.0) (discard key n w.tickets)
          (All-discard (λ t. holds t.0 t.1 w.signatures ≡ false) key n w.tickets v.unsigned);
    spent = still-Spent (Op.release key n) tt (λ t e. e);
    once = v.once;
  }

  -- An operation that leaves the reservations alone.
  other-IsOnce :
      (op : Op)
      → Run.InRange op
      → Run.IsCovered op
      → ((t : Ticket) → ¬ Run.Names t.0 t.1 op)
      → (apply parse w.session op).reserved ≡ w.session.reserved
      → IsOnce (record w { session = apply parse w.session op })
  other-IsOnce op hr covered free same = record {
    sound = apply-IsSound w.session v.sound parse op covered;
    reserved = rw same v.reserved;
    apart = v.apart;
    unsigned = v.unsigned;
    spent = still-Spent op hr free;
    once = v.once;
  }

  settle-reserved :
      (key : Text) (n : ℕ) (accepted : Bool)
      → (Session.outcome w.session key n accepted).reserved ≡ w.session.reserved
  unfolding Session.outcome
  settle-reserved key n accepted = ground arith

  note_head-reserved :
      (chain : Text) (height wall_secs : ℕ)
      → (Session.note_head w.session chain height wall_secs).reserved ≡ w.session.reserved
  unfolding Session.note_head
  note_head-reserved chain height wall_secs = refl

  remember-reserved :
      (address : Text)
      → (Known.remember_address parse w.session address).reserved ≡ w.session.reserved
  unfolding Known.remember_address
  remember-reserved address = ground arith

Step-IsOnce : {parse : Text → Option Bytes} {w u : World} → Step parse w u → IsOnce w → IsOnce u
Step-IsOnce {parse} {w} (Step.reserve key n order hn h) v =
    reserve-IsOnce parse w v key n order hn h
Step-IsOnce {parse} {w} (Step.refused key n order hn h) v = refused-IsOnce parse w v key n order hn
Step-IsOnce {parse} {w} (Step.sign key n h) v = sign-IsOnce parse w v key n h
Step-IsOnce {parse} {w} (Step.give_up key n) v = give_up-IsOnce parse w v key n
Step-IsOnce {parse} {w} (Step.settle key n accepted hn) v =
    other-IsOnce parse w v (Op.outcome key n accepted) hn tt (λ t e. e)
      (settle-reserved parse w v key n accepted)
Step-IsOnce {parse} {w} (Step.note_head chain height wall_secs) v =
    other-IsOnce parse w v (Op.note_head chain height wall_secs) tt tt (λ t e. e)
      (note_head-reserved parse w v chain height wall_secs)
Step-IsOnce {parse} {w} (Step.remember address) v =
    other-IsOnce parse w v (Op.remember_address address) tt tt (λ t e. e)
      (remember-reserved parse w v address)
Step-IsOnce {parse} {w} (Step.named key n order hn t u) v =
    named-IsOnce parse w v key n order hn t u
Step-IsOnce {parse} {w} (Step.import_state state c) v =
    other-IsOnce parse w v (Op.import_state state) tt c (λ t e. e)
      (import_state-Keeps w.session state).reserves

Reach-IsOnce : {parse : Text → Option Bytes} {w u : World} → IsOnce w → Reach parse w u → IsOnce u
Reach-IsOnce v Reach.here = v
Reach-IsOnce v (Reach.next r st) = Step-IsOnce st (Reach-IsOnce v r)

-- From a sound session with no signing in progress, in whatever order the clients take their steps,
-- no key is signed for twice at one nonce, and no nonce that awaits its signature was signed at. The
-- conditions are those of the steps: the nonces are u64; a client takes the reported nonce, or names
-- one that no client has reserved now and none has signed at since the start; it signs only at a nonce
-- that was granted and not given up; in each imported text every accepted nonce lies below the tracked
-- one of its key or is the greatest u64; and reservations are given up one at a time, not by
-- `release_pending`.
pub one_nonce_one_signature :
    (parse : Text → Option Bytes) (s : SigningSession) (w : World)
    → IsSound s
    → Reach parse (begin s) w
    → Distinct w.signatures × All (λ t. holds t.0 t.1 w.signatures ≡ false) w.tickets
one_nonce_one_signature parse s w v r =
    let once = Reach-IsOnce (IsOnce-begin s v) r in (once.once, once.unsigned)
