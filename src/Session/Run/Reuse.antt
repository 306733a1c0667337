-- ===== src/Session/Run/Reuse.antt =====
-- A spent nonce stays spent in every run that does not name it.
use qcore_rs.Prelude.{
  ℕ, ◌≤◌, max, ◌≡◌, ◌≢◌, Bool, true, false, Option, none, some, List, [], ◌∷◌, is_ok, ltb, list_eq,
  nat_eq, Text, Bytes, saturating_add, u64_max, arith, All, beq_list_iff, inl, inr, Option-cases,
}
use qcore_rs.Map
use qcore_rs.Map.{Map}
use qcore_rs.Map.Ordered
use qcore_rs.Map.Ordered.{OrderedMap, OrderedSet, IsSorted}
use qcore_rs.Session.{
  SigningSession, SlotError, new, or_default, next_nonce, held_of, is_held, superseded, with_held,
  reserve,
}
use qcore_rs.Session
use qcore_rs.Session.Known
use qcore_rs.Session.Saved
use qcore_rs.Session.Saved.Kept.{import_state-Keeps}
use qcore_rs.Session.Spent.{IsSound, Spent}
use qcore_rs.Session.Effects.{held-release, next-release, held-signed, next-signed}
use qcore_rs.Session.Run.{Op, apply, run, Names, InRange, IsCovered}
use qcore_rs.Session.Run.Soundness.{apply-IsSound}
use qcore_rs.Session.Spent.{slot-Spent}

module _ (s : SigningSession) (key : Text) (n : ℕ) (v : IsSound s) where
  slot-keeps-Spent :
      (k : Text) (r : ℕ) (expected : Option ℕ) (order : Bool)
      → r ≤ u64_max
      → n ≤ u64_max
      → ¬ Names key n (Op.slot k r expected order)
      → Spent s key n
      → Spent (Session.slot s k r expected order).1 key n
  unfolding Session.slot is_held Ordered.contains_key
  slot-keeps-Spent k r none order hr hn free h = ground (
    arith,
    Ordered.get-retain (superseded r) n (held_of s k) (v.sorted k),
    beq_list_iff k key,
    Map.get-insert k key (Ordered.retain (superseded r) (held_of s k)) s.held,
    Map.get-insert k key (max (or_default (Map.get k s.next) r) r) s.next,
    v.covered key n,
  )
  slot-keeps-Spent k r (some e) order hr hn free h =
      let apart : k ≡ key → r ≢ n = λ p q. free (p, q) in
      let kept = Ordered.retain (superseded r) (held_of s k) in
      ground (
        arith,
        apart,
        Ordered.get-retain (superseded r) n (held_of s k) (v.sorted k),
        Ordered.get-retain (λ slot _. ltb r slot) n kept
            (Ordered.retain-IsSorted (superseded r) (held_of s k) (v.sorted k)),
        beq_list_iff k key,
        Map.get-insert k key (Ordered.retain (λ slot _. ltb r slot) kept) s.held,
        Map.get-insert k key (max (or_default (Map.get k s.next) r) r) s.next,
        v.covered key n,
      )

  signed-keeps-Spent : (k : Text) (m : ℕ) → Spent s key n → Spent (Session.signed s k m) key n
  unfolding is_held Ordered.contains_key
  signed-keeps-Spent k m h =
      rw (held-signed s k m, next-signed s k m)
        (ground (
          arith,
          beq_list_iff k key,
          Map.get-insert k key (Ordered.insert m false (held_of s k)) s.held,
          Ordered.get-insert m n false (held_of s k),
        ))

  outcome-keeps-Spent :
      (k : Text) (m : ℕ) → m ≤ u64_max → Spent s key n → Spent (Session.outcome s k m true) key n
  unfolding Session.outcome is_held Ordered.contains_key
  outcome-keeps-Spent k m hm h = ground (
    arith,
    beq_list_iff k key,
    Map.get-insert k key (Ordered.insert m true (held_of s k)) s.held,
    Map.get-insert k key (max (or_default (Map.get k s.next) 0) (saturating_add u64_max m 1))
        s.next,
    Ordered.get-insert m n true (held_of s k),
  )

  release-keeps-Spent : (k : Text) (m : ℕ) → Spent s key n → Spent (Session.release s k m) key n
  unfolding is_held
  release-keeps-Spent k m h = rw (held-release s k m, next-release s k m) h

  remember-keeps-Spent :
      (parse : Text → Option Bytes) (a : Text)
      → Spent s key n
      → Spent (Known.remember_address parse s a) key n
  unfolding Known.remember_address is_held
  remember-keeps-Spent parse a h = ground arith

  import-keeps-Spent : (state : Text) → Spent s key n → Spent (Saved.import_state s state).1 key n
  import-keeps-Spent state (inl h) = inl ((import_state-Keeps s state).holds key n h)
  import-keeps-Spent state (inr h) = elim (Option-cases (next_nonce s key)) [
    | inl e ↦ absurd (ground (arith, h, e))
    | inr (m, e) ↦
        let (k, at, le) = (import_state-Keeps s state).tracks key m e in
        inr (ground (arith, h, e, at, le))
  ]

  -- Every operation that does not name the nonce keeps it spent.
  pub keeps-Spent :
      (parse : Text → Option Bytes) (op : Op)
      → InRange op
      → n ≤ u64_max
      → ¬ Names key n op
      → Spent s key n
      → Spent (apply parse s op) key n
  unfolding Session.release_pending Session.note_head Session.outcome is_held
  keeps-Spent parse (Op.slot k r e o) hr hn free h = slot-keeps-Spent k r e o hr hn free h
  keeps-Spent parse (Op.signed k m) hr hn free h = signed-keeps-Spent k m h
  keeps-Spent parse (Op.outcome k m true) hr hn free h = outcome-keeps-Spent k m hr h
  keeps-Spent parse (Op.outcome k m false) hr hn free h = h
  keeps-Spent parse (Op.release k m) hr hn free h = release-keeps-Spent k m h
  keeps-Spent parse (Op.release_pending k) hr hn free h = h
  keeps-Spent parse (Op.note_head c m w) hr hn free h = h
  keeps-Spent parse (Op.remember_address a) hr hn free h = remember-keeps-Spent parse a h
  keeps-Spent parse (Op.import_state state) hr hn free h = import-keeps-Spent state h

run-keeps-Spent :
    (parse : Text → Option Bytes) (s : SigningSession) (key : Text) (n : ℕ) (ops : List Op)
    → IsSound s
    → n ≤ u64_max
    → All InRange ops
    → All IsCovered ops
    → All (λ op. ¬ Names key n op) ops
    → Spent s key n
    → IsSound (run parse s ops) × Spent (run parse s ops) key n
run-keeps-Spent parse s key n [] v hn hr c free h = (v, h)
run-keeps-Spent parse s key n (op ∷ ops) v hn hr c free h =
    run-keeps-Spent parse (apply parse s op) key n ops (apply-IsSound s v parse op c.0) hn hr.1 c.1
      free.1 (keeps-Spent s key n v parse op hr.0 hn free.0 h)

pub Spent-signed : (s : SigningSession) (key : Text) (n : ℕ) → Spent (Session.signed s key n) key n
unfolding is_held Ordered.contains_key
Spent-signed s key n = rw (held-signed s key n) (
    ground (
      arith,
      Map.get-insert key key (Ordered.insert n false (held_of s key)) s.held,
      Ordered.get-insert n n false (held_of s key),
      beq_list_iff key key,
    ))

-- In a sound session, once `signed` has recorded a nonce, a request that does not name the nonce is
-- refused there after any run of the session's operations, imports among them. The conditions are that
-- the nonces of the operations are u64, that none of them names this nonce for this key, and that in
-- each imported text every accepted nonce lies below the tracked one of its key or is the greatest u64.
pub no_second_signature :
    (parse : Text → Option Bytes) (s : SigningSession) (key : Text) (n : ℕ) (ops : List Op)
    (order : Bool)
    → IsSound s
    → n ≤ u64_max
    → All InRange ops
    → All IsCovered ops
    → All (λ op. ¬ Names key n op) ops
    → is_ok (Session.slot (run parse (Session.signed s key n) ops) key n none order).0 ≡ false
no_second_signature parse s key n ops order v hn hr c free =
    let after =
      run-keeps-Spent parse (Session.signed s key n) key n ops
        (apply-IsSound s v parse (Op.signed key n) tt) hn hr c free (Spent-signed s key n) in
    slot-Spent (run parse (Session.signed s key n) ops) key n order after.0 after.1
