-- ===== src/Session/Effects.antt =====
-- What the operations on one nonce leave of the fields of the session.
use qcore_rs.Prelude.{
  ℕ, ◌≡◌, false, if◌then◌else◌, list_eq, nat_eq, is_same, Text, arith, inl, inr, Option-cases,
  beq_list_iff,
}
use qcore_rs.Map
use qcore_rs.Map.{Map}
use qcore_rs.Map.Ordered
use qcore_rs.Map.Ordered.{OrderedMap, OrderedSet, IsSorted}
use qcore_rs.Session.{
  SigningSession, SlotError, new, or_default, next_nonce, held_of, is_held, superseded, with_held,
  reserve,
}
use qcore_rs.Session
use qcore_rs.Session.{reserved_of}

module _ (s : SigningSession) (k : Text) (m : ℕ) where
  pub held-release : (Session.release s k m).held ≡ s.held
  unfolding Session.release
  held-release = ground arith

  pub next-release : (Session.release s k m).next ≡ s.next
  unfolding Session.release
  next-release = ground arith

  pub held-signed :
      (Session.signed s k m).held ≡ Map.insert k (Ordered.insert m false (held_of s k)) s.held
  unfolding Session.signed
  held-signed = rw held-release

  pub next-signed : (Session.signed s k m).next ≡ s.next
  unfolding Session.signed
  next-signed = next-release

  pub reserved_of-release :
      (j : Text)
      → reserved_of (Session.release s k m) j
        ≡ (if is_same k j then Ordered.remove m (reserved_of s k) else reserved_of s j)
  unfolding Session.release Ordered.remove
  reserved_of-release j = elim (Option-cases (Map.get k s.reserved)) [
    | inl e ↦ rw (e, Session.release) (ground (arith, beq_list_iff k j))
    | inr (set, e) ↦ rw (e, Session.release) (rw Map.get-insert (ground (arith, beq_list_iff k j)))
  ]
