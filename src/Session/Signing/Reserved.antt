-- ===== src/Session/Signing/Reserved.antt =====
-- How the operations change the set of reserved nonces.
use qcore_rs.Prelude.{
  ℕ, ◌≡◌, Bool, true, false, none, some, is_ok, list_eq, nat_eq, Text, arith, beq_list_iff,
}
use qcore_rs.Map
use qcore_rs.Map.Ordered
use qcore_rs.Session
use qcore_rs.Session.{
  SigningSession, SlotError, reserve, reserved_of, held_of, superseded, or_default, with_held,
}
use qcore_rs.Session.Signing.{Ticket, matches}
use qcore_rs.Session.Effects.{reserved_of-release}

-- The nonce stands in the set of reserved ones.
abbrev pub IsReserved : SigningSession → Text → ℕ → Type 0
IsReserved s key n = Ordered.contains_key n (reserved_of s key) ≡ true

module _ (s : SigningSession) (key : Text) (n : ℕ) where
  -- `slot` grants only a nonce that nobody has reserved, and reserves it.
  pub slot-reserves :
      (order : Bool)
      → is_ok (Session.slot s key n none order).0 ≡ true
      → (Ordered.contains_key n (reserved_of s key) ≡ false)
        × IsReserved (Session.slot s key n none order).1 key n
  unfolding Session.slot Ordered.contains_key
  slot-reserves order h = ground (
    arith,
    Map.get-insert key key (Ordered.insert n tt (reserved_of s key)) s.reserved,
    Ordered.get-insert n n tt (reserved_of s key),
    beq_list_iff key key,
  )

  pub slot-keeps-IsReserved :
      (order : Bool) (k : Text) (m : ℕ)
      → IsReserved s k m
      → IsReserved (Session.slot s key n none order).1 k m
  unfolding Session.slot Ordered.contains_key
  slot-keeps-IsReserved order k m h = ground (
    arith,
    Map.get-insert key k (Ordered.insert n tt (reserved_of s key)) s.reserved,
    Ordered.get-insert n m tt (reserved_of s key),
    beq_list_iff key k,
  )

  -- A caller who names the nonce gets it, and it is reserved.
  pub named_reserves : (order : Bool) → IsReserved (Session.slot s key n (some n) order).1 key n
  unfolding Session.slot Ordered.contains_key
  named_reserves order = ground (
    arith,
    Map.get-insert key key (Ordered.insert n tt (reserved_of s key)) s.reserved,
    Ordered.get-insert n n tt (reserved_of s key),
    beq_list_iff key key,
  )

  pub named_keeps-IsReserved :
      (order : Bool) (k : Text) (m : ℕ)
      → IsReserved s k m
      → IsReserved (Session.slot s key n (some n) order).1 k m
  unfolding Session.slot Ordered.contains_key
  named_keeps-IsReserved order k m h = ground (
    arith,
    Map.get-insert key k (Ordered.insert n tt (reserved_of s key)) s.reserved,
    Ordered.get-insert n m tt (reserved_of s key),
    beq_list_iff key k,
  )

  pub release-keeps-IsReserved :
      (t : Ticket)
      → matches key n t ≡ false
      → IsReserved s t.0 t.1
      → IsReserved (Session.release s key n) t.0 t.1
  unfolding Ordered.contains_key
  release-keeps-IsReserved t h r =
      rw (reserved_of-release s key n t.0)
        (ground (arith, beq_list_iff key t.0, Ordered.get-remove_ne n t.1 (reserved_of s key)))
