-- ===== src/Session/Admission.antt =====
-- When `slot` grants a nonce that the caller does not name, and what it does when the caller names it.
use qcore_rs.Prelude.{
  ℕ, ◌≤◌, ◌<◌, ◌≡◌, ◌≢◌, ◌↔◌, refl, Bool, true, false, none, some, is_ok, ok, if◌then◌else◌,
  list_eq, nat_eq, Text, arith, beq_list_iff, max, inl, inr, Option-cases, ltb,
}
use qcore_rs.Map
use qcore_rs.Map.Ordered
use qcore_rs.Map.Ordered.{OrderedMap, IsSorted}
use qcore_rs.Session.{
  SigningSession, next_nonce, held_of, reserved_of, is_held, slot, release, superseded, is_stale,
  held_refusal, or_default,
}
use qcore_rs.Session.Effects.{held-release, next-release, reserved_of-release}
use qcore_rs.Session.Run.Soundness.{slot-IsSound, release-IsSound}
use qcore_rs.Session.Spent.{IsSound, tracked}

-- What a granted nonce must meet: the session has not moved past it; an order nonce is the tracked
-- one, or 0 where none is tracked; it was not signed at; every lower held nonce was accepted; and
-- no signing in progress reserved it.
pub record IsFree (s : SigningSession) (key : Text) (r : ℕ) (order : Bool) : Type 0 where
  pub reached : (local : ℕ) → next_nonce s key ≡ some local → local ≤ r
  pub in_step : (local : ℕ) → order ≡ true → next_nonce s key ≡ some local → local ≡ r
  pub first : order ≡ true → next_nonce s key ≡ none → r ≡ 0
  pub unheld : is_held s key r ≡ false
  pub settled : (n : ℕ) → n < r → Ordered.get n (held_of s key) ≢ some false
  pub unreserved : Ordered.contains_key r (reserved_of s key) ≡ false

module _ (s : SigningSession) (key : Text) (r : ℕ) (order : Bool) (v : IsSound s) where
  abbrev kept : OrderedMap Bool
  kept = Ordered.retain (superseded r) (held_of s key)

  get-kept :
      (n : ℕ) → Ordered.get n kept ≡ Ordered.kept (superseded r n) (Ordered.get n (held_of s key))
  get-kept n = Ordered.get-retain (superseded r) n (held_of s key) (v.sorted key)

  unstale :
      (n : ℕ) (b : Bool)
      → IsFree s key r order
      → Ordered.get n kept ≡ some b
      → is_stale r n b ≡ false
  unstale n b f g = ground (arith, get-kept n, f.settled n)

  no_stale : IsFree s key r order → Ordered.find_key (is_stale r) kept ≡ none
  no_stale f = elim (Option-cases (Ordered.find_key (is_stale r) kept)) [
    | inl nothing ↦ nothing
    | inr (n, found) ↦
        let (b, at, stale) =
          Ordered.find_key-some (is_stale r) n kept
            (Ordered.retain-IsSorted (superseded r) (held_of s key) (v.sorted key)) found in
        cc (stale, unstale n b f at)
  ]

  held_refusal-kept : IsFree s key r order → held_refusal kept r ≡ none
  unfolding is_held Ordered.contains_key
  held_refusal-kept f = ground (arith, get-kept r, no_stale f, f.unheld)

  grants : IsFree s key r order → (slot s key r none order).0 ≡ ok r
  unfolding slot
  grants f = ground (
    arith,
    held_refusal-kept f,
    f.unreserved,
    f.first,
    f.reached (or_default (next_nonce s key) 0),
    f.in_step (or_default (next_nonce s key) 0),
  )

  granted_settled :
      is_ok (slot s key r none order).0 ≡ true
      → (n : ℕ) → n < r
      → Ordered.get n (held_of s key) ≢ some false
  unfolding slot
  granted_settled h n lt g =
      ground (arith, get-kept n, Ordered.find_key-none (is_stale r) n false kept)

  granted : is_ok (slot s key r none order).0 ≡ true → IsFree s key r order
  unfolding slot is_held Ordered.contains_key
  granted h = record {
    reached = λ local e. ground arith;
    in_step = λ local o e. ground arith;
    first = λ o e. ground arith;
    unheld = ground (arith, get-kept r);
    settled = granted_settled h;
    unreserved = ground arith;
  }

-- In a sound session, a nonce that the caller does not name is granted exactly when it is free.
pub slot_admission :
    (s : SigningSession) (key : Text) (r : ℕ) (order : Bool)
    → IsSound s
    → ((slot s key r none order).0 ≡ ok r) ↔ IsFree s key r order
slot_admission s key r order v = (λ e. granted s key r order v (rw e refl), grants s key r order v)

module _ (s : SigningSession) (key : Text) (r : ℕ) (order : Bool) (v : IsSound s)
    (f : IsFree s key r order) where
  next-slot : next_nonce (slot s key r none order).1 key ≡ some r
  unfolding slot
  next-slot = ground (
    arith,
    held_refusal-kept s key r order v f,
    f.unreserved,
    f.first,
    f.reached (or_default (next_nonce s key) 0),
    f.in_step (or_default (next_nonce s key) 0),
    Map.get-insert key key (max (or_default (next_nonce s key) r) r) s.next,
    beq_list_iff key key,
  )

  held-slot : held_of (slot s key r none order).1 key ≡ kept s key r order v
  unfolding slot
  held-slot = ground (
    arith,
    held_refusal-kept s key r order v f,
    f.unreserved,
    f.first,
    f.reached (or_default (next_nonce s key) 0),
    f.in_step (or_default (next_nonce s key) 0),
    Map.get-insert key key (kept s key r order v) s.held,
    beq_list_iff key key,
  )

  reserved-slot :
      reserved_of (slot s key r none order).1 key ≡ Ordered.insert r tt (reserved_of s key)
  unfolding slot
  reserved-slot = ground (
    arith,
    held_refusal-kept s key r order v f,
    f.unreserved,
    f.first,
    f.reached (or_default (next_nonce s key) 0),
    f.in_step (or_default (next_nonce s key) 0),
    Map.get-insert key key (Ordered.insert r tt (reserved_of s key)) s.reserved,
    beq_list_iff key key,
  )

  freed : IsFree (release (slot s key r none order).1 key r) key r order
  unfolding is_held Ordered.contains_key
  freed = record {
    reached =
        λ local. rw (next-release (slot s key r none order).1 key r, next-slot) (λ e. ground arith);
    in_step = λ local o.
        rw (next-release (slot s key r none order).1 key r, next-slot) (λ e. ground arith);
    first = λ o. rw (next-release (slot s key r none order).1 key r, next-slot) (λ e. cc);
    unheld =
        rw (held-release (slot s key r none order).1 key r, held-slot)
          (ground (arith, get-kept s key r order v r, f.unheld));
    settled = λ n lt.
        rw (held-release (slot s key r none order).1 key r, held-slot)
          (λ g. ground (arith, get-kept s key r order v n, f.settled n));
    unreserved = rw (reserved_of-release (slot s key r none order).1 key r key) (
        ground (
          arith,
          beq_list_iff key key,
          Ordered.get-remove_self r (reserved_of (slot s key r none order).1 key),
        ));
  }

-- A nonce that was granted and then released, with nothing signed, is granted again.
pub slot-release-slot :
    (s : SigningSession) (key : Text) (r : ℕ) (order : Bool)
    → IsSound s
    → (slot s key r none order).0 ≡ ok r
    → (slot (release (slot s key r none order).1 key r) key r none order).0 ≡ ok r
slot-release-slot s key r order v h =
    grants (release (slot s key r none order).1 key r) key r order
      (release-IsSound (slot s key r none order).1 (slot-IsSound s v key r none order) key r)
      (freed s key r order v (granted s key r order v (rw h refl)))

-- A caller who names the reported nonce is granted it, whatever the session remembers: then no nonce
-- up to it is held, the held ones above it stay as they were, and the tracked nonce is the greater
-- of the two.
pub slot_named :
    (s : SigningSession) (key : Text) (r : ℕ) (order : Bool)
    → IsSound s
    → ((slot s key r (some r) order).0 ≡ ok r)
      × ((n : ℕ)
          → Ordered.get n (held_of (slot s key r (some r) order).1 key)
            ≡ (if ltb r n then Ordered.get n (held_of s key) else none))
      × (tracked (slot s key r (some r) order).1 key ≡ max (tracked s key) r)
unfolding slot
slot_named s key r order v = (
  ground arith,
  λ n.
      let first = Ordered.retain (superseded r) (held_of s key) in
      ground (
        arith,
        Map.get-insert key key (Ordered.retain (λ m _. ltb r m) first) s.held,
        beq_list_iff key key,
        Ordered.get-retain (superseded r) n (held_of s key) (v.sorted key),
        Ordered.get-retain (λ m _. ltb r m) n first
            (Ordered.retain-IsSorted (superseded r) (held_of s key) (v.sorted key)),
      ),
  ground (
    arith,
    Map.get-insert key key (max (or_default (Map.get key s.next) r) r) s.next,
    beq_list_iff key key,
  ),
)
