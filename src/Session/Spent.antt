-- ===== src/Session/Spent.antt =====
-- A nonce that this session signed stays refused until the caller names it.
use qcore_rs.Prelude.{
  ℕ, ◌≤◌, ◌<◌, ◌≡◌, Bool, true, false, none, some, is_ok, if◌then◌else◌, list_eq, nat_eq, is_same,
  Text, u64_max, arith, ◌⊎◌,
}
use qcore_rs.Map
use qcore_rs.Map.{Map}
use qcore_rs.Map.Ordered
use qcore_rs.Map.Ordered.{OrderedMap, OrderedSet, IsSorted}
use qcore_rs.Session.{
  SigningSession, new, or_default, next_nonce, held_of, is_held, superseded, with_held, slot,
}

-- The tracked nonce, 0 where none is tracked.
abbrev pub tracked : SigningSession → Text → ℕ
tracked s key = or_default (next_nonce s key) 0

-- Every map of held nonces is in order, and a held nonce that was accepted lies below the tracked
-- one (the greatest u64 has no successor to track).
pub record IsSound (s : SigningSession) : Type 0 where
  pub sorted : (key : Text) → IsSorted (held_of s key)
  pub covered :
      (key : Text) (n : ℕ)
      → Ordered.get n (held_of s key) ≡ some true
      → (n < tracked s key) ⊎ (u64_max ≤ n)

-- The nonce is held, or the session has moved past it.
abbrev pub Spent : SigningSession → Text → ℕ → Type 0
Spent s key n = (is_held s key n ≡ true) ⊎ (n < tracked s key)

pub IsSound-new : IsSound new
unfolding Map.get Ordered.get
IsSound-new = record { sorted = λ key. tt; covered = λ key n h. cc }

held_of-with_held :
    (s : SigningSession) (key : Text) (h : OrderedMap Bool) (j : Text)
    → held_of (with_held s key h) j ≡ (if is_same key j then h else held_of s j)
held_of-with_held s key h j = simp Map.get-insert (ground arith)

-- An unnamed request for a spent nonce is refused.
pub slot-Spent :
    (s : SigningSession) (key : Text) (n : ℕ) (order : Bool)
    → IsSound s
    → Spent s key n
    → is_ok (slot s key n none order).0 ≡ false
unfolding slot is_held Ordered.contains_key
slot-Spent s key n order v h =
    ground (arith, Ordered.get-retain (superseded n) n (held_of s key) (v.sorted key))
