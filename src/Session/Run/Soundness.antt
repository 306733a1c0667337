-- ===== src/Session/Run/Soundness.antt =====
-- The operations of a run keep the session sound.
use qcore_rs.Prelude.{
  ℕ, ◌≤◌, ◌<◌, max, ◌≡◌, Bool, true, false, Option, none, some, List, [], ◌∷◌, ltb, list_eq, nat_eq,
  Text, Bytes, saturating_add, u64_max, arith, ◌⊎◌, beq_list_iff, All,
}
use qcore_rs.Map
use qcore_rs.Map.{Map}
use qcore_rs.Map.Ordered
use qcore_rs.Map.Ordered.{OrderedMap, OrderedSet, IsSorted}
use qcore_rs.Session.{
  SigningSession, SlotError, new, or_default, next_nonce, held_of, is_held, superseded, with_held,
  reserve,
}
use qcore_rs.Session
use qcore_rs.Session.Known
use qcore_rs.Session.Saved.Covered.{import_state-IsSound}
use qcore_rs.Session.Spent.{tracked, IsSound}
use qcore_rs.Session.Effects.{held-release, next-release, held-signed, next-signed}
use qcore_rs.Session.Run.{Op, IsCovered, apply, run}

module _ (s : SigningSession) (v : IsSound s) where
  reserve-IsSorted :
      (k : Text) (r : ℕ) (named : Bool) (h : OrderedMap Bool) (key : Text)
      → IsSorted h
      → IsSorted (held_of (reserve (with_held s k h) k r named).1 key)
  unfolding reserve
  reserve-IsSorted k r named h key sorted =
      ground (arith, Map.get-insert k key h s.held, beq_list_iff k key, v.sorted key)

  reserve-covers :
      (k : Text) (r : ℕ) (named : Bool) (h : OrderedMap Bool) (key : Text) (n : ℕ)
      → (Ordered.get n h ≡ some true → (n < tracked s k) ⊎ (u64_max ≤ n))
      → Ordered.get n (held_of (reserve (with_held s k h) k r named).1 key) ≡ some true
      → (n < tracked (reserve (with_held s k h) k r named).1 key) ⊎ (u64_max ≤ n)
  unfolding reserve
  reserve-covers k r named h key n covered g = ground (
    arith,
    beq_list_iff k key,
    Map.get-insert k key h s.held,
    Map.get-insert k key (max (or_default (Map.get k s.next) r) r) s.next,
    v.covered key n,
  )

  with_held-IsSound :
      (k : Text) (h : OrderedMap Bool)
      → IsSorted h
      → ((n : ℕ) → Ordered.get n h ≡ some true → (n < tracked s k) ⊎ (u64_max ≤ n))
      → IsSound (with_held s k h)
  with_held-IsSound k h sorted covered = record {
    sorted = λ key. ground (arith, Map.get-insert k key h s.held, beq_list_iff k key, v.sorted key);
    covered = λ key n g.
        ground
          (arith, Map.get-insert k key h s.held, beq_list_iff k key, v.covered key n, covered n);
  }

  reserve-IsSound :
      (k : Text) (r : ℕ) (named : Bool) (h : OrderedMap Bool)
      → IsSorted h
      → ((n : ℕ) → Ordered.get n h ≡ some true → (n < tracked s k) ⊎ (u64_max ≤ n))
      → IsSound (reserve (with_held s k h) k r named).1
  reserve-IsSound k r named h sorted covered = record {
    sorted = λ key. reserve-IsSorted k r named h key sorted;
    covered = λ key n. reserve-covers k r named h key n (covered n);
  }

  module _ (k : Text) (r : ℕ) where
    abbrev kept_unnamed : OrderedMap Bool
    kept_unnamed = Ordered.retain (superseded r) (held_of s k)

    abbrev kept_named : OrderedMap Bool
    kept_named = Ordered.retain (λ n _. ltb r n) kept_unnamed

    kept_unnamed-IsSorted : IsSorted kept_unnamed
    kept_unnamed-IsSorted = Ordered.retain-IsSorted (superseded r) (held_of s k) (v.sorted k)

    kept_unnamed-covered :
        (n : ℕ) → Ordered.get n kept_unnamed ≡ some true → (n < tracked s k) ⊎ (u64_max ≤ n)
    kept_unnamed-covered n g =
        ground
          (arith, Ordered.get-retain (superseded r) n (held_of s k) (v.sorted k), v.covered k n)

    kept_named-covered :
        (n : ℕ) → Ordered.get n kept_named ≡ some true → (n < tracked s k) ⊎ (u64_max ≤ n)
    kept_named-covered n g = ground (
      arith,
      Ordered.get-retain (λ m _. ltb r m) n kept_unnamed kept_unnamed-IsSorted,
      kept_unnamed-covered n,
    )

  pub slot-IsSound :
      (k : Text) (r : ℕ) (expected : Option ℕ) (order : Bool)
      → IsSound (Session.slot s k r expected order).1
  unfolding Session.slot
  slot-IsSound k r (some e) order = ground (
    arith,
    v,
    reserve-IsSound k r true (kept_named k r)
        (Ordered.retain-IsSorted (λ n _. ltb r n) (kept_unnamed k r) (kept_unnamed-IsSorted k r))
        (kept_named-covered k r),
  )
  slot-IsSound k r none order = ground (
    arith,
    v,
    with_held-IsSound k (kept_unnamed k r) (kept_unnamed-IsSorted k r) (kept_unnamed-covered k r),
    reserve-IsSound k r false (kept_unnamed k r) (kept_unnamed-IsSorted k r)
        (kept_unnamed-covered k r),
  )

  pub signed-IsSound : (k : Text) (m : ℕ) → IsSound (Session.signed s k m)
  signed-IsSound k m = record {
    sorted = λ key. rw (held-signed s k m) (
        ground (
          arith,
          Map.get-insert k key (Ordered.insert m false (held_of s k)) s.held,
          beq_list_iff k key,
          v.sorted key,
          Ordered.insert-IsSorted m false (held_of s k),
        ));
    covered = λ key n.
        rw (held-signed s k m, next-signed s k m)
          (λ g. ground (
            arith,
            Map.get-insert k key (Ordered.insert m false (held_of s k)) s.held,
            beq_list_iff k key,
            Ordered.get-insert m n false (held_of s k),
            v.covered key n,
          ));
  }

  pub outcome-IsSound : (k : Text) (m : ℕ) → IsSound (Session.outcome s k m true)
  unfolding Session.outcome
  outcome-IsSound k m = record {
    sorted = λ key. ground (
      arith,
      Map.get-insert k key (Ordered.insert m true (held_of s k)) s.held,
      beq_list_iff k key,
      v.sorted key,
      Ordered.insert-IsSorted m true (held_of s k),
    );
    covered = λ key n g. ground (
      arith,
      Map.get-insert k key (Ordered.insert m true (held_of s k)) s.held,
      Map.get-insert k key (max (or_default (Map.get k s.next) 0) (saturating_add u64_max m 1))
          s.next,
      beq_list_iff k key,
      Ordered.get-insert m n true (held_of s k),
      v.covered key n,
    );
  }

  pub release-IsSound : (k : Text) (m : ℕ) → IsSound (Session.release s k m)
  release-IsSound k m = record {
    sorted = λ key. rw (held-release s k m) (v.sorted key);
    covered = λ key n. rw (held-release s k m, next-release s k m) (v.covered key n);
  }

  remember-IsSound :
      (parse : Text → Option Bytes) (a : Text) → IsSound (Known.remember_address parse s a)
  unfolding Known.remember_address
  remember-IsSound parse a = record {
    sorted = λ key. ground (arith, v.sorted key);
    covered = λ key n g. ground (arith, v.covered key n);
  }

  -- Every operation keeps the session sound, an import where the saved nonces are covered.
  pub apply-IsSound :
      (parse : Text → Option Bytes) (op : Op) → IsCovered op → IsSound (apply parse s op)
  unfolding Session.release_pending Session.note_head Session.outcome
  apply-IsSound parse (Op.slot k r e o) c = slot-IsSound k r e o
  apply-IsSound parse (Op.signed k m) c = signed-IsSound k m
  apply-IsSound parse (Op.outcome k m true) c = outcome-IsSound k m
  apply-IsSound parse (Op.outcome k m false) c = v
  apply-IsSound parse (Op.release k m) c = release-IsSound k m
  apply-IsSound parse (Op.release_pending k) c = record { sorted = v.sorted; covered = v.covered }
  apply-IsSound parse (Op.note_head chain m w) c = record { sorted = v.sorted; covered = v.covered }
  apply-IsSound parse (Op.remember_address a) c = remember-IsSound parse a
  apply-IsSound parse (Op.import_state state) c = import_state-IsSound s state c v

-- After any run of the session's operations, imports among them, from a sound session, the held
-- nonces of every key are in order and each one that was accepted lies below the tracked nonce of its
-- key, or is the greatest u64. The condition is on the imports: in each imported text every accepted
-- nonce lies below the tracked one of its key, or is the greatest u64.
pub run-IsSound :
    (parse : Text → Option Bytes) (s : SigningSession) (ops : List Op)
    → IsSound s
    → All IsCovered ops
    → IsSound (run parse s ops)
run-IsSound parse s [] v c = v
run-IsSound parse s (op ∷ ops) v c =
    run-IsSound parse (apply parse s op) ops (apply-IsSound s v parse op c.0) c.1
