-- ===== src/Session/Saved/Exported.antt =====
-- What `export_state` of src/lib.rs writes of a sound session: a text that an import may take.
use qcore_rs.Prelude.{
  ℕ, ◌≤◌, ◌<◌, ◌≡◌, refl, ap, ◌∙◌, Bool, Option-cases, true, some, List, [], ◌∷◌, list_eq, nat_eq,
  Text, arith, u64_max, ◌⊎◌, inl, inr,
}
use qcore_rs.Map
use qcore_rs.Map.{Map}
use qcore_rs.Map.Ordered
use qcore_rs.Map.Ordered.{OrderedMap, IsSorted}
use qcore_rs.Session.{SigningSession, next_nonce, held_of, or_default}
use qcore_rs.Session.Spent.{tracked, IsSound}
use qcore_rs.Session.Saved.{extend, keep_slots, export_state}
use qcore_rs.Session.Saved.Restored.{nexts_of, helds_of, get-nexts_of}
use qcore_rs.Session.Saved.Flags.{extend-IsSorted}
use qcore_rs.Session.Saved.Reading.{IsStorable}
use qcore_rs.Session.Saved.Covered.{covered_by, all_covered, covers, covers_read, extend-covered}
use qcore_rs.Session.Saved.RoundTrip.{all_keys, tracked_key, read_saved-export_state}

covered_by-IsSorted :
    (next : ℕ) (m : OrderedMap Bool)
    → IsSorted m
    → ((n : ℕ) → Ordered.get n m ≡ some true → (n < next) ⊎ (u64_max ≤ n))
    → covered_by next m ≡ true
unfolding covered_by Ordered.get
covered_by-IsSorted next [] o h = refl
covered_by-IsSorted next ((slot, accepted) ∷ m) o h =
    let later =
      covered_by-IsSorted next m o.1
        (λ n g. h n (ground (arith, g, Ordered.get-Above slot m o.0))) in
    ground (arith, later, h slot)

insert-all_covered :
    (next : Map Text ℕ) (key : Text) (slots : OrderedMap Bool) (held : Map Text (OrderedMap Bool))
    → covered_by (or_default (Map.get key next) 0) slots ≡ true
    → all_covered next held ≡ true
    → all_covered next (Map.insert key slots held) ≡ true
unfolding all_covered Map.insert
insert-all_covered next key slots [] c a = ground (arith, c)
insert-all_covered next key slots ((k, own) ∷ held) c a =
    ground (arith, c, a, insert-all_covered next key slots held c)

keep_slots-all_covered :
    (next : Map Text ℕ) (key : Text) (slots : OrderedMap Bool) (held : Map Text (OrderedMap Bool))
    → covered_by (or_default (Map.get key next) 0) slots ≡ true
    → all_covered next held ≡ true
    → all_covered next (keep_slots key slots held) ≡ true
keep_slots-all_covered next key [] held c a = a
keep_slots-all_covered next key (s ∷ slots) held c a =
    insert-all_covered next key (s ∷ slots) held c a

helds_of-all_covered :
    (s : SigningSession) (next : Map Text ℕ) (keys : List Text) (held : Map Text (OrderedMap Bool))
    → ((key : Text)
        → covered_by (or_default (Map.get key next) 0) (extend (held_of s key) []) ≡ true)
    → all_covered next held ≡ true
    → all_covered next (helds_of s keys held) ≡ true
unfolding helds_of
helds_of-all_covered s next [] held c a = a
helds_of-all_covered s next (key ∷ keys) held c a =
    let own = extend (held_of s key) [] in
    helds_of-all_covered s next keys (keep_slots key own held) c
      (keep_slots-all_covered next key own held (c key) a)

module _ (s : SigningSession) (v : IsSound s) where
  abbrev saved_nexts : Map Text ℕ
  saved_nexts = nexts_of s (all_keys s) []

  tracked-saved_nexts : (key : Text) → tracked s key ≤ or_default (Map.get key saved_nexts) 0
  tracked-saved_nexts key = elim (Option-cases (next_nonce s key)) [
    | inl e ↦ ground (arith, e)
    | inr (n, e) ↦
        let found : Map.get key saved_nexts ≡ some n =
          get-nexts_of s key n (all_keys s) [] e ∙ rw (tracked_key s key n e) refl in
        ground (arith, e, found)
  ]

  covered_by-saved :
      (key : Text)
      → covered_by (or_default (Map.get key saved_nexts) 0) (extend (held_of s key) []) ≡ true
  unfolding Ordered.get
  covered_by-saved key =
      let next = or_default (Map.get key saved_nexts) 0 in
      let own =
        covered_by-IsSorted next (held_of s key) (v.sorted key)
          (λ n g. ground (arith, v.covered key n g, tracked-saved_nexts key)) in
      covered_by-IsSorted next (extend (held_of s key) []) (extend-IsSorted (held_of s key) [] tt)
        (λ n g. extend-covered next (held_of s key) [] n own (λ e. absurd (cc)) g)

-- The saved text of a sound session has its accepted nonces below the tracked ones, or at the
-- greatest u64.
pub covers-export_state :
    (s : SigningSession) → IsSound s → IsStorable s → covers (export_state s) ≡ true
unfolding covers all_covered
covers-export_state s v a =
    ap covers_read (read_saved-export_state s a)
    ∙ helds_of-all_covered s (saved_nexts s v) (all_keys s) [] (covered_by-saved s v) refl
