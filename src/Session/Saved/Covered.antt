-- ===== src/Session/Saved/Covered.antt =====
-- What importing a saved session needs to keep the session sound: that in the saved text an accepted
-- nonce lies below the tracked one of its key, as `outcome` leaves it.
use qcore_rs.Prelude.{
  ℕ, max, ◌≤◌, ◌<◌, ◌≡◌, refl, Bool, Option-cases, true, not, ◌||◌, ◌&&◌, some, List, [], ◌∷◌,
  Result, ok, err, ltb, leb, list_eq, nat_eq, Text, codes, arith, beq_list_iff, u64_max, ◌⊎◌, inl,
  inr,
}
use qcore_rs.Map
use qcore_rs.Map.{Map}
use qcore_rs.Map.Ordered
use qcore_rs.Map.Ordered.{OrderedMap, IsSorted}
use qcore_rs.Json.{Json, get}
use qcore_rs.Session.{SigningSession, held_of, note_head, or_default}
use qcore_rs.Session.Spent.{tracked, IsSound}
use qcore_rs.Session.Saved.{
  ImportError, Head, raise_next, raise_all, extend, hold_slots, hold_all, note_heads, finish_import,
  import_read, read_saved, import_state, heads_of,
}
use qcore_rs.Session.Saved.Restored.{raises}
use qcore_rs.Session.Saved.Flags.{extend-IsSorted}

-- Every accepted slot lies below `next` (the greatest u64 has no successor to track).
unfoldable pub covered_by : ℕ → OrderedMap Bool → Bool
covered_by next [] = true
covered_by next ((slot, accepted) ∷ slots) =
    (not accepted || ltb slot next || leb u64_max slot) && covered_by next slots

unfoldable pub all_covered : Map Text ℕ → Map Text (OrderedMap Bool) → Bool
unfolding covered_by
all_covered next [] = true
all_covered next ((key, slots) ∷ held) =
    covered_by (or_default (Map.get key next) 0) slots && all_covered next held

abbrev pub covers_read : Result ImportError (Json × Map Text ℕ × Map Text (OrderedMap Bool)) → Bool
covers_read (err e) = true
covers_read (ok (parsed, next, held)) = all_covered next held

-- The saved text, as far as it is read.
unfoldable pub covers : Text → Bool
unfolding all_covered
covers state = covers_read (read_saved state)

pub extend-covered :
    (next : ℕ) (slots held : OrderedMap Bool) (n : ℕ)
    → covered_by next slots ≡ true
    → (Ordered.get n held ≡ some true → (n < next) ⊎ (u64_max ≤ n))
    → Ordered.get n (extend slots held) ≡ some true
    → (n < next) ⊎ (u64_max ≤ n)
unfolding extend covered_by
extend-covered next [] held n c h g = h g
extend-covered next ((slot, accepted) ∷ slots) held n c h g =
    extend-covered next slots (Ordered.insert slot accepted held) n (ground (arith, c))
      (λ e. ground (arith, Ordered.get-insert slot n accepted held, c, h, e)) g

covered_by_le :
    (low high : ℕ) (slots : OrderedMap Bool)
    → low ≤ high
    → covered_by low slots ≡ true
    → covered_by high slots ≡ true
unfolding covered_by
covered_by_le low high [] le c = refl
covered_by_le low high ((slot, accepted) ∷ slots) le c =
    ground (arith, c, covered_by_le low high slots le)

raise_next-IsSound :
    (s : SigningSession) (key : Text) (value : ℕ) → IsSound s → IsSound (raise_next s key value)
raise_next-IsSound s key value v = record {
  sorted = v.sorted;
  covered = λ k n g. ground (
    arith,
    Map.get-insert key k (max (or_default (Map.get key s.next) value) value) s.next,
    beq_list_iff key k,
    v.covered k n g,
  );
}

raise_all-IsSound :
    (next : Map Text ℕ) (s : SigningSession) → IsSound s → IsSound (raise_all next s)
unfolding raise_all
raise_all-IsSound [] s v = v
raise_all-IsSound ((key, value) ∷ next) s v =
    raise_all-IsSound next (raise_next s key value) (raise_next-IsSound s key value v)

tracked-raise_all :
    (next : Map Text ℕ) (s : SigningSession) (key : Text)
    → or_default (Map.get key next) 0 ≤ tracked (raise_all next s) key
tracked-raise_all next s key = elim (Option-cases (Map.get key next)) [
  | inl e ↦ ground (arith, e)
  | inr (n, e) ↦ let (m, at, le) = raises key n next s e in ground (arith, e, at, le)
]

hold_slots-IsSound :
    (s : SigningSession) (key : Text) (slots : OrderedMap Bool)
    → covered_by (tracked s key) slots ≡ true
    → IsSound s
    → IsSound (hold_slots s key slots)
hold_slots-IsSound s key slots c v = record {
  sorted = λ k. ground (
    arith,
    Map.get-insert key k (extend slots (held_of s key)) s.held,
    beq_list_iff key k,
    v.sorted k,
    extend-IsSorted slots (held_of s key) (v.sorted key),
  );
  covered = λ k n g. ground (
    arith,
    Map.get-insert key k (extend slots (held_of s key)) s.held,
    beq_list_iff key k,
    v.covered k n,
    extend-covered (tracked s key) slots (held_of s key) n c (v.covered key n),
  );
}

hold_all-IsSound :
    (next : Map Text ℕ) (held : Map Text (OrderedMap Bool)) (s : SigningSession)
    → all_covered next held ≡ true
    → ((key : Text) → or_default (Map.get key next) 0 ≤ tracked s key)
    → IsSound s
    → IsSound (hold_all held s)
unfolding all_covered hold_all
hold_all-IsSound next [] s c above v = v
hold_all-IsSound next ((key, slots) ∷ held) s c above v =
    let own =
      covered_by_le (or_default (Map.get key next) 0) (tracked s key) slots (above key)
        (ground (arith, c)) in
    hold_all-IsSound next held (hold_slots s key slots) (ground (arith, c)) above
      (hold_slots-IsSound s key slots own v)

note_heads-IsSound :
    (heads : List Head) (s : SigningSession) → IsSound s → IsSound (note_heads heads s)
unfolding note_heads note_head
note_heads-IsSound [] s v = v
note_heads-IsSound ((chain, height, at) ∷ heads) s v =
    note_heads-IsSound heads (note_head s chain height at)
      (record { sorted = v.sorted; covered = v.covered })

finish_import-IsSound :
    (r : Result ImportError (List Head)) (next : Map Text ℕ) (held : Map Text (OrderedMap Bool))
    (s : SigningSession)
    → all_covered next held ≡ true
    → ((key : Text) → or_default (Map.get key next) 0 ≤ tracked s key)
    → IsSound s
    → IsSound (finish_import r held s).1
finish_import-IsSound (err e) next held s c above v = v
finish_import-IsSound (ok heads) next held s c above v =
    note_heads-IsSound heads (hold_all held s) (hold_all-IsSound next held s c above v)

import_read-IsSound :
    (s : SigningSession) (r : Result ImportError (Json × Map Text ℕ × Map Text (OrderedMap Bool)))
    → covers_read r ≡ true
    → IsSound s
    → IsSound (import_read s r).1
import_read-IsSound s (err e) c v = v
import_read-IsSound s (ok (parsed, next, held)) c v =
    finish_import-IsSound (heads_of (get (codes "heads") parsed)) next held (raise_all next s) c
      (tracked-raise_all next s) (raise_all-IsSound next s v)

-- An import of such a text keeps the session sound, also where it is refused.
pub import_state-IsSound :
    (s : SigningSession) (state : Text)
    → covers state ≡ true
    → IsSound s
    → IsSound (import_state s state).1
unfolding import_state covers
import_state-IsSound s state c v = import_read-IsSound s (read_saved state) c v
