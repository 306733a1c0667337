-- ===== src/Session/Saved/Kept.antt =====
-- What importing a saved session keeps of the session that imports it.
use qcore_rs.Prelude.{
  ℕ, max, ◌≤◌, ◌≡◌, refl, ◌∙◌, Bool, true, some, List, [], ◌∷◌, Result, ok, err, is_same, list_eq,
  nat_eq, Text, codes, arith, beq_list_iff, if◌then◌else◌,
}
use qcore_rs.Map
use qcore_rs.Map.{Map}
use qcore_rs.Map.Ordered
use qcore_rs.Map.Ordered.{OrderedMap}
use qcore_rs.Json.{Json, get}
use qcore_rs.Session.{SigningSession, next_nonce, held_of, is_held, note_head, or_default}
use qcore_rs.Session.Saved.{
  ImportError, Head, raise_next, raise_all, extend, hold_slots, hold_all, note_heads, finish_import,
  import_read, read_saved, import_state, heads_of,
}

-- The later session holds every nonce that the earlier one held, tracks no lower nonce for a key that
-- it tracked, and has the same nonces reserved.
pub record Keeps (s s' : SigningSession) : Type 0 where
  pub holds : (key : Text) (n : ℕ) → is_held s key n ≡ true → is_held s' key n ≡ true
  pub tracks :
      (key : Text) (n : ℕ)
      → next_nonce s key ≡ some n
      → (m : ℕ) × (next_nonce s' key ≡ some m) × (n ≤ m)
  pub reserves : s'.reserved ≡ s.reserved

same-Keeps : (s : SigningSession) → Keeps s s
same-Keeps s = record {
  holds = λ key n h. h;
  tracks = λ key n h. (n, h, omega arith);
  reserves = refl;
}

Keeps-trans : (s t u : SigningSession) → Keeps s t → Keeps t u → Keeps s u
Keeps-trans s t u a b = record {
  holds = λ key n h. b.holds key n (a.holds key n h);
  tracks = λ key n h.
      let (m, at, le) = a.tracks key n h in
      let (k, at', le') = b.tracks key m at in (k, at', omega (arith, le, le'));
  reserves = b.reserves ∙ a.reserves;
}

raise_next-Keeps : (s : SigningSession) (key : Text) (value : ℕ) → Keeps s (raise_next s key value)
unfolding is_held
raise_next-Keeps s key value = record {
  holds = λ k n h. h;
  tracks = λ k n h. (
    if is_same key k then max n value else n,
    ground (
      arith,
      Map.get-insert key k (max (or_default (Map.get key s.next) value) value) s.next,
      beq_list_iff key k,
      h,
    ),
    ground arith,
  );
  reserves = refl;
}

pub get-extend :
    (slots held : OrderedMap Bool) (n : ℕ)
    → Ordered.contains_key n held ≡ true
    → Ordered.contains_key n (extend slots held) ≡ true
unfolding extend Ordered.contains_key
get-extend [] held n h = h
get-extend ((slot, accepted) ∷ slots) held n h =
    get-extend slots (Ordered.insert slot accepted held) n
      (ground (arith, Ordered.get-insert slot n accepted held, h))

pub hold_slots-Keeps :
    (s : SigningSession) (key : Text) (slots : OrderedMap Bool) → Keeps s (hold_slots s key slots)
unfolding is_held
hold_slots-Keeps s key slots = record {
  holds = λ k n h.
      let more = get-extend slots (held_of s key) n in
      ground (
        arith,
        Map.get-insert key k (extend slots (held_of s key)) s.held,
        beq_list_iff key k,
        more,
        h,
      );
  tracks = λ k n h. (n, h, omega arith);
  reserves = refl;
}

note_head-Keeps :
    (s : SigningSession) (chain : Text) (height at : ℕ) → Keeps s (note_head s chain height at)
unfolding note_head is_held
note_head-Keeps s chain height at = record {
  holds = λ key n h. h;
  tracks = λ key n h. (n, h, omega arith);
  reserves = refl;
}

pub raise_all-Keeps : (next : Map Text ℕ) (s : SigningSession) → Keeps s (raise_all next s)
unfolding raise_all
raise_all-Keeps [] s = same-Keeps s
raise_all-Keeps ((key, value) ∷ next) s =
    let t = raise_next s key value in
    Keeps-trans s t (raise_all next t) (raise_next-Keeps s key value) (raise_all-Keeps next t)

pub hold_all-Keeps :
    (held : Map Text (OrderedMap Bool)) (s : SigningSession) → Keeps s (hold_all held s)
unfolding hold_all
hold_all-Keeps [] s = same-Keeps s
hold_all-Keeps ((key, slots) ∷ held) s =
    let t = hold_slots s key slots in
    Keeps-trans s t (hold_all held t) (hold_slots-Keeps s key slots) (hold_all-Keeps held t)

pub note_heads-Keeps : (heads : List Head) (s : SigningSession) → Keeps s (note_heads heads s)
unfolding note_heads
note_heads-Keeps [] s = same-Keeps s
note_heads-Keeps ((chain, height, at) ∷ heads) s =
    let t = note_head s chain height at in
    Keeps-trans s t (note_heads heads t) (note_head-Keeps s chain height at)
      (note_heads-Keeps heads t)

finish_import-Keeps :
    (r : Result ImportError (List Head)) (held : Map Text (OrderedMap Bool)) (s : SigningSession)
    → Keeps s (finish_import r held s).1
finish_import-Keeps (err e) held s = same-Keeps s
finish_import-Keeps (ok heads) held s =
    let t = hold_all held s in
    Keeps-trans s t (note_heads heads t) (hold_all-Keeps held s) (note_heads-Keeps heads t)

import_read-Keeps :
    (s : SigningSession) (r : Result ImportError (Json × Map Text ℕ × Map Text (OrderedMap Bool)))
    → Keeps s (import_read s r).1
import_read-Keeps s (err e) = same-Keeps s
import_read-Keeps s (ok (parsed, next, held)) =
    let t = raise_all next s in
    let heads = heads_of (get (codes "heads") parsed) in
    Keeps-trans s t (finish_import heads held t).1 (raise_all-Keeps next s)
      (finish_import-Keeps heads held t)

-- Importing any text, well formed or not, forgets no nonce that was signed at, lowers no tracked
-- nonce, and gives up no reservation.
pub import_state-Keeps : (s : SigningSession) (state : Text) → Keeps s (import_state s state).1
unfolding import_state
import_state-Keeps s state = import_read-Keeps s (read_saved state)
