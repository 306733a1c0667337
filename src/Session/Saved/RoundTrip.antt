-- ===== src/Session/Saved/RoundTrip.antt =====
-- A session that is exported and imported again.
use qcore_rs.Prelude.{
  ℕ, ◌≤◌, ◌≡◌, refl, ◌∙◌, Bool, true, ◌&&◌, some, List, [], ◌++◌, ok, is_same, list_eq, nat_eq,
  Text, codes, arith, any, ◌==◌,
}
use qcore_rs.Prelude.Utf8.{utf8_run}
use qcore_rs.Map
use qcore_rs.Map.{Map}
use qcore_rs.Map.Ordered
use qcore_rs.Json.{Json, no_fields, field, get, as_u64}
use qcore_rs.Json.Parser.{max_depth}
use qcore_rs.Json.RoundTrip.{parse-render}
use qcore_rs.Json.RoundTrip.Values.{IsWritable}
use qcore_rs.Session.{SigningSession, next_nonce, held_of, is_held, head_floor}
use qcore_rs.Session.Saved.{
  Head, keys_of, sorted_keys, sorted_heads, keys_json, heads_json, read_saved, export_state,
  raise_all, hold_all, note_heads,
}
use qcore_rs.Session.Saved.Restored.{
  is_in, sorted_keys-is_in, get-is_in, append-is_in, nexts_of, helds_of, holds,
}
use qcore_rs.Session.Saved.Reading.{
  IsStorable, read_keys-keys_json, sorted_heads-All, sorted_keys-All, keys_json-AreWritable,
  heads_json-AreWritable,
}

abbrev pub all_keys : SigningSession → List Text
all_keys s = sorted_keys (keys_of s.next ++ keys_of s.held)

-- what `export_state` renders
abbrev saved : SigningSession → Json
saved s = Json.object (
    field (codes "version") (Json.int 1) (
      field (codes "keys") (Json.array (keys_json s (all_keys s)))
        (field (codes "heads") (Json.array (heads_json (sorted_heads s.heads))) no_fields)))

saved-IsWritable : (s : SigningSession) → IsStorable s → IsWritable max_depth (saved s)
unfolding IsWritable utf8_run
saved-IsWritable s a = (
  refl,
  refl,
  omega arith,
  (
    refl,
    refl,
    keys_json-AreWritable s (all_keys s)
        (sorted_keys-All (keys_of s.next ++ keys_of s.held) a.keys),
    (
      refl,
      refl,
      heads_json-AreWritable (sorted_heads s.heads) (sorted_heads-All s.heads a.heads),
      tt,
    ),
  ),
)

-- The session that the import leaves.
abbrev restored : SigningSession → SigningSession → SigningSession
restored s into =
    note_heads (sorted_heads s.heads)
      (hold_all (helds_of s (all_keys s) []) (raise_all (nexts_of s (all_keys s) []) into))

pub read_saved-export_state :
    (s : SigningSession)
    → IsStorable s
    → read_saved (export_state s)
      ≡ ok (saved s, nexts_of s (all_keys s) [], helds_of s (all_keys s) [])
unfolding read_saved export_state get as_u64
read_saved-export_state s a =
    rw (parse-render (saved s) (saved-IsWritable s a), read_keys-keys_json s (all_keys s) [] [] a)
      refl

pub tracked_key :
    (s : SigningSession) (key : Text) (n : ℕ)
    → next_nonce s key ≡ some n
    → is_in key (all_keys s) ≡ true
tracked_key s key n h =
    let there = get-is_in key n s.next h in
    sorted_keys-is_in key (keys_of s.next ++ keys_of s.held)
    ∙ append-is_in key (keys_of s.next) (keys_of s.held)
    ∙ ground (arith, there)

-- The heads among which a chain is reported at a height.
abbrev names : Text → ℕ → List Head → Bool
names chain height heads = any (λ h. is_same h.0 chain && h.1 == height) heads

-- The other session holds every nonce that this one held, accepted where it was and not where it was
-- not, tracks no lower nonce and has no lower floor of a chain.
pub record Remembers (s s' : SigningSession) : Type 0 where
  pub holds : (key : Text) (n : ℕ) → is_held s key n ≡ true → is_held s' key n ≡ true
  pub flags :
      (key : Text) (n : ℕ) (accepted : Bool)
      → Ordered.get n (held_of s key) ≡ some accepted
      → Ordered.get n (held_of s' key) ≡ some accepted
  pub tracks :
      (key : Text) (n : ℕ)
      → next_nonce s key ≡ some n
      → (m : ℕ) × (next_nonce s' key ≡ some m) × (n ≤ m)
  pub floors :
      (chain : Text) (floor : ℕ × ℕ)
      → head_floor s chain ≡ some floor
      → (later : ℕ × ℕ) × (head_floor s' chain ≡ some later) × (floor.0 ≤ later.0)

module _ (s into : SigningSession) where
  abbrev raised : SigningSession
  raised = raise_all (nexts_of s (all_keys s) []) into

  abbrev held : SigningSession
  held = hold_all (helds_of s (all_keys s) []) raised
