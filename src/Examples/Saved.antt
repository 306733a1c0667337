-- ===== src/Examples/Saved.antt =====
-- A session that is saved and restored.
use qcore_rs.Prelude.{◌≡◌, refl, true, false, none, some, [], ◌∷◌, ok, err, Text, codes}
use qcore_rs.Prelude.Utf8.{is_utf8}
use qcore_rs.Prelude.Decimal.{parse_uint}
use qcore_rs.Map
use qcore_rs.Json.{get, as_str, as_u64}
use qcore_rs.Gateway.{canonical_decimal}
use qcore_rs.Json.Parser.{parse}
use qcore_rs.Map.Ordered
use qcore_rs.Session.{SigningSession, SlotError, new, next_nonce, slot, signed}
use qcore_rs.Session.Saved.Covered.{covers}
use qcore_rs.Session.Saved.{ImportError, import_state}
use qcore_rs.Session.Saved.Kept.{Keeps, import_state-Keeps}

abbrev busy : SigningSession
busy = record new {
  next = (codes "chain/b", 7) ∷ (codes "chain/a", 3) ∷ [];
  held = (codes "chain/b", (6, true) ∷ (7, false) ∷ []) ∷ [];
  heads = (codes "chain", (1_000, 50)) ∷ [];
}

-- A session that holds one of the nonces as not accepted.
abbrev earlier : SigningSession
earlier = record new { held = (codes "chain/b", (6, false) ∷ []) ∷ [] }

abbrev broken_heads : Text
broken_heads =
    codes
      "{\"version\":1,\"keys\":[{\"key\":\"chain/b\",\"next\":\"9\"}],\"heads\":[{\"chain\":\"c\"}]}"

import_state-Keeps_example : Keeps busy (import_state busy broken_heads).1
import_state-Keeps_example = import_state-Keeps busy broken_heads

-- An import that is refused for its heads has raised the tracked nonces all the same.
broken_heads_raise :
    ((import_state busy broken_heads).0 ≡ err (ImportError.not_whole (codes "head height")))
    × (next_nonce (import_state busy broken_heads).1 (codes "chain/b") ≡ some 9)
unfolding import_state parse parse_uint is_utf8 get as_str as_u64 canonical_decimal Map.get
    Map.insert
broken_heads_raise = (refl, refl)

-- A saved text, which no export writes, with an accepted nonce and no tracked one.
abbrev untracked : Text
untracked =
    codes "{\"version\":1,\"keys\":[{\"key\":\"k\",\"held\":[{\"slot\":\"5\",\"accepted\":true}]}]}"

-- After it is imported, an order that is refused forgets the nonce, which is then granted again.
abbrev reopened : SigningSession
reopened = (slot (import_state (signed new (codes "k") 5) untracked).1 (codes "k") 6 none true).1

untracked_reopens :
    (covers untracked ≡ false)
    × ((slot (signed new (codes "k") 5) (codes "k") 5 none false).0
        ≡ err (SlotError.already_signed 5))
    × ((slot reopened (codes "k") 5 none false).0 ≡ ok 5)
unfolding import_state covers parse parse_uint is_utf8 get as_str as_u64 canonical_decimal slot
    signed Map.get Map.insert Ordered.get Ordered.insert Ordered.retain Ordered.remove
    Ordered.contains_key Ordered.find_key
untracked_reopens = (refl, refl, refl)
