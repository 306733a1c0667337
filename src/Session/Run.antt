-- ===== src/Session/Run.antt =====
-- A run of a signing session: the operations in the order in which the clients of the session call
-- them, the import of a saved session among them.
pub mod Soundness
pub mod Reuse
use qcore_rs.Prelude.{
  ℕ, suc, ◌+◌, ◌≤◌, ◌<◌, max, min, ◌≡◌, ◌≢◌, refl, PartialEq, Bool, true, false, not, ◌&&◌,
  Bool-cases, Option, none, some, List, [], ◌∷◌, Result, ok, err, is_ok, ltb, ◌==◌, if◌then◌else◌,
  list_eq, nat_eq, is_same, beq_refl, Text, Bytes, saturating_add, u64_max, arith, ◌⊎◌, inl, inr,
  All, Option-cases, beq_list_iff,
}
use qcore_rs.Map
use qcore_rs.Map.{Map}
use qcore_rs.Map.Ordered
use qcore_rs.Map.Ordered.{OrderedMap, OrderedSet, IsSorted}
use qcore_rs.Session.{
  SigningSession, SlotError, new, or_default, next_nonce, held_of, is_held, superseded, with_held,
  reserve,
}
use qcore_rs.Session
use qcore_rs.Session.Known
use qcore_rs.Session.Saved
use qcore_rs.Session.Saved.Covered.{covers}
use qcore_rs.Session.Spent.{tracked, IsSound, Spent}

pub data Op : Type 0 where
  slot : Text → ℕ → Option ℕ → Bool → Op
  signed : Text → ℕ → Op
  outcome : Text → ℕ → Bool → Op
  release : Text → ℕ → Op
  release_pending : Text → Op
  note_head : Text → ℕ → ℕ → Op
  remember_address : Text → Op
  import_state : Text → Op

abbrev pub apply : (Text → Option Bytes) → SigningSession → Op → SigningSession
apply parse s (Op.slot key reported expected order) = (Session.slot s key reported expected order).1
apply parse s (Op.signed key n) = Session.signed s key n
apply parse s (Op.outcome key n accepted) = Session.outcome s key n accepted
apply parse s (Op.release key n) = Session.release s key n
apply parse s (Op.release_pending key) = Session.release_pending s key
apply parse s (Op.note_head chain height wall) = Session.note_head s chain height wall
apply parse s (Op.remember_address address) = Known.remember_address parse s address
apply parse s (Op.import_state state) = (Saved.import_state s state).1

-- The operation names the nonce, as a caller does who takes the first transaction for lost.
abbrev pub Names : Text → ℕ → Op → Type 0
Names key n (Op.slot k reported (some exp) order) = (k ≡ key) × (reported ≡ n)
Names key n op = ⊥

-- The nonces are u64 values.
abbrev pub InRange : Op → Type 0
InRange (Op.slot k reported expected order) = reported ≤ u64_max
InRange (Op.signed k n) = n ≤ u64_max
InRange (Op.outcome k n accepted) = n ≤ u64_max
InRange _ = Unit

-- The text of an import has its accepted nonces below the tracked ones, or at the greatest u64. For
-- the texts that `export_state` writes see Session/Saved/Exported.
abbrev pub IsCovered : Op → Type 0
IsCovered (Op.import_state state) = covers state ≡ true
IsCovered _ = Unit

abbrev pub run : (Text → Option Bytes) → SigningSession → List Op → SigningSession
run parse s [] = s
run parse s (op ∷ ops) = run parse (apply parse s op) ops
