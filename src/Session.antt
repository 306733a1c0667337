-- ===== src/Session.antt =====
-- `SigningSession` of src/lib.rs: its state and the operations on nonces. A method that mutates
-- returns the new session; one that may fail returns its result beside the session it leaves, since
-- what was written before the error stays written.
pub mod Known
pub mod Heads
pub mod Targets
pub mod Spent
pub mod Effects
pub mod Admission
pub mod Run
pub mod Signing
pub mod Saved
use qcore_rs.Prelude.{
  ℕ, max, Bool, true, false, not, ◌&&◌, Option, none, some, List, [], Result, ok, err, ltb, ◌==◌,
  if◌then◌else◌, list_eq, nat_eq, Text, saturating_add, u64_max,
}
use qcore_rs.Map
use qcore_rs.Map.{Map}
use qcore_rs.Map.Ordered
use qcore_rs.Map.Ordered.{OrderedMap, OrderedSet}

pub record SigningSession : Type 0 where
  pub next : Map Text ℕ
  pub held : Map Text (OrderedMap Bool)
  pub reserved : Map Text OrderedSet
  pub book : List Text
  pub seen : List Text
  pub heads : Map Text (ℕ × ℕ)

pub data SlotError : Type 0 where
  unexpected_nonce below_reached above_tracked : ℕ → ℕ → SlotError
  untracked_order already_signed already_reserved : ℕ → SlotError
  stale_unaccepted : ℕ → ℕ → SlotError

abbrev pub SlotResult : Type 0
SlotResult = Result SlotError ℕ × SigningSession

abbrev pub or_default {ℓ} : {A : Type ℓ} → Option A → A → A
or_default none d = d
or_default (some a) d = a

abbrev pub new : SigningSession
new = record { next = []; held = []; reserved = []; book = []; seen = []; heads = [] }

-- `next_nonce`
abbrev pub next_nonce : SigningSession → Text → Option ℕ
next_nonce s key = Map.get key s.next

-- The maps behind `entry(key).or_default()`.
abbrev pub held_of : SigningSession → Text → OrderedMap Bool
held_of s key = or_default (Map.get key s.held) []

abbrev pub reserved_of : SigningSession → Text → OrderedSet
reserved_of s key = or_default (Map.get key s.reserved) []

unfoldable pub is_held : SigningSession → Text → ℕ → Bool
is_held s key slot = Ordered.contains_key slot (held_of s key)

-- `exp != reported` for a nonce that the caller names
abbrev pub names_other : Option ℕ → ℕ → Bool
names_other none reported = false
names_other (some exp) reported = not (exp == reported)

abbrev pub went_back : Option ℕ → ℕ → Option SlotError
went_back none reported = none
went_back (some local) reported =
    if ltb reported local then some (SlotError.below_reached reported local) else none

-- the test of an order nonce against the tracked one
abbrev pub order_refusal : Bool → Option ℕ → ℕ → Option SlotError
order_refusal false local reported = none
order_refusal true (some local) reported =
    if ltb local reported then some (SlotError.above_tracked reported local) else none
order_refusal true none reported =
    if ltb 0 reported then some (SlotError.untracked_order reported) else none

abbrev pub superseded : ℕ → ℕ → Bool → Bool
superseded reported slot accepted = not (accepted && ltb slot reported)

abbrev pub is_stale : ℕ → ℕ → Bool → Bool
is_stale reported slot accepted = ltb slot reported && not accepted

abbrev pub stale_refusal : Option ℕ → ℕ → Option SlotError
stale_refusal none reported = none
stale_refusal (some stale) reported = some (SlotError.stale_unaccepted stale reported)

abbrev pub held_refusal : OrderedMap Bool → ℕ → Option SlotError
held_refusal held reported =
    if Ordered.contains_key reported held
    then some (SlotError.already_signed reported)
    else stale_refusal (Ordered.find_key (is_stale reported) held) reported

abbrev pub first_refusal : Option SlotError → Option SlotError → Option SlotError
first_refusal none later = later
first_refusal (some e) later = some e

-- the last part of `slot`: reserve the nonce and raise the tracked one
unfoldable pub reserve : SigningSession → Text → ℕ → Bool → SlotResult
reserve s key reported named =
    let taken = Ordered.contains_key reported (reserved_of s key) in
    let s' = record s {
      reserved = Map.insert key (Ordered.insert reported tt (reserved_of s key)) s.reserved;
    } in
    if taken && not named then (err (SlotError.already_reserved reported), s') else (
      ok reported,
      record s' {
        next = Map.insert key (max (or_default (Map.get key s.next) reported) reported) s.next;
      },
    )

abbrev pub refused : SigningSession → Option SlotError → SlotResult → SlotResult
refused s none otherwise = otherwise
refused s (some e) otherwise = (err e, s)

-- `held.retain(…)` where the caller names the nonce, and where not
abbrev pub held_after : Option ℕ → ℕ → OrderedMap Bool → OrderedMap Bool
held_after none reported held = Ordered.retain (superseded reported) held
held_after (some _) reported held =
    Ordered.retain (λ slot _. ltb reported slot) (Ordered.retain (superseded reported) held)

abbrev pub with_held : SigningSession → Text → OrderedMap Bool → SigningSession
with_held s key held = record s { held = Map.insert key held s.held }

unfoldable pub slot : SigningSession → Text → ℕ → Option ℕ → Bool → SlotResult
unfolding reserve
slot s key reported (some exp) order =
    if exp == reported
    then reserve (with_held s key (held_after (some exp) reported (held_of s key))) key reported
        true
    else (err (SlotError.unexpected_nonce reported exp), s)
slot s key reported none order =
    let held = held_after none reported (held_of s key) in
    let s' = with_held s key held in
    refused s (went_back (next_nonce s key) reported) (
      refused s'
        (first_refusal (order_refusal order (next_nonce s key) reported)
          (held_refusal held reported))
        (reserve s' key reported false))

unfoldable pub release : SigningSession → Text → ℕ → SigningSession
release s key slot = elim (Map.get key s.reserved) [
  | none ↦ s
  | some reserved ↦ record s { reserved = Map.insert key (Ordered.remove slot reserved) s.reserved }
]

unfoldable pub release_pending : SigningSession → Text → SigningSession
release_pending s key = record s { reserved = Map.remove key s.reserved }

unfoldable pub signed : SigningSession → Text → ℕ → SigningSession
unfolding release
signed s key slot =
    let s' = release s key slot in with_held s' key (Ordered.insert slot false (held_of s' key))

unfoldable pub outcome : SigningSession → Text → ℕ → Bool → SigningSession
outcome s key slot false = s
outcome s key slot true = record s {
  held = Map.insert key (Ordered.insert slot true (held_of s key)) s.held;
  next =
      Map.insert key (max (or_default (Map.get key s.next) 0) (saturating_add u64_max slot 1))
        s.next;
}

-- `head_floor`
abbrev pub head_floor : SigningSession → Text → Option (ℕ × ℕ)
head_floor s chain = Map.get chain s.heads

abbrev pub raised_head : Option (ℕ × ℕ) → ℕ → ℕ → ℕ × ℕ
raised_head none height wall_secs = (height, wall_secs)
raised_head (some (seen_height, at)) height wall_secs =
    if ltb seen_height height then (height, wall_secs) else (seen_height, at)

unfoldable pub note_head : SigningSession → Text → ℕ → ℕ → SigningSession
note_head s chain height wall_secs = record s {
  heads = Map.insert chain (raised_head (head_floor s chain) height wall_secs) s.heads;
}
