-- ===== src/Examples/Session.antt =====
-- The signing session at concrete keys, nonces and addresses.
use qcore_rs.Prelude.{
  ℕ, ◌≤◌, ◌≡◌, ◌↔◌, refl, true, false, Option, none, some, List, [], ◌∷◌, ok, is_ok, Text, Bytes,
  codes, arith, All, max, ltb, if◌then◌else◌,
}
use qcore_rs.Map
use qcore_rs.Map.Ordered
use qcore_rs.Address.{same_address, valid_address, shares_edges, lookalike_of}
use qcore_rs.Session.{SigningSession, new, slot, signed, release, held_of, head_floor}
use qcore_rs.Session.Known.{known, remember_address, check_target, near_result}
use qcore_rs.Session.Spent.{IsSound, tracked, IsSound-new}
use qcore_rs.Session.Admission.{IsFree, slot_admission, slot-release-slot, slot_named}
use qcore_rs.Session.Heads.{Report, note_all, is_among, head_floor-note_all}
use qcore_rs.Session.Targets.{IsTidy, check_target-eq-lookalike_of, remember_address-IsTidy}
use qcore_rs.Prelude.Utf8.{is_utf8}
use qcore_rs.Prelude.Decimal.{parse_uint}
use qcore_rs.Json.{get, as_str, as_u64}
use qcore_rs.Json.Parser.{parse}
use qcore_rs.Gateway.{canonical_decimal}
use qcore_rs.Session.Saved.{read_saved, import_state}
use qcore_rs.Session.Saved.Covered.{covers}
use qcore_rs.Session.Run.{Op, IsCovered, run, Names}
use qcore_rs.Session.Run.Soundness.{run-IsSound}
use qcore_rs.Session.Run.Reuse.{no_second_signature}
use qcore_rs.Session.Signing.{Distinct, holds, World, begin, Step, Reach}
use qcore_rs.Session.Signing.Once.{one_nonce_one_signature}

-- An address codec whose payload is the text itself.
abbrev plain : Text → Option Bytes
plain t = some t

abbrev key : Text
key = codes "chain/alice"

-- A saved session of the same key, whose last transaction was accepted.
abbrev saved : Text
saved =
    codes
      "{\"version\":1,\"keys\":[{\"key\":\"chain/alice\",\"held\":[{\"slot\":\"3\",\"accepted\":true}],\"next\":\"4\"}]}"

-- A nonce is signed at, the transaction is accepted, and the gateway goes back.
abbrev accepted_run : List Op
accepted_run =
    Op.outcome key 4 true
    ∷ Op.slot key 5 none false
    ∷ Op.release key 5
    ∷ Op.slot key 9 (some 9) true
    ∷ Op.note_head key 7 100
    ∷ Op.import_state saved
    ∷ []

saved-covers : covers saved ≡ true
unfolding covers read_saved parse parse_uint is_utf8 get as_str as_u64 canonical_decimal Map.get
    Map.insert Ordered.insert
saved-covers = refl

IsCovered-run : All IsCovered accepted_run
IsCovered-run = (tt, (tt, (tt, (tt, (tt, (saved-covers, tt))))))

quiet : ¬ ⊥
quiet h = h

named_nine : ¬ Names key 4 (Op.slot key 9 (some 9) true)
named_nine e = absurd (omega (arith, e.1))

no_second_signature_example :
    is_ok (slot (run plain (signed new key 4) accepted_run) key 4 none false).0 ≡ false
no_second_signature_example =
    no_second_signature plain new key 4 accepted_run false IsSound-new (omega arith) (omega arith)
      IsCovered-run (quiet, (quiet, (quiet, (named_nine, (quiet, (quiet, tt))))))

abbrev granted : SigningSession
granted = (slot new key 4 none false).1

abbrev after_grant : World
after_grant = record (begin new) { session = granted; tickets = (key, 4) ∷ [] }

grant_holds : is_ok (slot new key 4 none false).0 ≡ true
unfolding slot Map.get Map.insert Ordered.get Ordered.insert Ordered.retain Ordered.contains_key
    Ordered.find_key
grant_holds = refl

grant_value : (slot new key 4 none false).0 ≡ ok 4
unfolding slot Map.get Map.insert Ordered.get Ordered.insert Ordered.retain Ordered.contains_key
    Ordered.find_key
grant_value = refl

unseen : head_floor new key ≡ none
unfolding Map.get
unseen = refl

IsTidy-new : IsTidy plain new
IsTidy-new = record { few = omega arith; valid = tt; differ = tt; unlisted = tt }

alice_valid : valid_address plain (codes "Q1ALICEALICEALICEALICEALICEALICE") ≡ true
unfolding valid_address
alice_valid = refl

abbrev after_sign : World
after_sign = record { session = signed granted key 4; tickets = []; signatures = (key, 4) ∷ [] }

reserving : Step plain (begin new) after_grant
reserving = Step.reserve key 4 false (omega arith) grant_holds

signing_there : Step plain after_grant after_sign
signing_there = Step.sign key 4 refl

-- Another session is imported, and a client names the next nonce itself and signs there.
abbrev after_import : World
after_import = record after_sign { session = (import_state (signed granted key 4) saved).1 }

abbrev after_naming : World
after_naming = record after_import {
  session = (slot after_import.session key 5 (some 5) false).1;
  tickets = (key, 5) ∷ [];
}

abbrev after_all : World
after_all = record {
  session = signed after_naming.session key 5;
  tickets = [];
  signatures = (key, 5) ∷ (key, 4) ∷ [];
}

signing : Reach plain (begin new) after_all
signing =
    Reach.next
      (Reach.next
        (Reach.next (Reach.next (Reach.next Reach.here reserving) signing_there)
          (Step.import_state saved saved-covers))
        (Step.named key 5 false (omega arith) refl refl))
      (Step.sign key 5 refl)

one_nonce_one_signature_example :
    Distinct after_all.signatures
    × All (λ t. holds t.0 t.1 after_all.signatures ≡ false) after_all.tickets
one_nonce_one_signature_example = one_nonce_one_signature plain new after_all IsSound-new signing

slot_admission_example : ((slot new key 4 none false).0 ≡ ok 4) ↔ IsFree new key 4 false
slot_admission_example = slot_admission new key 4 false IsSound-new

slot-release-slot_example : (slot (release granted key 4) key 4 none false).0 ≡ ok 4
slot-release-slot_example = slot-release-slot new key 4 false IsSound-new grant_value

slot_named_example :
    ((slot (signed new key 4) key 4 (some 4) false).0 ≡ ok 4)
    × ((n : ℕ)
        → Ordered.get n (held_of (slot (signed new key 4) key 4 (some 4) false).1 key)
          ≡ (if ltb 4 n then Ordered.get n (held_of (signed new key 4) key) else none))
    × (tracked (slot (signed new key 4) key 4 (some 4) false).1 key
        ≡ max (tracked (signed new key 4) key) 4)
slot_named_example =
    slot_named (signed new key 4) key 4 false
      (run-IsSound plain new (Op.signed key 4 ∷ []) IsSound-new (tt, tt))

run-IsSound_example : IsSound (run plain new accepted_run)
run-IsSound_example = run-IsSound plain new accepted_run IsSound-new IsCovered-run

abbrev other_chain : Text
other_chain = codes "other"

head_floor-note_all_example :
    (best : Report) × (head_floor (note_all new key ((7, 100) ∷ (9, 101) ∷ (8, 102) ∷ [])) key
      ≡ some best)
    × (is_among best ((7, 100) ∷ (9, 101) ∷ (8, 102) ∷ []) ≡ true)
    × All {A = Report} (λ q. q.0 ≤ best.0) ((7, 100) ∷ (9, 101) ∷ (8, 102) ∷ [])
    × (head_floor (note_all new key ((7, 100) ∷ (9, 101) ∷ (8, 102) ∷ [])) other_chain
        ≡ head_floor new other_chain)
head_floor-note_all_example =
    head_floor-note_all new key other_chain (7, 100) ((9, 101) ∷ (8, 102) ∷ []) unseen (λ e. cc)

-- Two addresses of thirty-two bytes that share their edges.
abbrev alice : Text
alice = codes "Q1ALICEALICEALICEALICEALICEALICE"

abbrev eve : Text
eve = codes "Q1ALICEEVEEVEEVEEVEEVEEVEEVALICE"

abbrev knows_alice : SigningSession
knows_alice = remember_address plain new alice

check_target-eq-lookalike_of_example :
    check_target plain knows_alice eve
    ≡ near_result plain eve (lookalike_of plain eve (known knows_alice))
check_target-eq-lookalike_of_example = check_target-eq-lookalike_of plain knows_alice eve

remember_address-IsTidy_example : IsTidy plain (remember_address plain new alice)
remember_address-IsTidy_example = remember_address-IsTidy plain new alice IsTidy-new

-- A lookalike of a remembered address is refused.
eve_refused : is_ok (check_target plain knows_alice eve) ≡ false
unfolding check_target remember_address valid_address same_address shares_edges
eve_refused = refl
