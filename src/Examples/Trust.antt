-- ===== src/Examples/Trust.antt =====
-- A client that trusts the roster of one epoch, and a gateway that proves the next one and a head.
use qcore_rs.Prelude.{
  ℕ, true, false, ◌+◌, ◌≤◌, ◌≡◌, refl, none, some, List, [], ◌∷◌, ok, err, Text, codes, arith, All,
}
use qcore_rs.Prelude.Decimal.{parse_uint, decimal}
use qcore_rs.Prelude.Utf8.{is_utf8}
use qcore_rs.Json.{Json, item, no_items, field, no_fields, render, get, as_str, as_u64, as_array}
use qcore_rs.Json.Parser.{parse}
use qcore_rs.Json.Hex.{to_hex, from_hex}
use qcore_rs.Map
use qcore_rs.Map.Ordered
use qcore_rs.Gateway.{NodeInfo, canonical_decimal, parse_genesis}
use qcore_rs.Chain.{max_plausible_head, default_validity_blocks}
use qcore_rs.Contract.Field.{zeroes}
use qcore_rs.Finality.Quorum.{max_roster, RosterMember, verify_finality}
use qcore_rs.Finality.Epochs.{verify_next_roster, verify_finality_in_epoch}
use qcore_rs.Finality.Wire.{parse_roster}
use qcore_rs.Finality.Wire.ReadBack.{IsMember, member_items, parse_roster-render}
use qcore_rs.Finality.Wire.Fits.{FitsWords, parse_roster-FitsWords}
use qcore_rs.Examples.Answers.{zeroes_small}
use qcore_rs.Client.{Setup, Client, ClientError, rpc, signing_genesis}
use qcore_rs.Client.Endpoint.{check_endpoint, checked_chain_id, response_cap}
use qcore_rs.Client.Trust.{
  ask, bytes_in, members_in, answers_epoch, next_roster, keep, advance, advance_from, epoch_length,
  anchor_pinned_roster, last_upto, roster_for_epoch,
}
use qcore_rs.Client.Trust.Anchored.{IsAnchored, anchor_pinned_roster-Trusts}
use qcore_rs.Client.Trust.Proven.{here, Trusts, IsAnswer, roster_for_epoch-Proven}
use qcore_rs.Client.Heads.{certified_at, verify_certified, verify_under, verify_head, validity}
use qcore_rs.Client.Heads.Final.{IsFinalHead}
use qcore_rs.Client.Heads.Deadline.{validity-IsFinal}
use qcore_rs.Examples.Contract.{toy}
use qcore_rs.Examples.Finality.{roster, certificate_bytes, current_roster}
use qcore_rs.Examples.Finality as Finality
use qcore_rs.Examples.Client.{loopback, opened, devnet}

abbrev pub pinned_epochs : Setup (List Text)
pinned_epochs = record loopback { epoch_length = some 4 }

abbrev pub trusting : List Text → Client (List Text)
trusting answers = record (opened answers) {
  trusted_roster = some (record { genesis = zeroes 32; rosters = (1, roster) ∷ [] });
}

trusting-Trusts :
    (answers : List Text)
    → Trusts toy Finality.toy pinned_epochs 3 (zeroes 32) 4 current_roster (trusting answers)
trusting-Trusts answers = (refl, (refl, refl), (tt, tt), (here refl, tt), omega arith)

abbrev heir : RosterMember
heir = record {
  id = 8;
  stake = 60;
  attest_pk = 58 ∷ [];
  root = record { digest = zeroes 32; slots = 1 };
}

abbrev heir_json : Json
heir_json = Json.object (
    field (codes "id") (Json.int 8) (
      field (codes "stake") (Json.str (codes "60")) (
        field (codes "attest_pk") (Json.str (codes "3a")) (
          field (codes "root") (Json.str (to_hex (zeroes 32)))
            (field (codes "root_slots") (Json.str (codes "1")) no_fields)))))

-- The members, the header of block 7, its certificate, and the commitment to the members.
abbrev next_answer : Text
next_answer = render (
    Json.object (
      field (codes "epoch") (Json.int 2) (
        field (codes "members") (Json.array (item heir_json no_items)) (
          field (codes "header_bytes") (Json.str (codes "07")) (
            field (codes "certificate") (Json.str (to_hex certificate_bytes))
              (field (codes "proof") (Json.str (codes "0201")) no_fields))))))

abbrev pub finality_answer : Text
finality_answer = render (
    Json.object (
      field (codes "header_bytes") (Json.str (codes "07"))
        (field (codes "certificate") (Json.str (to_hex certificate_bytes)) no_fields)))

roster_for_epoch-Proven_example :
    Trusts toy Finality.toy pinned_epochs 3
      (zeroes 32)
      4
      current_roster
      (roster_for_epoch toy Finality.toy pinned_epochs 3 2 (trusting (next_answer ∷ []))).1
    × IsAnswer toy Finality.toy pinned_epochs 3
        (zeroes 32)
        4
        current_roster
        2
        (roster_for_epoch toy Finality.toy pinned_epochs 3 2 (trusting (next_answer ∷ []))).0
roster_for_epoch-Proven_example =
    roster_for_epoch-Proven toy Finality.toy pinned_epochs 3 (zeroes 32) 4 current_roster 2
      (trusting (next_answer ∷ [])) refl (trusting-Trusts (next_answer ∷ []))

next_taken :
    (roster_for_epoch toy Finality.toy pinned_epochs 3 2 (trusting (next_answer ∷ []))).0
    ≡ ok (some (zeroes 32, heir ∷ []))
unfolding roster_for_epoch anchor_pinned_roster advance_from last_upto epoch_length advance keep
    next_roster ask rpc check_endpoint response_cap answers_epoch members_in bytes_in parse
    parse_uint is_utf8 get as_str as_u64 as_array parse_roster canonical_decimal from_hex to_hex
    render decimal verify_next_roster verify_finality Ordered.insert Ordered.remove
next_taken = refl

abbrev head_seven : NodeInfo
head_seven = record devnet { head_height = 7; genesis_hash = to_hex (zeroes 32) }

abbrev deadline : ℕ
deadline = 307

deadline_given :
    (validity toy Finality.toy pinned_epochs 0 head_seven (trusting (finality_answer ∷ []))).0
    ≡ ok deadline
unfolding validity verify_head verify_certified certified_at verify_under roster_for_epoch
    anchor_pinned_roster advance_from last_upto epoch_length advance ask rpc check_endpoint
    response_cap bytes_in parse parse_uint is_utf8 get as_str as_u64 from_hex to_hex render
    verify_finality_in_epoch verify_finality signing_genesis parse_genesis Map.get Map.insert
deadline_given = refl

devnet_id : checked_chain_id toy (codes "dev") ≡ ok 3
unfolding checked_chain_id
devnet_id = refl

validity-IsFinal_example :
    IsFinalHead Finality.toy 3 (zeroes 32) 4 current_roster 7
    × (7 ≤ max_plausible_head)
    × (deadline ≡ 7 + default_validity_blocks)
validity-IsFinal_example =
    validity-IsFinal toy Finality.toy pinned_epochs 3 (zeroes 32) 4 current_roster 0 head_seven
      (trusting (finality_answer ∷ [])) deadline devnet_id refl
      (trusting-Trusts (finality_answer ∷ [])) deadline_given

head_eight_refused :
    (validity toy Finality.toy pinned_epochs 0
      (record head_seven { head_height = 8 })
      (trusting (finality_answer ∷ []))).0
    ≡ err (ClientError.other_finality_height 8)
unfolding validity verify_head verify_certified certified_at anchor_pinned_roster ask rpc
    check_endpoint response_cap bytes_in parse is_utf8 get as_str from_hex to_hex render
    signing_genesis parse_genesis
head_eight_refused = refl

heir_read : All IsMember (heir ∷ [])
heir_read = ((omega arith, omega arith, omega arith, refl, zeroes_small 32, (omega arith, tt)), tt)

parse_roster-render_example :
    parse_roster (render (Json.array (member_items (heir ∷ [])))) ≡ ok (heir ∷ [])
parse_roster-render_example = parse_roster-render (heir ∷ []) (omega arith) heir_read

heir_parsed : parse_roster (render (Json.array (member_items (heir ∷ [])))) ≡ ok (heir ∷ [])
unfolding parse_roster member_items parse parse_uint is_utf8 get as_str as_u64 as_array from_hex
    to_hex render decimal canonical_decimal
heir_parsed = refl

parse_roster-FitsWords_example : (1 ≤ max_roster) × All FitsWords (heir ∷ [])
parse_roster-FitsWords_example =
    parse_roster-FitsWords (render (Json.array (member_items (heir ∷ [])))) (heir ∷ []) heir_parsed

abbrev pinned_network : Setup (List Text)
pinned_network = record pinned_epochs {
  genesis_hash = some (zeroes 32);
  roster_commitment = some (0 ∷ 1 ∷ []);
}

abbrev members_answer : Text
members_answer =
    render (Json.object (field (codes "members") (Json.array (item heir_json no_items)) no_fields))

anchored :
    (anchor_pinned_roster toy Finality.toy pinned_network (opened (members_answer ∷ []))).0
    ≡ ok true
unfolding anchor_pinned_roster ask rpc check_endpoint response_cap members_in parse parse_uint
    is_utf8 get as_str as_u64 as_array parse_roster canonical_decimal from_hex to_hex render decimal
anchored = refl

anchor_pinned_roster-Trusts_example :
    IsAnchored toy Finality.toy pinned_network 3 4
      (opened (members_answer ∷ []))
      (anchor_pinned_roster toy Finality.toy pinned_network (opened (members_answer ∷ [])))
anchor_pinned_roster-Trusts_example =
    anchor_pinned_roster-Trusts toy Finality.toy pinned_network 3 4 (opened (members_answer ∷ []))
      refl

-- Another roster than the pinned one is refused, and without a pin none is asked for.
other_roster_refused :
    (anchor_pinned_roster toy Finality.toy
      (record pinned_network { roster_commitment = some (7 ∷ []) })
      (opened (members_answer ∷ []))).0
    ≡ err ClientError.other_pinned_roster
unfolding anchor_pinned_roster ask rpc check_endpoint response_cap members_in parse parse_uint
    is_utf8 get as_str as_u64 as_array parse_roster canonical_decimal from_hex to_hex render decimal
other_roster_refused = refl

not_anchored :
    anchor_pinned_roster toy Finality.toy
      (record pinned_network { roster_commitment = none })
      (opened (members_answer ∷ []))
    ≡ (ok false, opened (members_answer ∷ []))
unfolding anchor_pinned_roster
not_anchored = refl
