-- ===== src/Examples/Confirm.antt =====
-- A transfer in block 7, confirmed by a client that trusts the roster of its epoch.
use qcore_rs.Prelude.{◌≡◌, refl, none, some, List, [], ◌∷◌, ok, Text, Bytes, codes, Option, arith}
use qcore_rs.Prelude.Decimal.{parse_uint, decimal}
use qcore_rs.Prelude.Utf8.{is_utf8}
use qcore_rs.Json.{Json, no_items, field, no_fields, render, get, as_str, as_u64, as_array}
use qcore_rs.Json.Parser.{parse}
use qcore_rs.Json.Hex.{to_hex, from_hex}
use qcore_rs.Gateway.{parse_node_info}
use qcore_rs.Gateway.ReadBack.{node_info_answer}
use qcore_rs.Address.{address_payload}
use qcore_rs.Contract.Field.{zeroes}
use qcore_rs.Finality.Crates.{Crates, Header}
use qcore_rs.Finality.Quorum.{verify_finality}
use qcore_rs.Finality.Epochs.{verify_finality_in_epoch}
use qcore_rs.Finality.Inclusion.{
  TxKind, TxOutcome, ConfirmedTransaction, verify_transaction, transaction_kind,
}
use qcore_rs.Finality.Wire.{parse_steps, index_fits_path}
use qcore_rs.Client.{Setup, rpc, node_info}
use qcore_rs.Client.Endpoint.{check_endpoint, checked_chain_id, response_cap}
use qcore_rs.Client.Trust.{
  ask, bytes_in, advance, advance_from, epoch_length, anchor_pinned_roster, last_upto,
  roster_for_epoch,
}
use qcore_rs.Client.Trust.Proven.{here}
use qcore_rs.Client.Heads.{certified_at}
use qcore_rs.Client.Confirm.{
  checked_chain, number_at, steps_in, roster_to_use, check_included, inclusion,
  confirm_inclusion_trusted, confirm_transaction_trusted, settled,
}
use qcore_rs.Client.Confirm.Included.{IsIncluded, confirm_transaction_trusted-IsIncluded}
use qcore_rs.Examples.Contract.{toy}
use qcore_rs.Examples.Finality.{roster, current_roster, header_at}
use qcore_rs.Examples.Finality as Finality
use qcore_rs.Examples.Inclusion as Inclusion
use qcore_rs.Examples.Client.{devnet}
use qcore_rs.Examples.Trust.{pinned_epochs, trusting, finality_answer}

abbrev small_leaf : Bytes
small_leaf = 1 ∷ 5 ∷ 0 ∷ 77 ∷ 70 ∷ 1 ∷ 6 ∷ 0 ∷ 12 ∷ 9 ∷ 0 ∷ 0 ∷ 0 ∷ 2 ∷ 0 ∷ []

abbrev holding : Bytes → Option Header
holding [] = none
holding (height ∷ rest) = some (record (header_at height) { transaction_root = small_leaf })

abbrev holding_leaf : Crates
holding_leaf = record Finality.toy { header_from_bytes = holding }

abbrev dev_setup : Setup (List Text)
dev_setup = record pinned_epochs { chain_id = some (codes "dev") }

abbrev proof_answer : Text
proof_answer = render (
    Json.object (
      field (codes "height") (Json.int 7) (
        field (codes "index") (Json.int 0) (
          field (codes "leaf") (Json.str (to_hex small_leaf))
            (field (codes "steps") (Json.array no_items) no_fields)))))

abbrev answers : List Text
answers = render (node_info_answer devnet) ∷ proof_answer ∷ finality_answer ∷ []

abbrev confirmed : ConfirmedTransaction
confirmed = record {
  tx_id = 7 ∷ small_leaf;
  index = 0;
  header = record Finality.final_header { transaction_root = small_leaf };
  kind = TxKind.transfer;
  outcome = TxOutcome.applied;
}

transfer_confirmed :
    (confirm_transaction_trusted toy holding_leaf Inclusion.toy dev_setup
      (7 ∷ small_leaf)
      (trusting answers)).0
    ≡ ok confirmed
unfolding confirm_transaction_trusted confirm_inclusion_trusted inclusion node_info checked_chain
    checked_chain_id number_at steps_in roster_to_use check_included certified_at roster_for_epoch
    anchor_pinned_roster advance_from last_upto epoch_length advance ask rpc check_endpoint
    response_cap bytes_in parse parse_uint is_utf8 get as_str as_u64 as_array from_hex to_hex render
    decimal verify_finality_in_epoch verify_finality verify_transaction transaction_kind
    index_fits_path parse_steps parse_node_info address_payload settled
transfer_confirmed = refl

dev_id : checked_chain_id toy (codes "dev") ≡ ok 3
unfolding checked_chain_id
dev_id = refl

confirm_transaction_trusted-IsIncluded_example :
    IsIncluded holding_leaf Inclusion.toy 3 (zeroes 32) 4 current_roster (7 ∷ small_leaf) confirmed
    × (TxKind.transfer ≡ TxKind.transfer)
    × (TxOutcome.applied ≡ TxOutcome.applied)
confirm_transaction_trusted-IsIncluded_example =
    confirm_transaction_trusted-IsIncluded toy holding_leaf Inclusion.toy dev_setup 3 (zeroes 32) 4
      current_roster (codes "dev") (7 ∷ small_leaf) (trusting answers) confirmed refl dev_id refl
      (refl, (refl, refl), (tt, tt), (here refl, tt), omega arith) transfer_confirmed
