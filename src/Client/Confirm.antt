-- ===== src/Client/Confirm.antt =====
-- How the client of src/lib.rs confirms transactions against final headers.
pub mod Events
pub mod Status
pub mod Guards
pub mod Included
use qcore_rs.Prelude.{
  ℕ, ◌+◌, Bool, true, false, not, ◌&&◌, ◌||◌, Option, none, some, List, [], ◌∷◌, Result, ok, err,
  refuse, ok_or, ◌==◌, if◌then◌else◌, is_same, list_eq, nat_eq, map_err, Bytes, Text, codes,
}
use qcore_rs.Address.{same_address}
use qcore_rs.Json.{Json, no_fields, field, render, get}
use qcore_rs.Gateway.{NodeInfo, TxStatus, parse_transaction}
use qcore_rs.Contract.OrderCall.{OrderCrates}
use qcore_rs.Contract.Answers.{ContractEvent}
use qcore_rs.Finality.Crates.{Crates}
use qcore_rs.Finality.Quorum.{FinalizedHeader, RosterMember}
use qcore_rs.Finality.Epochs.{
  VerifiedRoster, VerifiedAccount, verify_finality_in_epoch, verify_account,
}
use qcore_rs.Finality.Inclusion.{
  InclusionCrates, TxKind, TxOutcome, ConfirmedTransaction, verify_transaction, verify_event,
  transaction_kind,
}
use qcore_rs.Finality.Wire.{ChainEvent, parse_steps, index_fits_path, decode_event}
use qcore_rs.Client.{Setup, ClientError, Act, give, pure, rpc, node_info, ◌>>=◌, ◌>>◌}
use qcore_rs.Client.Reading.{events}
use qcore_rs.Client.Trust.{
  ask, bytes_in, number_in, epoch_length, anchor_pinned_roster, roster_for_epoch,
}
use qcore_rs.Client.Heads.{certified_at, epoch_of_header}
use qcore_rs.Client.Endpoint.{checked_chain_id, is_mainnet_chain}

abbrev pub transaction_body : Text → Text
transaction_body tx_id = render (Json.object (field (codes "tx_id") (Json.str tx_id) no_fields))

abbrev pub outcome_of : TxKind → TxOutcome
outcome_of TxKind.transfer = TxOutcome.applied
outcome_of TxKind.call = TxOutcome.included_outcome_unproven

-- `checked_chain`, before the id
abbrev pub configured_chain : Option Text → NodeInfo → Result ClientError (Unit {0})
configured_chain none info = ok tt
configured_chain (some configured) info =
    refuse (not (is_same info.chain_id configured))
      (ClientError.other_configured_chain info.chain_id)

abbrev pub settled_kind : TxKind → ConfirmedTransaction → Result ClientError ConfirmedTransaction
settled_kind TxKind.call confirmed = err (ClientError.call_not_settled confirmed.tx_id)
settled_kind TxKind.transfer confirmed = ok confirmed

unfoldable pub settled : ConfirmedTransaction → Result ClientError ConfirmedTransaction
settled confirmed = settled_kind confirmed.kind confirmed

module _ {G : Type 0} (c : OrderCrates) (f : Crates) (i : InclusionCrates) (setup : Setup G) where
  unfoldable pub checked_chain : NodeInfo → Act G ℕ
  unfolding checked_chain_id
  checked_chain info = do
    give (configured_chain setup.chain_id info)
    give (map_err ClientError.endpoint (checked_chain_id c info.chain_id))

  unfoldable pub transaction_reported : Text → Act G TxStatus
  unfolding rpc
  transaction_reported tx_id = do
    text ← rpc c setup (codes "get_transaction") (transaction_body tx_id)
    give (map_err ClientError.response (parse_transaction text))

  unfoldable pub number_at : Json → Text → Act G ℕ
  number_at answer key = give (ok_or (number_in answer key) (ClientError.answer_without key))

  unfoldable pub steps_in : Json → Act G (List (Bytes × Bool))
  steps_in answer = do
    steps ← give (ok_or (get (codes "steps") answer) (ClientError.answer_without (codes "steps")))
    give (map_err ClientError.bad_wire (parse_steps steps))

  abbrev pub held_roster : ℕ → Option (Bytes × List RosterMember) → Act G (Bytes × VerifiedRoster)
  held_roster epoch none = give (err ClientError.trusted_roster_needed)
  held_roster epoch (some (genesis, members)) =
      pure (genesis, record { epoch = epoch; members = members })

  -- the roster of the caller, or that of the epoch
  unfoldable pub roster_to_use :
      ℕ → ℕ → Option (Bytes × VerifiedRoster) → Act G (Bytes × VerifiedRoster)
  roster_to_use chain_id epoch (some trusted) = pure trusted
  roster_to_use chain_id epoch none = do
    held ← roster_for_epoch c f setup chain_id epoch
    held_roster epoch held

  -- from the final header on
  unfoldable pub check_included :
      Text
      → ℕ
      → ℕ
      → Bytes
      → List (Bytes × Bool)
      → FinalizedHeader
      → Result ClientError ConfirmedTransaction
  check_included tx_id height index leaf steps verified =
      if not (verified.height == height)
      then err (ClientError.other_height height verified.height)
      else if not (verify_transaction i verified.transaction_root tx_id leaf steps)
      then err ClientError.not_included
      else if not (index_fits_path index steps)
      then err (ClientError.position_out_of_reach index)
      else elim (transaction_kind i leaf) [
        | err e ↦ err (ClientError.bad_leaf e)
        | ok kind ↦ ok (record {
          tx_id = tx_id;
          index = index;
          header = verified;
          kind = kind;
          outcome = outcome_of kind;
        })
      ]

  unfoldable pub inclusion : Text → Option (Bytes × VerifiedRoster) → Act G ConfirmedTransaction
  inclusion tx_id trusted = do
    info ← node_info c setup
    chain_id ← checked_chain info
    proof ← ask c f setup (codes "get_transaction_proof") (transaction_body tx_id)
    height ← number_at proof (codes "height")
    index ← number_at proof (codes "index")
    leaf ← bytes_in c f setup proof (codes "leaf")
    steps ← steps_in proof
    (epoch, header, certificate) ← certified_at c f setup height
    (genesis, roster) ← roster_to_use chain_id epoch trusted
    length ← epoch_length c f setup
    verified ← give (
        map_err ClientError.bad_epoch
          (verify_finality_in_epoch f chain_id genesis length roster header certificate))
    give (check_included tx_id height index leaf steps verified)

  unfoldable pub confirm_inclusion : Text → Bytes → VerifiedRoster → Act G ConfirmedTransaction
  confirm_inclusion tx_id genesis roster = inclusion tx_id (some (genesis, roster))

  unfoldable pub confirm_inclusion_trusted : Text → Act G ConfirmedTransaction
  confirm_inclusion_trusted tx_id = inclusion tx_id none

  unfoldable pub confirm_transaction : Text → Bytes → VerifiedRoster → Act G ConfirmedTransaction
  confirm_transaction tx_id genesis roster = do
    confirmed ← confirm_inclusion tx_id genesis roster
    give (settled confirmed)

  unfoldable pub confirm_transaction_trusted : Text → Act G ConfirmedTransaction
  confirm_transaction_trusted tx_id = do
    confirmed ← confirm_inclusion_trusted tx_id
    give (settled confirmed)
