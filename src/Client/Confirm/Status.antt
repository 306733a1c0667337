-- ===== src/Client/Confirm/Status.antt =====
-- `transaction` and `verified_account` of src/lib.rs.
use qcore_rs.Prelude.{
  ℕ, Bool, true, false, ◌||◌, Option, none, some, refuse, if◌then◌else◌, list_eq, nat_eq, map_err,
  Bytes, Text, codes,
}
use qcore_rs.Json.{Json, no_fields, field, render}
use qcore_rs.Gateway.{TxStatus}
use qcore_rs.Contract.OrderCall.{OrderCrates}
use qcore_rs.Finality.Crates.{Crates}
use qcore_rs.Finality.Epochs.{VerifiedAccount, verify_account}
use qcore_rs.Finality.Inclusion.{InclusionCrates, TxKind, ConfirmedTransaction}
use qcore_rs.Client.{Setup, ClientError, Act, give, pure, node_info, ◌>>=◌, ◌>>◌}
use qcore_rs.Client.Trust.{
  ask, bytes_in, number_in, epoch_length, anchor_pinned_roster, roster_for_epoch,
}
use qcore_rs.Client.Heads.{epoch_of_header}
use qcore_rs.Client.Endpoint.{is_mainnet_chain}
use qcore_rs.Client.Confirm.{
  confirm_inclusion_trusted, transaction_reported, checked_chain, held_roster,
}

abbrev pub address_body : Text → Text
address_body address = render (Json.object (field (codes "address") (Json.str address) no_fields))

-- `render_block` is that of `qtv_idfmt`.
module _ {G : Type 0} (c : OrderCrates) (f : Crates) (i : InclusionCrates) (setup : Setup G)
    (render_block : Bytes → Option Text) where
  abbrev pub confirmed_status : ConfirmedTransaction → TxStatus
  confirmed_status confirmed = elim confirmed.kind [
    | TxKind.call ↦ TxStatus.included confirmed.header.height (render_block confirmed.header.hash)
    | TxKind.transfer ↦
        TxStatus.finalised confirmed.header.height (render_block confirmed.header.hash)
  ]

  abbrev pub configured_mainnet : Bool
  configured_mainnet =
      setup.is_mainnet
      || (elim setup.chain_id [ none ↦ false | some name ↦ is_mainnet_chain c name ])

  abbrev pub reports_mainnet : Act G Bool
  reports_mainnet =
      if configured_mainnet
      then pure true
      else (node_info c setup >>= λ info. pure (is_mainnet_chain c info.chain_id))

  unfoldable pub status_by_roster : Text → ℕ → Option Text → Bool → Act G TxStatus
  unfolding is_mainnet_chain
  status_by_roster tx_id height block true = do
    confirmed ← confirm_inclusion_trusted c f i setup tx_id
    pure (confirmed_status confirmed)
  status_by_roster tx_id height block false = do
    mainnet ← reports_mainnet
    give (refuse mainnet ClientError.status_needs_roster)
    pure (TxStatus.unverified height block)

  unfoldable pub checked_status : Text → TxStatus → Act G TxStatus
  checked_status tx_id (TxStatus.finalised height block) = do
    anchored ← anchor_pinned_roster c f setup
    status_by_roster tx_id height block anchored
  checked_status tx_id status = pure status

  unfoldable pub transaction : Text → Act G TxStatus
  transaction tx_id = do
    status ← transaction_reported c f i setup tx_id
    checked_status tx_id status

  unfoldable pub verified_account : Text → Act G (VerifiedAccount f)
  verified_account address = do
    info ← node_info c setup
    chain_id ← checked_chain c f i setup info
    answer ← ask c f setup (codes "get_account_proof") (address_body address)
    header ← bytes_in c f setup answer (codes "header_bytes")
    epoch ← epoch_of_header c f setup header (number_in answer (codes "epoch"))
    held ← roster_for_epoch c f setup chain_id epoch
    (genesis, roster) ← held_roster c f i setup epoch held
    length ← epoch_length c f setup
    certificate ← bytes_in c f setup answer (codes "certificate")
    proof ← bytes_in c f setup answer (codes "proof")
    give (
        map_err ClientError.bad_epoch (
          verify_account f chain_id genesis length c.parse_address roster address header certificate
            proof))
