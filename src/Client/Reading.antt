-- ===== src/Client/Reading.antt =====
-- What the client of src/lib.rs reads of contracts, and the nonce of an order.
use qcore_rs.Prelude.{
  ℕ, true, not, ◌||◌, Option, none, some, List, [], ◌∷◌, ◌++◌, Result, ok, err, refuse, ok_or,
  map_err, Bytes, Text, codes,
}
use qcore_rs.Address.{valid_address, address_payload}
use qcore_rs.Json.Hex.{to_hex}
use qcore_rs.Gateway.{NodeInfo, field_u128, json_of}
use qcore_rs.Contract.Keys.{nonce_slot_key}
use qcore_rs.Contract.OrderCall.{OrderCrates}
use qcore_rs.Contract.Answers.{
  StorageSlot, ContractEvent, parse_storage, parse_events, storage_value_reported, storage_body,
  storage_at_body, events_body, asset_balance_body,
}
use qcore_rs.Client.{Setup, ClientError, Act, give, pure, rpc, slot_of, ◌>>=◌, ◌>>◌}

-- `render_address` is `qtv_idfmt::render_address`, which refuses a payload of another width.
module _ {G : Type 0} (c : OrderCrates) (setup : Setup G)
    (render_address : Bytes → Option Text) where
  unfoldable pub storage : Text → Act G (List StorageSlot)
  unfolding rpc parse_storage
  storage contract = do
    text ← rpc c setup (codes "get_storage") (storage_body contract)
    give (map_err ClientError.answer (parse_storage text))

  unfoldable pub events : ℕ → Act G (List ContractEvent)
  unfolding rpc parse_events
  events height = do
    text ← rpc c setup (codes "get_events") (events_body height)
    give (map_err ClientError.answer (parse_events text))

  unfoldable pub asset_balance : Text → Text → Act G ℕ
  unfolding rpc field_u128 valid_address
  asset_balance issuer holder = do
    give (
        refuse
          (not (valid_address c.parse_address issuer) || not (valid_address c.parse_address holder))
          ClientError.not_an_address)
    text ← rpc c setup (codes "get_asset_balance") (asset_balance_body issuer holder)
    v ← give (map_err ClientError.response (json_of text))
    give (map_err ClientError.response (field_u128 v (codes "balance")))

  unfoldable pub storage_at : Text → List Bytes → Act G (List StorageSlot)
  unfolding rpc parse_storage
  storage_at contract keys = do
    text ← rpc c setup (codes "get_storage_at") (storage_at_body contract keys)
    give (map_err ClientError.answer (parse_storage text))

  unfoldable pub slot_value : Text → Bytes → Act G ℕ
  unfolding storage_at storage_value_reported
  slot_value contract key = do
    slots ← storage_at contract (key ∷ [])
    give (ok_or (storage_value_reported slots key) ClientError.slot_not_reported)

  unfoldable pub contract_nonce : Text → Bytes → Act G ℕ
  unfolding slot_value nonce_slot_key
  contract_nonce contract signer = slot_value contract (nonce_slot_key c.sha3_256 signer)

  unfoldable pub order_slot_key : Text → Text → Bytes → Result ClientError Text
  unfolding address_payload to_hex
  order_slot_key chain contract signer = elim (address_payload c.parse_address contract) [
    | err e ↦ err (ClientError.bad_contract e)
    | ok payload ↦ elim (render_address payload) [
      | none ↦ err ClientError.not_an_address
      | some shown ↦ ok (chain ++ (b'/' ∷ (shown ++ (b'/' ∷ to_hex signer))))
    ]
  ]

  -- the key and the nonce of an order; the reservation is those two
  unfoldable pub order_nonce : NodeInfo → Text → Bytes → Option ℕ → Act G (Text × ℕ)
  unfolding order_slot_key contract_nonce
  order_nonce info contract signer expected = do
    key ← give (order_slot_key info.chain_id contract signer)
    reported ← contract_nonce contract signer
    nonce ← slot_of c setup key reported expected true
    pure (key, nonce)
