-- ===== src/Examples/Gateway.antt =====
-- Answers of a gateway.
use qcore_rs.Prelude.{◌≡◌, refl, false, none, some, ok, err, codes}
use qcore_rs.Prelude.Utf8.{is_utf8}
use qcore_rs.Prelude.Decimal.{parse_uint}
use qcore_rs.Json.{get, as_str, as_u64}
use qcore_rs.Json.Parser.{parse}
use qcore_rs.Gateway.{NodeInfo, ResponseError, canonical_decimal, parse_node_info, parse_account}

abbrev pub testnet_info : NodeInfo
testnet_info = record {
  chain_id = codes "Q-testNet-1.1";
  genesis_hash = codes "00ff";
  head_height = 1_000;
  denomination = codes "QTOV";
  transfer_fee = 500_000;
  version = codes "1.1";
  protocol = 2;
  deploy_fee = some 5_000_000;
  rate_micro_usd_per_qtov = none;
  quon_per_qtov = some 1_000_000;
}

older_protocol_refused :
    parse_node_info (
      codes
        "{\"fee\":{\"transfer_quon\":\"5\"},\"chain_id\":\"a\",\"genesis_hash\":\"\",\"head_height\":1,\"denomination\":\"\",\"version\":\"\",\"protocol\":1}")
    ≡ err (ResponseError.other_protocol 1)
unfolding parse_node_info parse parse_uint is_utf8 get as_str as_u64
older_protocol_refused = refl

account_read :
    parse_account (codes "{\"address\":\"a\",\"nonce\":3,\"balance\":\"12\",\"scheme\":1}")
    ≡ ok (record { address = codes "a"; nonce = 3; balance = 12; scheme = 1; has_key = false })
unfolding parse_account parse parse_uint is_utf8 get as_str as_u64
account_read = refl

leading_zero_number_refused : canonical_decimal (codes "012") ≡ none
unfolding canonical_decimal
leading_zero_number_refused = refl
