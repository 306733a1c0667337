-- ===== src/Gateway.antt =====
-- What the gateway answers: the parsers of src/lib.rs on the JSON of src/json.rs.
pub mod ReadBack
use qcore_rs.Prelude.{
  ℕ, Bool, true, false, not, ◌||◌, Option, none, some, ◌∷◌, Result, ok, err, ◌>>=◌, ◌>>◌, refuse,
  ok_or, map_err, leb, ◌==◌, if◌then◌else◌, is_same, list_eq, nat_eq, length, all, Bytes, Text,
  codes, is_ascii_digit, u128_max,
}
use qcore_rs.Prelude.Decimal.{parse_uint}
use qcore_rs.Chain.Fee.{FeeInfo}
use qcore_rs.Json.{Json, get, as_str, as_u64, as_bool}
use qcore_rs.Json.Parser.{JsonError, parse, leads_zero}
use qcore_rs.Json.Hex.{HexError, from_hex}

pub data ResponseError : Type 0 where
  not_json : JsonError → ResponseError
  no_string no_number not_number_string byte_out_of_range : Text → ResponseError
  no_fee no_protocol block_not_string genesis_not_32_bytes : ResponseError
  other_protocol : ℕ → ResponseError
  unknown_verdict unknown_status : Text → ResponseError

pub record NodeInfo : Type 0 where
  pub chain_id : Text
  pub genesis_hash : Text
  pub head_height : ℕ
  pub denomination : Text
  pub transfer_fee : ℕ
  pub version : Text
  pub protocol : ℕ
  pub deploy_fee : Option ℕ
  pub rate_micro_usd_per_qtov : Option ℕ
  pub quon_per_qtov : Option ℕ

-- what `deploy_fee_of` reads of it
abbrev pub fee_info : NodeInfo → FeeInfo
fee_info info = record {
  transfer_fee = info.transfer_fee;
  deploy_fee = info.deploy_fee;
  rate_micro_usd_per_qtov = info.rate_micro_usd_per_qtov;
  quon_per_qtov = info.quon_per_qtov;
}

pub record Account : Type 0 where
  pub address : Text
  pub nonce : ℕ
  pub balance : ℕ
  pub scheme : ℕ
  pub has_key : Bool

pub data Submit : Type 0 where
  accepted : Text → Text → Submit
  rejected : Text → Option ℕ → Option ℕ → Submit

pub data TxStatus : Type 0 where
  finalised included unverified : ℕ → Option Text → TxStatus
  pending unknown : TxStatus

unfoldable pub whole_number : Text → Option ℕ
whole_number text =
    if length text == 0 || not (all is_ascii_digit text) then none else parse_uint u128_max text

unfoldable pub canonical_decimal : Text → Option ℕ
unfolding whole_number
canonical_decimal text = if leads_zero text then none else whole_number text

-- `u64::try_from` of a greater type, for the greatest number that fits
abbrev pub at_most : ℕ → Option ℕ → Option ℕ
at_most top none = none
at_most top (some n) = if leb n top then some n else none

-- `and_then`
abbrev pub and_then : {A : Type 0} → Option Json → (Json → Option A) → Option A
and_then none f = none
and_then (some v) f = f v

unfoldable pub field_str : Json → Text → Result ResponseError Text
field_str v key = ok_or (and_then (get key v) as_str) (ResponseError.no_string key)

unfoldable pub field_u64 : Json → Text → Result ResponseError ℕ
field_u64 v key = ok_or (and_then (get key v) as_u64) (ResponseError.no_number key)

unfoldable pub field_u128 : Json → Text → Result ResponseError ℕ
unfolding field_str whole_number
field_u128 v key = do
  text ← field_str v key
  ok_or (whole_number text) (ResponseError.not_number_string key)

unfoldable pub field_u8 : Json → Text → Result ResponseError ℕ
unfolding field_u64
field_u8 v key = do
  n ← field_u64 v key
  refuse (leb 256 n) (ResponseError.byte_out_of_range key)
  ok n

-- `map(Some)`
abbrev pub map_some : Result ResponseError ℕ → Result ResponseError (Option ℕ)
map_some r = r >>= λ n. ok (some n)

abbrev pub unless_null : Option Json → Result ResponseError ℕ → Result ResponseError (Option ℕ)
unless_null none r = ok none
unless_null (some Json.null) r = ok none
unless_null (some _) r = map_some r

unfoldable pub optional_u128 : Json → Text → Result ResponseError (Option ℕ)
unfolding field_u128
optional_u128 v key = unless_null (get key v) (field_u128 v key)

abbrev pub supported_protocol : ℕ
supported_protocol = 2

abbrev pub speaks : Option ℕ → Result ResponseError ℕ
speaks none = err ResponseError.no_protocol
speaks (some p) =
    if p == supported_protocol then ok supported_protocol else err (ResponseError.other_protocol p)

unfoldable pub gateway_protocol : Json → Result ResponseError ℕ
gateway_protocol v = speaks (and_then (get (codes "protocol") v) as_u64)

abbrev pub json_of : Text → Result ResponseError Json
json_of response = map_err ResponseError.not_json (parse response)

unfoldable pub node_info_of : Json → Result ResponseError NodeInfo
unfolding field_str field_u64 field_u128 gateway_protocol optional_u128
node_info_of v = do
  fee ← ok_or (get (codes "fee") v) ResponseError.no_fee
  chain_id ← field_str v (codes "chain_id")
  genesis_hash ← field_str v (codes "genesis_hash")
  head_height ← field_u64 v (codes "head_height")
  denomination ← field_str v (codes "denomination")
  transfer_fee ← field_u128 fee (codes "transfer_quon")
  version ← field_str v (codes "version")
  protocol ← gateway_protocol v
  deploy_fee ← optional_u128 fee (codes "deploy_fee_quon")
  rate ← optional_u128 fee (codes "rate_micro_usd_per_qtov")
  quon ← optional_u128 fee (codes "quon_per_qtov")
  ok (record {
    chain_id = chain_id;
    genesis_hash = genesis_hash;
    head_height = head_height;
    denomination = denomination;
    transfer_fee = transfer_fee;
    version = version;
    protocol = protocol;
    deploy_fee = deploy_fee;
    rate_micro_usd_per_qtov = rate;
    quon_per_qtov = quon;
  })

unfoldable pub parse_node_info : Text → Result ResponseError NodeInfo
unfolding node_info_of
parse_node_info response = json_of response >>= node_info_of

abbrev pub unwrap_or : Option Bool → Bool → Bool
unwrap_or none b = b
unwrap_or (some a) b = a

unfoldable pub account_of : Json → Result ResponseError Account
unfolding field_str field_u64 field_u128 field_u8
account_of v = do
  address ← field_str v (codes "address")
  nonce ← field_u64 v (codes "nonce")
  balance ← field_u128 v (codes "balance")
  scheme ← field_u8 v (codes "scheme")
  ok (record {
    address = address;
    nonce = nonce;
    balance = balance;
    scheme = scheme;
    has_key = unwrap_or (and_then (get (codes "has_key") v) as_bool) false;
  })

unfoldable pub parse_account : Text → Result ResponseError Account
unfolding account_of
parse_account response = json_of response >>= account_of

unfoldable pub submit_of : Json → Result ResponseError Submit
unfolding field_str
submit_of v = do
  verdict ← field_str v (codes "verdict")
  if is_same verdict (codes "accepted")
      then (field_str v (codes "state") >>= λ state.
          field_str v (codes "tx_id") >>= λ tx_id. ok (Submit.accepted state tx_id))
      else if is_same verdict (codes "rejected")
      then (field_str v (codes "reason") >>= λ reason. ok (
          Submit.rejected reason (and_then (get (codes "expected") v) as_u64)
            (and_then (get (codes "got") v) as_u64)))
      else err (ResponseError.unknown_verdict verdict)

unfoldable pub parse_submit : Text → Result ResponseError Submit
unfolding submit_of
parse_submit response = json_of response >>= submit_of

abbrev pub block_of : Option Json → Result ResponseError (Option Text)
block_of none = ok none
block_of (some Json.null) = ok none
block_of (some block) =
    ok_or (as_str block) ResponseError.block_not_string >>= λ text. ok (some text)

unfoldable pub status_of : Json → Result ResponseError TxStatus
unfolding field_str field_u64
status_of v = do
  status ← field_str v (codes "status")
  if is_same status (codes "finalised")
      then (field_u64 v (codes "height") >>= λ height.
          block_of (get (codes "block") v) >>= λ block. ok (TxStatus.finalised height block))
      else if is_same status (codes "pending")
      then ok TxStatus.pending
      else if is_same status (codes "unknown")
      then ok TxStatus.unknown
      else err (ResponseError.unknown_status status)

unfoldable pub parse_transaction : Text → Result ResponseError TxStatus
unfolding status_of
parse_transaction response = json_of response >>= status_of

abbrev pub of_32_bytes : Result HexError Bytes → Result ResponseError Bytes
of_32_bytes (err e) = err ResponseError.genesis_not_32_bytes
of_32_bytes (ok bytes) =
    if length bytes == 32 then ok bytes else err ResponseError.genesis_not_32_bytes

unfoldable pub parse_genesis : NodeInfo → Result ResponseError Bytes
parse_genesis info = of_32_bytes (from_hex info.genesis_hash)
