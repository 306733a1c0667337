-- ===== src/Gateway/ReadBack.antt =====
-- The parsers of src/lib.rs, on answers in the shape of the interface of the gateway.
use qcore_rs.Prelude.{
  ℕ, ◌≤◌, ◌≡◌, refl, true, Option, none, some, [], ◌∷◌, ok, list_eq, nat_eq, all, All, Text, codes,
  is_ascii_digit, u128_max, u64_max, arith,
}
use qcore_rs.Prelude.Utf8.{start, utf8_run, utf8_step}
use qcore_rs.Prelude.Decimal.{decimal}
use qcore_rs.Prelude.Decimal.ReadBack.{
  parse_uint-decimal, decimal-LeadsWell, decimal-IsDigit, IsDigit,
}
use qcore_rs.Json.{Json, Fields, no_fields, field, get, as_str, as_u64, render}
use qcore_rs.Json.Parser.{max_depth}
use qcore_rs.Json.RoundTrip.{parse-render}
use qcore_rs.Json.RoundTrip.Values.{IsWritable}
use qcore_rs.Json.RoundTrip.Numbers.{decimal_first, leads_zero-LeadsWell}
use qcore_rs.Gateway.{
  NodeInfo, canonical_decimal, Submit, TxStatus, whole_number, field_u128, field_str, optional_u128,
  node_info_of, parse_node_info, parse_submit, submit_of, parse_transaction, status_of,
  supported_protocol, speaks, field_u64, gateway_protocol,
}

pub digits-utf8_run : (text : Text) → All IsDigit text → utf8_run start text ≡ some start
unfolding utf8_run utf8_step
digits-utf8_run [] a = refl
digits-utf8_run (c ∷ text) a = ground (arith, a.0, digits-utf8_run text a.1)

all-digits : (text : Text) → All IsDigit text → all is_ascii_digit text ≡ true
all-digits [] a = refl
all-digits (c ∷ text) a = ground (arith, a.0, all-digits text a.1)

-- The decimal of a number is the number again, as `whole_number` reads it.
pub whole_number-decimal : (n : ℕ) → n ≤ u128_max → whole_number (decimal n) ≡ some n
unfolding whole_number
whole_number-decimal n h =
    let (c, rest, text, digit) = decimal_first n in
    let digits = all-digits (decimal n) (decimal-IsDigit n) in
    let read = parse_uint-decimal u128_max n h in
    rw text (ground (arith, rw text at digits, rw text at read))

pub canonical_decimal-decimal : (n : ℕ) → n ≤ u128_max → canonical_decimal (decimal n) ≡ some n
unfolding canonical_decimal
canonical_decimal-decimal n h =
    rw (leads_zero-LeadsWell (decimal n) (decimal-LeadsWell n)) (whole_number-decimal n h)

-- The answer to `node_info`: amounts are decimal texts, and what is not reported is null.
abbrev amount : ℕ → Json
amount n = Json.str (decimal n)

abbrev optional_amount : Option ℕ → Json
optional_amount none = Json.null
optional_amount (some n) = amount n

abbrev fee_answer : NodeInfo → Json
fee_answer info = Json.object (
    field (codes "transfer_quon") (amount info.transfer_fee) (
      field (codes "deploy_fee_quon") (optional_amount info.deploy_fee) (
        field (codes "rate_micro_usd_per_qtov") (optional_amount info.rate_micro_usd_per_qtov)
          (field (codes "quon_per_qtov") (optional_amount info.quon_per_qtov) no_fields))))

abbrev pub node_info_answer : NodeInfo → Json
node_info_answer info = Json.object (
    field (codes "chain_id") (Json.str info.chain_id) (
      field (codes "genesis_hash") (Json.str info.genesis_hash) (
        field (codes "head_height") (Json.int info.head_height) (
          field (codes "denomination") (Json.str info.denomination) (
            field (codes "version") (Json.str info.version) (
              field (codes "protocol") (Json.int info.protocol)
                (field (codes "fee") (fee_answer info) no_fields)))))))

abbrev pub IsText : Text → Type 0
IsText text = utf8_run start text ≡ some start

abbrev pub IsAmount : Option ℕ → Type 0
IsAmount none = Unit
IsAmount (some n) = n ≤ u128_max

-- What the types of the fields say of a `NodeInfo`, and the protocol that this client supports.
pub record IsReported (info : NodeInfo) : Type 0 where
  pub chain_id : IsText info.chain_id
  pub genesis_hash : IsText info.genesis_hash
  pub head_height : info.head_height ≤ u64_max
  pub denomination : IsText info.denomination
  pub transfer_fee : info.transfer_fee ≤ u128_max
  pub version : IsText info.version
  pub protocol : info.protocol ≡ supported_protocol
  pub deploy_fee : IsAmount info.deploy_fee
  pub rate_micro_usd_per_qtov : IsAmount info.rate_micro_usd_per_qtov
  pub quon_per_qtov : IsAmount info.quon_per_qtov

amount-IsWritable : (n : ℕ) → IsWritable 126 (amount n)
unfolding IsWritable
amount-IsWritable n = digits-utf8_run (decimal n) (decimal-IsDigit n)

optional_amount-IsWritable : (n : Option ℕ) → IsWritable 126 (optional_amount n)
unfolding IsWritable
optional_amount-IsWritable none = tt
optional_amount-IsWritable (some n) = amount-IsWritable n

fee_answer-IsWritable : (info : NodeInfo) → IsWritable 127 (fee_answer info)
unfolding IsWritable utf8_run
fee_answer-IsWritable info = (
  refl,
  refl,
  amount-IsWritable info.transfer_fee,
  (
    refl,
    refl,
    optional_amount-IsWritable info.deploy_fee,
    (
      refl,
      refl,
      optional_amount-IsWritable info.rate_micro_usd_per_qtov,
      (refl, refl, optional_amount-IsWritable info.quon_per_qtov, tt),
    ),
  ),
)

node_info_answer-IsWritable :
    (info : NodeInfo) → IsReported info → IsWritable max_depth (node_info_answer info)
unfolding IsWritable utf8_run
node_info_answer-IsWritable info r = (
  refl,
  refl,
  r.chain_id,
  (
    refl,
    refl,
    r.genesis_hash,
    (
      refl,
      refl,
      r.head_height,
      (
        refl,
        refl,
        r.denomination,
        (
          refl,
          refl,
          r.version,
          (refl, refl, ground (arith, r.protocol), (refl, refl, fee_answer-IsWritable info, tt)),
        ),
      ),
    ),
  ),
)

optional_u128-amount :
    (v : Json) (key : Text) (n : Option ℕ)
    → IsAmount n
    → get key v ≡ some (optional_amount n)
    → optional_u128 v key ≡ ok n
unfolding optional_u128 field_u128 field_str as_str
optional_u128-amount v key none a h = rw h refl
optional_u128-amount v key (some n) a h = rw (h, whole_number-decimal n a) refl

field_u128-amount :
    (v : Json) (key : Text) (n : ℕ)
    → n ≤ u128_max
    → get key v ≡ some (amount n)
    → field_u128 v key ≡ ok n
unfolding field_u128 field_str as_str
field_u128-amount v key n a h = rw (h, whole_number-decimal n a) refl

speaks-supported : (p : ℕ) → p ≡ supported_protocol → speaks (some p) ≡ ok p
speaks-supported p h = ground (arith, h)

node_info_of-answer :
    (info : NodeInfo) → IsReported info → node_info_of (node_info_answer info) ≡ ok info
unfolding node_info_of get field_str field_u64 as_str as_u64 gateway_protocol
node_info_of-answer info r =
    let fee = fee_answer info in
    let transfer =
      field_u128-amount fee (codes "transfer_quon") info.transfer_fee r.transfer_fee refl in
    let deploy =
      optional_u128-amount fee (codes "deploy_fee_quon") info.deploy_fee r.deploy_fee refl in
    let rate =
      optional_u128-amount fee (codes "rate_micro_usd_per_qtov") info.rate_micro_usd_per_qtov
        r.rate_micro_usd_per_qtov refl in
    let quon =
      optional_u128-amount fee (codes "quon_per_qtov") info.quon_per_qtov r.quon_per_qtov refl in
    let protocol = speaks-supported info.protocol r.protocol in
    rw (transfer, protocol, deploy, rate, quon) refl

-- The answer of a gateway that speaks the supported protocol is read as what it reports.
pub parse_node_info-answer :
    (info : NodeInfo) → IsReported info → parse_node_info (render (node_info_answer info)) ≡ ok info
unfolding parse_node_info
parse_node_info-answer info r =
    rw (parse-render (node_info_answer info) (node_info_answer-IsWritable info r))
      (node_info_of-answer info r)

abbrev optional_int : Text → Option ℕ → Fields → Fields
optional_int key none rest = rest
optional_int key (some n) rest = field key (Json.int n) rest

-- The answer to `submit_transaction`: the nonces of a rejection stand in it where they are known.
abbrev pub submit_answer : Submit → Json
submit_answer (Submit.accepted state tx_id) = Json.object (
    field (codes "verdict") (Json.str (codes "accepted"))
      (field (codes "state") (Json.str state) (field (codes "tx_id") (Json.str tx_id) no_fields)))
submit_answer (Submit.rejected reason expected got) = Json.object (
    field (codes "verdict") (Json.str (codes "rejected")) (
      field (codes "reason") (Json.str reason)
        (optional_int (codes "expected") expected (optional_int (codes "got") got no_fields))))

abbrev pub IsNonce : Option ℕ → Type 0
IsNonce none = Unit
IsNonce (some n) = n ≤ u64_max

abbrev pub IsSubmit : Submit → Type 0
IsSubmit (Submit.accepted state tx_id) = IsText state × IsText tx_id
IsSubmit (Submit.rejected reason expected got) = IsText reason × IsNonce expected × IsNonce got

submit_answer-IsWritable : (s : Submit) → IsSubmit s → IsWritable max_depth (submit_answer s)
unfolding IsWritable utf8_run
submit_answer-IsWritable (Submit.accepted state tx_id) h =
    (refl, refl, refl, (refl, refl, h.0, (refl, refl, h.1, tt)))
submit_answer-IsWritable (Submit.rejected reason none none) h =
    (refl, refl, refl, (refl, refl, h.0, tt))
submit_answer-IsWritable (Submit.rejected reason none (some g)) h =
    (refl, refl, refl, (refl, refl, h.0, (refl, refl, h.2, tt)))
submit_answer-IsWritable (Submit.rejected reason (some e) none) h =
    (refl, refl, refl, (refl, refl, h.0, (refl, refl, h.1, tt)))
submit_answer-IsWritable (Submit.rejected reason (some e) (some g)) h =
    (refl, refl, refl, (refl, refl, h.0, (refl, refl, h.1, (refl, refl, h.2, tt))))

submit_of-answer : (s : Submit) → submit_of (submit_answer s) ≡ ok s
unfolding submit_of field_str get as_str as_u64
submit_of-answer (Submit.accepted state tx_id) = refl
submit_of-answer (Submit.rejected reason none none) = refl
submit_of-answer (Submit.rejected reason none (some g)) = refl
submit_of-answer (Submit.rejected reason (some e) none) = refl
submit_of-answer (Submit.rejected reason (some e) (some g)) = refl

-- The answer of a gateway to a transaction is read as its verdict, accepted or rejected.
pub parse_submit-answer : (s : Submit) → IsSubmit s → parse_submit (render (submit_answer s)) ≡ ok s
unfolding parse_submit
parse_submit-answer s h =
    rw (parse-render (submit_answer s) (submit_answer-IsWritable s h)) (submit_of-answer s)

abbrev block_json : Option Text → Json
block_json none = Json.null
block_json (some block) = Json.str block

-- The statuses that a gateway reports. The others are the client's own verdicts.
pub data Reported : Type 0 where
  finalised : ℕ → Option Text → Reported
  pending unknown : Reported

abbrev pub status_reported : Reported → TxStatus
status_reported (Reported.finalised height block) = TxStatus.finalised height block
status_reported Reported.pending = TxStatus.pending
status_reported Reported.unknown = TxStatus.unknown

abbrev pub status_answer : Reported → Json
status_answer (Reported.finalised height block) = Json.object (
    field (codes "status") (Json.str (codes "finalised")) (
      field (codes "height") (Json.int height)
        (field (codes "block") (block_json block) no_fields)))
status_answer Reported.pending =
    Json.object (field (codes "status") (Json.str (codes "pending")) no_fields)
status_answer Reported.unknown =
    Json.object (field (codes "status") (Json.str (codes "unknown")) no_fields)

abbrev pub IsStatus : Reported → Type 0
IsStatus (Reported.finalised height none) = height ≤ u64_max
IsStatus (Reported.finalised height (some block)) = (height ≤ u64_max) × IsText block
IsStatus _ = Unit

status_answer-IsWritable : (s : Reported) → IsStatus s → IsWritable max_depth (status_answer s)
unfolding IsWritable utf8_run
status_answer-IsWritable (Reported.finalised height none) h =
    (refl, refl, refl, (refl, refl, h, (refl, refl, tt, tt)))
status_answer-IsWritable (Reported.finalised height (some block)) h =
    (refl, refl, refl, (refl, refl, h.0, (refl, refl, h.1, tt)))
status_answer-IsWritable Reported.pending h = (refl, refl, refl, tt)
status_answer-IsWritable Reported.unknown h = (refl, refl, refl, tt)

status_of-answer : (s : Reported) → status_of (status_answer s) ≡ ok (status_reported s)
unfolding status_of field_str field_u64 get as_str as_u64
status_of-answer (Reported.finalised height none) = refl
status_of-answer (Reported.finalised height (some block)) = refl
status_of-answer Reported.pending = refl
status_of-answer Reported.unknown = refl

-- The status of a transaction that a gateway reports is read as that status, a missing block of a
-- pruned height included.
pub parse_transaction-answer :
    (s : Reported)
    → IsStatus s
    → parse_transaction (render (status_answer s)) ≡ ok (status_reported s)
unfolding parse_transaction
parse_transaction-answer s h =
    rw (parse-render (status_answer s) (status_answer-IsWritable s h)) (status_of-answer s)
