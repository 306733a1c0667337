-- ===== src/Examples/Client.antt =====
-- A client of an unnamed network, with a gateway that answers from a script.
use qcore_rs.Prelude.{
  ℕ, ◌≡◌, refl, true, false, ◌||◌, none, some, List, [], ◌∷◌, Result, ok, err, Text, codes,
}
use qcore_rs.Prelude.Decimal.{parse_uint}
use qcore_rs.Prelude.Utf8.{is_utf8}
use qcore_rs.Json.Hex.{from_hex}
use qcore_rs.Json.{get, as_str, as_u64, as_bool, as_array}
use qcore_rs.Json.Parser.{parse}
use qcore_rs.Map
use qcore_rs.Map.Ordered
use qcore_rs.Session.{new, slot, is_held}
use qcore_rs.Session.Spent.{IsSound-new}
use qcore_rs.Gateway.{NodeInfo, parse_account, parse_genesis}
use qcore_rs.Signing.{SignedTransfer}
use qcore_rs.Client.{
  Setup, Client, ClientError, signing_chain_id, submit_held, checked_nonce, signing_genesis,
  sign_and_submit,
}
use qcore_rs.Client.Endpoint.{
  check_endpoint, checked_chain_id, is_mainnet_info, is_public_chain, EndpointError,
}
use qcore_rs.Client.Reading.{order_nonce}
use qcore_rs.Contract.Answers.{parse_storage}
use qcore_rs.Contract.Field.{zeroes}
use qcore_rs.Address.{address_payload}
use qcore_rs.Client.Pinning.{bound_chain, signing_chain_id_once}
use qcore_rs.Client.Sending.{is_slot, submit_held-is_held}
use qcore_rs.Client.Freed.{sign_and_submit-slot}
use qcore_rs.Examples.Contract.{toy}
use qcore_rs.Examples.Gateway.{testnet_info}

-- The gateway is the list of its answers.
abbrev pub answer : List Text → Result Text (ℕ × Text) × List Text
answer [] = (err (codes "closed"), [])
answer (text ∷ rest) = (ok (200, text), rest)

abbrev pub loopback : Setup (List Text)
loopback = record {
  base = codes "http://127.0.0.1:9000";
  chain_id = none;
  genesis_hash = none;
  is_mainnet = false;
  roster_commitment = none;
  epoch_length = none;
  network = record { name = codes "local"; genesis_secs = none; blocks_per_sec = none };
  acknowledge_mainnet = false;
  post = λ base path body g. answer g;
  on_signed = none;
}

abbrev pub opened : List Text → Client (List Text)
opened answers = record {
  shared = new;
  session = new;
  pinned_chain = none;
  trusted_roster = none;
  gateway = answers;
}

abbrev pub devnet : NodeInfo
devnet = record testnet_info { chain_id = codes "dev" }

retired_endpoint :
    check_endpoint (codes "https://me@RPC-testnet.quantova.org.:443/v1")
    ≡ err (EndpointError.retired_host (codes "rpc-testnet.quantova.org"))
unfolding check_endpoint
retired_endpoint = refl

dev_id : (signing_chain_id toy loopback devnet (opened [])).0 ≡ ok 3
unfolding signing_chain_id checked_chain_id is_mainnet_info is_public_chain
dev_id = refl

abbrev dev_chain : ℕ
dev_chain = 3

abbrev pinned : Client (List Text)
pinned = record (opened []) { pinned_chain = some (codes "dev") }

dev_id_again : (signing_chain_id toy loopback devnet pinned).0 ≡ ok 3
unfolding signing_chain_id checked_chain_id is_mainnet_info is_public_chain
dev_id_again = refl

dev_pinned : pinned.pinned_chain ≡ (signing_chain_id toy loopback devnet (opened [])).1.pinned_chain
unfolding signing_chain_id checked_chain_id is_mainnet_info is_public_chain
dev_pinned = refl

signing_chain_id_once_example :
    (codes "dev" ≡ codes "dev")
    × (dev_chain ≡ dev_chain)
    × (bound_chain toy loopback (signing_chain_id toy loopback devnet pinned).1
        ≡ some (codes "dev"))
    × (is_mainnet_info toy devnet ≡ true → false ≡ true)
signing_chain_id_once_example =
    signing_chain_id_once toy loopback devnet devnet (opened []) pinned 3 3 dev_id dev_pinned
      dev_id_again

other_chain_refused :
    (signing_chain_id toy loopback (record devnet { chain_id = codes "dev2" }) pinned).0
    ≡ err (ClientError.other_chain (codes "dev"))
unfolding signing_chain_id checked_chain_id is_mainnet_info is_public_chain
other_chain_refused = refl

abbrev sent : SignedTransfer
sent = record { from = codes "alice"; tx_id = codes "tx"; tx_bytes = 1 ∷ 2 ∷ [] }

abbrev alice : Text
alice = codes "dev/alice"

-- The connection closes without an answer, and the nonce is held all the same.
submit_held-is_held_example :
    is_held (submit_held toy loopback ((alice, 3) ∷ []) sent (opened [])).1.shared alice 3
    ≡ (is_slot alice 3 ((alice, 3) ∷ []) || is_held new alice 3)
submit_held-is_held_example =
    submit_held-is_held toy loopback ((alice, 3) ∷ []) sent (opened []) alice 3

abbrev account_answer : Text
account_answer = codes "{\"address\":\"alice\",\"nonce\":3,\"balance\":\"12\",\"scheme\":1}"

-- A network whose pinned genesis is another than the one that the gateway reports.
abbrev other_network : Setup (List Text)
other_network = record loopback { genesis_hash = some (9 ∷ []) }

abbrev zero_net : NodeInfo
zero_net = record devnet {
  genesis_hash = codes "0000000000000000000000000000000000000000000000000000000000000000";
}

alice_granted :
    (checked_nonce toy other_network zero_net (codes "alice") none (opened (account_answer ∷ []))).0
    ≡ ok (alice, 3)
unfolding checked_nonce check_endpoint parse_account parse parse_uint is_utf8 get as_str as_u64
    as_bool slot Map.get Map.insert Ordered.get Ordered.insert Ordered.retain Ordered.contains_key
    Ordered.find_key
alice_granted = refl

other_genesis_refused :
    (signing_genesis toy other_network zero_net
      (checked_nonce toy other_network zero_net
        (codes "alice")
        none
        (opened (account_answer ∷ []))).1).0
    ≡ err ClientError.other_pinned_genesis
unfolding signing_genesis parse_genesis from_hex checked_nonce check_endpoint parse_account parse
    parse_uint is_utf8 get as_str as_u64 as_bool slot Map.get Map.insert Ordered.get Ordered.insert
    Ordered.retain Ordered.contains_key Ordered.find_key
other_genesis_refused = refl

-- The signing would end well, and the genesis is refused before it.
sign_and_submit-slot_example :
    (slot
      (sign_and_submit toy other_network zero_net
        (codes "alice")
        none
        []
        (λ nonce genesis. ok sent)
        (opened (account_answer ∷ []))).1.shared
      alice
      3
      none
      false).0
    ≡ ok 3
sign_and_submit-slot_example =
    sign_and_submit-slot toy other_network zero_net (codes "alice") alice []
      (λ nonce genesis. ok sent) 3 (opened (account_answer ∷ [])) IsSound-new alice_granted
      (λ genesis given. absurd (cc (given, other_genesis_refused)))

abbrev no_slots_answer : Text
no_slots_answer = codes "{\"slots\":[]}"

unreported_nonce_refused :
    (order_nonce toy loopback
      (λ payload. some (codes "Q1C"))
      devnet
      (zeroes 32)
      (1 ∷ [])
      none
      (opened (no_slots_answer ∷ []))).0
    ≡ err ClientError.slot_not_reported
unfolding order_nonce check_endpoint parse_storage parse is_utf8 get as_array address_payload
unreported_nonce_refused = refl
