-- ===== src/Client/Endpoint.antt =====
-- Which endpoints, chain names and answer sizes src/lib.rs admits.
use qcore_rs.Prelude.{
  ℕ, ◌*◌, Bool, true, false, not, ◌&&◌, ◌||◌, Option, none, some, List, [], ◌∷◌, Result, ok, err,
  ◌>>◌, refuse, ltb, leb, ◌==◌, if◌then◌else◌, is_same, list_eq, nat_eq, length, drop, any, all,
  Bytes, Text, codes, to_ascii_lowercase,
}
use qcore_rs.Session.{or_default}
use qcore_rs.Json.Parser.{span}
use qcore_rs.Contract.OrderCall.{OrderCrates, retired_chain_names, testnet_chain_id}
use qcore_rs.Gateway.{NodeInfo, parse_genesis}

abbrev pub retired_rpc_hosts : List Text
retired_rpc_hosts =
    codes "rpc-testnet.quantova.org"
    ∷ codes "q-test-net-0001.quantova.org"
    ∷ codes "test-net-0-1.quantova.org"
    ∷ codes "q-testnet-1.quantova.org"
    ∷ []

unfoldable pub starts_with : Text → Text → Bool
starts_with text [] = true
starts_with [] (p ∷ prefix) = false
starts_with (c ∷ text) (p ∷ prefix) =
    let rest = starts_with text prefix in if c == p then rest else false

-- `split_once("://")`: what stands behind the first of them
unfoldable pub after_scheme : Text → Option Text
unfolding starts_with
after_scheme [] = none
after_scheme (c ∷ rest) =
    let later = after_scheme rest in
    if starts_with (c ∷ rest) (codes "://") then some (drop 3 (c ∷ rest)) else later

abbrev pub ends_authority : ℕ → Bool
ends_authority c = c == b'/' || c == b'?' || c == b'#'

-- `rsplit_once('@')`: what stands behind the last of them
unfoldable pub after_at : Text → Option Text
after_at [] = none
after_at (c ∷ rest) = elim (after_at rest) [
  | some host ↦ some host
  | none ↦ if c == b'@' then some rest else none
]

abbrev pub without_port : Text → Text
without_port [] = []
without_port (c ∷ rest) = if c == b'[' then c ∷ rest else (span (λ b. not (b == b':')) (c ∷ rest)).0

-- `trim_end_matches('.')`
abbrev pub keep_dot : ℕ → Text → Text
keep_dot c [] = if c == b'.' then [] else c ∷ []
keep_dot c (d ∷ rest) = c ∷ d ∷ rest

unfoldable pub trim_dots : Text → Text
trim_dots [] = []
trim_dots (c ∷ rest) = keep_dot c (trim_dots rest)

unfoldable pub host_of : Text → Text
unfolding after_scheme after_at span trim_dots
host_of base =
    let rest = or_default (after_scheme base) base in
    let authority = (span (λ c. not (ends_authority c)) rest).0 in
    let host_port = or_default (after_at authority) authority in
    to_ascii_lowercase (trim_dots (without_port host_port))

pub data EndpointError : Type 0 where
  retired_host retired_name : Text → EndpointError
  no_name not_visible_ascii : EndpointError

unfoldable pub check_endpoint : Text → Result EndpointError (Unit {0})
unfolding host_of
check_endpoint base =
    let host = host_of base in
    if any (λ h. is_same h host) retired_rpc_hosts
    then err (EndpointError.retired_host host)
    else ok tt

-- `is_ascii_graphic`
abbrev pub is_graphic : ℕ → Bool
is_graphic c = leb 33 c && leb c 126

module _ (c : OrderCrates) where
  unfoldable pub checked_chain_id : Text → Result EndpointError ℕ
  checked_chain_id name = do
    refuse (length name == 0) EndpointError.no_name
    refuse (any (λ n. is_same n name) retired_chain_names) (EndpointError.retired_name name)
    refuse (ltb 64 (length name) || not (all is_graphic name)) EndpointError.not_visible_ascii
    ok (c.chain_id_from_name name)

  unfoldable pub is_mainnet_chain : Text → Bool
  unfolding starts_with
  is_mainnet_chain name =
      starts_with name (codes "Q-main-net-") || c.chain_id_from_name name == c.mainnet_chain_id

  abbrev pub is_pinned : Option Bytes → Option Bytes → Bool
  is_pinned (some pinned) (some reported) = is_same reported pinned
  is_pinned _ _ = false

  -- `MAINNET_GENESIS_HASH` is not pinned yet
  abbrev pub mainnet_genesis_hash : Option Bytes
  mainnet_genesis_hash = none

  abbrev pub ok_of {ℓ} : {E : Type 0} {A : Type ℓ} → Result E A → Option A
  ok_of (ok a) = some a
  ok_of (err e) = none

  unfoldable pub is_mainnet_info : NodeInfo → Bool
  unfolding is_mainnet_chain parse_genesis
  is_mainnet_info info =
      is_mainnet_chain info.chain_id || is_pinned mainnet_genesis_hash (ok_of (parse_genesis info))

  unfoldable pub is_public_chain : Text → Bool
  unfolding is_mainnet_chain testnet_chain_id
  is_public_chain name =
      starts_with name (codes "Q-test-net-")
      || c.chain_id_from_name name == testnet_chain_id c
      || is_mainnet_chain name

abbrev pub is_one_of : Text → List Text → Bool
is_one_of text texts = any (λ t. is_same t text) texts

unfoldable pub response_cap : Text → ℕ
response_cap method =
    if is_one_of method (
      codes "node_info"
      ∷ codes "get_account"
      ∷ codes "submit_transaction"
      ∷ codes "get_asset_balance"
      ∷ codes "get_asset_supply"
      ∷ [])
    then 64 * 1024
    else if is_same method (codes "get_transaction")
    then 256 * 1024
    else if is_one_of method (
        codes "get_finality"
        ∷ codes "get_roster_proof"
        ∷ codes "get_account_proof"
        ∷ codes "get_transaction_proof"
        ∷ codes "get_event_proof"
        ∷ codes "get_events"
        ∷ codes "get_storage_at"
        ∷ [])
    then 4 * 1024 * 1024
    else 8 * 1024 * 1024
