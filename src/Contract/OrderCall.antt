-- ===== src/Contract/OrderCall.antt =====
-- `build_typed_order_call` of src/contract.rs, with what it takes from src/lib.rs: `check_genesis`
-- and `fresh_randomness`. The hashes, the keys and the address codec come from other crates.
pub mod Layout
pub mod Image
pub mod Words
pub mod Written
pub mod Signed
use qcore_rs.Prelude.{
  ℕ, Bool, true, false, ◌&&◌, ◌||◌, Option, none, some, List, [], ◌∷◌, ◌++◌, map, Result, ok, err,
  ◌>>=◌, ◌>>◌, refuse, map_err, ok_or, ltb, ◌==◌, if◌then◌else◌, length, all, find, is_same,
  list_eq, nat_eq, Bytes, Text, codes,
}
use qcore_rs.Chain.{testnet_chain_name}
use qcore_rs.Contract.Field.{FieldArg, FieldValue, FieldError, ensure_fits, zeroes}
use qcore_rs.Contract.CallArgs.{contract_context_bytes}
use qcore_rs.Contract.Message.{Order, canonical_order_message_typed}
use qcore_rs.Contract.OrderCall.Layout.{RegionError, Offsets, Region, order_memory}

pub record OrderCrates : Type 0 where
  pub sha3_256 : Bytes → Bytes
  pub account_seed : Bytes → ℕ → ℕ → Bytes
  -- `ml_dsa::keygen_into`: the public key and the secret
  pub keygen : Bytes → Bytes × Bytes
  -- `ml_dsa::sign` in the machine's context: the secret, the message, the randomness
  pub sign : Bytes → Bytes → Bytes → Option Bytes
  pub scheme_lattice : ℕ
  pub parse_address : Text → Option Bytes
  pub chain_id_from_name : Text → ℕ
  pub mainnet_chain_id : ℕ

pub data OrderError : Type 0 where
  not_an_address not_canonical no_expiry retired_chain zero_genesis offset_inside_context
        field_inside_context no_randomness signing_failed :
      OrderError
  field : FieldError → OrderError
  region : RegionError → OrderError

abbrev pub default_region_offset : ℕ
default_region_offset = 8192

abbrev pub retired_chain_names : List Text
retired_chain_names =
    codes "Q-test-net-1"
    ∷ codes "Q-test-net-01"
    ∷ codes "Q-test-net-001"
    ∷ codes "Q-test-net-0001"
    ∷ codes "Test-Net-0-1"
    ∷ codes "Q-TestNet-1"
    ∷ codes "Q-testNet-1.0"
    ∷ []

-- whether all bytes are the first one
unfoldable pub degenerate_randomness : Bytes → Bool
degenerate_randomness [] = true
degenerate_randomness (b ∷ rest) = all (λ x. x == b) rest

-- for what the entropy source filled in, if it did
unfoldable pub fresh_randomness : Option Bytes → Result OrderError Bytes
unfolding degenerate_randomness
fresh_randomness none = err OrderError.no_randomness
fresh_randomness (some rnd) =
    if degenerate_randomness rnd then err OrderError.no_randomness else ok rnd

-- the loop over the fields before any key is derived
unfoldable pub check_fields : List FieldArg → Result OrderError (Unit {0})
unfolding ensure_fits
check_fields [] = ok tt
check_fields (f ∷ rest) = do
  map_err OrderError.field (ensure_fits f.value)
  refuse (ltb f.offset contract_context_bytes) OrderError.field_inside_context
  check_fields rest

abbrev pub value_of : FieldArg → FieldValue
value_of f = f.value

-- the arguments of `build_typed_order_call`
pub record OrderSpec : Type 0 where
  pub chain_id : ℕ
  pub genesis : Bytes
  pub contract : Text
  pub selector : Bytes
  pub layout_hash : Bytes
  pub scheme_off : ℕ
  pub ptr_off : ℕ
  pub expiry_off : ℕ
  pub region_off : ℕ
  pub fields : List FieldArg
  pub owner_seed : Bytes
  pub owner_index : ℕ
  pub nonce : ℕ
  pub expiry : ℕ

pub record SignedOrderCall : Type 0 where
  pub call_args : Bytes
  pub user_memory : Bytes
  pub message : Bytes
  pub signature : Bytes
  pub public_key : Bytes
  pub signer : Bytes
  pub nonce : ℕ
  pub expiry : ℕ

abbrev pub offsets_of : OrderSpec → Offsets
offsets_of s = record {
  scheme_off = s.scheme_off;
  ptr_off = s.ptr_off;
  expiry_off = s.expiry_off;
  region_off = if s.region_off == 0 then default_region_offset else s.region_off;
}

abbrev pub inside_context : Offsets → Bool
inside_context o =
    ltb o.scheme_off contract_context_bytes
    || ltb o.ptr_off contract_context_bytes
    || ltb o.expiry_off contract_context_bytes
    || ltb o.region_off contract_context_bytes

module _ (c : OrderCrates) where
  unfoldable pub signer_address : ℕ → Bytes → Bytes
  signer_address scheme public_key = c.sha3_256 (scheme ∷ public_key)

  unfoldable pub contract_id : Text → Result OrderError Bytes
  contract_id contract = do
    payload ← ok_or (c.parse_address contract) OrderError.not_an_address
    if length payload == 32 then ok payload else err OrderError.not_canonical

  abbrev pub is_retired : ℕ → Bool
  is_retired chain_id =
      elim (find (λ name. c.chain_id_from_name name == chain_id) retired_chain_names) [
        | none ↦ false
        | some name ↦ true
      ]

  unfoldable pub testnet_chain_id : ℕ
  testnet_chain_id = c.chain_id_from_name testnet_chain_name

  unfoldable pub check_genesis : ℕ → Bytes → Result OrderError (Unit {0})
  unfolding testnet_chain_id
  check_genesis chain_id genesis = do
    refuse (is_retired chain_id) OrderError.retired_chain
    refuse
        (is_same genesis (zeroes 32)
          && (chain_id == testnet_chain_id || chain_id == c.mainnet_chain_id))
        OrderError.zero_genesis
    ok tt

  -- the guards, up to the derivation of the key; the contract id is what they return
  unfoldable pub admit_order : OrderSpec → Result OrderError Bytes
  unfolding contract_id check_genesis check_fields
  admit_order s = do
    contract ← contract_id s.contract
    refuse (s.expiry == 0) OrderError.no_expiry
    check_genesis s.chain_id s.genesis
    refuse (inside_context (offsets_of s)) OrderError.offset_inside_context
    check_fields s.fields
    ok contract

  abbrev pub order_keys : OrderSpec → Bytes × Bytes
  order_keys s = c.keygen (c.account_seed s.owner_seed c.scheme_lattice s.owner_index)

  -- the message of the order, for the contract's id
  abbrev pub order_of : OrderSpec → Bytes → Order
  order_of s contract = record {
    chain_id = s.chain_id;
    genesis = s.genesis;
    contract_id = contract;
    selector = s.selector;
    signer = signer_address c.scheme_lattice (order_keys s).0;
    nonce = s.nonce;
    expiry = s.expiry;
    layout_hash = s.layout_hash;
    fields = map value_of s.fields;
  }

  -- `drawn` is what the entropy source filled in
  unfoldable pub build_typed_order_call :
      Option Bytes → OrderSpec → Result OrderError SignedOrderCall
  unfolding admit_order canonical_order_message_typed signer_address fresh_randomness order_memory
  build_typed_order_call drawn s = do
    contract ← admit_order s
    let message = canonical_order_message_typed (order_of s contract)
    rnd ← fresh_randomness drawn
    signature ← ok_or (c.sign (order_keys s).1 message rnd) OrderError.signing_failed
    user_memory ← map_err OrderError.region (
        order_memory (offsets_of s) c.scheme_lattice s.expiry s.fields
          (record { public_key = (order_keys s).0; signature = signature; message = message }))
    ok (record {
      call_args = s.selector ++ user_memory;
      user_memory = user_memory;
      message = message;
      signature = signature;
      public_key = (order_keys s).0;
      signer = signer_address c.scheme_lattice (order_keys s).0;
      nonce = s.nonce;
      expiry = s.expiry;
    })
