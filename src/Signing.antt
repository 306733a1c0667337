-- ===== src/Signing.antt =====
-- The transactions that src/lib.rs signs: `sign_native` and the calls, transfers and registrations
-- built on it. Keys, the transaction's body and its signature are other crates'.
pub mod Admission
pub mod Guards
use qcore_rs.Prelude.{
  ℕ, Bool, true, false, not, Option, none, some, List, [], ◌∷◌, ◌++◌, Result, ok, err, ◌>>=◌, ◌>>◌,
  refuse, ok_or, map_err, ◌==◌, if◌then◌else◌, is_same, list_eq, nat_eq, length, Bytes, Text, codes,
}
use qcore_rs.Address.{AddressError, valid_address, address_payload}
use qcore_rs.Chain.{ChainError, check_valid_until}
use qcore_rs.Chain.Fee.{FeeError, check_call, check_call_to, native_transfer_meter}
use qcore_rs.Contract.OrderCall.{OrderCrates, OrderError, check_genesis, fresh_randomness}

-- `address` and `public_key` are those of `derive(seed, index)`, who signs in `try_sign_hedged`.
pub record SigningCrates : Type 1 where
  pub shared : OrderCrates
  pub address : Bytes → ℕ → Text
  pub public_key : Bytes → ℕ → Bytes
  pub render_address : Bytes → Text
  pub put_u64 : ℕ → Bytes
  pub Body : Type 0
  -- `Body::with_context`: sender, nonce, meter limit, fee, the call's target and arguments, value,
  -- chain id
  pub with_context : Text → ℕ → ℕ → ℕ → Text → Bytes → ℕ → ℕ → Body
  pub with_kind : ℕ → Body → Body
  pub calling : Body → Body
  pub carrying : Bytes → Body → Body
  pub until : ℕ → Body → Body
  pub kind_call : ℕ
  pub kind_transfer : ℕ
  pub Wrapper : Type 0
  pub try_sign_hedged : Bytes → ℕ → Body → Bytes → Bytes → Option Wrapper
  pub id : Wrapper → Text
  pub to_bytes : Wrapper → Bytes

pub data SignError : Type 0 where
  target_not_address self_transfer not_signed zero_transfer zero_asset issuer_not_address :
      SignError
  address_refused : AddressError → SignError
  deadline_refused : ChainError → SignError
  genesis_refused : OrderError → SignError
  randomness_refused : OrderError → SignError
  fee_refused : FeeError → SignError

pub record SignedTransfer : Type 0 where
  pub from : Text
  pub tx_id : Text
  pub tx_bytes : Bytes

-- the arguments of `sign_native`
pub record Native : Type 0 where
  pub seed : Bytes
  pub index : ℕ
  pub target : Text
  pub args : Bytes
  pub value : ℕ
  pub nonce : ℕ
  pub meter_limit : ℕ
  pub fee : ℕ
  pub chain_id : ℕ
  pub valid_until : ℕ
  pub calls_code : Bool
  pub head : ℕ
  pub genesis : Bytes

module _ (c : SigningCrates) where
  unfoldable pub account_address : Bytes → ℕ → Text
  account_address seed index = c.address seed index

  unfoldable pub account_public_key : Bytes → ℕ → Bytes
  account_public_key seed index = c.public_key seed index

  unfoldable pub key_register_address : Text
  key_register_address = c.render_address (c.shared.sha3_256 (codes "qtv/key/register"))

  unfoldable pub vm_deploy_address : Text
  vm_deploy_address = c.render_address (c.shared.sha3_256 (codes "qtv/vm/deploy"))

  -- `drawn` is what the entropy source filled in
  unfoldable pub sign_fresh : Option Bytes → Bytes → ℕ → c.Body → Bytes → Result SignError c.Wrapper
  unfolding fresh_randomness
  sign_fresh drawn seed index body genesis = do
    rnd ← map_err SignError.randomness_refused (fresh_randomness drawn)
    ok_or (c.try_sign_hedged seed index body genesis rnd) SignError.not_signed

  abbrev pub signed_by : Bytes → ℕ → c.Wrapper → SignedTransfer
  signed_by seed index wrapper = record {
    from = c.address seed index;
    tx_id = c.id wrapper;
    tx_bytes = c.to_bytes wrapper;
  }

  -- the test of a transfer to the sender itself
  unfoldable pub check_other : Bool → Text → Text → Result SignError (Unit {0})
  check_other true target sender = ok tt
  check_other false target sender = do
    theirs ← map_err SignError.address_refused (address_payload c.shared.parse_address target)
    mine ← map_err SignError.address_refused (address_payload c.shared.parse_address sender)
    refuse (is_same theirs mine) SignError.self_transfer

  abbrev pub body_of : Native → c.Body
  body_of a = c.until a.valid_until (
      c.with_kind (if a.calls_code then c.kind_call else c.kind_transfer) (
        c.with_context (c.address a.seed a.index) a.nonce a.meter_limit a.fee a.target a.args
          a.value a.chain_id))

  unfoldable pub sign_native : Option Bytes → Native → Result SignError SignedTransfer
  unfolding check_other sign_fresh
  sign_native drawn a = do
    refuse (not (valid_address c.shared.parse_address a.target)) SignError.target_not_address
    map_err SignError.deadline_refused (check_valid_until a.valid_until a.head)
    map_err SignError.genesis_refused (check_genesis c.shared a.chain_id a.genesis)
    check_other a.calls_code a.target (c.address a.seed a.index)
    wrapper ← sign_fresh drawn a.seed a.index (body_of a) a.genesis
    ok (signed_by a.seed a.index wrapper)

  -- `sign_payable_call`, on the arguments of `sign_native` and the network's fee
  unfoldable pub sign_payable_call : Option Bytes → Native → ℕ → Result SignError SignedTransfer
  unfolding sign_native vm_deploy_address
  sign_payable_call drawn a transfer_fee = do
    map_err SignError.fee_refused (
        check_call_to c.shared.parse_address vm_deploy_address a.target a.meter_limit
          (length a.args) a.fee transfer_fee)
    sign_native drawn (record a { calls_code = true })

  unfoldable pub sign_call : Option Bytes → Native → ℕ → Result SignError SignedTransfer
  unfolding sign_payable_call
  sign_call drawn a transfer_fee = sign_payable_call drawn (record a { value = 0 }) transfer_fee

  unfoldable pub sign_transfer : Option Bytes → Native → ℕ → Result SignError SignedTransfer
  unfolding sign_native
  sign_transfer drawn a amount = do
    refuse (amount == 0) SignError.zero_transfer
    sign_native drawn (record a {
      args = c.put_u64 amount;
      value = 0;
      meter_limit = native_transfer_meter;
      calls_code = false;
    })

  unfoldable pub sign_register : Option Bytes → Native → Result SignError SignedTransfer
  unfolding sign_native account_public_key key_register_address
  sign_register drawn a = sign_native drawn (record a {
    target = key_register_address;
    args = account_public_key a.seed a.index;
    value = 0;
    meter_limit = native_transfer_meter;
    calls_code = false;
  })

  abbrev pub issuer_of : Option Bytes → Result SignError Bytes
  issuer_of none = err SignError.issuer_not_address
  issuer_of (some issuer) =
      if length issuer == 32 then ok issuer else err SignError.issuer_not_address

  -- `sign_asset_call`: the amount is the body's value
  unfoldable pub sign_asset_call :
      Option Bytes → Native → Text → ℕ → Result SignError SignedTransfer
  unfolding sign_fresh
  sign_asset_call drawn a asset_issuer transfer_fee = do
    refuse (not (valid_address c.shared.parse_address a.target)) SignError.target_not_address
    refuse (a.value == 0) SignError.zero_asset
    issuer ← issuer_of (c.shared.parse_address asset_issuer)
    map_err SignError.fee_refused (check_call a.meter_limit (length a.args) a.fee transfer_fee)
    map_err SignError.deadline_refused (check_valid_until a.valid_until a.head)
    map_err SignError.genesis_refused (check_genesis c.shared a.chain_id a.genesis)
    wrapper ←
        sign_fresh drawn a.seed a.index
          (c.until a.valid_until (
            c.carrying issuer (
              c.calling (
                c.with_context (c.address a.seed a.index) a.nonce a.meter_limit a.fee a.target
                  a.args a.value a.chain_id))))
          a.genesis
    ok (signed_by a.seed a.index wrapper)
