-- ===== src/Chain/Fee.antt =====
-- The checks of src/lib.rs on the meter limit, the size of the arguments and the fee of a call, and
-- the deploy fee that a gateway reports.
pub mod Admission
pub mod Band
use qcore_rs.Prelude.{
  ℕ, ◌+◌, ◌-◌, ◌*◌, ◌/◌, ◌^◌, Bool, true, false, not, ◌&&◌, ◌||◌, Option, none, some, Result, ok,
  err, ◌>>=◌, ◌>>◌, refuse, ltb, leb, ◌==◌, if◌then◌else◌, Text, Bytes, saturating_add,
  saturating_mul, u128_max, ok_or,
}
use qcore_rs.Address.{same_address}

abbrev pub native_transfer_meter : ℕ
native_transfer_meter = 1_210

abbrev pub max_meter_limit : ℕ
max_meter_limit = 12_500_000

abbrev pub max_deploy_meter_limit : ℕ
max_deploy_meter_limit = 50_000_000

abbrev pub max_call_args : ℕ
max_call_args = 128 * 1024

abbrev pub deploy_fee_micro_usd : ℕ
deploy_fee_micro_usd = 5_000_000

abbrev pub fee_band_floor_micro_usd : ℕ
fee_band_floor_micro_usd = 500

abbrev pub fee_band_ceiling_micro_usd : ℕ
fee_band_ceiling_micro_usd = 1_000

abbrev pub deploy_to_transfer_floor : ℕ
deploy_to_transfer_floor = deploy_fee_micro_usd / fee_band_ceiling_micro_usd

abbrev pub deploy_to_transfer_ceiling : ℕ
deploy_to_transfer_ceiling = deploy_fee_micro_usd / fee_band_floor_micro_usd

pub data FeeError : Type 0 where
  meter_out_of_range too_many_args below_network_fee : ℕ → ℕ → FeeError
  no_deploy_fee : ℕ → FeeError
  deploy_fee_off_band above_network_fee : ℕ → ℕ → FeeError
  deploy_fee_unreported : FeeError
  deploy_fee_off_rate : ℕ → FeeError
  network_fee_off_band : ℕ → ℕ → FeeError

unfoldable pub vm_call_fee : ℕ → ℕ → ℕ
vm_call_fee transfer_fee meter_limit = transfer_fee

-- The part for a deploy, which pays the frozen deploy fee beside the network fee.
abbrev pub check_deploy_fee : ℕ → ℕ → ℕ → Result FeeError (Unit {0})
check_deploy_fee fee required transfer_fee =
    let deploy_fee = fee - required in
    let floor = saturating_mul u128_max transfer_fee deploy_to_transfer_floor in
    let ceiling =
      saturating_mul u128_max (saturating_add u128_max transfer_fee 1) deploy_to_transfer_ceiling in
    refuse (ltb deploy_fee floor || ltb ceiling deploy_fee)
      (FeeError.deploy_fee_off_band deploy_fee transfer_fee)

unfoldable pub check_call_under : ℕ → ℕ → ℕ → ℕ → ℕ → Bool → Result FeeError (Unit {0})
unfolding vm_call_fee
check_call_under ceiling meter_limit args_len fee transfer_fee deploy = do
  refuse (not (leb native_transfer_meter meter_limit && leb meter_limit ceiling))
      (FeeError.meter_out_of_range meter_limit ceiling)
  refuse (ltb max_call_args args_len) (FeeError.too_many_args args_len max_call_args)
  let required = vm_call_fee transfer_fee meter_limit
  refuse (ltb fee required) (FeeError.below_network_fee fee required)
  refuse (deploy && fee == required) (FeeError.no_deploy_fee fee)
  if deploy then check_deploy_fee fee required transfer_fee else ok tt
  refuse (not deploy && ltb required fee) (FeeError.above_network_fee fee required)

unfoldable pub check_call : ℕ → ℕ → ℕ → ℕ → Result FeeError (Unit {0})
unfolding check_call_under
check_call meter_limit args_len fee transfer_fee =
    check_call_under max_meter_limit meter_limit args_len fee transfer_fee false

-- `vm_deploy_address` renders a hash; both codecs are other crates'.
unfoldable pub check_call_to :
    (Text → Option Bytes) → Text → Text → ℕ → ℕ → ℕ → ℕ → Result FeeError (Unit {0})
unfolding check_call_under
check_call_to parse_address vm_deploy_address target meter_limit args_len fee transfer_fee =
    let deploy = same_address parse_address target vm_deploy_address in
    check_call_under (if deploy then max_deploy_meter_limit else max_meter_limit) meter_limit
      args_len fee transfer_fee deploy

-- The fields of `NodeInfo` that the fees rest on.
pub record FeeInfo : Type 0 where
  pub transfer_fee : ℕ
  pub deploy_fee : Option ℕ
  pub rate_micro_usd_per_qtov : Option ℕ
  pub quon_per_qtov : Option ℕ

-- `checked_div(rate).unwrap_or(0)`
abbrev pub div_or_zero : ℕ → ℕ → ℕ
div_or_zero a b = if b == 0 then 0 else a / b

unfoldable pub deploy_fee_at : ℕ → ℕ → ℕ → ℕ → Result FeeError ℕ
deploy_fee_at transfer_fee fee rate unit = do
  let expected = div_or_zero (saturating_mul u128_max deploy_fee_micro_usd unit) rate
  refuse (rate == 0 || unit == 0 || not (fee == expected)) (FeeError.deploy_fee_off_rate fee)
  let band_floor = saturating_mul u128_max fee_band_floor_micro_usd unit / rate
  let band_ceiling = saturating_mul u128_max fee_band_ceiling_micro_usd unit / rate
  refuse (ltb transfer_fee band_floor || ltb band_ceiling transfer_fee)
      (FeeError.network_fee_off_band rate transfer_fee)
  ok fee

abbrev pub deploy_fee_reported : ℕ → Option ℕ → Option ℕ → Option ℕ → Result FeeError ℕ
deploy_fee_reported transfer_fee (some fee) (some rate) (some unit) =
    deploy_fee_at transfer_fee fee rate unit
deploy_fee_reported transfer_fee _ _ _ = err FeeError.deploy_fee_unreported

unfoldable pub deploy_fee_of : FeeInfo → Result FeeError ℕ
unfolding deploy_fee_at
deploy_fee_of info =
    deploy_fee_reported info.transfer_fee info.deploy_fee info.rate_micro_usd_per_qtov
      info.quon_per_qtov
