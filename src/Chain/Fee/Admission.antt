-- ===== src/Chain/Fee/Admission.antt =====
-- Which calls and deploys the fee checks admit.
use qcore_rs.Prelude.{
  ℕ, ◌+◌, ◌*◌, ◌≤◌, ◌<◌, ◌≡◌, ◌↔◌, true, ok, arith, Text, Bytes, Option, u128_max,
}
use qcore_rs.Address.{same_address}
use qcore_rs.Chain.Fee.{
  check_call, check_call_to, native_transfer_meter, max_meter_limit, max_deploy_meter_limit,
  max_call_args,
}

-- A call is admitted exactly when its meter limit is from 1210 to 12500000, its arguments are at
-- most 131072 bytes, and its fee is the network fee, no more and no less.
pub check_call_iff :
    (meter_limit args_len fee transfer_fee : ℕ)
    → (check_call meter_limit args_len fee transfer_fee ≡ ok tt) ↔ (
        (native_transfer_meter ≤ meter_limit)
        × (meter_limit ≤ max_meter_limit)
        × (args_len ≤ max_call_args)
        × (fee ≡ transfer_fee))
unfolding check_call
check_call_iff meter_limit args_len fee transfer_fee = (λ h. ground arith, λ h. ground arith)

-- A deploy is admitted exactly when its meter limit is from 1210 to 50000000, its arguments are at
-- most 131072 bytes, and what it pays above the network fee is not nothing, at least 5000 times that
-- fee and at most 10000 times that fee and one; for network fees that leave those products in range.
pub check_deploy_iff :
    (parse : Text → Option Bytes) (deploy_address target : Text)
    (meter_limit args_len fee transfer_fee : ℕ)
    → same_address parse target deploy_address ≡ true
    → (transfer_fee + 1) * 10_000 ≤ u128_max
    → (check_call_to parse deploy_address target meter_limit args_len fee transfer_fee ≡ ok tt) ↔ (
        (native_transfer_meter ≤ meter_limit)
        × (meter_limit ≤ max_deploy_meter_limit)
        × (args_len ≤ max_call_args)
        × (transfer_fee < fee)
        × (transfer_fee + transfer_fee * 5_000 ≤ fee)
        × (fee ≤ transfer_fee + (transfer_fee + 1) * 10_000))
unfolding check_call_to
check_deploy_iff parse deploy_address target meter_limit args_len fee transfer_fee d r =
    (λ h. ground arith, λ h. ground arith)
