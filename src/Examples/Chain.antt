-- ===== src/Examples/Chain.antt =====
-- The checks on heads, deadlines and fees at concrete values.
use qcore_rs.Prelude.{
  ℕ, ◌+◌, ◌*◌, ◌≤◌, ◌<◌, ◌≡◌, ◌↔◌, refl, true, false, Option, some, ok, Text, Bytes, codes, arith,
}
use qcore_rs.Address.{same_address}
use qcore_rs.Chain.{
  testnet_clock, testnet_genesis_secs, default_validity_blocks, bounded_valid_until_for,
}
use qcore_rs.Chain.Deadline.{Admits, bounded_valid_until_for_iff}
use qcore_rs.Chain.Fee.{
  FeeInfo, check_call_to, native_transfer_meter, max_deploy_meter_limit, max_call_args,
  deploy_fee_of,
}
use qcore_rs.Chain.Fee.Admission.{check_deploy_iff}
use qcore_rs.Chain.Fee.Band.{deploy_total, deploy_fee_of-check_call_to}

abbrev plain : Text → Option Bytes
plain t = some t

abbrev wall : ℕ
wall = testnet_genesis_secs + 100

bounded_valid_until_for_iff_example :
    (bounded_valid_until_for (some testnet_clock) false 1_100 wall (some 900) 5 ≡ ok 1_400) ↔ (
      (1_400 ≡ 1_100 + default_validity_blocks)
      × Admits (some testnet_clock) false 1_100 wall (some 900) 5)
bounded_valid_until_for_iff_example =
    bounded_valid_until_for_iff (some testnet_clock) false 1_100 wall (some 900) 5 1_400

-- The head of the example is admitted.
head_admitted :
    bounded_valid_until_for (some testnet_clock) false 1_100 wall (some 900) 5 ≡ ok 1_400
unfolding bounded_valid_until_for
head_admitted = refl

abbrev deploy : Text
deploy = codes "Q1DEPLOYDEPLOYDEPLOYDEPLOYDEPLOY"

same_deploy : same_address plain deploy deploy ≡ true
unfolding same_address
same_deploy = refl

check_deploy_iff_example :
    (check_call_to plain deploy deploy 20_000_000 100 5_000_700 700 ≡ ok tt) ↔ (
      (native_transfer_meter ≤ 20_000_000)
      × (20_000_000 ≤ max_deploy_meter_limit)
      × (100 ≤ max_call_args)
      × (700 < 5_000_700)
      × (700 + 700 * 5_000 ≤ 5_000_700)
      × (5_000_700 ≤ 700 + (700 + 1) * 10_000))
check_deploy_iff_example =
    check_deploy_iff plain deploy deploy 20_000_000 100 5_000_700 700 same_deploy (omega arith)

-- A QTOV at one dollar, of a million Quon.
abbrev at_one_dollar : FeeInfo
at_one_dollar = record {
  transfer_fee = 700;
  deploy_fee = some 5_000_000;
  rate_micro_usd_per_qtov = some 1_000_000;
  quon_per_qtov = some 1_000_000;
}

five_dollars : deploy_fee_of at_one_dollar ≡ ok 5_000_000
unfolding deploy_fee_of
five_dollars = refl

deploy_fee_of-check_call_to_example :
    check_call_to plain deploy deploy 20_000_000 100
      (deploy_total at_one_dollar 20_000_000 5_000_000)
      700
    ≡ ok tt
deploy_fee_of-check_call_to_example =
    deploy_fee_of-check_call_to plain deploy deploy at_one_dollar 20_000_000 100 5_000_000 1_000_000
      same_deploy (omega arith) (omega arith) (omega arith) refl (omega arith) (omega arith)
      (omega arith) five_dollars
