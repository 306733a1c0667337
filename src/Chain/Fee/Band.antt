-- ===== src/Chain/Fee/Band.antt =====
-- The deploy fee that the client works out from a gateway's rate passes its own check.
use mathlib.Core.Path.{subst}
use qcore_rs.Prelude.{
  ℕ, ◌+◌, ◌*◌, ◌/◌, ◌≤◌, ◌<◌, ◌≡◌, true, ok, arith, Text, Bytes, Option, none, some, u128_max,
  saturating_add,
}
use qcore_rs.Address.{same_address}
use qcore_rs.Chain.Fee.{
  FeeInfo, check_call_to, native_transfer_meter, vm_call_fee, max_deploy_meter_limit, max_call_args,
  deploy_fee_of, deploy_fee_at, deploy_fee_reported, deploy_fee_micro_usd,
}
use qcore_rs.Chain.Fee.Admission.{check_deploy_iff}

-- What `deploy_fee_at` admits: the frozen fee at the rate, and a network fee inside its band.
record AtRate (transfer_fee fee rate unit : ℕ) : Type 0 where
  rated : 0 < rate
  frozen : fee ≡ 5_000_000 * unit / rate
  floor : 500 * unit / rate ≤ transfer_fee
  ceiling : transfer_fee ≤ 1_000 * unit / rate

at_rate :
    (transfer_fee fee rate unit : ℕ)
    → deploy_fee_micro_usd * unit ≤ u128_max
    → deploy_fee_at transfer_fee fee rate unit ≡ ok fee
    → AtRate transfer_fee fee rate unit
unfolding deploy_fee_at
at_rate transfer_fee fee rate unit r h = ground arith

le-div : (a x r : ℕ) → 0 < r → a * r ≤ x → a ≤ x / r
le-div a x r h m = grind arith

div-le : (b x r : ℕ) → 0 < r → x < (b + 1) * r → x / r ≤ b
div-le b x r h m = grind arith

mul-le-of-le-div : (a x r : ℕ) → a ≤ x / r → a * r ≤ x
mul-le-of-le-div a x r h = grind arith

lt-mul-of-div-le : (b x r : ℕ) → 0 < r → x / r ≤ b → x < (b + 1) * r
lt-mul-of-div-le b x r h m = grind arith

in_band :
    (transfer_fee fee rate unit : ℕ)
    → AtRate transfer_fee fee rate unit
    → (transfer_fee * 5_000 ≤ fee) × (fee ≤ (transfer_fee + 1) * 10_000)
in_band transfer_fee fee rate unit a =
    let low = mul-le-of-le-div transfer_fee (1_000 * unit) rate a.ceiling in
    let high = lt-mul-of-div-le transfer_fee (500 * unit) rate a.rated a.floor in
    let above =
      le-div (transfer_fee * 5_000) (5_000_000 * unit) rate a.rated (omega (arith, low)) in
    let below =
      div-le ((transfer_fee + 1) * 10_000) (5_000_000 * unit) rate a.rated (omega (arith, high)) in
    (omega (arith, above, a.frozen), omega (arith, below, a.frozen))

-- The rate behind an admitted deploy fee.
reported_rate :
    (transfer_fee unit fee : ℕ) (reported rate : Option ℕ)
    → deploy_fee_reported transfer_fee reported rate (some unit) ≡ ok fee
    → (r : ℕ) × (deploy_fee_at transfer_fee fee r unit ≡ ok fee)
unfolding deploy_fee_at
reported_rate transfer_fee unit fee (some f) (some r) h = (r, ground arith)
reported_rate transfer_fee unit fee none r h = absurd (ground arith)
reported_rate transfer_fee unit fee (some f) none h = absurd (ground arith)

-- The fee of a deploy as the client adds it up.
abbrev pub deploy_total : FeeInfo → ℕ → ℕ → ℕ
deploy_total info meter_limit deploy_fee =
    saturating_add u128_max (vm_call_fee info.transfer_fee meter_limit) deploy_fee

-- Where `deploy_fee_of` admits what a gateway reports, the deploy that pays the network fee and that
-- deploy fee passes `check_call_to`: at every meter limit and size of arguments that the chain admits,
-- for a deploy fee that is not nothing, a unit whose price in micro dollars is a u128, and a network
-- fee that keeps the sums and the products in range.
pub deploy_fee_of-check_call_to :
    (parse : Text → Option Bytes) (deploy_address target : Text) (info : FeeInfo)
    (meter_limit args_len fee unit : ℕ)
    → same_address parse target deploy_address ≡ true
    → native_transfer_meter ≤ meter_limit
    → meter_limit ≤ max_deploy_meter_limit
    → args_len ≤ max_call_args
    → info.quon_per_qtov ≡ some unit
    → deploy_fee_micro_usd * unit ≤ u128_max
    → (info.transfer_fee + 1) * 10_001 ≤ u128_max
    → 0 < fee
    → deploy_fee_of info ≡ ok fee
    → check_call_to parse deploy_address target meter_limit args_len
        (deploy_total info meter_limit fee)
        info.transfer_fee
      ≡ ok tt
unfolding vm_call_fee deploy_fee_of
deploy_fee_of-check_call_to parse deploy_address target info meter_limit args_len fee unit d m1 m2 n
      u r s p h =
    let t = info.transfer_fee in
    let (rate, at) = reported_rate t unit fee info.deploy_fee info.rate_micro_usd_per_qtov (
      subst (λ q. deploy_fee_reported t info.deploy_fee info.rate_micro_usd_per_qtov q ≡ ok fee) u
        h) in
    let band = in_band t fee rate unit (at_rate t fee rate unit r at) in
    (check_deploy_iff parse deploy_address target meter_limit args_len
        (deploy_total info meter_limit fee) t d (omega arith)).1
      (m1, m2, n, omega (arith, band), omega (arith, band), omega (arith, band))
