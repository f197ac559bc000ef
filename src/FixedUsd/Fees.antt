-- ===== src/FixedUsd/Fees.antt =====
-- The flashloan premium and the net profit of src/core/fixed_usd.rs.
use dex_arbitrage.Prelude.{ℕ, ◌+◌, ◌-◌, ◌*◌, ◌/◌, ◌≤◌, ◌<◌, ◌≡◌, ◌↔◌, ok, arith}
use dex_arbitrage.U256.{u128_max}
use dex_arbitrage.FixedUsd.{UsdE8, zero_usd, charged_fee, flashloan_fee_usd_e8, net_profit_usd_e8}

-- The premium is `f` exactly when the rate is at most 10,000 bps, principal × rate fits a u128, and
-- `f` is the floor of principal × rate / 10,000.
pub flashloan_fee_usd_e8_floor :
    (principal : UsdE8) (fee_bps f : ℕ)
    → (flashloan_fee_usd_e8 principal fee_bps ≡ ok (record { e8 = f })) ↔ (
        (fee_bps ≤ 10_000)
        × (principal.e8 * fee_bps ≤ u128_max)
        × (principal.e8 * fee_bps / 10_000 ≡ f))
unfolding flashloan_fee_usd_e8 charged_fee zero_usd
flashloan_fee_usd_e8_floor principal fee_bps f = (λ e. ground arith, λ h. ground arith)

-- With a u128 gross the saturating subtractions are exact: the net profit is the gross less all
-- three costs, or 0, and it is positive exactly when the gross exceeds their true sum.
pub net_profit_usd_e8_exact :
    (gross gas fee adverse : UsdE8)
    → gross.e8 ≤ u128_max
    → ((net_profit_usd_e8 gross gas fee adverse).e8 ≡ gross.e8 - (gas.e8 + fee.e8 + adverse.e8))
      × ((0 < (net_profit_usd_e8 gross gas fee adverse).e8)
          ↔ (gas.e8 + fee.e8 + adverse.e8 < gross.e8))
unfolding net_profit_usd_e8
net_profit_usd_e8_exact gross gas fee adverse b =
    (ground arith, (λ h. ground arith, λ h. ground arith))
