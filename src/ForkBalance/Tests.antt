-- ===== src/ForkBalance/Tests.antt =====
-- Balances of src/core/fork_balance_accounting.rs, and the theorems at them.
use dex_arbitrage.Prelude.{◌^◌, ◌≡◌, refl, true, false, ok, err, pos, negsuc}
use dex_arbitrage.ForkBalance.{
  overflow, panicked, as_u128, i128_try_from, checked_sub, signed_delta, is_material_residual,
}
use dex_arbitrage.ForkBalance.Delta.{expected_delta, signed_delta_total}

up_and_down : (signed_delta 100 150 ≡ ok (pos 50)) × (signed_delta 150 100 ≡ ok (negsuc 49))
unfolding signed_delta as_u128 i128_try_from checked_sub
up_and_down = (refl, refl)

-- A balance of 2^128 or more is not refused as an overflow.
too_large :
    (signed_delta (2 ^ 127) 0 ≡ err (overflow (2 ^ 127)))
    × (signed_delta 0 (2 ^ 128) ≡ err panicked)
unfolding signed_delta as_u128 i128_try_from checked_sub
too_large = (refl, refl)

residuals : (is_material_residual 1_000 10 ≡ true) × (is_material_residual 10 10 ≡ false)
unfolding is_material_residual
residuals = (refl, refl)

signed_delta_total_example : signed_delta 150 100 ≡ expected_delta 150 100
signed_delta_total_example = signed_delta_total 150 100
