-- ===== src/FixedUsd/Tests.antt =====
-- Runs of src/core/fixed_usd.rs, with its own test values, and the theorems at such inputs.
use dex_arbitrage.Prelude.{ℕ, ◌+◌, ◌*◌, ◌^◌, ◌≤◌, ◌<◌, ◌≡◌, refl, ok, arith}
use dex_arbitrage.U256.{reference}
use dex_arbitrage.FixedUsd.{
  UsdE8, usd_e8_scale, usd_e8_to_token_raw_ceil, token_raw_to_usd_e8, flashloan_fee_usd_e8,
}
use dex_arbitrage.FixedUsd.Rounding.{usd_e8_to_token_raw_ceil_least, usd_round_trip}

abbrev dollars : ℕ → UsdE8
dollars n = record { e8 = n * usd_e8_scale }

-- `ceil_when_not_divisible`
one_dollar_at_three : usd_e8_to_token_raw_ceil reference (dollars 1) (dollars 3) 6 ≡ ok 333_334
unfolding usd_e8_to_token_raw_ceil
one_dollar_at_three = refl

-- `large_raw_no_silent_saturation`
large_raw : token_raw_to_usd_e8 reference (10 ^ 30) (dollars 1) 18 ≡ ok (dollars 1_000_000_000_000)
unfolding token_raw_to_usd_e8
large_raw = refl

-- `fee_bps_five`
five_bps : flashloan_fee_usd_e8 (dollars 100) 5 ≡ ok (record { e8 = 5_000_000 })
unfolding flashloan_fee_usd_e8
five_bps = refl

usd_e8_to_token_raw_ceil_least_example :
    (raw : ℕ) × (usd_e8_to_token_raw_ceil reference (dollars 1) (dollars 3) 6 ≡ ok raw)
    × (100_000_000 * 10 ^ 6 ≤ raw * 300_000_000)
    × ((r : ℕ) → 100_000_000 * 10 ^ 6 ≤ r * 300_000_000 → raw ≤ r)
usd_e8_to_token_raw_ceil_least_example =
    usd_e8_to_token_raw_ceil_least reference (dollars 1) (dollars 3) 6 (omega arith) (omega arith)
      (omega arith) (omega arith)

usd_round_trip_example :
    (raw : ℕ) × (back : ℕ) × (usd_e8_to_token_raw_ceil reference (dollars 1) (dollars 3) 6 ≡ ok raw)
    × (token_raw_to_usd_e8 reference raw (dollars 3) 6 ≡ ok (record { e8 = back }))
    × (100_000_000 ≤ back)
    × (back * 10 ^ 6 < 100_000_000 * 10 ^ 6 + 300_000_000)
usd_round_trip_example =
    usd_round_trip reference (dollars 1) (dollars 3) 6 (omega arith) (omega arith) (omega arith)
