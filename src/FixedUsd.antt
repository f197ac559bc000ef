-- ===== src/FixedUsd.antt =====
-- src/core/fixed_usd.rs: fixed-point USD amounts for the economic gates. A `UsdE8` is a u128, kept
-- as the number that it denotes; token amounts are U256. The message of an `anyhow` error is a
-- constructor for each place that raises one. The conversions of an f64 are left out.
pub mod Rounding
pub mod Fees
mod Tests
use dex_arbitrage.Prelude.{
  ℕ, ◌+◌, ◌-◌, ◌*◌, ◌/◌, ◌%◌, ◌^◌, ◌≡◌, Option, none, some, Result, ok, err, ok_or, bail_if, ◌>>=◌,
  ◌>>◌, ltb, leb, ◌==◌, if◌then◌else◌,
}
use dex_arbitrage.U256.{U256, u128_max}

-- `$1` is 1e8.
abbrev pub usd_e8_scale : ℕ
usd_e8_scale = 100_000_000

pub record UsdE8 : Type 0 where
  pub e8 : ℕ

pub data UsdError : Type 0 where
  usd_add_overflow : UsdError
  zero_price : UsdError
  bad_decimals : ℕ → UsdError
  scale_overflow : UsdError
  ceil_add_overflow : UsdError
  whole_overflow : UsdError
  fraction_overflow : UsdError
  usd_sum_overflow : UsdError
  exceeds_u128 : ℕ → UsdError
  fee_too_high : ℕ → UsdError
  fee_mul_overflow : UsdError
  -- an `expect` that fails
  panic : UsdError

pub zero_usd : UsdE8
zero_usd = record { e8 = 0 }

-- u128 `saturating_add`
abbrev pub saturating_add_u128 : ℕ → ℕ → ℕ
saturating_add_u128 a b = if leb (a + b) u128_max then a + b else u128_max

-- u128 `checked_add` and `checked_mul`
abbrev pub checked_add_u128 : ℕ → ℕ → Option ℕ
checked_add_u128 a b = if leb (a + b) u128_max then some (a + b) else none

abbrev pub checked_mul_u128 : ℕ → ℕ → Option ℕ
checked_mul_u128 a b = if leb (a * b) u128_max then some (a * b) else none

pub saturating_add : UsdE8 → UsdE8 → UsdE8
saturating_add a b = record { e8 = saturating_add_u128 a.e8 b.e8 }

pub checked_add : UsdE8 → UsdE8 → Result UsdE8 UsdError
checked_add a b = do
  sum ← ok_or (checked_add_u128 a.e8 b.e8) usd_add_overflow
  ok (record { e8 = sum })

module _ (u : U256) where
  open u use {checked_mul, checked_div, checked_rem, saturating_sub, exp10}

  ceil_units : ℕ → ℕ → ℕ → Result ℕ UsdError
  ceil_units usd price decimals = do
    num ← ok_or (checked_mul usd (exp10 decimals)) scale_overflow
    numer ← ok_or (u.checked_add num (saturating_sub price 1)) ceil_add_overflow
    ok_or (checked_div numer price) panic

  pub usd_e8_to_token_raw_ceil : UsdE8 → UsdE8 → ℕ → Result ℕ UsdError
  unfolding ceil_units
  usd_e8_to_token_raw_ceil usd price decimals = do
    bail_if (price.e8 == 0) zero_price
    bail_if (ltb 36 decimals) (bad_decimals decimals)
    let units = ceil_units usd.e8 price.e8 decimals
    if usd.e8 == 0 then ok 0 else units

  floor_value : ℕ → ℕ → ℕ → Result UsdE8 UsdError
  floor_value amount price scale = do
    q ← ok_or (checked_div amount scale) panic
    r ← ok_or (checked_rem amount scale) panic
    hi ← ok_or (checked_mul q price) whole_overflow
    lo_num ← ok_or (checked_mul r price) fraction_overflow
    lo ← ok_or (checked_div lo_num scale) panic
    sum ← ok_or (u.checked_add hi lo) usd_sum_overflow
    bail_if (ltb u128_max sum) (exceeds_u128 sum)
    ok (record { e8 = sum })

  pub token_raw_to_usd_e8 : ℕ → UsdE8 → ℕ → Result UsdE8 UsdError
  unfolding floor_value
  token_raw_to_usd_e8 amount price decimals = do
    bail_if (price.e8 == 0) zero_price
    bail_if (ltb 36 decimals) (bad_decimals decimals)
    let value = floor_value amount price.e8 (exp10 decimals)
    if amount == 0 then ok zero_usd else value

charged_fee : UsdE8 → ℕ → Result UsdE8 UsdError
charged_fee principal fee_bps = do
  bail_if (ltb 10_000 fee_bps) (fee_too_high fee_bps)
  num ← ok_or (checked_mul_u128 principal.e8 fee_bps) fee_mul_overflow
  ok (record { e8 = num / 10_000 })

pub flashloan_fee_usd_e8 : UsdE8 → ℕ → Result UsdE8 UsdError
unfolding charged_fee
flashloan_fee_usd_e8 principal fee_bps =
    if fee_bps == 0 then ok zero_usd else charged_fee principal fee_bps

pub net_profit_usd_e8 : UsdE8 → UsdE8 → UsdE8 → UsdE8 → UsdE8
net_profit_usd_e8 gross gas flashloan_fee adverse =
    let costs = saturating_add_u128 (saturating_add_u128 gas.e8 flashloan_fee.e8) adverse.e8 in
    record { e8 = gross.e8 - costs }
