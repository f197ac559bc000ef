-- ===== src/FixedUsd/Rounding.antt =====
-- The rounding of the conversions in src/core/fixed_usd.rs against exact arithmetic.
use dex_arbitrage.Prelude.{
  ℕ, ◌+◌, ◌-◌, ◌*◌, ◌/◌, ◌%◌, ◌^◌, ◌≤◌, ◌<◌, ◌≡◌, ◌↔◌, refl, ap, ok, arith, some,
}
use dex_arbitrage.Prelude.Div.{
  pow10_pos, pow10_le, mul_mono, div_split, div_unique, div-le_iff, le-div, div-mul_le, least_tight,
}
use native.Mathlib.Nat.{le_trans}
use dex_arbitrage.U256.{U256, u128_max}
use dex_arbitrage.FixedUsd.{
  UsdE8, ceil_units, floor_value, usd_e8_to_token_raw_ceil, token_raw_to_usd_e8, zero_usd,
}

-- A u128 amount in raw units of at most 36 decimals leaves room in 256 bits.
scaled_bound : (a d : ℕ) → a ≤ u128_max → d ≤ 36 → a * 10 ^ d ≤ u128_max * 10 ^ 36
scaled_bound a d h k = mul_mono a (10 ^ d) u128_max (10 ^ 36) h (pow10_le d k)

ceil_least : (n p r : ℕ) → 0 < p → n ≤ r * p → (n + (p - 1)) / p ≤ r
ceil_least n p r h k = div-le_iff (n + (p - 1)) p r h (omega arith)

ceil_covers : (n p : ℕ) → 0 < p → n ≤ (n + (p - 1)) / p * p
ceil_covers n p h = grind arith

ceil_zero : (p : ℕ) → 0 < p → (p - 1) / p ≡ 0
ceil_zero p h = div_unique (p - 1) p 0 (p - 1) (omega arith) (omega arith)

zero_value : (a p s : ℕ) → 0 < s → a ≡ 0 → a * p / s ≡ 0
zero_value a p s h e = div_unique (a * p) s 0 0 (omega (arith, ap (λ (t : ℕ). t * p) e)) h

module _ (u : U256) (usd price decimals : ℕ) where
  ceil_units_lem :
      0 < price
      → price ≤ u128_max
      → usd ≤ u128_max
      → decimals ≤ 36
      → ceil_units u usd price decimals ≡ ok ((usd * 10 ^ decimals + (price - 1)) / price)
  unfolding ceil_units
  ceil_units_lem p pb ub db = ground (
    arith,
    scaled_bound usd decimals ub db,
    u.exp10_lem decimals,
    u.checked_mul_lem usd (10 ^ decimals),
    u.saturating_sub_lem price 1,
    u.checked_add_lem (usd * 10 ^ decimals) (price - 1),
    u.checked_div_lem (usd * 10 ^ decimals + (price - 1)) price,
  )

-- For a positive price and at most 36 decimals the conversion of u128 amounts always succeeds, and
-- its result is the least number of raw units whose value covers the USD amount.
pub usd_e8_to_token_raw_ceil_least :
    (u : U256) (usd price : UsdE8) (decimals : ℕ)
    → 0 < price.e8
    → price.e8 ≤ u128_max
    → usd.e8 ≤ u128_max
    → decimals ≤ 36
    → (raw : ℕ) × (usd_e8_to_token_raw_ceil u usd price decimals ≡ ok raw)
      × (usd.e8 * 10 ^ decimals ≤ raw * price.e8)
      × ((r : ℕ) → usd.e8 * 10 ^ decimals ≤ r * price.e8 → raw ≤ r)
unfolding usd_e8_to_token_raw_ceil
usd_e8_to_token_raw_ceil_least u usd price decimals p pb ub db = (
  (usd.e8 * 10 ^ decimals + (price.e8 - 1)) / price.e8,
  ground (arith, ceil_units_lem u usd.e8 price.e8 decimals p pb ub db, ceil_zero price.e8 p),
  ceil_covers (usd.e8 * 10 ^ decimals) price.e8 p,
  λ r. ceil_least (usd.e8 * 10 ^ decimals) price.e8 r p,
)

module _ (u : U256) (amount price s : ℕ) (p : 0 < price) (pb : price ≤ u128_max) (sp : 0 < s)
    (sb : s ≤ 10 ^ 36) where
  fraction_bound : amount % s * price ≤ 10 ^ 36 * u128_max
  fraction_bound = mul_mono (amount % s) price (10 ^ 36) u128_max (omega arith) pb

  fraction_fits : u.checked_mul (amount % s) price ≡ some (amount % s * price)
  fraction_fits = ground (arith, u.checked_mul_lem (amount % s) price, fraction_bound)

  value_fits :
      amount * price / s ≤ u128_max
      → floor_value u amount price s ≡ ok (record { e8 = amount * price / s })
  unfolding floor_value
  value_fits fits = ground (
    arith,
    div_split amount price s sp,
    fraction_fits,
    u.checked_div_lem amount s,
    u.checked_rem_lem amount s,
    u.checked_mul_lem (amount / s) price,
    u.checked_div_lem (amount % s * price) s,
    u.checked_add_lem (amount / s * price) (amount % s * price / s),
  )

  value_inv :
      (x : ℕ)
      → floor_value u amount price s ≡ ok (record { e8 = x })
      → (amount * price / s ≡ x) × (x ≤ u128_max)
  unfolding floor_value
  value_inv x e = ground (
    arith,
    div_split amount price s sp,
    fraction_fits,
    u.checked_div_lem amount s,
    u.checked_rem_lem amount s,
    u.checked_mul_lem (amount / s) price,
    u.checked_div_lem (amount % s * price) s,
    u.checked_add_lem (amount / s * price) (amount % s * price / s),
  )

-- For a positive u128 price and at most 36 decimals the split computation returns `x` exactly when
-- `x` is the floor of amount × price / 10^decimals and fits a u128; otherwise it returns no value.
pub token_raw_to_usd_e8_floor :
    (u : U256) (amount : ℕ) (price : UsdE8) (decimals x : ℕ)
    → 0 < price.e8
    → price.e8 ≤ u128_max
    → decimals ≤ 36
    → (token_raw_to_usd_e8 u amount price decimals ≡ ok (record { e8 = x }))
      ↔ ((amount * price.e8 / 10 ^ decimals ≡ x) × (x ≤ u128_max))
unfolding token_raw_to_usd_e8 zero_usd
token_raw_to_usd_e8_floor u amount price decimals x p pb db = (
  λ e. ground (
    arith,
    u.exp10_lem decimals,
    pow10_pos decimals,
    zero_value amount price.e8 (10 ^ decimals),
    value_inv u amount price.e8 (10 ^ decimals) p pb (pow10_pos decimals) (pow10_le decimals db) x,
  ),
  λ h. ground (
    arith,
    u.exp10_lem decimals,
    pow10_pos decimals,
    zero_value amount price.e8 (10 ^ decimals),
    value_fits u amount price.e8 (10 ^ decimals) p pb (pow10_pos decimals) (pow10_le decimals db),
  ),
)

back_fits :
    (usd price n s : ℕ) → 0 < s → usd + price ≤ u128_max → n < usd * s + price → n / s ≤ u128_max
back_fits usd price n s h b k = le_trans (div-le_iff n s (usd + price) h (grind arith)) b

-- For a positive price and at most 36 decimals, converting a USD amount to raw units and back
-- succeeds where the amount and the price add up to a u128; nothing is lost, and less than the price
-- of one raw unit is gained.
pub usd_round_trip :
    (u : U256) (usd price : UsdE8) (decimals : ℕ)
    → 0 < price.e8
    → usd.e8 + price.e8 ≤ u128_max
    → decimals ≤ 36
    → (raw : ℕ) × (back : ℕ) × (usd_e8_to_token_raw_ceil u usd price decimals ≡ ok raw)
      × (token_raw_to_usd_e8 u raw price decimals ≡ ok (record { e8 = back }))
      × (usd.e8 ≤ back)
      × (back * 10 ^ decimals < usd.e8 * 10 ^ decimals + price.e8)
usd_round_trip u usd price decimals p b db =
    let (raw, e, covers, least) =
      usd_e8_to_token_raw_ceil_least u usd price decimals p (omega arith) (omega arith) db in
    let tight = least_tight (usd.e8 * 10 ^ decimals) price.e8 raw p least in
    let floor_back = div-mul_le (raw * price.e8) (10 ^ decimals) in
    (
      raw,
      raw * price.e8 / 10 ^ decimals,
      e,
      (token_raw_to_usd_e8_floor u raw price decimals (raw * price.e8 / 10 ^ decimals) p
            (omega arith) db).1
          (
            refl,
            back_fits usd.e8 price.e8 (raw * price.e8) (10 ^ decimals) (pow10_pos decimals) b tight,
          ),
      le-div usd.e8 (raw * price.e8) (10 ^ decimals) (pow10_pos decimals) covers,
      omega arith,
    )
