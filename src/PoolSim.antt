-- ===== src/PoolSim.antt =====
-- src/core/pool_state_sim.rs: the simulation of one pool's reserves and the tracker that decides
-- whether a pool that a route uses again is computed locally. Reserves and amounts are U256. The
-- two display functions over f64 (`peek_reference_rate`, `price_impact_bps`) are left out.
pub mod Swap
pub mod Tracker
mod Tests
use Prim.Native.String.{String}
use dex_arbitrage.Prelude.{
  ℕ, [], Option, none, some, Bool, true, false, ◌||◌, Result, ok, err, ok_or, bail_if, ◌>>=◌, ◌>>◌,
  leb, ◌==◌, if◌then◌else◌, string_eq,
}
use dex_arbitrage.Prelude.Map.{Map, lookup, insert, or_insert, contains_key}
use dex_arbitrage.Prelude.Text.{eq_ignore_ascii_case}
use dex_arbitrage.U256.{U256}

pub data PoolKind : Type 0 where
  uniswap_v2_constant_product uniswap_v3_concentrated curve_stable_swap : PoolKind

pub classify : String → String → PoolKind
unfolding eq_ignore_ascii_case
classify venue protocol_version =
    if eq_ignore_ascii_case venue "Curve"
    then curve_stable_swap
    else if eq_ignore_ascii_case protocol_version "V3"
    then uniswap_v3_concentrated
    else uniswap_v2_constant_product

pub supports_exact_reuse_mutation : PoolKind → Bool
supports_exact_reuse_mutation uniswap_v2_constant_product = true
supports_exact_reuse_mutation _ = false

pub data SimulatedPoolState : Type 0 where
  constant_product : (reserve_in reserve_out fee_bps : ℕ) → SimulatedPoolState
  opaque : PoolKind → SimulatedPoolState

pub data SimulationError : Type 0 where
  unsupported_reused_pool : (pool_id : String) (leg_index : ℕ) → SimulationError
  zero_output : (pool_id : String) (leg_index : ℕ) → SimulationError
  overflow : (pool_id : String) (leg_index : ℕ) (detail : String) → SimulationError
  insufficient_liquidity : (pool_id : String) (leg_index : ℕ) → SimulationError

pub data PoolTouch : Type 0 where
  first_touch : PoolTouch
  reuse_computed_locally : ℕ → PoolTouch

pub record PoolReuseTracker : Type 0 where
  pub states : Map String SimulatedPoolState
  pub first_touch_leg : Map String ℕ

module _ (u : U256) where
  open u use {checked_mul, saturating_add, saturating_sub}

  unfoldable pub constant_product_amount_out : ℕ → ℕ → ℕ → ℕ → String → ℕ → Result ℕ SimulationError
  constant_product_amount_out amount_in reserve_in reserve_out fee_bps pool_id leg_index = do
    bail_if (reserve_in == 0 || reserve_out == 0) (insufficient_liquidity pool_id leg_index)
    let overflowed = overflow pool_id leg_index "constant_product_amount_out"
    fee_multiplier ← ok_or (u.checked_sub 10_000 fee_bps) overflowed
    amount_in_with_fee ← ok_or (checked_mul amount_in fee_multiplier) overflowed
    numerator ← ok_or (checked_mul amount_in_with_fee reserve_out) overflowed
    scaled_reserve_in ← ok_or (checked_mul reserve_in 10_000) overflowed
    denominator ← ok_or (u.checked_add scaled_reserve_in amount_in_with_fee) overflowed
    bail_if (denominator == 0) overflowed
    amount_out ← ok_or (u.checked_div numerator denominator) overflowed
    bail_if (amount_out == 0) (zero_output pool_id leg_index)
    bail_if (leb reserve_out amount_out) (insufficient_liquidity pool_id leg_index)
    ok amount_out

  unfoldable pub constant_product_apply : ℕ → ℕ → ℕ → ℕ → ℕ × ℕ
  constant_product_apply reserve_in reserve_out amount_in amount_out =
      (saturating_add reserve_in amount_in, saturating_sub reserve_out amount_out)

  -- A reuse that succeeds stores the mutated reserves.
  unfoldable pub reuse :
      PoolReuseTracker
      → String
      → ℕ
      → ℕ
      → ℕ
      → ℕ
      → Result ℕ SimulationError
      → Result PoolTouch SimulationError × PoolReuseTracker
  unfolding constant_product_apply
  reuse tracker pool_id amount_in reserve_in reserve_out fee_bps (err e) = (err e, tracker)
  reuse tracker pool_id amount_in reserve_in reserve_out fee_bps (ok amount_out) =
      let (new_in, new_out) = constant_product_apply reserve_in reserve_out amount_in amount_out in
      (
        ok (reuse_computed_locally amount_out),
        record tracker {
          states = insert pool_id (constant_product new_in new_out fee_bps) tracker.states;
        },
      )

  unfoldable pub touch :
      PoolReuseTracker → String → ℕ → ℕ → Result PoolTouch SimulationError × PoolReuseTracker
  unfolding reuse
  touch tracker pool_id leg_index amount_in = elim (lookup pool_id tracker.states) [
    | none ↦ (ok first_touch, tracker)
    | some (opaque kind) ↦ (err (unsupported_reused_pool pool_id leg_index), tracker)
    | some (constant_product reserve_in reserve_out fee_bps) ↦
        reuse tracker pool_id amount_in reserve_in reserve_out fee_bps
          (constant_product_amount_out amount_in reserve_in reserve_out fee_bps pool_id leg_index)
  ]

unfoldable pub new : PoolReuseTracker
new = record { states = []; first_touch_leg = [] }

pub was_touched : PoolReuseTracker → String → Bool
was_touched tracker pool_id = contains_key pool_id tracker.states

pub first_touch_leg_index : PoolReuseTracker → String → Option ℕ
first_touch_leg_index tracker pool_id = lookup pool_id tracker.first_touch_leg

unfoldable pub record_first_touch :
    PoolReuseTracker → String → ℕ → SimulatedPoolState → PoolReuseTracker
record_first_touch tracker pool_id leg_index state = record {
  states = or_insert pool_id state tracker.states;
  first_touch_leg = or_insert pool_id leg_index tracker.first_touch_leg;
}
