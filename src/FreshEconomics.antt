-- ===== src/FreshEconomics.antt =====
-- src/core/fresh_economics.rs: what a route gives when its legs run one after another from pinned
-- quotes, with the pools that it uses again simulated. `U256::as_u128` panics from 2^128 on, which
-- is an error of its own here; how a simulation error is displayed is an argument.
pub mod Coverage
pub mod Reuse
mod Tests
use Prim.Native.String.{String}
use dex_arbitrage.Prelude.{
  ℕ, ◌+◌, Option, none, some, Bool, true, false, Result, ok, err, ok_or, bail_if, ◌>>=◌, ◌>>◌, leb,
  ◌==◌, if◌then◌else◌, List, [], ◌∷◌, get_elem?, ℤ, pos, negsuc, string_eq,
}
use dex_arbitrage.Prelude.Map.{Map, lookup}
use dex_arbitrage.U256.{U256, u128_max}
use dex_arbitrage.ForkBalance.{i128_max, exact_sub}
use dex_arbitrage.RouteArtifact.{RouteLeg, pool_identity}
use dex_arbitrage.PoolSim.{
  SimulatedPoolState, SimulationError, PoolTouch, first_touch, reuse_computed_locally,
  PoolReuseTracker, touch, new, record_first_touch,
}

pub record PinnedStateSnapshot : Type 0 where
  pub pools : Map String SimulatedPoolState

pub record SimulationContext : Type 0 where
  pub start_decimals : ℕ
  pub gas_cost_atomic : ℕ
  pub flashloan_cost_atomic : ℕ

pub record RouteSimulationResult : Type 0 where
  pub final_amount_atomic : ℕ
  pub gross_pnl_atomic : ℤ
  pub gas_cost_atomic : ℕ
  pub flashloan_cost_atomic : ℕ
  pub net_pnl_atomic : ℤ
  pub pool_reuse_detected : Bool
  pub all_models_supported : Bool

pub data EconomicEvaluationError : Type 0 where
  unsupported_pool_model : (venue protocol : String) → EconomicEvaluationError
  simulation : (message : String) → EconomicEvaluationError
  quote_missing : (leg : ℕ) → EconomicEvaluationError
  panicked : EconomicEvaluationError

-- `i128::saturating_sub`
abbrev clamp_i128 : ℤ → ℤ
clamp_i128 (pos n) = if leb n i128_max then pos n else pos i128_max
clamp_i128 (negsuc n) = if leb n i128_max then negsuc n else negsuc i128_max

saturating_sub : ℤ → ℤ → ℤ
saturating_sub a b = clamp_i128 (exact_sub a b)

-- `i128::try_from(amount.as_u128()).unwrap_or(i128::MAX)`
i128_or_max : ℕ → Result ℤ EconomicEvaluationError
i128_or_max amount =
    if leb amount u128_max
    then ok (if leb amount i128_max then pos amount else pos i128_max)
    else err panicked

-- The statements after the loop over the legs.
settle :
    (amount amount_in : ℕ)
    → SimulationContext
    → Bool
    → Result RouteSimulationResult EconomicEvaluationError
unfolding i128_or_max saturating_sub
settle amount amount_in context reused = do
  final ← i128_or_max amount
  initial ← i128_or_max amount_in
  let gross = saturating_sub final initial
  gas ← i128_or_max context.gas_cost_atomic
  flashloan ← i128_or_max context.flashloan_cost_atomic
  ok (record {
    final_amount_atomic = amount;
    gross_pnl_atomic = gross;
    gas_cost_atomic = context.gas_cost_atomic;
    flashloan_cost_atomic = context.flashloan_cost_atomic;
    net_pnl_atomic = saturating_sub (saturating_sub gross gas) flashloan;
    pool_reuse_detected = reused;
    all_models_supported = true;
  })

-- What the loop carries from one leg to the next.
pub record Progress : Type 0 where
  pub tracker : PoolReuseTracker
  pub amount : ℕ
  pub reused : Bool

module _ (u : U256) (display : SimulationError → String) (quotes : List ℕ) where
  -- The `match` on the touch of a leg's pool.
  after_touch :
      (pool_id : String) (index : ℕ)
      → SimulatedPoolState
      → (reused : Bool) → Result PoolTouch SimulationError × PoolReuseTracker
      → Result Progress EconomicEvaluationError
  after_touch pool_id index state reused (err e, tracker) = err (simulation (display e))
  after_touch pool_id index state reused (ok first_touch, tracker) = do
    quote ← ok_or (get_elem? quotes index) (quote_missing index)
    bail_if (quote == 0) (simulation "zero output")
    ok (record {
      tracker = record_first_touch tracker pool_id index state;
      amount = quote;
      reused = reused;
    })
  after_touch pool_id index state reused (ok (reuse_computed_locally output), tracker) =
      ok (record { tracker = tracker; amount = output; reused = true })

  evaluate_leg :
      PinnedStateSnapshot → ℕ → RouteLeg → Progress → Result Progress EconomicEvaluationError
  unfolding after_touch
  evaluate_leg snapshot index leg progress = do
    let pool_id = pool_identity leg
    state ←
        ok_or (lookup pool_id snapshot.pools)
          (unsupported_pool_model leg.venue leg.protocol_version)
    after_touch pool_id index state progress.reused
        (touch u progress.tracker pool_id index progress.amount)

  evaluate_legs :
      PinnedStateSnapshot → ℕ → List RouteLeg → Progress → Result Progress EconomicEvaluationError
  unfolding evaluate_leg
  evaluate_legs snapshot index [] progress = ok progress
  evaluate_legs snapshot index (leg ∷ legs) progress =
      evaluate_leg snapshot index leg progress >>= evaluate_legs snapshot (index + 1) legs

  pub evaluate :
      List RouteLeg
      → ℕ
      → PinnedStateSnapshot
      → SimulationContext
      → Result RouteSimulationResult EconomicEvaluationError
  unfolding evaluate_legs settle
  evaluate route amount_in snapshot context = do
    progress ←
        evaluate_legs snapshot 0 route
          (record { tracker = new; amount = amount_in; reused = false })
    settle progress.amount amount_in context progress.reused
