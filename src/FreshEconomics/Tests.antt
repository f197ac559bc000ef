-- ===== src/FreshEconomics/Tests.antt =====
-- Routes through src/core/fresh_economics.rs, and the theorem at one that uses a pool again.
use Prim.Native.String.{String}
use dex_arbitrage.Prelude.{◌≡◌, refl, some, none, true, ok, err, List, [], ◌∷◌, any, pos}
use dex_arbitrage.Prelude.Map.{lookup, insert, or_insert}
use dex_arbitrage.U256.{reference}
use dex_arbitrage.RouteArtifact.{RouteLeg, pool_identity, detect_pool_reuse}
use dex_arbitrage.PoolSim.{
  SimulationError, constant_product, opaque, curve_stable_swap, new, touch, reuse,
  record_first_touch, constant_product_amount_out, constant_product_apply,
}
use dex_arbitrage.FreshEconomics.{
  PinnedStateSnapshot, SimulationContext, RouteSimulationResult, simulation, quote_missing,
  i128_or_max, saturating_sub, settle, after_touch, evaluate_leg, evaluate_legs, evaluate,
}
use dex_arbitrage.FreshEconomics.Reuse.{is_some, evaluate-detect_pool_reuse}

abbrev leg : (token_in token_out pool : String) → RouteLeg
leg token_in token_out pool = record {
  token_in = token_in;
  token_out = token_out;
  venue = "QuickSwap";
  protocol_version = "V2";
  pool_address = some pool;
  fee_tier = none;
}

abbrev snapshot : PinnedStateSnapshot
snapshot = record {
  pools =
      ("QuickSwap:0xa", constant_product 10_000 20_000 30)
      ∷ ("QuickSwap:0xb", opaque curve_stable_swap)
      ∷ [];
}

abbrev costs : SimulationContext
costs = record { start_decimals = 18; gas_cost_atomic = 1; flashloan_cost_atomic = 2 }

abbrev shown : SimulationError → String
shown e = "failed"

-- The second leg's pool comes from a differently cased address.
abbrev route : List RouteLeg
route = leg "A" "B" "0xa" ∷ leg "B" "C" "0xA" ∷ []

abbrev opaque_route : List RouteLeg
opaque_route = leg "A" "B" "0xb" ∷ leg "B" "C" "0xb" ∷ []

abbrev result : RouteSimulationResult
result = record {
  final_amount_atomic = 1_976;
  gross_pnl_atomic = pos 976;
  gas_cost_atomic = 1;
  flashloan_cost_atomic = 2;
  net_pnl_atomic = pos 973;
  pool_reuse_detected = true;
  all_models_supported = true;
}

opaque_reuse_fails :
    evaluate reference shown (1_100 ∷ []) opaque_route 1_000 snapshot costs
    ≡ err (simulation "failed")
unfolding evaluate evaluate_legs evaluate_leg after_touch lookup insert or_insert new pool_identity
    touch record_first_touch
opaque_reuse_fails = refl

no_quote : evaluate reference shown [] route 1_000 snapshot costs ≡ err (quote_missing 0)
unfolding evaluate evaluate_legs evaluate_leg after_touch lookup new pool_identity touch
no_quote = refl

evaluates : evaluate reference shown (1_100 ∷ []) route 1_000 snapshot costs ≡ ok result
unfolding evaluate evaluate_legs evaluate_leg after_touch lookup insert or_insert new pool_identity
    touch reuse record_first_touch constant_product_amount_out constant_product_apply settle
    i128_or_max saturating_sub
evaluates = refl

evaluate-detect_pool_reuse_example : true ≡ any is_some (detect_pool_reuse route)
evaluate-detect_pool_reuse_example =
    evaluate-detect_pool_reuse reference shown (1_100 ∷ []) route 1_000 snapshot costs evaluates
