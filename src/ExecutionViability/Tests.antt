-- ===== src/ExecutionViability/Tests.antt =====
-- Routes through src/core/execution_viability.rs, and the theorems at them.
use Prim.Native.String.{String}
use dex_arbitrage.Prelude.{◌≡◌, none, true, false, [], ◌∷◌, ◌++◌}
use dex_arbitrage.ExecutionViability.{
  local_fork_route_verified, RejectedRoute, invalid_calldata, is_rejected,
  is_fork_candidate_eligible,
}
use dex_arbitrage.ExecutionViability.Registry.{registered, registered_never_eligible}

rejected_route : String → RejectedRoute
rejected_route key = record {
  structural_cycle_key = key;
  reason = invalid_calldata "short";
  evidence_artifact = "round.json";
  first_observed_block = 100;
  last_confirmed_block = 120;
  deterministic = true;
  source_profiles = "base" ∷ [];
  token_path = "WETH" ∷ "USDC" ∷ [];
  venue_path = "uniswap" ∷ [];
  pool_path = "0x1" ∷ [];
}

registered_never_eligible_example :
    is_fork_candidate_eligible local_fork_route_verified none
      (is_rejected
        (registered ((rejected_route "a" ∷ []) ++ rejected_route "b" ∷ []))
        (rejected_route "b").structural_cycle_key)
      true
    ≡ false
registered_never_eligible_example =
    registered_never_eligible (rejected_route "a" ∷ []) (rejected_route "b") []
      local_fork_route_verified none true
