-- ===== src/FreshEconomics/Coverage.antt =====
-- Where `evaluate` (src/core/fresh_economics.rs) does not refuse a pool as unsupported.
use Prim.Native.String.{String}
use dex_arbitrage.Prelude.{
  ℕ, ◌+◌, ◌≡◌, refl, some, Bool, true, false, Result, ok, err, ℤ, leb, Bool-cases, inl, inr, Avoids,
  ok-Avoids, err-Avoids, bind-Avoids, bail_if-Avoids, ok_or-Avoids, List, [], ◌∷◌, All, ◌==◌,
  get_elem?, string_eq,
}
use dex_arbitrage.Prelude.Map.{lookup}
use dex_arbitrage.U256.{U256, u128_max}
use dex_arbitrage.RouteArtifact.{RouteLeg, pool_identity}
use dex_arbitrage.PoolSim.{
  SimulatedPoolState, SimulationError, PoolTouch, first_touch, reuse_computed_locally,
  PoolReuseTracker,
}
use dex_arbitrage.FreshEconomics.{
  PinnedStateSnapshot, SimulationContext, RouteSimulationResult, EconomicEvaluationError,
  unsupported_pool_model, simulation, panicked, i128_or_max, settle, Progress, after_touch,
  evaluate_leg, evaluate_legs, evaluate,
}

abbrev pub unsupported : EconomicEvaluationError → Bool
unsupported (unsupported_pool_model venue protocol) = true
unsupported _ = false

-- The snapshot has a state for the pool of the leg.
abbrev pub Pinned : PinnedStateSnapshot → RouteLeg → Type 0
Pinned snapshot leg =
    (state : SimulatedPoolState) × (lookup (pool_identity leg) snapshot.pools ≡ some state)

i128_or_max-Avoids : (amount : ℕ) → Avoids unsupported (i128_or_max amount)
unfolding i128_or_max
i128_or_max-Avoids amount = elim (Bool-cases (leb amount u128_max)) [
  | inl fits ↦ rw fits (ok-Avoids {A = ℤ} unsupported _)
  | inr large ↦ rw large (err-Avoids {A = ℤ} unsupported panicked refl)
]

settle-Avoids :
    (amount amount_in : ℕ) (context : SimulationContext) (reused : Bool)
    → Avoids unsupported (settle amount amount_in context reused)
unfolding settle
settle-Avoids amount amount_in context reused =
    bind-Avoids unsupported (i128_or_max amount) _ (i128_or_max-Avoids amount) λ final _.
      bind-Avoids unsupported (i128_or_max amount_in) _ (i128_or_max-Avoids amount_in) λ initial _.
        bind-Avoids unsupported (i128_or_max context.gas_cost_atomic) _ (i128_or_max-Avoids _)
          λ gas _.
            bind-Avoids unsupported (i128_or_max context.flashloan_cost_atomic) _
              (i128_or_max-Avoids _)
              λ flashloan _. ok-Avoids {A = RouteSimulationResult} unsupported _

module _ (u : U256) (display : SimulationError → String) (quotes : List ℕ) where
  after_touch-Avoids :
      (pool_id : String) (index : ℕ) (state : SimulatedPoolState) (reused : Bool)
      (touched : Result PoolTouch SimulationError × PoolReuseTracker)
      → Avoids unsupported (after_touch u display quotes pool_id index state reused touched)
  unfolding after_touch
  after_touch-Avoids pool_id index state reused (err e, tracker) =
      err-Avoids {A = Progress} unsupported (simulation (display e)) refl
  after_touch-Avoids pool_id index state reused (ok first_touch, tracker) =
      ok_or-Avoids unsupported (get_elem? quotes index) _ _ refl λ quote _.
        bail_if-Avoids unsupported (quote == 0) _ _ (λ _. refl)
          λ _. ok-Avoids {A = Progress} unsupported _
  after_touch-Avoids pool_id index state reused (ok (reuse_computed_locally output), tracker) =
      ok-Avoids {A = Progress} unsupported _

  evaluate_legs-Avoids :
      (snapshot : PinnedStateSnapshot) (index : ℕ) (legs : List RouteLeg) (progress : Progress)
      → All (Pinned snapshot) legs
      → Avoids unsupported (evaluate_legs u display quotes snapshot index legs progress)
  unfolding evaluate_legs evaluate_leg
  evaluate_legs-Avoids snapshot index [] progress pinned = ok-Avoids {A = Progress} unsupported _
  evaluate_legs-Avoids snapshot index (leg ∷ legs) progress ((state, found), pinned) =
      bind-Avoids unsupported (evaluate_leg u display quotes snapshot index leg progress) _
        (rw found (after_touch-Avoids (pool_identity leg) index state progress.reused _))
        λ next _. evaluate_legs-Avoids snapshot (index + 1) legs next pinned

  -- A route whose pools all have a state in the snapshot is never refused for an unsupported pool.
  pub evaluate-Avoids :
      (route : List RouteLeg) (amount_in : ℕ) (snapshot : PinnedStateSnapshot)
      (context : SimulationContext)
      → All (Pinned snapshot) route
      → Avoids unsupported (evaluate u display quotes route amount_in snapshot context)
  unfolding evaluate
  evaluate-Avoids route amount_in snapshot context pinned =
      bind-Avoids unsupported (evaluate_legs u display quotes snapshot 0 route _) _
        (evaluate_legs-Avoids snapshot 0 route _ pinned)
        λ progress _. settle-Avoids progress.amount amount_in context progress.reused
