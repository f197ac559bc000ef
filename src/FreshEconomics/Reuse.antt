-- ===== src/FreshEconomics/Reuse.antt =====
-- The reuse that `evaluate` (src/core/fresh_economics.rs) reports against the one that
-- `detect_pool_reuse` (src/core/route_artifact.rs) reads off the legs.
use Prim.Native.String.{String}
use dex_arbitrage.Prelude.{
  ℕ, ◌+◌, ◌-◌, ◌≡◌, refl, sym, ap, subst, ◌∙◌, inl, inr, Option, none, some, Bool, true, false,
  ◌||◌, Result, ok, bind-ok, ok-injective, bail_if-ok, ok_or-ok, List, [], ◌∷◌, any, get_elem?,
  ◌==◌, string_eq, arith,
}
use dex_arbitrage.Prelude.Map.{Map, lookup, or_insert, lookup-insert, lookup-or_insert}
use dex_arbitrage.U256.{U256}
use dex_arbitrage.RouteArtifact.{RouteLeg, pool_identity, reuses_from, detect_pool_reuse}
use dex_arbitrage.PoolSim.{
  SimulatedPoolState, constant_product, SimulationError, PoolTouch, first_touch,
  reuse_computed_locally, PoolReuseTracker, touch, new, record_first_touch,
}
use dex_arbitrage.PoolSim.Tracker.{touch-TouchOutcome, swapped, lookup-record_first_touch}
use dex_arbitrage.FreshEconomics.{
  PinnedStateSnapshot, SimulationContext, RouteSimulationResult, EconomicEvaluationError,
  i128_or_max, settle, Progress, after_touch, evaluate_leg, evaluate_legs, evaluate,
}

abbrev pub is_some : {A : Type 0} → Option A → Bool
is_some none = false
is_some (some a) = true

-- The tracker follows exactly the pools seen.
abbrev SamePools : PoolReuseTracker → Map String ℕ → Type 0
SamePools tracker first_seen =
    (id : String) → is_some (lookup id tracker.states) ≡ is_some (lookup id first_seen)

SamePools-first :
    (tracker : PoolReuseTracker) (first_seen : Map String ℕ) (id : String) (i j : ℕ)
    (state : SimulatedPoolState)
    → SamePools tracker first_seen
    → SamePools (record_first_touch tracker id i state) (or_insert id j first_seen)
SamePools-first tracker first_seen id i j state h k =
    let here = h k in
    ground
      (arith, lookup-record_first_touch tracker id i state k, lookup-or_insert id k j first_seen)

SamePools-swapped :
    (tracker : PoolReuseTracker) (first_seen : Map String ℕ) (id : String) (a ri ro fee out j : ℕ)
    {state : SimulatedPoolState}
    → SamePools tracker first_seen
    → lookup id tracker.states ≡ some state
    → SamePools (swapped tracker id a ri ro fee out) (or_insert id j first_seen)
SamePools-swapped tracker first_seen id a ri ro fee out j {state} h e k =
    let here = h k in
    ground (
      arith,
      string_eq.beq_iff id k,
      lookup-insert id k (constant_product (ri + a) (ro - out) fee) tracker.states,
      lookup-or_insert id k j first_seen,
    )

or_assoc : (a b c : Bool) → ((a || b) || c) ≡ (a || (b || c))
or_assoc a b c = ground arith

-- A leg that passes reports a reuse exactly where its pool was seen, and sees its pool.
StepReuses : Map String ℕ → ℕ → String → Progress → Progress → Type 0
StepReuses first_seen index id progress next =
    (next.reused ≡ (progress.reused || is_some (lookup id first_seen)))
    × SamePools next.tracker (or_insert id index first_seen)

module _ (u : U256) (display : SimulationError → String) (quotes : List ℕ) where
  module _ (first_seen : Map String ℕ) (index : ℕ) (id : String) (state : SimulatedPoolState)
      (progress : Progress) (h : SamePools progress.tracker first_seen) where
    matched :
        Result PoolTouch SimulationError × PoolReuseTracker
        → Result Progress EconomicEvaluationError
    matched touched = after_touch u display quotes id index state progress.reused touched

    first_step :
        {next : Progress}
        → lookup id progress.tracker.states ≡ none
        → matched (ok first_touch, progress.tracker) ≡ ok next
        → StepReuses first_seen index id progress next
    unfolding StepReuses after_touch matched
    first_step fresh q =
        let (quote, _, q1) = ok_or-ok (get_elem? quotes index) _ _ q in
        let (_, q2) = bail_if-ok (quote == 0) _ _ q1 in
        let seen = h id in
        subst (StepReuses first_seen index id progress) (ok-injective q2)
          (ground arith, SamePools-first progress.tracker first_seen id index index state h)

    swap_step :
        {next : Progress} (ri ro fee out : ℕ)
        → lookup id progress.tracker.states ≡ some (constant_product ri ro fee)
        → matched (
          ok (reuse_computed_locally out),
          swapped progress.tracker id progress.amount ri ro fee out,
        )
          ≡ ok next
        → StepReuses first_seen index id progress next
    unfolding StepReuses after_touch matched
    swap_step ri ro fee out e q =
        let seen = h id in
        subst (StepReuses first_seen index id progress) (ok-injective q) (
          ground arith,
          SamePools-swapped progress.tracker first_seen id progress.amount ri ro fee out index h e,
        )

    after_touch-StepReuses :
        {next : Progress}
        → matched (touch u progress.tracker id index progress.amount) ≡ ok next
        → StepReuses first_seen index id progress next
    unfolding after_touch matched
    after_touch-StepReuses {next} q =
        elim (touch-TouchOutcome u progress.tracker id index progress.amount) [
          | inl (fresh, t) ↦ first_step fresh (subst (λ r. matched r ≡ ok next) t q)
          | inr (inl (kind, _, t)) ↦ let q1 = subst (λ r. matched r ≡ ok next) t q in cc
          | inr (inr (inl (ri, ro, fee, out, e, _, t))) ↦
              swap_step ri ro fee out e (subst (λ r. matched r ≡ ok next) t q)
          | inr (inr (inr (_, _, _, _, _, _, t))) ↦
              let q1 = subst (λ r. matched r ≡ ok next) t q in cc
        ]

  evaluate_legs-reused :
      (snapshot : PinnedStateSnapshot) (first_seen : Map String ℕ) (index : ℕ)
      (legs : List RouteLeg) (progress : Progress) {last : Progress}
      → SamePools progress.tracker first_seen
      → evaluate_legs u display quotes snapshot index legs progress ≡ ok last
      → last.reused ≡ (progress.reused || any is_some (reuses_from first_seen index legs))
  unfolding evaluate_legs evaluate_leg reuses_from StepReuses matched
  evaluate_legs-reused snapshot first_seen index [] progress {last} h q =
      let same : progress ≡ last = ok-injective q in let e = ap Progress.reused same in ground arith
  evaluate_legs-reused snapshot first_seen index (leg ∷ legs) progress {last} h q =
      let (next, here, later) =
        bind-ok (evaluate_leg u display quotes snapshot index leg progress) _ q in
      let (state, _, touched) = ok_or-ok (lookup (pool_identity leg) snapshot.pools) _ _ here in
      let (reused, same) =
        after_touch-StepReuses first_seen index (pool_identity leg) state progress h touched in
      let rest =
        evaluate_legs-reused snapshot (or_insert (pool_identity leg) index first_seen) (index + 1)
          legs next same later in
      rest
      ∙ ap
          (λ seen.
            seen
            || any is_some
                (reuses_from (or_insert (pool_identity leg) index first_seen) (index + 1) legs))
          reused
      ∙ or_assoc progress.reused (is_some (lookup (pool_identity leg) first_seen)) _

  -- A simulation that succeeds reports a reuse of pools exactly where the legs themselves show one.
  pub evaluate-detect_pool_reuse :
      (route : List RouteLeg) (amount_in : ℕ) (snapshot : PinnedStateSnapshot)
      (context : SimulationContext) {result : RouteSimulationResult}
      → evaluate u display quotes route amount_in snapshot context ≡ ok result
      → result.pool_reuse_detected ≡ any is_some (detect_pool_reuse route)
  unfolding evaluate settle detect_pool_reuse new lookup
  evaluate-detect_pool_reuse route amount_in snapshot context {result} q =
      let (progress, loop, q1) = bind-ok (evaluate_legs u display quotes snapshot 0 route _) _ q in
      let (final, _, q2) = bind-ok (i128_or_max progress.amount) _ q1 in
      let (initial, _, q3) = bind-ok (i128_or_max amount_in) _ q2 in
      let (gas, _, q4) = bind-ok (i128_or_max context.gas_cost_atomic) _ q3 in
      let (flashloan, _, q5) = bind-ok (i128_or_max context.flashloan_cost_atomic) _ q4 in
      sym (ap RouteSimulationResult.pool_reuse_detected (ok-injective q5))
      ∙ evaluate_legs-reused snapshot [] 0 route _ (λ id. refl) loop
