-- ===== src/Materializer/Snapshot.antt =====
-- The snapshot of a plan of `materialize` (src/core/executable_route_materializer.rs) serves the
-- evaluation of its route (src/core/fresh_economics.rs).
use Prim.Native.String.{String}
use dex_arbitrage.Prelude.{
  ℕ, ◌≡◌, ◌≢◌, refl, sym, subst, ◌∙◌, inl, inr, Option, some, Bool, true, false, ◌||◌, ok, err,
  Avoids-ne, bind-ok, bail_if-ok, ◌==◌, List, [], ◌∷◌, All, string_eq, nat_eq,
}
use dex_arbitrage.Prelude.Map.{Map, lookup, insert-cases, lookup-insert_self}
use dex_arbitrage.U256.{U256}
use dex_arbitrage.RouteArtifact.{RouteLeg, StructuralRoute, pool_identity}
use dex_arbitrage.PoolSim.{SimulatedPoolState, SimulationError}
use dex_arbitrage.FreshEconomics.{SimulationContext, unsupported_pool_model, evaluate}
use dex_arbitrage.FreshEconomics.Coverage.{unsupported, Pinned, evaluate-Avoids}
use dex_arbitrage.Materializer.{
  TokenRecord, PoolRecord, VenueRecord, ExecutableLegPlan, ExecutableRoutePlan, Filled, no_legs,
  push_leg, finish_plan, text_plan, text_leg, text_legs, materialize,
}

-- Whatever is in the snapshot of one is in the snapshot of the other.
abbrev Grows : Filled → Filled → Type 0
Grows filled last =
    (id : String) (state : SimulatedPoolState)
    → lookup id filled.snapshot.pools ≡ some state
    → (later : SimulatedPoolState) × (lookup id last.snapshot.pools ≡ some later)

Grows-push_leg :
    (amount_in : ℕ) (id : String) (state : SimulatedPoolState) (leg : ExecutableLegPlan)
    (filled : Filled)
    → Grows filled (push_leg amount_in id state leg filled)
unfolding push_leg
Grows-push_leg amount_in id state leg filled j s h =
    elim (insert-cases id j state filled.snapshot.pools) [
      | inl (_, here) ↦ (state, here)
      | inr (_, there) ↦ (s, there ∙ h)
    ]

pushed :
    (amount_in : ℕ) (filled : Filled) (id : String) (state : SimulatedPoolState)
    (leg : ExecutableLegPlan)
    → lookup id (push_leg amount_in id state leg filled).snapshot.pools ≡ some state
unfolding push_leg
pushed amount_in filled id state leg = lookup-insert_self id state filled.snapshot.pools

module _ (address_from_str : String → Option ℕ) (tokens : Map String TokenRecord)
    (pools : Map String PoolRecord) (venues : Map String VenueRecord) (amount_in : ℕ) where
  -- A leg that passes is pushed with the state of its pool.
  text_leg-ok :
      (filled : Filled) (leg : RouteLeg) {next : Filled}
      → text_leg address_from_str tokens pools venues amount_in filled leg ≡ ok next
      → (state : SimulatedPoolState) × (plan : ExecutableLegPlan) × (next
          ≡ push_leg amount_in (pool_identity leg) state plan filled)
  unfolding text_leg
  text_leg-ok filled leg q =
      let (found, _, q1) =
        bind-ok (text_plan address_from_str tokens pools venues amount_in filled leg) _ q in
      (found.0, found.1, cc)

  text_legs-Pinned :
      (filled : Filled) (legs : List RouteLeg) {last : Filled}
      → text_legs address_from_str tokens pools venues amount_in filled legs ≡ ok last
      → Grows filled last × All (Pinned last.snapshot) legs
  unfolding text_legs
  text_legs-Pinned filled [] {last} q =
      let same : filled ≡ last = cc in
      (λ id state h. (state, subst (λ m. lookup id m.snapshot.pools ≡ some state) same h), tt)
  text_legs-Pinned filled (leg ∷ legs) {last} q =
      let (next, here, later) =
        bind-ok (text_leg address_from_str tokens pools venues amount_in filled leg) _ q in
      let (state, plan, e) = text_leg-ok filled leg here in
      let (grows, pinned) = text_legs-Pinned next legs later in
      (
        λ id s h.
            let (t, k) =
              subst (Grows filled) (sym e)
                (Grows-push_leg amount_in (pool_identity leg) state plan filled) id s h in
            grows id t k,
        (
          grows (pool_identity leg) state (
              subst (λ (m : Filled). lookup (pool_identity leg) m.snapshot.pools ≡ some state)
                (sym e) (pushed amount_in filled (pool_identity leg) state plan)),
          pinned,
        ),
      )

  -- The plan of a route serves its evaluation: with the snapshot of the plan, the legs of the
  -- route are never refused for a pool that is not supported, whatever the quotes and the costs.
  pub materialize-evaluate :
      {Score : Type 0} (route : StructuralRoute Score) (anchor_block caller : ℕ) (rejected : Bool)
      {plan : ExecutableRoutePlan}
      → materialize address_from_str tokens pools venues amount_in route anchor_block caller
          rejected
        ≡ ok plan
      → (u : U256) (display : SimulationError → String) (quotes : List ℕ) (amount : ℕ)
        (context : SimulationContext) (venue protocol : String)
      → evaluate u display quotes route.legs amount plan.snapshot context
        ≢ err (unsupported_pool_model venue protocol)
  unfolding materialize finish_plan
  materialize-evaluate route anchor_block caller rejected {plan} q u display quotes amount context
        venue protocol r =
      let (_, q1) = bail_if-ok rejected _ _ q in
      let (_, q2) =
        bail_if-ok (elim route.legs [ [] ↦ true | _ ∷ _ ↦ false ] || amount_in == 0) _ _ q1 in
      let (filled, loop, q3) =
        bind-ok (text_legs address_from_str tokens pools venues amount_in no_legs route.legs) _
          q2 in
      let (_, pinned) = text_legs-Pinned no_legs route.legs loop in
      let is_plan : finish_plan route anchor_block caller filled ≡ plan = cc in
      let served : All (Pinned plan.snapshot) route.legs =
        subst (λ p. All (Pinned p.snapshot) route.legs) is_plan pinned in
      Avoids-ne unsupported
        (evaluate-Avoids u display quotes route.legs amount plan.snapshot context served)
        (unsupported_pool_model venue protocol) refl r
