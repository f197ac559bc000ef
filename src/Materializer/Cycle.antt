-- ===== src/Materializer/Cycle.antt =====
-- Routes of the price graph in `materialize_canonical`
-- (src/core/executable_route_materializer.rs): which refusals they can meet.
use Prim.Native.String.{String}
use dex_arbitrage.Prelude.{
  ℕ, ◌≡◌, ◌≢◌, refl, sym, subst, some, Bool, true, false, not, ◌&&◌, ◌||◌, err, Avoids, Avoids-ne,
  ok-Avoids, bind-Avoids, bail_if-Avoids, ok_or-Avoids, ◌==◌, List, [], ◌∷◌, ◌++◌, string_eq, arith,
}
use dex_arbitrage.Prelude.Map.{Map, lookup}
use dex_arbitrage.Float.{F64Rates}
use dex_arbitrage.PriceEdge.{ExecutablePriceEdge}
use dex_arbitrage.RouteArtifact.{StructuralRouteLeg, StructuralRoute, Linked}
use dex_arbitrage.PriceGraph.Route.{build_route}
use dex_arbitrage.PriceGraph.Route.Built.{typed_from, typed_from-Linked, build_route_ok}
use dex_arbitrage.Materializer.{
  PoolRecord, ExecutableRoutePlan, ExecutableLegPlan, MaterializationError, token_discontinuity,
  missing_typed_legs, Filled, no_legs, discontinuous, push_leg, plan_typed, is_none, is_uniswap_v3,
  is_curve, typed_leg, typed_legs, materialize_canonical,
}
use dex_arbitrage.Materializer.Canonical.{Follows, typed_leg-ok}

-- A refusal for the shape of the route itself, not for what is known of its pools.
abbrev shape_fault : MaterializationError → Bool
shape_fault token_discontinuity = true
shape_fault missing_typed_legs = true
shape_fault _ = false

last_follows :
    (plans : List ExecutableLegPlan) (plan : ExecutableLegPlan) (token : ℕ)
    → plan.token_out ≡ token
    → discontinuous (plans ++ plan ∷ []) token ≡ false
unfolding discontinuous
last_follows [] plan token e = ground arith
last_follows (a ∷ []) plan token e = ground arith
last_follows (a ∷ b ∷ plans) plan token e = last_follows (b ∷ plans) plan token e

module _ (address_debug : ℕ → String) (pools : Map String PoolRecord) (amount_in : ℕ) where
  typed_leg-Avoids :
      (filled : Filled) (typed : StructuralRouteLeg)
      → discontinuous filled.legs typed.token_in ≡ false
      → Avoids shape_fault (typed_leg address_debug pools amount_in filled typed)
  unfolding typed_leg
  typed_leg-Avoids filled typed follows =
      bail_if-Avoids shape_fault
        (typed.token_in == 0 || (typed.token_out == 0 || typed.token_in == typed.token_out)) _ _
        (λ _. refl)
        λ _.
          bail_if-Avoids shape_fault (discontinuous filled.legs typed.token_in) _ _
            (λ gap. ground arith)
            λ _.
              ok_or-Avoids shape_fault (lookup (address_debug typed.pool) pools) _ _ refl λ pool _.
                bail_if-Avoids shape_fault
                  (not (pool.address == typed.pool)
                    || (not (pool.router == typed.router) || not pool.bytecode_present))
                  _ _ (λ _. refl)
                  λ _.
                    bail_if-Avoids shape_fault (typed.router == 0 || typed.spender == 0) _ _
                      (λ _. refl)
                      λ _.
                        bail_if-Avoids shape_fault (is_uniswap_v3 typed.venue && is_none typed.fee)
                          _ _ (λ _. refl)
                          λ _.
                            bail_if-Avoids shape_fault (is_curve typed.venue) _ _ (λ _. refl)
                              λ _. ok-Avoids {A = Filled} shape_fault _

  typed_legs-Avoids :
      (filled : Filled) (legs : List StructuralRouteLeg)
      → Linked legs
      → Follows filled.legs legs
      → Avoids shape_fault (typed_legs address_debug pools amount_in filled legs)
  unfolding typed_legs push_leg
  typed_legs-Avoids filled [] linked follows = ok-Avoids {A = Filled} shape_fault filled
  typed_legs-Avoids filled (leg ∷ []) linked follows =
      bind-Avoids shape_fault (typed_leg address_debug pools amount_in filled leg) _
        (typed_leg-Avoids filled leg follows) λ next _. ok-Avoids {A = Filled} shape_fault next
  typed_legs-Avoids filled (leg ∷ second ∷ legs) linked follows =
      bind-Avoids shape_fault (typed_leg address_debug pools amount_in filled leg) _
        (typed_leg-Avoids filled leg follows)
        λ next passed.
          let (_, _, e) = typed_leg-ok address_debug pools amount_in filled leg passed in
          typed_legs-Avoids next (second ∷ legs) linked.1 (
            subst (λ n. discontinuous n.legs second.token_in ≡ false) (sym e)
              (last_follows filled.legs (plan_typed leg) second.token_in linked.0))

  -- A route that the price graph builds is never refused for a gap between its tokens or for
  -- missing typed legs, whatever is known of the pools.
  pub materialize_canonical-build_route :
      (f : F64Rates) (first : ExecutablePriceEdge) (rest : List ExecutablePriceEdge)
      (profile : String) (route_input : ℕ) (route : StructuralRoute f.Carrier)
      → build_route address_debug f (first ∷ rest) profile route_input ≡ some route
      → (anchor_block caller : ℕ) (rejected : Bool)
      → (let plan =
            materialize_canonical address_debug pools amount_in route anchor_block caller
              rejected in
          (plan ≢ err token_discontinuity) × (plan ≢ err missing_typed_legs))
  unfolding materialize_canonical no_legs typed_from discontinuous
  materialize_canonical-build_route f first rest profile route_input route built anchor_block caller
        rejected =
      let facts = build_route_ok address_debug f first rest profile route_input built in
      let typed : List StructuralRouteLeg = typed_from 0 (first ∷ rest) in
      let has : route.executable_legs ≡ some typed = facts.9 in
      let avoids : Avoids shape_fault
          (materialize_canonical address_debug pools amount_in route anchor_block caller rejected) =
        bail_if-Avoids shape_fault rejected _ _ (λ _. refl)
          λ _.
            bail_if-Avoids shape_fault (amount_in == 0) _ _ (λ _. refl)
              λ _. rw has (
                bind-Avoids shape_fault (typed_legs address_debug pools amount_in no_legs typed) _
                  (typed_legs-Avoids no_legs typed (typed_from-Linked 0 (first ∷ rest) facts.2)
                    refl)
                  λ filled _. ok-Avoids {A = ExecutableRoutePlan} shape_fault _) in
      (
        Avoids-ne shape_fault avoids token_discontinuity refl,
        Avoids-ne shape_fault avoids missing_typed_legs refl,
      )
