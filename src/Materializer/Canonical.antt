-- ===== src/Materializer/Canonical.antt =====
-- What a plan of `materialize_canonical` (src/core/executable_route_materializer.rs) has.
use Prim.Native.String.{String}
use mathlib.Core.List.{append_assoc, append-nil}
use dex_arbitrage.Prelude.{
  ℕ, ◌≡◌, ◌≢◌, refl, sym, ap, subst, ◌∙◌, some, Bool, true, false, not, ◌&&◌, ◌||◌, ok, bind-ok,
  bail_if-ok, ok_or-ok, ◌==◌, List, [], ◌∷◌, ◌++◌, map, All, string_eq, nat_eq, arith,
}
use dex_arbitrage.Prelude.Map.{Map, lookup}
use dex_arbitrage.RouteArtifact.{StructuralRouteLeg, StructuralRoute, Linked}
use dex_arbitrage.Materializer.{
  PoolRecord, ExecutableLegPlan, ExecutableRoutePlan, Filled, no_legs, discontinuous, push_leg,
  finish_plan, first_token, plan_typed, is_none, is_uniswap_v3, is_curve, typed_leg, typed_legs,
  materialize_canonical,
}

-- The first leg, if there is one, takes the token that the plans before it give.
abbrev pub Follows : List ExecutableLegPlan → List StructuralRouteLeg → Type 0
Follows plans [] = Unit
Follows plans (leg ∷ legs) = discontinuous plans leg.token_in ≡ false

module _ (address_debug : ℕ → String) (pools : Map String PoolRecord) where
  -- A leg that can be executed, on a pool that is known as the leg has it.
  pub record Executable (typed : StructuralRouteLeg) : Type 0 where
    pub pool : PoolRecord
    pub known : lookup (address_debug typed.pool) pools ≡ some pool
    pub same_pool : pool.address ≡ typed.pool
    pub same_router : pool.router ≡ typed.router
    pub deployed : pool.bytecode_present ≡ true
    pub token_in_nonzero : typed.token_in ≢ 0
    pub token_out_nonzero : typed.token_out ≢ 0
    pub swaps : typed.token_in ≢ typed.token_out
    pub router_nonzero : typed.router ≢ 0
    pub spender_nonzero : typed.spender ≢ 0
    pub fee_known : is_uniswap_v3 typed.venue ≡ true → is_none typed.fee ≡ false
    pub on_a_pair : is_curve typed.venue ≡ false

  pub follows_last :
      (legs : List ExecutableLegPlan) (leg : ExecutableLegPlan) (token : ℕ)
      → discontinuous (legs ++ leg ∷ []) token ≡ false
      → leg.token_out ≡ token
  unfolding discontinuous
  follows_last [] leg token h = ground arith
  follows_last (a ∷ []) leg token h = ground arith
  follows_last (a ∷ b ∷ legs) leg token h = follows_last (b ∷ legs) leg token h

  nonempty :
      (legs : List StructuralRouteLeg)
      → elim legs [ [] ↦ true | _ ∷ _ ↦ false ] ≡ false
      → (first : StructuralRouteLeg) × (rest : List StructuralRouteLeg) × (legs ≡ first ∷ rest)
  nonempty [] h = cc
  nonempty (first ∷ rest) h = (first, rest, refl)

  module _ (amount_in : ℕ) where
    -- What the fork setup lets a leg's spender take.
    abbrev pub approval : StructuralRouteLeg → ℕ × ℕ × ℕ
    approval leg = (leg.token_in, leg.spender, amount_in)

    -- A leg that passes is executable, follows the legs before it, and is pushed.
    pub typed_leg-ok :
        (filled : Filled) (typed : StructuralRouteLeg) {next : Filled}
        → typed_leg address_debug pools amount_in filled typed ≡ ok next
        → (accepted : Executable typed) × (discontinuous filled.legs typed.token_in ≡ false)
          × (next
              ≡ push_leg amount_in
                  (address_debug typed.pool)
                  accepted.pool.state
                  (plan_typed typed)
                  filled)
    unfolding typed_leg
    typed_leg-ok filled typed q =
        let (tokens, q1) =
          bail_if-ok
            (typed.token_in == 0 || (typed.token_out == 0 || typed.token_in == typed.token_out)) _ _
            q in
        let (follows, q2) = bail_if-ok (discontinuous filled.legs typed.token_in) _ _ q1 in
        let (pool, known, q3) = ok_or-ok (lookup (address_debug typed.pool) pools) _ _ q2 in
        let (same, q4) =
          bail_if-ok
            (not (pool.address == typed.pool)
              || (not (pool.router == typed.router) || not pool.bytecode_present))
            _ _ q3 in
        let (routers, q5) = bail_if-ok (typed.router == 0 || typed.spender == 0) _ _ q4 in
        let (v3, q6) = bail_if-ok (is_uniswap_v3 typed.venue && is_none typed.fee) _ _ q5 in
        let (pair, q7) = bail_if-ok (is_curve typed.venue) _ _ q6 in
        (
          record {
            pool = pool;
            known = known;
            same_pool = ground arith;
            same_router = ground arith;
            deployed = ground arith;
            token_in_nonzero = ground arith;
            token_out_nonzero = ground arith;
            swaps = ground arith;
            router_nonzero = ground arith;
            spender_nonzero = ground arith;
            fee_known = λ v. ground arith;
            on_a_pair = pair;
          },
          follows,
          cc,
        )

    -- What the loop leaves: the legs it had, then one for each typed leg, with what each approves.
    pub typed_legs-ok :
        (filled : Filled) (legs : List StructuralRouteLeg) {last : Filled}
        → typed_legs address_debug pools amount_in filled legs ≡ ok last
        → All Executable legs
          × (last.legs ≡ filled.legs ++ map plan_typed legs)
          × (last.approvals ≡ filled.approvals ++ map approval legs)
          × (last.targets ≡ filled.targets ++ map StructuralRouteLeg.router legs)
    unfolding typed_legs push_leg
    typed_legs-ok filled [] {last} q =
        let same : last ≡ filled = cc in
        (
          tt,
          ap Filled.legs same ∙ sym (append-nil filled.legs),
          ap Filled.approvals same ∙ sym (append-nil filled.approvals),
          ap Filled.targets same ∙ sym (append-nil filled.targets),
        )
    typed_legs-ok filled (leg ∷ legs) {last} q =
        let (next, here, later) = bind-ok _ _ q in
        let (accepted, follows, e) = typed_leg-ok filled leg here in
        let (rest, plans, approvals, targets) = typed_legs-ok next legs later in
        (
          (accepted, rest),
          plans
              ∙ ap (λ n. n.legs ++ map plan_typed legs) e
              ∙ append_assoc filled.legs (plan_typed leg ∷ []) (map plan_typed legs),
          approvals
              ∙ ap (λ n. n.approvals ++ map approval legs) e
              ∙ append_assoc filled.approvals (approval leg ∷ []) (map approval legs),
          targets
              ∙ ap (λ n. n.targets ++ map StructuralRouteLeg.router legs) e
              ∙ append_assoc filled.targets (leg.router ∷ []) (map StructuralRouteLeg.router legs),
        )

    -- The legs that the loop passes follow the ones before them and each other.
    pub typed_legs-Linked :
        (filled : Filled) (legs : List StructuralRouteLeg) {last : Filled}
        → typed_legs address_debug pools amount_in filled legs ≡ ok last
        → Linked legs × Follows filled.legs legs
    unfolding typed_legs push_leg
    typed_legs-Linked filled [] q = (tt, tt)
    typed_legs-Linked filled (leg ∷ []) q =
        let (next, here, later) = bind-ok _ _ q in
        let (accepted, follows, e) = typed_leg-ok filled leg here in (tt, follows)
    typed_legs-Linked filled (leg ∷ second ∷ legs) q =
        let (next, here, later) = bind-ok _ _ q in
        let (accepted, follows, e) = typed_leg-ok filled leg here in
        let (linked, second_follows) = typed_legs-Linked next (second ∷ legs) later in
        (
          (
            follows_last filled.legs (plan_typed leg) second.token_in
                (subst (λ n. discontinuous n.legs second.token_in ≡ false) e second_follows),
            linked,
          ),
          follows,
        )

    -- A plan is made only of a route that was not rejected, for a positive amount, with typed legs
    -- that follow one another and are all executable on the known pools; the plan has one leg for
    -- each, starts with the token of the first, and lets each spender take its leg's token in the
    -- amount and no other.
    pub materialize_canonical_ok :
        {Score : Type 0} (route : StructuralRoute Score) (anchor_block caller : ℕ) (rejected : Bool)
        {plan : ExecutableRoutePlan}
        → materialize_canonical address_debug pools amount_in route anchor_block caller rejected
          ≡ ok plan
        → (rejected ≡ false)
          × (amount_in ≢ 0)
          × (first : StructuralRouteLeg) × (rest : List StructuralRouteLeg) × (route.executable_legs
              ≡ some (first ∷ rest))
          × Linked (first ∷ rest)
          × All Executable (first ∷ rest)
          × (plan.legs ≡ map plan_typed (first ∷ rest))
          × (plan.start_token ≡ first.token_in)
          × (plan.fork_setup.approvals ≡ map approval (first ∷ rest))
    unfolding materialize_canonical no_legs finish_plan first_token
    materialize_canonical_ok route anchor_block caller rejected {plan} q =
        let (kept, q1) = bail_if-ok rejected _ _ q in
        let (positive, q2) = bail_if-ok (amount_in == 0) _ _ q1 in
        let (typed, has, q3) = ok_or-ok route.executable_legs _ _ q2 in
        let (some_leg, q4) = bail_if-ok (elim typed [ [] ↦ true | _ ∷ _ ↦ false ]) _ _ q3 in
        let (filled, loop, q5) =
          bind-ok (typed_legs address_debug pools amount_in no_legs typed) _ q4 in
        let (first, rest, split) = nonempty typed some_leg in
        let (accepted, plans, approvals, targets) = typed_legs-ok no_legs typed loop in
        let (linked, start) = typed_legs-Linked no_legs typed loop in
        let is_plan : plan ≡ finish_plan route anchor_block caller filled = cc in
        let cut = λ (P : List StructuralRouteLeg → Type 0) (p : P typed). subst P split p in
        let legs : plan.legs ≡ map plan_typed (first ∷ rest) =
          ap ExecutableRoutePlan.legs is_plan ∙ cut (λ t. filled.legs ≡ map plan_typed t) plans in
        (
          kept,
          ground arith,
          first,
          rest,
          has ∙ ap some split,
          cut Linked linked,
          cut (All Executable) accepted,
          legs,
          ap ExecutableRoutePlan.start_token is_plan
              ∙ ap first_token (cut (λ t. filled.legs ≡ map plan_typed t) plans),
          ap (λ p. p.fork_setup.approvals) is_plan
              ∙ cut (λ t. filled.approvals ≡ map approval t) approvals,
        )
