-- ===== src/Materializer.antt =====
-- src/core/executable_route_materializer.rs: the plan that executes a structural route, from its
-- typed legs (`materialize_canonical`) or from the symbols of its text (`materialize`). How an
-- address is printed and read (`{:?}` and `from_str` of ethers) are arguments.
pub mod Canonical
pub mod Cycle
pub mod Snapshot
mod Tests
use Prim.Native.String.{String}
use dex_arbitrage.Prelude.{
  ℕ, ◌+◌, Option, none, some, Bool, true, false, not, ◌&&◌, ◌||◌, Result, ok, err, ok_or, bail_if,
  ◌>>=◌, ◌>>◌, leb, ltb, ◌==◌, if◌then◌else◌, List, [], ◌∷◌, ◌++◌, ℤ, string_eq, nat_eq,
}
use dex_arbitrage.Prelude.Map.{Map, lookup, insert}
use dex_arbitrage.Prelude.Sorting.{sorted_insert, sort, dedup}
use dex_arbitrage.Prelude.Text.{eq_ignore_ascii_case}
use dex_arbitrage.PriceEdge.{Venue, uniswap_v3, quick_swap, sushi_swap, curve}
use dex_arbitrage.RouteArtifact.{RouteLeg, StructuralRouteLeg, StructuralRoute, pool_identity}
use dex_arbitrage.PoolSim.{SimulatedPoolState}
use dex_arbitrage.FreshEconomics.{PinnedStateSnapshot}

pub data CurveMethod : Type 0 where
  exchange exchange_underlying : CurveMethod

pub record TokenRecord : Type 0 where
  pub address : ℕ
  pub decimals : ℕ

pub record PoolRecord : Type 0 where
  pub address : ℕ
  pub router : ℕ
  pub state : SimulatedPoolState
  pub bytecode_present : Bool
  pub curve_method : Option CurveMethod
  pub token_in_index : Option ℤ
  pub token_out_index : Option ℤ

pub record VenueRecord : Type 0 where
  pub venue : Venue
  pub router : ℕ

pub record ForkSetupPlan : Type 0 where
  pub anchor_block : ℕ
  pub caller : ℕ
  pub tokens : List ℕ
  pub funding : List (ℕ × ℕ)
  pub approvals : List (ℕ × ℕ × ℕ)
  pub targets : List ℕ
  pub balance_checks : List ℕ

pub record ExecutableLegPlan : Type 0 where
  pub venue : Venue
  pub token_in : ℕ
  pub token_out : ℕ
  pub pool : ℕ
  pub router : ℕ
  pub fee : Option ℕ
  pub curve_method : Option CurveMethod
  pub token_in_index : Option ℤ
  pub token_out_index : Option ℤ
  pub spender : ℕ

pub record ExecutableRoutePlan : Type 0 where
  pub structural_cycle_key : String
  pub anchor_block : ℕ
  pub start_token : ℕ
  pub legs : List ExecutableLegPlan
  pub snapshot : PinnedStateSnapshot
  pub fork_setup : ForkSetupPlan

pub data MaterializationError : Type 0 where
  rejected_route : MaterializationError
  missing_token : (symbol : String) → MaterializationError
  missing_pool : MaterializationError
  missing_router : MaterializationError
  unsupported_pool_state : MaterializationError
  invalid_metadata : (field : String) → MaterializationError
  token_discontinuity : MaterializationError
  missing_typed_legs : MaterializationError

-- The vectors that the loop over the legs fills.
pub record Filled : Type 0 where
  pub snapshot : PinnedStateSnapshot
  pub legs : List ExecutableLegPlan
  pub token_addresses : List ℕ
  pub approvals : List (ℕ × ℕ × ℕ)
  pub targets : List ℕ
  pub funding : List (ℕ × ℕ)

pub no_legs : Filled
no_legs = record {
  snapshot = record { pools = [] };
  legs = [];
  token_addresses = [];
  approvals = [];
  targets = [];
  funding = [];
}

-- `index > 0 && legs[index - 1].token_out != token`, where `legs` has `index` elements.
pub discontinuous : List ExecutableLegPlan → ℕ → Bool
discontinuous [] token = false
discontinuous (leg ∷ []) token = not (leg.token_out == token)
discontinuous (leg ∷ next ∷ legs) token = discontinuous (next ∷ legs) token

-- The pushes at the end of a round.
pub push_leg : ℕ → String → SimulatedPoolState → ExecutableLegPlan → Filled → Filled
push_leg amount_in id state leg filled = record {
  snapshot = record { pools = insert id state filled.snapshot.pools };
  legs = filled.legs ++ leg ∷ [];
  token_addresses = filled.token_addresses ++ leg.token_in ∷ leg.token_out ∷ [];
  approvals = filled.approvals ++ (leg.token_in, leg.spender, amount_in) ∷ [];
  targets = filled.targets ++ leg.router ∷ [];
  funding = filled.funding ++ (leg.token_in, amount_in) ∷ [];
}

-- `legs[0].token_in`; a route with no legs is refused before.
pub first_token : List ExecutableLegPlan → ℕ
first_token [] = 0
first_token (leg ∷ legs) = leg.token_in

pub finish_plan :
    {Score : Type 0}
    → StructuralRoute Score
    → (anchor_block caller : ℕ) → Filled
    → ExecutableRoutePlan
unfolding sort sorted_insert dedup first_token
finish_plan route anchor_block caller filled =
    let targets = dedup (sort filled.targets) in
    record {
      structural_cycle_key = route.structural_cycle_key;
      anchor_block = anchor_block;
      start_token = first_token filled.legs;
      legs = filled.legs;
      snapshot = filled.snapshot;
      fork_setup = record {
        anchor_block = anchor_block;
        caller = caller;
        tokens = dedup (sort filled.token_addresses);
        funding = filled.funding;
        approvals = filled.approvals;
        targets = targets;
        balance_checks = targets;
      };
    }

abbrev is_zero : ℕ → Bool
is_zero n = n == 0

abbrev pub is_none : {A : Type 0} → Option A → Bool
is_none none = true
is_none (some a) = false

abbrev pub is_uniswap_v3 : Venue → Bool
is_uniswap_v3 uniswap_v3 = true
is_uniswap_v3 _ = false

abbrev pub is_curve : Venue → Bool
is_curve curve = true
is_curve _ = false

abbrev pub plan_typed : StructuralRouteLeg → ExecutableLegPlan
plan_typed typed = record {
  venue = typed.venue;
  token_in = typed.token_in;
  token_out = typed.token_out;
  pool = typed.pool;
  router = typed.router;
  fee = typed.fee;
  curve_method = none;
  token_in_index = none;
  token_out_index = none;
  spender = typed.spender;
}

module _ (address_debug : ℕ → String) (pools : Map String PoolRecord) (amount_in : ℕ) where
  -- One round of the loop over the typed legs.
  pub typed_leg : Filled → StructuralRouteLeg → Result Filled MaterializationError
  typed_leg filled typed = do
    bail_if
        (is_zero typed.token_in || (is_zero typed.token_out || typed.token_in == typed.token_out))
        (invalid_metadata "typed token")
    bail_if (discontinuous filled.legs typed.token_in) token_discontinuity
    let key = address_debug typed.pool
    pool ← ok_or (lookup key pools) missing_pool
    bail_if
        (not (pool.address == typed.pool)
          || (not (pool.router == typed.router) || not pool.bytecode_present))
        (invalid_metadata "typed pool metadata")
    bail_if (is_zero typed.router || is_zero typed.spender) missing_router
    bail_if (is_uniswap_v3 typed.venue && is_none typed.fee) (invalid_metadata "V3 fee")
    bail_if (is_curve typed.venue) (invalid_metadata "Curve metadata")
    ok (push_leg amount_in key pool.state (plan_typed typed) filled)

  pub typed_legs : Filled → List StructuralRouteLeg → Result Filled MaterializationError
  unfolding typed_leg
  typed_legs filled [] = ok filled
  typed_legs filled (typed ∷ rest) = typed_leg filled typed >>= λ next. typed_legs next rest

  pub materialize_canonical :
      {Score : Type 0}
      → StructuralRoute Score
      → (anchor_block caller : ℕ) → (rejected : Bool)
      → Result ExecutableRoutePlan MaterializationError
  unfolding typed_legs finish_plan no_legs
  materialize_canonical route anchor_block caller rejected = do
    bail_if rejected rejected_route
    bail_if (is_zero amount_in) (invalid_metadata "amount")
    typed ← ok_or route.executable_legs missing_typed_legs
    bail_if (elim typed [ [] ↦ true | _ ∷ _ ↦ false ]) missing_typed_legs
    filled ← typed_legs no_legs typed
    ok (finish_plan route anchor_block caller filled)

module _ (address_from_str : String → Option ℕ) (tokens : Map String TokenRecord)
    (pools : Map String PoolRecord) (venues : Map String VenueRecord) (amount_in : ℕ) where
  -- The checks of a leg of the text, with its plan and the state of its pool.
  pub text_plan :
      Filled → RouteLeg → Result (SimulatedPoolState × ExecutableLegPlan) MaterializationError
  text_plan filled leg = do
    tin ← ok_or (lookup leg.token_in tokens) (missing_token leg.token_in)
    tout ← ok_or (lookup leg.token_out tokens) (missing_token leg.token_out)
    bail_if (is_zero tin.decimals || is_zero tout.decimals) (invalid_metadata "decimals")
    bail_if (discontinuous filled.legs tin.address) token_discontinuity
    pool_text ← ok_or leg.pool_address missing_pool
    pool_addr ← ok_or (address_from_str pool_text) missing_pool
    pool ← ok_or (lookup pool_text pools) missing_pool
    bail_if (not (pool.address == pool_addr) || not pool.bytecode_present)
        (invalid_metadata "pool bytecode")
    venue ← ok_or (lookup leg.venue venues) missing_router
    bail_if (is_zero venue.router || (is_zero pool.router || not (venue.router == pool.router)))
        missing_router
    bail_if (eq_ignore_ascii_case leg.protocol_version "V3" && is_none leg.fee_tier)
        (invalid_metadata "V3 fee")
    bail_if
        (eq_ignore_ascii_case leg.venue "Curve"
          && (is_none pool.curve_method
              || (is_none pool.token_in_index || is_none pool.token_out_index)))
        (invalid_metadata "Curve metadata")
    ok (
      pool.state,
      record {
        venue = venue.venue;
        token_in = tin.address;
        token_out = tout.address;
        pool = pool.address;
        router = pool.router;
        fee = leg.fee_tier;
        curve_method = pool.curve_method;
        token_in_index = pool.token_in_index;
        token_out_index = pool.token_out_index;
        spender = pool.router;
      },
    )

  -- One round of the loop over the legs of the text.
  pub text_leg : Filled → RouteLeg → Result Filled MaterializationError
  unfolding text_plan
  text_leg filled leg = do
    found ← text_plan filled leg
    ok (push_leg amount_in (pool_identity leg) found.0 found.1 filled)

  pub text_legs : Filled → List RouteLeg → Result Filled MaterializationError
  unfolding text_leg
  text_legs filled [] = ok filled
  text_legs filled (leg ∷ rest) = text_leg filled leg >>= λ next. text_legs next rest

  pub materialize :
      {Score : Type 0}
      → StructuralRoute Score
      → (anchor_block caller : ℕ) → (rejected : Bool)
      → Result ExecutableRoutePlan MaterializationError
  unfolding text_legs finish_plan no_legs
  materialize route anchor_block caller rejected = do
    bail_if rejected rejected_route
    bail_if (elim route.legs [ [] ↦ true | _ ∷ _ ↦ false ] || is_zero amount_in)
        (invalid_metadata "empty route or amount")
    filled ← text_legs no_legs route.legs
    ok (finish_plan route anchor_block caller filled)
