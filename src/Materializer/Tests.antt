-- ===== src/Materializer/Tests.antt =====
-- Plans of src/core/executable_route_materializer.rs for a route over two pools, and the theorems
-- at them.
use Prim.Native.String.{String}
use dex_arbitrage.Prelude.{
  ℕ, ◌+◌, ◌*◌, ◌≡◌, ◌≢◌, refl, Option, none, some, true, false, ok, err, List, [], ◌∷◌, map, All,
  if◌then◌else◌, ◌==◌, ltb, string_eq,
}
use dex_arbitrage.Prelude.Map.{Map, lookup, insert}
use dex_arbitrage.Prelude.Sorting.{sorted_insert, sort, dedup}
use dex_arbitrage.Prelude.Text.{eq_ignore_ascii_case}
use dex_arbitrage.Float.{F64Rates}
use dex_arbitrage.U256.{reference}
use dex_arbitrage.PriceEdge.{Venue, quick_swap, sushi_swap, ExecutablePriceEdge}
use dex_arbitrage.RouteArtifact.{
  RouteLeg, StructuralRouteLeg, StructuralRoute, Linked, return_insufficient_observations,
  pool_identity,
}
use dex_arbitrage.PriceGraph.Route.{build_route}
use dex_arbitrage.PoolSim.{opaque, uniswap_v2_constant_product}
use dex_arbitrage.FreshEconomics.{unsupported_pool_model, evaluate}
use dex_arbitrage.Materializer.{
  TokenRecord, PoolRecord, VenueRecord, ExecutableRoutePlan, token_discontinuity,
  missing_typed_legs, invalid_metadata, missing_pool, no_legs, discontinuous, push_leg, first_token,
  finish_plan, plan_typed, typed_leg, typed_legs, text_plan, text_leg, text_legs,
  materialize_canonical, materialize,
}
use dex_arbitrage.Materializer.Canonical.{Executable, approval, materialize_canonical_ok}
use dex_arbitrage.Materializer.Cycle.{materialize_canonical-build_route}
use dex_arbitrage.Materializer.Snapshot.{materialize-evaluate}

-- Rates as fractions.
abbrev fractions : F64Rates
fractions = record {
  Carrier = ℕ × ℕ;
  one = (1, 1);
  mul = λ a b. (a.0 * b.0, a.1 * b.1);
  div = λ a b. (a.0 * b.1, a.1 * b.0);
  is_positive = λ a. ltb 0 a.0;
  is_finite = λ a. ltb 0 a.1;
  parse = λ n. some (n, 1);
}

abbrev printed : ℕ → String
printed n = if n == 10 then "0xa" else "0xb"

abbrev address_from_str : String → Option ℕ
address_from_str s = if string_eq.beq s "0xa" then some 10 else some 11

abbrev pool_at : (address router : ℕ) → PoolRecord
pool_at address router = record {
  address = address;
  router = router;
  state = opaque uniswap_v2_constant_product;
  bytecode_present = true;
  curve_method = none;
  token_in_index = none;
  token_out_index = none;
}

abbrev pools : Map String PoolRecord
pools = ("0xa", pool_at 10 50) ∷ ("0xb", pool_at 11 40) ∷ []

abbrev tokens : Map String TokenRecord
tokens =
    ("A", record { address = 1; decimals = 18 }) ∷ ("B", record { address = 2; decimals = 6 }) ∷ []

abbrev venues : Map String VenueRecord
venues =
    ("QuickSwap", record { venue = quick_swap; router = 50 })
    ∷ ("SushiSwap", record { venue = sushi_swap; router = 40 })
    ∷ []

abbrev edge :
    (quote_id token_in token_out pool router : ℕ)
    → Venue
    → (sym_in sym_out : String) → ExecutablePriceEdge
edge quote_id token_in token_out pool router venue sym_in sym_out = record {
  edge_id = quote_id;
  anchor_block = 9;
  anchor_block_hash = 1;
  venue = venue;
  token_in = token_in;
  token_out = token_out;
  pool = pool;
  router = router;
  spender = router;
  fee = none;
  amount_in = 100;
  amount_out = 101;
  quote_id = quote_id;
  pool_state_id = quote_id + 1_000;
  execution_metadata_id = quote_id + 2_000;
  provenance_hash = quote_id + 3_000;
  token_in_symbol = some sym_in;
  token_out_symbol = some sym_out;
}

abbrev out_edge : ExecutablePriceEdge
out_edge = edge 1 1 2 10 50 quick_swap "A" "B"

abbrev back_edge : ExecutablePriceEdge
back_edge = edge 2 2 1 11 40 sushi_swap "B" "A"

abbrev typed : (index token_in token_out pool router : ℕ) → Venue → StructuralRouteLeg
typed index token_in token_out pool router venue = record {
  leg_index = index;
  venue = venue;
  token_in = token_in;
  token_out = token_out;
  pool = pool;
  router = router;
  spender = router;
  fee = none;
}

abbrev out_leg : StructuralRouteLeg
out_leg = typed 0 1 2 10 50 quick_swap

abbrev back_leg : StructuralRouteLeg
back_leg = typed 1 2 1 11 40 sushi_swap

abbrev text : (token_in token_out venue pool : String) → RouteLeg
text token_in token_out venue pool = record {
  token_in = token_in;
  token_out = token_out;
  venue = venue;
  protocol_version = "V2";
  pool_address = some pool;
  fee_tier = none;
}

abbrev round_trip : StructuralRoute (ℕ × ℕ)
round_trip = record {
  route_id = "base:A>B|QuickSwap|V2|0xa|||B>A|SushiSwap|V2|0xb|";
  structural_cycle_key = "A>B|QuickSwap|V2|0xa|||B>A|SushiSwap|V2|0xb|";
  legs = text "A" "B" "QuickSwap" "0xa" ∷ text "B" "A" "SushiSwap" "0xb" ∷ [];
  hop_count = 2;
  profile = "base";
  scans_observed = 1;
  return_class = return_insufficient_observations;
  pools = "0xa" ∷ "0xb" ∷ [];
  venues = "QuickSwap" ∷ "SushiSwap" ∷ [];
  gross_multiplier_avg = (10_201, 10_000);
  anchor_block = 9;
  anchor_block_hash = 1;
  route_input = 100;
  executable_legs = some (out_leg ∷ back_leg ∷ []);
}

builds_round_trip :
    build_route printed fractions (out_edge ∷ back_edge ∷ []) "base" 100 ≡ some round_trip
unfolding build_route
builds_round_trip = refl

-- The targets come out sorted, the first leg's router second.
abbrev round_trip_plan : ExecutableRoutePlan
round_trip_plan = record {
  structural_cycle_key = "A>B|QuickSwap|V2|0xa|||B>A|SushiSwap|V2|0xb|";
  anchor_block = 9;
  start_token = 1;
  legs = plan_typed out_leg ∷ plan_typed back_leg ∷ [];
  snapshot = record {
    pools =
        ("0xa", opaque uniswap_v2_constant_product)
        ∷ ("0xb", opaque uniswap_v2_constant_product)
        ∷ [];
  };
  fork_setup = record {
    anchor_block = 9;
    caller = 77;
    tokens = 1 ∷ 2 ∷ [];
    funding = (1, 100) ∷ (2, 100) ∷ [];
    approvals = (1, 50, 100) ∷ (2, 40, 100) ∷ [];
    targets = 40 ∷ 50 ∷ [];
    balance_checks = 40 ∷ 50 ∷ [];
  };
}

materializes_round_trip :
    materialize_canonical printed pools 100 round_trip 9 77 false ≡ ok round_trip_plan
unfolding materialize_canonical typed_legs typed_leg no_legs discontinuous push_leg finish_plan sort
    sorted_insert dedup first_token lookup insert
materializes_round_trip = refl

no_pool : materialize_canonical printed [] 100 round_trip 9 77 false ≡ err missing_pool
unfolding materialize_canonical typed_legs typed_leg no_legs discontinuous lookup
no_pool = refl

no_amount :
    materialize_canonical printed pools 0 round_trip 9 77 false ≡ err (invalid_metadata "amount")
unfolding materialize_canonical
no_amount = refl

materialize_canonical_ok_example :
    (false ≡ false)
    × (◌≢◌ {A = ℕ} 100 0)
    × (first : StructuralRouteLeg) × (rest : List StructuralRouteLeg) × (some
          (out_leg ∷ back_leg ∷ [])
        ≡ some (first ∷ rest))
    × Linked (first ∷ rest)
    × All (Executable printed pools) (first ∷ rest)
    × (round_trip_plan.legs ≡ map plan_typed (first ∷ rest))
    × (round_trip_plan.start_token ≡ first.token_in)
    × (round_trip_plan.fork_setup.approvals ≡ map (approval printed pools 100) (first ∷ rest))
materialize_canonical_ok_example =
    materialize_canonical_ok printed pools 100 round_trip 9 77 false materializes_round_trip

materialize_canonical-build_route_example :
    (let plan = materialize_canonical printed pools 100 round_trip 9 77 false in
      (plan ≢ err token_discontinuity) × (plan ≢ err missing_typed_legs))
materialize_canonical-build_route_example =
    materialize_canonical-build_route printed pools 100 fractions out_edge (back_edge ∷ []) "base"
      100 round_trip builds_round_trip 9 77 false

-- The plan of the legs of text: the snapshot is by venue and pool.
abbrev text_round_trip_plan : ExecutableRoutePlan
text_round_trip_plan = record round_trip_plan {
  snapshot = record {
    pools =
        ("QuickSwap:0xa", opaque uniswap_v2_constant_product)
        ∷ ("SushiSwap:0xb", opaque uniswap_v2_constant_product)
        ∷ [];
  };
}

materializes_text :
    materialize address_from_str tokens pools venues 100 round_trip 9 77 false
    ≡ ok text_round_trip_plan
unfolding materialize text_legs text_leg text_plan no_legs discontinuous push_leg finish_plan sort
    sorted_insert dedup first_token lookup insert pool_identity eq_ignore_ascii_case
materializes_text = refl

materialize-evaluate_example :
    evaluate reference
      (λ e. "overflow")
      (101 ∷ 102 ∷ [])
      round_trip.legs
      100
      text_round_trip_plan.snapshot
      (record { start_decimals = 18; gas_cost_atomic = 1; flashloan_cost_atomic = 0 })
    ≢ err (unsupported_pool_model "QuickSwap" "V2")
materialize-evaluate_example =
    materialize-evaluate address_from_str tokens pools venues 100 round_trip 9 77 false
      materializes_text reference (λ e. "overflow") (101 ∷ 102 ∷ []) 100
      (record { start_decimals = 18; gas_cost_atomic = 1; flashloan_cost_atomic = 0 }) "QuickSwap"
      "V2"
