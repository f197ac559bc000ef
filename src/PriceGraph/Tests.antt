-- ===== src/PriceGraph/Tests.antt =====
-- Searches of src/core/executable_price_graph.rs in small graphs, and the theorems at them.
use Prim.Native.String.{String}
use mathlib.Core.List.{Memᴰ}
use dex_arbitrage.Prelude.{
  ℕ, ◌+◌, ◌*◌, ◌^◌, ◌<◌, ◌≡◌, ◌≢◌, refl, subst, none, some, ok, true, List, [], ◌∷◌, ltb, contains,
  All, Distinct, string_eq, nat_eq, arith,
}
use dex_arbitrage.Prelude.Map.{lookup, insert}
use dex_arbitrage.Prelude.Split.{Lacks}
use dex_arbitrage.Float.{F64Rates}
use dex_arbitrage.PriceEdge.{Venue, uniswap_v3, quick_swap, sushi_swap, ExecutablePriceEdge}
use dex_arbitrage.RouteArtifact.{
  RouteLeg, StructuralRouteLeg, StructuralRoute, return_insufficient_observations,
}
use dex_arbitrage.PriceGraph.{new, push, edges_at, find_structural_cycles}
use dex_arbitrage.PriceGraph.Route.{build_route}
use dex_arbitrage.PriceGraph.Route.Parsed.{IsReadable, ArePrinted, parse_legs-build_route}
use dex_arbitrage.RouteArtifact.Load.{parse_legs}
use dex_arbitrage.PriceGraph.Index.{push_all}
use dex_arbitrage.PriceGraph.Cycle.{IsCycle}
use dex_arbitrage.PriceGraph.Sound.{CycleFrom, keys, find_structural_cycles_sound}
use dex_arbitrage.PriceGraph.Cover.{find_structural_cycles_complete}

-- Rates as fractions.
abbrev fractions : F64Rates
fractions = record {
  Carrier = ℕ × ℕ;
  one = (1, 1);
  mul = λ a b. (a.0 * b.0, a.1 * b.1);
  div = λ a b. (a.0 * b.1, a.1 * b.0);
  is_positive = λ a. ltb 0 a.0;
  is_finite = λ a. ltb 0 a.1;
  parse = λ n. some (n, 1);
}

abbrev printed : ℕ → String
printed n = "0xpool"

abbrev edge :
    (quote_id token_in token_out pool : ℕ)
    → Venue
    → (sym_in sym_out : String) → ℕ
    → ExecutablePriceEdge
edge quote_id token_in token_out pool venue sym_in sym_out anchor_hash = record {
  edge_id = quote_id;
  anchor_block = 9;
  anchor_block_hash = anchor_hash;
  venue = venue;
  token_in = token_in;
  token_out = token_out;
  pool = pool;
  router = pool + 500;
  spender = pool + 500;
  fee = none;
  amount_in = 100;
  amount_out = 101;
  quote_id = quote_id;
  pool_state_id = quote_id + 1_000;
  execution_metadata_id = quote_id + 2_000;
  provenance_hash = quote_id + 3_000;
  token_in_symbol = some sym_in;
  token_out_symbol = some sym_out;
}

abbrev triangle : List ExecutablePriceEdge
triangle =
    edge 1 1 2 10 quick_swap "A" "B" 1
    ∷ edge 2 2 3 11 sushi_swap "B" "C" 1
    ∷ edge 3 3 1 12 uniswap_v3 "C" "A" 1
    ∷ []

-- The same edges with the last quote at another anchor.
abbrev mixed : List ExecutablePriceEdge
mixed =
    edge 1 1 2 10 quick_swap "A" "B" 1
    ∷ edge 2 2 3 11 sushi_swap "B" "C" 1
    ∷ edge 3 3 1 12 uniswap_v3 "C" "A" 2
    ∷ []

abbrev leg : (index token_in token_out pool : ℕ) → Venue → StructuralRouteLeg
leg index token_in token_out pool venue = record {
  leg_index = index;
  venue = venue;
  token_in = token_in;
  token_out = token_out;
  pool = pool;
  router = pool + 500;
  spender = pool + 500;
  fee = none;
}

abbrev leg_text : (token_in token_out venue version : String) → RouteLeg
leg_text token_in token_out venue version = record {
  token_in = token_in;
  token_out = token_out;
  venue = venue;
  protocol_version = version;
  pool_address = some "0xpool";
  fee_tier = none;
}

abbrev triangle_route : StructuralRoute (ℕ × ℕ)
triangle_route = record {
  route_id = "base:A>B|QuickSwap|V2|0xpool|||B>C|SushiSwap|V2|0xpool|||C>A|UniswapV3|V3|0xpool|";
  structural_cycle_key =
      "A>B|QuickSwap|V2|0xpool|||B>C|SushiSwap|V2|0xpool|||C>A|UniswapV3|V3|0xpool|";
  legs =
      leg_text "A" "B" "QuickSwap" "V2"
      ∷ leg_text "B" "C" "SushiSwap" "V2"
      ∷ leg_text "C" "A" "UniswapV3" "V3"
      ∷ [];
  hop_count = 3;
  profile = "base";
  scans_observed = 1;
  return_class = return_insufficient_observations;
  pools = "0xpool" ∷ "0xpool" ∷ "0xpool" ∷ [];
  venues = "QuickSwap" ∷ "SushiSwap" ∷ "UniswapV3" ∷ [];
  gross_multiplier_avg = (1_030_301, 1_000_000);
  anchor_block = 9;
  anchor_block_hash = 1;
  route_input = 100;
  executable_legs =
      some (leg 0 1 2 10 quick_swap ∷ leg 1 2 3 11 sushi_swap ∷ leg 2 3 1 12 uniswap_v3 ∷ []);
}

finds_triangle :
    find_structural_cycles printed fractions (push_all new triangle) (1 ∷ []) 2 3 100 "base"
    ≡ triangle_route ∷ []
unfolding find_structural_cycles edges_at push_all push new build_route lookup insert
finds_triangle = refl

mixed_anchors_fail_closed :
    find_structural_cycles printed fractions (push_all new mixed) (1 ∷ []) 2 3 100 "base" ≡ []
unfolding find_structural_cycles edges_at push_all push new build_route lookup insert
mixed_anchors_fail_closed = refl

too_many_hops :
    find_structural_cycles printed fractions (push_all new triangle) (1 ∷ []) 2 2 100 "base" ≡ []
unfolding find_structural_cycles edges_at push_all push new build_route lookup insert
too_many_hops = refl

find_structural_cycles_sound_example :
    (let routes =
        find_structural_cycles printed fractions
          (push_all new triangle)
          (1 ∷ 2 ∷ [])
          2
          3
          100
          "base" in
      All
        (λ route.
          (path : List ℕ) × CycleFrom printed fractions triangle (1 ∷ 2 ∷ []) 2 3 path
          × (build_route printed fractions (edges_at triangle path) "base" 100 ≡ some route))
        routes
      × Distinct (keys printed fractions routes))
find_structural_cycles_sound_example =
    find_structural_cycles_sound printed fractions triangle (1 ∷ 2 ∷ []) 2 3 100 "base"

triangle-IsCycle : IsCycle triangle 1 2 3 (0 ∷ 1 ∷ 2 ∷ [])
triangle-IsCycle = record {
  closes = (
    edge 1 1 2 10 quick_swap "A" "B" 1,
    refl,
    refl,
    refl,
    omega arith,
    (
      edge 2 2 3 11 sushi_swap "B" "C" 1,
      refl,
      refl,
      refl,
      omega arith,
      (edge 3 3 1 12 uniswap_v3 "C" "A" 1, refl, refl, refl, refl),
    ),
  );
  at_least = omega arith;
  at_most = omega arith;
}

triangle_builds :
    build_route printed fractions (edges_at triangle (0 ∷ 1 ∷ 2 ∷ [])) "base" 100
    ≡ some triangle_route
unfolding find_structural_cycles edges_at push_all push new build_route lookup insert
triangle_builds = refl

find_structural_cycles_complete_example :
    contains triangle_route.structural_cycle_key (
      keys printed fractions
        (find_structural_cycles printed fractions (push_all new triangle) (1 ∷ []) 2 3 100 "base"))
    ≡ true
find_structural_cycles_complete_example =
    find_structural_cycles_complete printed fractions triangle (1 ∷ []) 2 3 100 "base" 1
      (0 ∷ 1 ∷ 2 ∷ []) triangle_route (Memᴰ.head refl) triangle-IsCycle triangle_builds

-- The triangle with a fee on its last edge.
abbrev priced : List ExecutablePriceEdge
priced =
    edge 1 1 2 10 quick_swap "A" "B" 1
    ∷ edge 2 2 3 11 sushi_swap "B" "C" 1
    ∷ record (edge 3 3 1 12 uniswap_v3 "C" "A" 1) { fee = some 3_000 }
    ∷ []

abbrev priced_route : StructuralRoute (ℕ × ℕ)
priced_route = record triangle_route {
  route_id =
      "base:A>B|QuickSwap|V2|0xpool|||B>C|SushiSwap|V2|0xpool|||C>A|UniswapV3|V3|0xpool|3000";
  structural_cycle_key =
      "A>B|QuickSwap|V2|0xpool|||B>C|SushiSwap|V2|0xpool|||C>A|UniswapV3|V3|0xpool|3000";
  legs =
      leg_text "A" "B" "QuickSwap" "V2"
      ∷ leg_text "B" "C" "SushiSwap" "V2"
      ∷ record (leg_text "C" "A" "UniswapV3" "V3") { fee_tier = some 3_000 }
      ∷ [];
  executable_legs = some (
      leg 0 1 2 10 quick_swap
      ∷ leg 1 2 3 11 sushi_swap
      ∷ record (leg 2 3 1 12 uniswap_v3) { fee = some 3_000 }
      ∷ []);
}

priced_builds : build_route printed fractions priced "base" 100 ≡ some priced_route
unfolding build_route
priced_builds = refl

printed-ArePrinted : ArePrinted printed
printed-ArePrinted address = (λ e. cc, omega arith)

-- What holds of a value holds of what an option with the value gives.
of_some : {A : Type 0} (P : A → Type 0) (x : A) → P x → (y : A) → some x ≡ some y → P y
of_some P x p y e = let same : x ≡ y = cc in subst P same p

abbrev IsTokenIn : String → Type 0
IsTokenIn s = (s ≢ "") × Lacks b'|' s × Lacks b'>' s

abbrev IsTokenOut : String → Type 0
IsTokenOut s = (s ≢ "") × Lacks b'|' s

priced-AreReadable : All IsReadable priced
priced-AreReadable =
    let taken = λ (s : String) (ne : s ≢ "") (bar : Lacks b'|' s) (arrow : Lacks b'>' s).
      of_some IsTokenIn s (ne, bar, arrow) in
    let given = λ (s : String) (ne : s ≢ "") (bar : Lacks b'|' s). of_some IsTokenOut s (ne, bar) in
    (
      (
        taken "A" (λ e. cc) (omega arith) (omega arith),
        given "B" (λ e. cc) (omega arith),
        λ fee e. cc,
      ),
      (
        (
          taken "B" (λ e. cc) (omega arith) (omega arith),
          given "C" (λ e. cc) (omega arith),
          λ fee e. cc,
        ),
        (
          (
            taken "C" (λ e. cc) (omega arith) (omega arith),
            given "A" (λ e. cc) (omega arith),
            of_some (λ fee. fee < 2 ^ 32) 3_000 (omega arith),
          ),
          tt,
        ),
      ),
    )

parse_legs-build_route_example :
    parse_legs priced_route.structural_cycle_key 3 ≡ ok priced_route.legs
parse_legs-build_route_example =
    parse_legs-build_route printed printed-ArePrinted fractions priced "base" 100 priced-AreReadable
      (omega arith) priced_builds
