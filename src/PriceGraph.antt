-- ===== src/PriceGraph.antt =====
-- src/core/executable_price_graph.rs: the graph of executable edges and the search for closed
-- cycles in it. How an address is printed (`{:?}` of ethers) is an argument, and so is f64.
pub mod Route
pub mod Index
pub mod Cycle
pub mod Rule
pub mod Sound
pub mod Cover
mod Tests
use Prim.Native.String.{String}
use dex_arbitrage.Prelude.{
  ℕ, zero, suc, ◌+◌, ◌-◌, Option, none, some, Bool, true, false, not, ◌&&◌, if◌then◌else◌, leb,
  ◌==◌, List, [], ◌∷◌, ◌++◌, length, get_elem?, contains, nat_eq, string_eq,
}
use dex_arbitrage.Prelude.Map.{Map, lookup, insert}
use dex_arbitrage.Float.{F64Rates}
use dex_arbitrage.PriceEdge.{ExecutablePriceEdge}
use dex_arbitrage.RouteArtifact.{StructuralRoute}
use dex_arbitrage.PriceGraph.Route.{build_route}

pub record ExecutableEdgeGraph : Type 0 where
  pub edges : List ExecutablePriceEdge
  pub by_token_in : Map ℕ (List ℕ)

pub new : ExecutableEdgeGraph
new = record { edges = []; by_token_in = [] }

or_default : Option (List ℕ) → List ℕ
or_default none = []
or_default (some indices) = indices

pub push : ExecutableEdgeGraph → ExecutablePriceEdge → ExecutableEdgeGraph
unfolding or_default
push graph edge =
    let idx = length graph.edges in
    record {
      by_token_in =
          insert edge.token_in (or_default (lookup edge.token_in graph.by_token_in) ++ idx ∷ [])
            graph.by_token_in;
      edges = graph.edges ++ edge ∷ [];
    }

pub edges_from : ExecutableEdgeGraph → ℕ → List ℕ
unfolding or_default
edges_from graph token = or_default (lookup token graph.by_token_in)

-- `path.iter().map(|&i| &graph.edges[i])`; the indices of a path are in range, see `Index`.
pub edges_at : List ExecutablePriceEdge → List ℕ → List ExecutablePriceEdge
edges_at edges [] = []
edges_at edges (i ∷ path) = elim (get_elem? edges i) [
  | none ↦ edges_at edges path
  | some edge ↦ edge ∷ edges_at edges path
]

-- The routes found so far and the keys seen.
pub record Found (Score : Type 0) : Type 0 where
  pub out : List (StructuralRoute Score)
  pub seen_keys : List String

-- The parameters of the search that never change.
pub record SearchInput : Type 0 where
  pub graph : ExecutableEdgeGraph
  pub min_hops : ℕ
  pub route_input : ℕ
  pub profile : String

module _ (address_debug : ℕ → String) (f : F64Rates) where
  open f use {Carrier}

  -- `build_route` on a closed path, and the route added unless its key was seen.
  pub add_route : Option (StructuralRoute Carrier) → Found Carrier → Found Carrier
  add_route none found = found
  add_route (some route) found =
      if contains route.structural_cycle_key found.seen_keys then found else record {
        out = found.out ++ route ∷ [];
        seen_keys = route.structural_cycle_key ∷ found.seen_keys;
      }

  pub route_at : SearchInput → List ℕ → Option (StructuralRoute Carrier)
  route_at s path =
      build_route address_debug f (edges_at s.graph.edges path) s.profile s.route_input

  module _ (s : SearchInput) (start : ℕ) (deeper : ℕ → List ℕ → Found Carrier → Found Carrier) where
    -- An edge that is not on the path yet, with the path that it is pushed on.
    pub follow_edge : ExecutablePriceEdge → List ℕ → Found Carrier → Found Carrier
    follow_edge edge path found =
        if edge.token_out == start && leb s.min_hops (length path)
        then add_route (route_at s path) found
        else if not (edge.token_out == start)
        then deeper edge.token_out path found
        else found

    pub visit_edge : ℕ → List ℕ → Found Carrier → Found Carrier
    visit_edge edge_idx path found =
        if contains edge_idx path then found else elim (get_elem? s.graph.edges edge_idx) [
          | none ↦ found
          | some edge ↦ follow_edge edge (path ++ edge_idx ∷ []) found
        ]

    -- The loop over the edges that leave a token.
    pub visit_edges : List ℕ → List ℕ → Found Carrier → Found Carrier
    visit_edges [] path found = found
    visit_edges (edge_idx ∷ indices) path found =
        visit_edges indices path (visit_edge edge_idx path found)

  -- `hops_left` is `max_hops - path.len()`, so `path.len() >= max_hops` where it is 0.
  pub dfs :
      SearchInput → ℕ → (hops_left : ℕ) → (current : ℕ) → List ℕ → Found Carrier → Found Carrier
  unfolding visit_edges visit_edge follow_edge route_at add_route edges_at edges_from
  dfs s start zero current path found = found
  dfs s start (suc hops_left) current path found =
      visit_edges s start (dfs s start hops_left) (edges_from s.graph current) path found

  pub search_all : SearchInput → ℕ → List ℕ → Found Carrier → Found Carrier
  unfolding dfs
  search_all s max_hops [] found = found
  search_all s max_hops (start ∷ start_tokens) found =
      search_all s max_hops start_tokens (dfs s start max_hops start [] found)

  pub find_structural_cycles :
      ExecutableEdgeGraph
      → List ℕ
      → (min_hops max_hops route_input : ℕ) → String
      → List (StructuralRoute Carrier)
  unfolding search_all
  find_structural_cycles graph start_tokens min_hops max_hops route_input profile =
      let s : SearchInput = record {
        graph = graph;
        min_hops = min_hops;
        route_input = route_input;
        profile = profile;
      } in
      let found = search_all s max_hops start_tokens (record { out = []; seen_keys = [] }) in
      found.out
