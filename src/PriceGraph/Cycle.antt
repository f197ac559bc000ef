-- ===== src/PriceGraph/Cycle.antt =====
-- Closed cycles in a graph of edges, apart from the search of src/core/executable_price_graph.rs.
use dex_arbitrage.Prelude.{
  ℕ, ◌≡◌, ◌≢◌, some, false, List, [], ◌∷◌, ◌++◌, get_elem?, contains, nat_eq, length, ◌≤◌,
}
use dex_arbitrage.PriceEdge.{ExecutablePriceEdge}

-- `rest` leads from `token` to `start` along edges that follow on one another, none of them on
-- `path` or twice in `rest`, and meets `start` at its end only.
abbrev pub Closes : List ExecutablePriceEdge → (start token : ℕ) → (path rest : List ℕ) → Type 0
Closes edges start token path [] = ⊥
Closes edges start token path (i ∷ []) =
    (edge : ExecutablePriceEdge) × (get_elem? edges i ≡ some edge)
    × (edge.token_in ≡ token)
    × (contains i path ≡ false)
    × (edge.token_out ≡ start)
Closes edges start token path (i ∷ j ∷ rest) =
    (edge : ExecutablePriceEdge) × (get_elem? edges i ≡ some edge)
    × (edge.token_in ≡ token)
    × (contains i path ≡ false)
    × (edge.token_out ≢ start)
    × Closes edges start edge.token_out (path ++ i ∷ []) (j ∷ rest)

-- A cycle of distinct edges from `start` back to it, with the numbers of hops allowed.
pub record IsCycle (edges : List ExecutablePriceEdge) (start min_hops max_hops : ℕ) (path : List ℕ)
    : Type 0 where
  pub closes : Closes edges start start [] path
  pub at_least : min_hops ≤ length path
  pub at_most : length path ≤ max_hops
