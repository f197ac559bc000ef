-- ===== src/BfGraph/Search/Termination.antt =====
-- The loops of src/core/bf_graph.rs over the predecessors end within the number of tokens, and so
-- does the search.
use dex_arbitrage.Prelude.{
  ℕ, zero, suc, ◌+◌, ◌≢◌, sym, subst, inl, inr, none, ◌||◌, List, [], ◌∷◌, ◌==◌, ltb, length, All,
  Bool-cases, Option-cases,
}
use Prim.Native.String.{String}
use native.Mathlib.Numerals.{add-one}
use dex_arbitrage.Prelude.Map.{Map}
use dex_arbitrage.Float.{F64Graph}
use dex_arbitrage.BfGraph.{PriceEdge, PriceGraph, from_price_map}
use dex_arbitrage.BfGraph.Build.{EdgeWithin, IsInRange, from_price_map-IsInRange}
use dex_arbitrage.BfGraph.Search.{
  Relaxed, Detected, relaxed, shortens, report, detect, detect_starts, find_arbitrage_cycles,
}
use dex_arbitrage.BfGraph.Search.Walk.{Within, cycle_vertices-returns}
use dex_arbitrage.BfGraph.Search.InRange.{relaxed-Within}

module _ (f : F64Graph) (graph : PriceGraph f.Carrier) (min max : f.Carrier) where
  open f use {Carrier}

  detect-ends :
      (n : ℕ) (r : Relaxed Carrier) (edges : List (PriceEdge Carrier)) (d : Detected f)
      → Within n r.pred
      → All (EdgeWithin n) edges
      → detect f graph min max r (suc n) edges d ≢ none
  unfolding detect
  detect-ends n r [] d w c = λ e. cc
  detect-ends n r (edge ∷ edges) d w (c, cs) = elim (Bool-cases (shortens f r.dist edge)) [
    | inr longer ↦ rw (longer, detect) (detect-ends n r edges d w cs)
    | inl shorter ↦
        let (unique, walked) = cycle_vertices-returns r.pred n edge.from w c.0 in
        let reported = report f graph min max r edge unique d in
        elim (Bool-cases reported.0) [
          | inl found ↦ rw (shorter, walked, found, detect) (λ e. cc)
          | inr nothing ↦
              rw (shorter, walked, nothing, detect) (detect-ends n r edges reported.1 w cs)
        ]
  ]

  detect_starts-ends :
      (n starts : ℕ) (d : Detected f)
      → Within n (relaxed f graph).pred
      → All (EdgeWithin n) graph.edges
      → detect_starts f graph min max (suc n) starts d ≢ none
  unfolding detect_starts
  detect_starts-ends n zero d w c = λ e. cc
  detect_starts-ends n (suc starts) d w c =
      elim (Option-cases (detect f graph min max (relaxed f graph) (suc n) graph.edges d)) [
        | inl stuck ↦ absurd (detect-ends n (relaxed f graph) graph.edges d w c stuck)
        | inr (d', done) ↦ rw (done, detect_starts) (detect_starts-ends n starts d' w c)
      ]

  search-ends : IsInRange graph → find_arbitrage_cycles f graph min max ≢ none
  unfolding find_arbitrage_cycles
  search-ends c =
      let n = length graph.tokens in
      let d : Detected f = record { cycles = []; seen_cycle_keys = [] } in
      let ends : detect_starts f graph min max (n + 1) n d ≢ none =
        subst (λ k. detect_starts f graph min max k n d ≢ none) (sym (add-one n))
          (detect_starts-ends n n d (relaxed-Within f graph c) c) in
      elim (Bool-cases (ltb n 2 || length graph.edges == 0)) [
        | inl small ↦ rw small (λ e. cc)
        | inr large ↦ elim (Option-cases (detect_starts f graph min max (n + 1) n d)) [
          | inl stuck ↦ absurd (ends stuck)
          | inr (d', done) ↦ rw (large, done) (λ e. cc)
        ]
      ]

-- The search over the graph of any price map ends.
pub find_arbitrage_cycles-ends :
    (f : F64Graph) (prices : Map String (Map String f.Carrier))
    (min_spread_pct max_spread_pct : f.Carrier)
    → find_arbitrage_cycles f (from_price_map f prices) min_spread_pct max_spread_pct ≢ none
find_arbitrage_cycles-ends f prices min max =
    search-ends f (from_price_map f prices) min max (from_price_map-IsInRange f prices)
