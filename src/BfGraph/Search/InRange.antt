-- ===== src/BfGraph/Search/InRange.antt =====
-- The predecessors that the relaxation of src/core/bf_graph.rs leaves are vertices of the graph.
use dex_arbitrage.Prelude.{
  ℕ, zero, suc, ◌+◌, ◌-◌, ◌<◌, ◌≡◌, subst, ◌⊎◌, inl, inr, Option, none, some, List, [], ◌∷◌, length,
  All, Bool-cases,
}
use dex_arbitrage.Float.{F64Graph}
use dex_arbitrage.BfGraph.{PriceEdge, PriceGraph}
use dex_arbitrage.BfGraph.Build.{IsInRange, EdgeWithin}
use dex_arbitrage.BfGraph.Search.{
  Predecessors, Relaxed, set_elem, repeated, pred_at, shortens, relax_edge, relax_edges, relax,
  relaxed,
}
use dex_arbitrage.BfGraph.Search.Walk.{Within}

pred_at-set_elem :
    (pred : Predecessors) (i : ℕ) (x : Option (ℕ × ℕ)) (v : ℕ) (p : ℕ × ℕ)
    → pred_at (set_elem pred i x) v ≡ some p
    → (x ≡ some p) ⊎ (pred_at pred v ≡ some p)
unfolding pred_at set_elem
pred_at-set_elem [] i x v p e = inr e
pred_at-set_elem (y ∷ pred) zero x zero p e = inl e
pred_at-set_elem (y ∷ pred) zero x (suc v) p e = inr e
pred_at-set_elem (y ∷ pred) (suc i) x zero p e = inr e
pred_at-set_elem (y ∷ pred) (suc i) x (suc v) p e = pred_at-set_elem pred i x v p e

pred_at-repeated : (n v : ℕ) (p : ℕ × ℕ) → pred_at (repeated n none) v ≡ some p → ⊥
unfolding pred_at repeated
pred_at-repeated zero v p e = cc
pred_at-repeated (suc n) zero p e = cc
pred_at-repeated (suc n) (suc v) p e = pred_at-repeated n v p e

set_elem-Within :
    (n : ℕ) (pred : Predecessors) (i ei from : ℕ)
    → Within n pred
    → from < n
    → Within n (set_elem pred i (some (ei, from)))
set_elem-Within n pred i ei from w c v p e =
    elim (pred_at-set_elem pred i (some (ei, from)) v p e) [
      | inl new ↦ let same : from ≡ p.1 = cc in subst (λ m. m < n) same c
      | inr old ↦ w v p old
    ]

module _ (f : F64Graph) (n : ℕ) where
  open f use {Carrier}

  relax_edge-Within :
      (ei : ℕ) (edge : PriceEdge Carrier) (r : Relaxed Carrier)
      → EdgeWithin n edge
      → Within n r.pred
      → Within n (relax_edge f ei edge r).pred
  unfolding relax_edge
  relax_edge-Within ei edge r c w = elim (Bool-cases (shortens f r.dist edge)) [
    | inl shorter ↦ rw shorter (set_elem-Within n r.pred edge.to ei edge.from w c.0)
    | inr longer ↦ rw longer w
  ]

  relax_edges-Within :
      (ei : ℕ) (edges : List (PriceEdge Carrier)) (r : Relaxed Carrier)
      → All (EdgeWithin n) edges
      → Within n r.pred
      → Within n (relax_edges f ei edges r).pred
  unfolding relax_edges
  relax_edges-Within ei [] r c w = w
  relax_edges-Within ei (edge ∷ edges) r (c, cs) w =
      relax_edges-Within (ei + 1) edges (relax_edge f ei edge r) cs
        (relax_edge-Within ei edge r c w)

  relax-Within :
      (rounds : ℕ) (edges : List (PriceEdge Carrier)) (r : Relaxed Carrier)
      → All (EdgeWithin n) edges
      → Within n r.pred
      → Within n (relax f rounds edges r).pred
  unfolding relax
  relax-Within zero edges r c w = w
  relax-Within (suc rounds) edges r c w =
      relax-Within rounds edges (relax_edges f 0 edges r) c (relax_edges-Within 0 edges r c w)

module _ (f : F64Graph) where
  pub relaxed-Within :
      (graph : PriceGraph f.Carrier)
      → IsInRange graph
      → Within (length graph.tokens) (relaxed f graph).pred
  unfolding relaxed
  relaxed-Within graph c =
      relax-Within f (length graph.tokens) (length graph.tokens - 1) graph.edges _ c
        (λ v p e. absurd (pred_at-repeated (length graph.tokens) v p e))
