-- ===== src/BfGraph/Search.antt =====
-- The search of src/core/bf_graph.rs for cycles with a product of rates above one, by relaxation of
-- logarithmic weights. An index is in range wherever the code reads a vector by it, see `InRange`;
-- the reads here have a default. The two loops that follow the predecessors have fuel, and `none`
-- is a loop that has not ended; see `Termination`.
pub mod Walk
pub mod InRange
pub mod Termination
pub mod Soundness
use Prim.Native.String.{String}
use dex_arbitrage.Prelude.{
  ℕ, zero, suc, ◌+◌, ◌-◌, Option, none, some, Bool, true, false, not, ◌&&◌, ◌||◌, if◌then◌else◌,
  ltb, ◌==◌, List, [], ◌∷◌, ◌++◌, length, get_elem?, contains, nat_eq, string_eq,
}
use mathlib.Core.List.{reverse}
use dex_arbitrage.Prelude.Sorting.{sort}
use dex_arbitrage.Float.{F64Graph}
use dex_arbitrage.BfGraph.{PriceEdge, PriceGraph, BfCycle}

-- `(edge_index, prev_vertex)` of each vertex
abbrev pub Predecessors : Type 0
Predecessors = List (Option (ℕ × ℕ))

pub record Relaxed (Rate : Type 0) : Type 0 where
  pub dist : List Rate
  pub pred : Predecessors

-- `v[i] = x`
pub set_elem {ℓ} : {A : Type ℓ} → List A → ℕ → A → List A
set_elem [] i x = []
set_elem (y ∷ ys) zero x = x ∷ ys
set_elem (y ∷ ys) (suc i) x = y ∷ set_elem ys i x

pub repeated {ℓ} : {A : Type ℓ} → ℕ → A → List A
repeated zero x = []
repeated (suc n) x = x ∷ repeated n x

pub pred_at : Predecessors → ℕ → Option (ℕ × ℕ)
pred_at pred v = elim (get_elem? pred v) [ none ↦ none | some p ↦ p ]

-- The first loop: back along the predecessors to the first vertex that is met again, or from where
-- there is none to `fallback`.
pub find_start : Predecessors → (fallback : ℕ) → (fuel : ℕ) → (visited : List ℕ) → ℕ → Option ℕ
unfolding pred_at
find_start pred fallback zero visited cur = none
find_start pred fallback (suc fuel) visited cur = elim (contains cur visited) [
  | true ↦ some cur
  | false ↦ elim (pred_at pred cur) [
    | none ↦ some fallback
    | some p ↦ find_start pred fallback fuel (cur ∷ visited) (p.1)
  ]
]

-- The second loop: the vertices from `cur` back until `cycle_start` would follow.
pub walk_back : Predecessors → (cycle_start : ℕ) → (fuel : ℕ) → ℕ → Option (List ℕ)
unfolding pred_at
walk_back pred cycle_start zero cur = none
walk_back pred cycle_start (suc fuel) cur = elim (pred_at pred cur) [
  | none ↦ some (cur ∷ [])
  | some p ↦ elim (p.1 == cycle_start) [
    | true ↦ some (cur ∷ [])
    | false ↦ elim (walk_back pred cycle_start fuel (p.1)) [
      | none ↦ none
      | some vertices ↦ some (cur ∷ vertices)
    ]
  ]
]

-- `seen.insert(v)` keeps the first of each vertex.
pub first_of_each : List ℕ → List ℕ → List ℕ
first_of_each seen [] = []
first_of_each seen (v ∷ vertices) =
    if contains v seen then first_of_each seen vertices else v ∷ first_of_each (v ∷ seen) vertices

first_or_zero : List ℕ → ℕ
first_or_zero [] = 0
first_or_zero (v ∷ vertices) = v

last_or_zero : List ℕ → ℕ
last_or_zero [] = 0
last_or_zero (v ∷ []) = v
last_or_zero (v ∷ w ∷ vertices) = last_or_zero (w ∷ vertices)

-- `if unique.first() != unique.last() { unique.push(unique[0]) }`
close_path : List ℕ → List ℕ
unfolding first_or_zero last_or_zero
close_path unique =
    if not (first_or_zero unique == last_or_zero unique)
    then unique ++ first_or_zero unique ∷ []
    else unique

-- `unique[..unique.len() - 1]`
pub without_last : List ℕ → List ℕ
without_last [] = []
without_last (v ∷ []) = []
without_last (v ∷ w ∷ vertices) = v ∷ without_last (w ∷ vertices)

-- The vertices of both loops, closed, reversed and with the first of each kept.
pub cycle_vertices : Predecessors → (fuel : ℕ) → ℕ → Option (List ℕ)
unfolding find_start walk_back first_of_each
cycle_vertices pred fuel from = elim (find_start pred from fuel [] from) [
  | none ↦ none
  | some cycle_start ↦ elim (walk_back pred cycle_start fuel cycle_start) [
    | none ↦ none
    | some vertices ↦ some (first_of_each [] (reverse (vertices ++ cycle_start ∷ [])))
  ]
]

-- Keys are compared as vectors.
equal_keys : List ℕ → List ℕ → Bool
equal_keys [] [] = true
equal_keys (x ∷ xs) (y ∷ ys) = x == y && equal_keys xs ys
equal_keys _ _ = false

pub contains_key : List ℕ → List (List ℕ) → Bool
unfolding equal_keys
contains_key key [] = false
contains_key key (k ∷ keys) = equal_keys key k || contains_key key keys

token_names : List String → List ℕ → List String
token_names tokens [] = []
token_names tokens (v ∷ vertices) = elim (get_elem? tokens v) [
  | none ↦ token_names tokens vertices
  | some token ↦ token ∷ token_names tokens vertices
]

module _ (f : F64Graph) where
  open f use {Carrier, one, hundred, tolerance, add, sub, mul, div, neg, ln, lt, le, is_finite}

  pub dist_at : List Carrier → ℕ → Carrier
  dist_at dist v = elim (get_elem? dist v) [ none ↦ f.zero | some d ↦ d ]

  -- The test of a relaxation, also of the last round: `dist[from] + w < dist[to] - 1e-12`.
  shortens : List Carrier → PriceEdge Carrier → Bool
  unfolding dist_at
  shortens dist edge =
      lt (add (dist_at dist edge.from) (neg (ln edge.rate))) (sub (dist_at dist edge.to) tolerance)

  pub relax_edge : ℕ → PriceEdge Carrier → Relaxed Carrier → Relaxed Carrier
  unfolding shortens set_elem
  relax_edge ei edge r =
      if shortens r.dist edge
      then record {
        dist = set_elem r.dist edge.to (add (dist_at r.dist edge.from) (neg (ln edge.rate)));
        pred = set_elem r.pred edge.to (some (ei, edge.from));
      }
      else r

  pub relax_edges : ℕ → List (PriceEdge Carrier) → Relaxed Carrier → Relaxed Carrier
  unfolding relax_edge
  relax_edges ei [] r = r
  relax_edges ei (edge ∷ edges) r = relax_edges (ei + 1) edges (relax_edge ei edge r)

  pub relax : (rounds : ℕ) → List (PriceEdge Carrier) → Relaxed Carrier → Relaxed Carrier
  unfolding relax_edges
  relax zero edges r = r
  relax (suc rounds) edges r = relax rounds edges (relax_edges 0 edges r)

  -- `dist` and `pred` after the rounds.
  pub relaxed : PriceGraph Carrier → Relaxed Carrier
  unfolding relax repeated
  relaxed graph =
      let n = length graph.tokens in
      relax (n - 1) graph.edges (record { dist = repeated n f.zero; pred = repeated n none })

  -- The first edge from one vertex to another.
  find_edge : List (PriceEdge Carrier) → ℕ → ℕ → Option (PriceEdge Carrier)
  find_edge [] a b = none
  find_edge (e ∷ edges) a b =
      let rest = find_edge edges a b in if e.from == a && e.to == b then some e else rest

  -- An edge taken backwards, with the inverse rate; `from` and `to` stay as they are.
  pub inverse_edge : PriceEdge Carrier → PriceEdge Carrier
  inverse_edge e = record e {
    rate = div one e.rate;
    token_in = e.token_out;
    token_out = e.token_in;
  }

  -- The edge of a window of the closed path.
  edge_between : List (PriceEdge Carrier) → ℕ → ℕ → Option (PriceEdge Carrier)
  unfolding find_edge inverse_edge
  edge_between edges a b = elim (find_edge edges a b) [
    | some e ↦ some e
    | none ↦ elim (find_edge edges b a) [ none ↦ none | some e ↦ some (inverse_edge e) ]
  ]

  -- The product of the rates and the edges of a path, from a product on; `none` is a window
  -- without an edge.
  pub collect_edges :
      List (PriceEdge Carrier) → List ℕ → Carrier → Option (Carrier × List (PriceEdge Carrier))
  unfolding edge_between
  collect_edges edges (a ∷ b ∷ path) product = elim (edge_between edges a b) [
    | none ↦ none
    | some e ↦ elim (collect_edges edges (b ∷ path) (mul product e.rate)) [
      | none ↦ none
      | some (total, taken) ↦ some (total, e ∷ taken)
    ]
  ]
  collect_edges edges _ product = some (product, [])

  -- The statements from the product on: the cycle, if it is valid and its spread is within limits.
  pub cycle_of :
      PriceGraph Carrier
      → (min_spread_pct max_spread_pct : Carrier) → (total_weight : Carrier) → List ℕ
      → Option (BfCycle Carrier)
  unfolding collect_edges token_names
  cycle_of graph min_spread_pct max_spread_pct total_weight path =
      elim (collect_edges graph.edges path one) [
        | none ↦ none
        | some (product, taken) ↦
            let spread = mul (sub product one) hundred in
            if not (is_finite product) || le product f.zero
            then none
            else if lt spread min_spread_pct || lt max_spread_pct spread
            then none
            else some (record {
              path = path;
              token_path = token_names graph.tokens path;
              edges = taken;
              product = product;
              spread_pct = spread;
              total_weight = total_weight;
            })
      ]

  -- The cycles found, and the keys seen.
  pub record Detected : Type 0 where
    pub cycles : List (BfCycle Carrier)
    pub seen_cycle_keys : List (List ℕ)

  module _ (graph : PriceGraph Carrier) (min_spread_pct max_spread_pct : Carrier)
      (r : Relaxed Carrier) where
    -- What the vertices of an edge that still shortens make: true where the loop over the edges is
    -- left.
    report : PriceEdge Carrier → List ℕ → Detected → Bool × Detected
    unfolding contains_key cycle_of close_path without_last
    report edge unique d =
        let closed = close_path unique in
        let key = sort (without_last closed) in
        let d' = record d { seen_cycle_keys = key ∷ d.seen_cycle_keys } in
        let weight =
          sub (add (dist_at r.dist edge.from) (neg (ln edge.rate))) (dist_at r.dist edge.to) in
        if ltb (length unique) 2
        then (false, d)
        else if contains_key key d.seen_cycle_keys
        then (false, d)
        else elim (cycle_of graph min_spread_pct max_spread_pct weight closed) [
          | none ↦ (false, d')
          | some cycle ↦ (true, record d' { cycles = d.cycles ++ cycle ∷ [] })
        ]

    -- The last round over the edges.
    pub detect : (fuel : ℕ) → List (PriceEdge Carrier) → Detected → Option Detected
    unfolding report shortens cycle_vertices
    detect fuel [] d = some d
    detect fuel (edge ∷ edges) d = elim (shortens r.dist edge) [
      | false ↦ detect fuel edges d
      | true ↦ elim (cycle_vertices r.pred fuel edge.from) [
        | none ↦ none
        | some unique ↦
            let reported = report edge unique d in
            elim (reported.0) [ true ↦ some (reported.1) | false ↦ detect fuel edges (reported.1) ]
      ]
    ]

  -- `for _start in 0..n`: every start relaxes the same.
  pub detect_starts :
      PriceGraph Carrier
      → (min_spread_pct max_spread_pct : Carrier) → (fuel starts : ℕ) → Detected
      → Option Detected
  unfolding detect relaxed
  detect_starts graph min_spread_pct max_spread_pct fuel zero d = some d
  detect_starts graph min_spread_pct max_spread_pct fuel (suc starts) d =
      elim (detect graph min_spread_pct max_spread_pct (relaxed graph) fuel graph.edges d) [
        | none ↦ none
        | some d' ↦ detect_starts graph min_spread_pct max_spread_pct fuel starts d'
      ]

  -- The fuel of the loops over the predecessors is one more than the number of tokens.
  unfoldable pub find_arbitrage_cycles :
      PriceGraph Carrier
      → (min_spread_pct max_spread_pct : Carrier) → Option (List (BfCycle Carrier))
  unfolding detect_starts
  find_arbitrage_cycles graph min_spread_pct max_spread_pct =
      let n = length graph.tokens in
      if ltb n 2 || length graph.edges == 0
      then some []
      else elim (detect_starts graph min_spread_pct max_spread_pct (n + 1) n
          (record { cycles = []; seen_cycle_keys = [] })) [ none ↦ none | some d ↦ some d.cycles ]
