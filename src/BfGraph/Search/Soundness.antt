-- ===== src/BfGraph/Search/Soundness.antt =====
-- What `find_arbitrage_cycles` of src/core/bf_graph.rs reports: closed paths along edges of the
-- graph, with the product of their rates and a spread within the limits.
use dex_arbitrage.Prelude.{
  ℕ, zero, suc, ◌+◌, ◌≤◌, ◌≡◌, refl, sym, subst, ◌∙◌, ◌⊎◌, inl, inr, Option, none, some, true,
  false, not, ◌||◌, ◌&&◌, List, [], ◌∷◌, ◌++◌, ◌==◌, ltb, length, length-append, All, All-append,
  Bool-cases, Option-cases, arith, nat_eq,
}
use mathlib.Core.List.{Memᴰ}
use dex_arbitrage.Prelude.Sorting.{sort}
use dex_arbitrage.Float.{F64Graph}
use dex_arbitrage.BfGraph.{PriceEdge, PriceGraph, BfCycle}
use dex_arbitrage.BfGraph.Search.{
  Relaxed, Detected, relaxed, shortens, dist_at, contains_key, without_last, first_or_zero,
  last_or_zero, close_path, find_edge, inverse_edge, edge_between, collect_edges, token_names,
  cycle_of, cycle_vertices, report, detect, detect_starts, find_arbitrage_cycles,
}

module _ (f : F64Graph) where
  open f use {Carrier, one, hundred, mul, sub, lt, le, is_finite}

  -- An edge of the graph from a to b, or the inverse of one from b to a.
  abbrev pub IsEdgeBetween : List (PriceEdge Carrier) → ℕ → ℕ → PriceEdge Carrier → Type 0
  IsEdgeBetween edges a b e =
      (Memᴰ e edges × (e.from ≡ a) × (e.to ≡ b))
      ⊎ ((d : PriceEdge Carrier) × (Memᴰ d edges)
          × (d.from ≡ b)
          × (d.to ≡ a)
          × (e ≡ inverse_edge f d))

  -- One edge for each step of the path.
  abbrev pub Joins : List (PriceEdge Carrier) → List ℕ → List (PriceEdge Carrier) → Type 0
  Joins edges (a ∷ b ∷ path) (e ∷ taken) = IsEdgeBetween edges a b e × Joins edges (b ∷ path) taken
  Joins edges (a ∷ b ∷ path) [] = ⊥
  Joins edges (a ∷ []) taken = taken ≡ []
  Joins edges [] taken = taken ≡ []

  abbrev pub product_from : Carrier → List (PriceEdge Carrier) → Carrier
  product_from product [] = product
  product_from product (e ∷ taken) = product_from (mul product e.rate) taken

  find_edge-Memᴰ :
      (edges : List (PriceEdge Carrier)) (a b : ℕ) (e : PriceEdge Carrier)
      → find_edge f edges a b ≡ some e
      → Memᴰ e edges × (e.from ≡ a) × (e.to ≡ b)
  unfolding find_edge
  find_edge-Memᴰ [] a b e h = cc
  find_edge-Memᴰ (d ∷ edges) a b e h = elim (Bool-cases (d.from == a && d.to == b)) [
    | inl here ↦
        let same : d ≡ e = ground arith in
        subst (λ x. Memᴰ x (d ∷ edges) × (x.from ≡ a) × (x.to ≡ b)) same
          (Memᴰ.head refl, ground arith, ground arith)
    | inr there ↦
        let (mem, from, to) = find_edge-Memᴰ edges a b e (ground arith) in (Memᴰ.tail mem, from, to)
  ]

  edge_between-direct :
      (edges : List (PriceEdge Carrier)) (a b : ℕ) (d : PriceEdge Carrier)
      → find_edge f edges a b ≡ some d
      → edge_between f edges a b ≡ some d
  unfolding edge_between
  edge_between-direct edges a b d found = rw (found, edge_between) refl

  edge_between-inverse :
      (edges : List (PriceEdge Carrier)) (a b : ℕ)
      → find_edge f edges a b ≡ none
      → edge_between f edges a b
        ≡ elim (find_edge f edges b a) [ none ↦ none | some e ↦ some (inverse_edge f e) ]
  unfolding edge_between
  edge_between-inverse edges a b missing = rw (missing, edge_between) refl

  edge_between-IsEdge :
      (edges : List (PriceEdge Carrier)) (a b : ℕ) (e : PriceEdge Carrier)
      → edge_between f edges a b ≡ some e
      → IsEdgeBetween edges a b e
  edge_between-IsEdge edges a b e h = elim (Option-cases (find_edge f edges a b)) [
    | inr (d, found) ↦
        let direct = edge_between-direct edges a b d found in
        let same : d ≡ e = cc in
        inl (
          subst (λ x. Memᴰ x edges × (x.from ≡ a) × (x.to ≡ b)) same
            (find_edge-Memᴰ edges a b d found))
    | inl missing ↦
        let inverse = edge_between-inverse edges a b missing in
        elim (Option-cases (find_edge f edges b a)) [
          | inl neither ↦ absurd (ground arith)
          | inr (d, found) ↦
              let (mem, from, to) = find_edge-Memᴰ edges b a d found in
              inr (d, mem, from, to, ground arith)
        ]
  ]

  nothing_taken :
      (product total : Carrier) (taken : List (PriceEdge Carrier))
      → (let collected : Option (Carrier × List (PriceEdge Carrier)) = some (product, []) in
          collected ≡ some (total, taken))
      → (taken ≡ []) × (total ≡ product_from product taken)
  nothing_taken product total taken h =
      let no_edge : [] ≡ taken = ground arith in
      let same : product ≡ total = ground arith in rw (sym no_edge, sym same) (refl, refl)

  collect_edges-Joins :
      (edges : List (PriceEdge Carrier)) (path : List ℕ) (product total : Carrier)
      (taken : List (PriceEdge Carrier))
      → collect_edges f edges path product ≡ some (total, taken)
      → Joins edges path taken × (total ≡ product_from product taken)
  unfolding collect_edges
  collect_edges-Joins edges [] product total taken h = nothing_taken product total taken h
  collect_edges-Joins edges (a ∷ []) product total taken h = nothing_taken product total taken h
  collect_edges-Joins edges (a ∷ b ∷ path) product total taken h =
      elim (Option-cases (edge_between f edges a b)) [
        | inl gap ↦ absurd (ground arith)
        | inr (e, joins) ↦
            elim (Option-cases (collect_edges f edges (b ∷ path) (mul product e.rate))) [
              | inl gap ↦ absurd (ground arith)
              | inr ((total', taken'), rest) ↦
                  let (ih, p) =
                    collect_edges-Joins edges (b ∷ path) (mul product e.rate) total' taken' rest in
                  let same_taken : e ∷ taken' ≡ taken = ground arith in
                  let same_total : total' ≡ total = ground arith in
                  rw (sym same_taken, sym same_total)
                    ((edge_between-IsEdge edges a b e joins, ih), p)
            ]
      ]

  pub record IsArbitrage (graph : PriceGraph Carrier) (min_spread_pct max_spread_pct : Carrier)
      (c : BfCycle Carrier) : Type 0 where
    is_closed : first_or_zero c.path ≡ last_or_zero c.path
    has_edge : 2 ≤ length c.path
    joins : Joins graph.edges c.path c.edges
    is_product : c.product ≡ product_from one c.edges
    product_finite : is_finite c.product ≡ true
    product_positive : le c.product f.zero ≡ false
    is_spread : c.spread_pct ≡ mul (sub c.product one) hundred
    at_least : lt c.spread_pct min_spread_pct ≡ false
    at_most : lt max_spread_pct c.spread_pct ≡ false

  last_or_zero-append : (path : List ℕ) (v : ℕ) → last_or_zero (path ++ v ∷ []) ≡ v
  unfolding last_or_zero
  last_or_zero-append [] v = refl
  last_or_zero-append (x ∷ []) v = refl
  last_or_zero-append (x ∷ y ∷ path) v = last_or_zero-append (y ∷ path) v

  first_or_zero-append :
      (path : List ℕ) (v : ℕ)
      → 1 ≤ length path
      → first_or_zero (path ++ v ∷ []) ≡ first_or_zero path
  unfolding first_or_zero
  first_or_zero-append [] v h = ground arith
  first_or_zero-append (x ∷ path) v h = refl

  close_path-IsClosed :
      (unique : List ℕ)
      → 2 ≤ length unique
      → (first_or_zero (close_path unique) ≡ last_or_zero (close_path unique))
        × (2 ≤ length (close_path unique))
  unfolding close_path
  close_path-IsClosed unique long =
      elim (Bool-cases (first_or_zero unique == last_or_zero unique)) [
        | inl closed ↦ rw (closed, close_path) (ground arith, long)
        | inr open_path ↦
            let first = first_or_zero unique in
            rw (open_path, close_path)
              (
                first_or_zero-append unique first (omega arith)
                    ∙ sym (last_or_zero-append unique first),
                omega (arith, length-append unique (first ∷ [])),
              )
      ]

  module _ (graph : PriceGraph Carrier) (min max : Carrier) where
    cycle_of-IsArbitrage :
        (weight : Carrier) (path : List ℕ) (c : BfCycle Carrier)
        → (first_or_zero path ≡ last_or_zero path) × (2 ≤ length path)
        → cycle_of f graph min max weight path ≡ some c
        → IsArbitrage graph min max c
    unfolding cycle_of
    cycle_of-IsArbitrage weight path c (closed, long) h =
        elim (Option-cases (collect_edges f graph.edges path one)) [
          | inl gap ↦ absurd (ground arith)
          | inr ((product, taken), collected) ↦
              let spread = mul (sub product one) hundred in
              let (joins, is_product) =
                collect_edges-Joins graph.edges path one product taken collected in
              elim (Bool-cases (not (is_finite product) || le product f.zero)) [
                | inl invalid ↦ absurd (ground arith)
                | inr valid ↦ elim (Bool-cases (lt spread min || lt max spread)) [
                  | inl outside ↦ absurd (ground arith)
                  | inr inside ↦
                      let found : BfCycle Carrier = record {
                        path = path;
                        token_path = token_names graph.tokens path;
                        edges = taken;
                        product = product;
                        spread_pct = spread;
                        total_weight = weight;
                      } in
                      let same : found ≡ c = ground arith in
                      subst (IsArbitrage graph min max) same (record {
                        is_closed = closed;
                        has_edge = long;
                        joins = joins;
                        is_product = is_product;
                        product_finite = ground arith;
                        product_positive = ground arith;
                        is_spread = refl;
                        at_least = ground arith;
                        at_most = ground arith;
                      })
                ]
              ]
        ]

    module _ (r : Relaxed Carrier) where
      report-AreArbitrages :
          (edge : PriceEdge Carrier) (unique : List ℕ) (d : Detected f)
          → All (IsArbitrage graph min max) d.cycles
          → All (IsArbitrage graph min max) (report f graph min max r edge unique d).1.cycles
      unfolding report
      report-AreArbitrages edge unique d ok =
          let closed = close_path unique in
          let key = sort (without_last closed) in
          let weight =
            f.sub (f.add (dist_at f r.dist edge.from) (f.neg (f.ln edge.rate)))
              (dist_at f r.dist edge.to) in
          elim (Bool-cases (ltb (length unique) 2)) [
            | inl few ↦ rw (few, report) ok
            | inr enough ↦ elim (Bool-cases (contains_key key d.seen_cycle_keys)) [
              | inl seen ↦ rw (enough, seen, report) ok
              | inr new ↦ elim (Option-cases (cycle_of f graph min max weight closed)) [
                | inl dropped ↦ rw (enough, new, dropped, report) ok
                | inr (c, kept) ↦
                    let valid =
                      cycle_of-IsArbitrage weight closed c
                        (close_path-IsClosed unique (ground arith)) kept in
                    rw (enough, new, kept, report) (All-append _ d.cycles (c ∷ []) ok (valid, tt))
              ]
            ]
          ]

      detect-AreArbitrages :
          (fuel : ℕ) (edges : List (PriceEdge Carrier)) (d d' : Detected f)
          → All (IsArbitrage graph min max) d.cycles
          → detect f graph min max r fuel edges d ≡ some d'
          → All (IsArbitrage graph min max) d'.cycles
      unfolding detect
      detect-AreArbitrages fuel [] d d' ok h =
          let same : d ≡ d' = ground arith in
          subst (λ x. All (IsArbitrage graph min max) x.cycles) same ok
      detect-AreArbitrages fuel (edge ∷ edges) d d' ok h =
          elim (Bool-cases (shortens f r.dist edge)) [
            | inr longer ↦ detect-AreArbitrages fuel edges d d' ok (ground arith)
            | inl shorter ↦ elim (Option-cases (cycle_vertices r.pred fuel edge.from)) [
              | inl stuck ↦ absurd (ground arith)
              | inr (unique, walked) ↦
                  let reported = report f graph min max r edge unique d in
                  let ok' = report-AreArbitrages edge unique d ok in
                  elim (Bool-cases reported.0) [
                    | inl found ↦
                        let same : reported.1 ≡ d' = ground arith in
                        subst (λ x. All (IsArbitrage graph min max) x.cycles) same ok'
                    | inr nothing ↦ detect-AreArbitrages fuel edges reported.1 d' ok' (ground arith)
                  ]
            ]
          ]

    detect_starts-AreArbitrages :
        (fuel starts : ℕ) (d d' : Detected f)
        → All (IsArbitrage graph min max) d.cycles
        → detect_starts f graph min max fuel starts d ≡ some d'
        → All (IsArbitrage graph min max) d'.cycles
    unfolding detect_starts
    detect_starts-AreArbitrages fuel zero d d' ok h =
        let same : d ≡ d' = ground arith in
        subst (λ x. All (IsArbitrage graph min max) x.cycles) same ok
    detect_starts-AreArbitrages fuel (suc starts) d d' ok h =
        elim (Option-cases (detect f graph min max (relaxed f graph) fuel graph.edges d)) [
          | inl stuck ↦ absurd (ground arith)
          | inr (d1, done) ↦
              detect_starts-AreArbitrages fuel starts d1 d'
                (detect-AreArbitrages (relaxed f graph) fuel graph.edges d d1 ok done)
                (ground arith)
        ]

-- Whatever the search reports is a path that ends where it started, with at least one step; each
-- step is an edge of the graph, or the inverse of one in the other direction; the product is the
-- one of the rates of those edges, finite and positive, and the spread lies within the limits.
pub find_arbitrage_cycles_sound :
    (f : F64Graph) (graph : PriceGraph f.Carrier) (min_spread_pct max_spread_pct : f.Carrier)
    (cycles : List (BfCycle f.Carrier))
    → find_arbitrage_cycles f graph min_spread_pct max_spread_pct ≡ some cycles
    → All (IsArbitrage f graph min_spread_pct max_spread_pct) cycles
unfolding find_arbitrage_cycles
find_arbitrage_cycles_sound f graph min max cycles h =
    let n = length graph.tokens in
    let start : Detected f = record { cycles = []; seen_cycle_keys = [] } in
    elim (Bool-cases (ltb n 2 || length graph.edges == 0)) [
      | inl small ↦ let same : [] ≡ cycles = ground arith in subst (All _) same tt
      | inr large ↦ elim (Option-cases (detect_starts f graph min max (n + 1) n start)) [
        | inl stuck ↦ absurd (ground arith)
        | inr (d, done) ↦
            let same : d.cycles ≡ cycles = ground arith in
            subst (All _) same
              (detect_starts-AreArbitrages f graph min max (n + 1) n start d tt done)
      ]
    ]
