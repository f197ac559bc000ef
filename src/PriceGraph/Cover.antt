-- ===== src/PriceGraph/Cover.antt =====
-- The search of src/core/executable_price_graph.rs returns a route for every cycle that one can be
-- built of.
use Prim.Native.String.{String}
use mathlib.Core.List.{Memᴰ, append_assoc}
use mathlib.Core.List.Memᴰ
use dex_arbitrage.Prelude.{
  ℕ, zero, suc, ◌≤◌, ◌≡◌, ◌≢◌, refl, sym, subst, ◌∙◌, inl, inr, Option, none, some, true, false,
  List, [], ◌∷◌, ◌++◌, ◌==◌, length, get_elem?, contains, nat_eq, string_eq, arith, Bool-cases,
  ==_iff, le→leb,
}
use dex_arbitrage.Float.{F64Rates}
use dex_arbitrage.PriceEdge.{ExecutablePriceEdge}
use dex_arbitrage.RouteArtifact.{StructuralRoute}
use dex_arbitrage.PriceGraph.{
  new, edges_from, edges_at, SearchInput, Found, add_route, route_at, follow_edge, visit_edge,
  visit_edges, dfs, search_all, find_structural_cycles,
}
use dex_arbitrage.PriceGraph.Route.{build_route}
use dex_arbitrage.PriceGraph.Index.{IsIndexed, push_all, push_all-IsIndexed, push_all-edges}
use dex_arbitrage.PriceGraph.Cycle.{Closes, IsCycle}
use dex_arbitrage.PriceGraph.Rule.{Keeps, visit_edge-Keeps, dfs-Keeps, search_all-Keeps}
use dex_arbitrage.PriceGraph.Sound.{keys, search_all-KeysOnce}

module _ (address_debug : ℕ → String) (f : F64Rates) (s : SearchInput) (key : String) where
  open f use {Carrier}

  abbrev Seen : Found Carrier → Type 0
  Seen found = contains key found.seen_keys ≡ true

  add_route-Seen :
      (route : Option (StructuralRoute Carrier)) (found : Found Carrier)
      → Seen found
      → Seen (add_route address_debug f route found)
  unfolding add_route
  add_route-Seen none found h = h
  add_route-Seen (some r) found h =
      elim (Bool-cases (contains r.structural_cycle_key found.seen_keys)) [
        | inl seen ↦ rw seen h
        | inr unseen ↦ rw unseen (ground (arith, h))
      ]

  -- The key of a route that is added is seen.
  add_route-some-Seen :
      (r : StructuralRoute Carrier) (found : Found Carrier)
      → r.structural_cycle_key ≡ key
      → Seen (add_route address_debug f (some r) found)
  unfolding add_route
  add_route-some-Seen r found q =
      elim (Bool-cases (contains r.structural_cycle_key found.seen_keys)) [
        | inl seen ↦ rw seen (rw (sym q) seen)
        | inr unseen ↦ rw unseen (ground (arith, string_eq.beq_iff r.structural_cycle_key key))
      ]

  module _ (start : ℕ) (indexed : IsIndexed s.graph) where
    dfs-Seen :
        (n token : ℕ) (path : List ℕ)
        → Keeps address_debug f s Seen (dfs address_debug f s start n token path)
    dfs-Seen n token path =
        dfs-Keeps address_debug f s Seen start indexed n token path (λ rest c short long found h.
          add_route-Seen (route_at address_debug f s (path ++ rest)) found h)

    visit_edge-Seen :
        (n i : ℕ) (path : List ℕ)
        → Keeps address_debug f s Seen
            (visit_edge address_debug f s start (dfs address_debug f s start n) i path)
    visit_edge-Seen n i path =
        visit_edge-Keeps address_debug f s Seen start (dfs address_debug f s start n) i path
          (λ edge e new_edge back long found h.
            add_route-Seen (route_at address_debug f s (path ++ i ∷ [])) found h)
          (λ edge e new_edge away. dfs-Seen n edge.token_out (path ++ i ∷ []))

    module _ (n : ℕ) (path : List ℕ) where
      visit_edges-Seen :
          (indices : List ℕ)
          → Keeps address_debug f s Seen
              (visit_edges address_debug f s start (dfs address_debug f s start n) indices path)
      unfolding visit_edges
      visit_edges-Seen [] found h = h
      visit_edges-Seen (j ∷ indices) found h =
          visit_edges-Seen indices _ (visit_edge-Seen n j path found h)

      -- A loop over edges that visits one after which the key is seen.
      visit_edges-visits :
          (i : ℕ) (indices : List ℕ)
          → ((found : Found Carrier)
              → Seen
                  (visit_edge address_debug f s start (dfs address_debug f s start n) i path found))
          → Memᴰ i indices
          → (found : Found Carrier)
          → Seen (
              visit_edges address_debug f s start
                (dfs address_debug f s start n)
                indices
                path
                found)
      unfolding visit_edges
      visit_edges-visits i [] there m found = absurd (Memᴰ.not-nil m)
      visit_edges-visits i (j ∷ indices) there m found = elim (Memᴰ.cases_cons m) [
        | inl here ↦ visit_edges-Seen indices _ (
            subst
              (λ k.
                Seen
                  (visit_edge address_debug f s start (dfs address_debug f s start n) k path found))
              here (there found))
        | inr later ↦ visit_edges-visits i indices there later _
      ]

    -- The edge that closes the path adds its route.
    closing_edge :
        (deeper : ℕ → List ℕ → Found Carrier → Found Carrier)
        → (i : ℕ) (path : List ℕ) (edge : ExecutablePriceEdge) (route : StructuralRoute Carrier)
        → get_elem? s.graph.edges i ≡ some edge
        → contains i path ≡ false
        → edge.token_out ≡ start
        → s.min_hops ≤ length (path ++ i ∷ [])
        → route_at address_debug f s (path ++ i ∷ []) ≡ some route
        → route.structural_cycle_key ≡ key
        → (found : Found Carrier) → Seen (visit_edge address_debug f s start deeper i path found)
    unfolding visit_edge follow_edge
    closing_edge deeper i path edge route e new_edge back long built q found =
        rw
          (
            new_edge,
            e,
            (==_iff edge.token_out start).1 back,
            le→leb s.min_hops (length (path ++ i ∷ [])) long,
            built,
          )
          (add_route-some-Seen route found q)

    -- Another edge leads on.
    leading_edge :
        (deeper : ℕ → List ℕ → Found Carrier → Found Carrier)
        → (i : ℕ) (path : List ℕ) (edge : ExecutablePriceEdge)
        → get_elem? s.graph.edges i ≡ some edge
        → contains i path ≡ false
        → edge.token_out ≢ start
        → (found : Found Carrier) → Seen (deeper edge.token_out (path ++ i ∷ []) found)
        → Seen (visit_edge address_debug f s start deeper i path found)
    unfolding visit_edge follow_edge
    leading_edge deeper i path edge e new_edge away found h =
        let differs : (edge.token_out == start) ≡ false = ground arith in
        rw (new_edge, e, differs) h

    dfs-reaches :
        (n token : ℕ) (path rest : List ℕ) (route : StructuralRoute Carrier)
        → Closes s.graph.edges start token path rest
        → length rest ≤ n
        → s.min_hops ≤ length (path ++ rest)
        → route_at address_debug f s (path ++ rest) ≡ some route
        → route.structural_cycle_key ≡ key
        → (found : Found Carrier) → Seen (dfs address_debug f s start n token path found)
    unfolding dfs
    dfs-reaches zero token path [] route c short long built q found = absurd c
    dfs-reaches zero token path (i ∷ rest) route c short long built q found = absurd (omega arith)
    dfs-reaches (suc n) token path [] route c short long built q found = absurd c
    dfs-reaches (suc n) token path (i ∷ []) route (edge, e, leaves, new_edge, back) short long built
          q found =
        visit_edges-visits n path i (edges_from s.graph token)
          (closing_edge (dfs address_debug f s start n) i path edge route e new_edge back long built
            q)
          (indexed.covers token i (edge, e, leaves)) found
    dfs-reaches (suc n) token path (i ∷ j ∷ rest) route (edge, e, leaves, new_edge, away, c) short
          long built q found =
        let longer = append_assoc path (i ∷ []) (j ∷ rest) in
        visit_edges-visits n path i (edges_from s.graph token)
          (λ found'.
            leading_edge (dfs address_debug f s start n) i path edge e new_edge away found' (
              dfs-reaches n edge.token_out (path ++ i ∷ []) (j ∷ rest) route c (omega arith)
                (subst (λ p. s.min_hops ≤ length p) (sym longer) long)
                (subst (λ p. route_at address_debug f s p ≡ some route) (sym longer) built) q
                found'))
          (indexed.covers token i (edge, e, leaves)) found

  search_all-reaches :
      (indexed : IsIndexed s.graph) (max_hops start : ℕ) (start_tokens path : List ℕ)
      (route : StructuralRoute Carrier)
      → Memᴰ start start_tokens
      → IsCycle s.graph.edges start s.min_hops max_hops path
      → route_at address_debug f s path ≡ some route
      → route.structural_cycle_key ≡ key
      → (found : Found Carrier) → Seen (search_all address_debug f s max_hops start_tokens found)
  unfolding search_all
  search_all-reaches indexed max_hops start [] path route m c built q found =
      absurd (Memᴰ.not-nil m)
  search_all-reaches indexed max_hops start (t ∷ start_tokens) path route m c built q found =
      elim (Memᴰ.cases_cons m) [
        | inl here ↦
            search_all-Keeps address_debug f s Seen indexed max_hops start_tokens
              (λ u mu rest cu short long found' h.
                add_route-Seen (route_at address_debug f s rest) found' h)
              _
              (subst (λ u. Seen (dfs address_debug f s u max_hops u [] found)) here
                (dfs-reaches start indexed max_hops start [] path route c.closes c.at_most
                  c.at_least built q found))
        | inr later ↦
            search_all-reaches indexed max_hops start start_tokens path route later c built q _
      ]

module _ (address_debug : ℕ → String) (f : F64Rates) where
  open f use {Carrier}

  -- The search is complete: for each cycle from a start token, in a number of hops from `min_hops`
  -- to `max_hops`, that a route can be built of, it returns a route with the key of that route.
  pub find_structural_cycles_complete :
      (edges : List ExecutablePriceEdge) (start_tokens : List ℕ)
      → (min_hops max_hops route_input : ℕ) (profile : String)
      → (start : ℕ) (path : List ℕ) (route : StructuralRoute Carrier) → Memᴰ start start_tokens
      → IsCycle edges start min_hops max_hops path
      → build_route address_debug f (edges_at edges path) profile route_input ≡ some route
      → contains route.structural_cycle_key (
          keys address_debug f (
            find_structural_cycles address_debug f
              (push_all new edges)
              start_tokens
              min_hops
              max_hops
              route_input
              profile))
        ≡ true
  unfolding find_structural_cycles route_at
  find_structural_cycles_complete edges start_tokens min_hops max_hops route_input profile start
        path route m c built =
      let s : SearchInput = record {
        graph = push_all new edges;
        min_hops = min_hops;
        route_input = route_input;
        profile = profile;
      } in
      let indexed = push_all-IsIndexed edges in
      let same = sym (push_all-edges edges) in
      let once = search_all-KeysOnce address_debug f s indexed max_hops start_tokens in
      once.1 route.structural_cycle_key
      ∙ search_all-reaches address_debug f s route.structural_cycle_key indexed max_hops start
          start_tokens path route m (subst (λ E. IsCycle E start min_hops max_hops path) same c)
          (subst
            (λ E. build_route address_debug f (edges_at E path) profile route_input ≡ some route)
            same built)
          refl (record { out = []; seen_keys = [] })
