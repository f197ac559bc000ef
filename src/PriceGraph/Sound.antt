-- ===== src/PriceGraph/Sound.antt =====
-- Every route that the search of src/core/executable_price_graph.rs returns is of a cycle.
use Prim.Native.String.{String}
use mathlib.Core.List.{Memᴰ}
use mathlib.Core.List.{map-append}
use dex_arbitrage.Prelude.{
  ℕ, ◌≡◌, refl, ap, subst, ◌∙◌, inl, inr, Option, none, some, List, [], ◌∷◌, ◌++◌, contains, All,
  All-append, Distinct, Distinct-concat, contains-concat_comm, map, ◌||◌, nat_eq, string_eq,
  Bool-cases,
}
use dex_arbitrage.Float.{F64Rates}
use dex_arbitrage.PriceEdge.{ExecutablePriceEdge}
use dex_arbitrage.RouteArtifact.{StructuralRoute}
use dex_arbitrage.PriceGraph.{
  new, SearchInput, Found, add_route, route_at, search_all, find_structural_cycles, edges_at,
}
use dex_arbitrage.PriceGraph.Index.{IsIndexed, push_all, push_all-IsIndexed, push_all-edges}
use dex_arbitrage.PriceGraph.Cycle.{IsCycle}
use dex_arbitrage.PriceGraph.Route.{build_route}
use dex_arbitrage.PriceGraph.Rule.{search_all-Keeps}

module _ (address_debug : ℕ → String) (f : F64Rates) where
  open f use {Carrier}

  abbrev pub keys : List (StructuralRoute Carrier) → List String
  keys routes = map StructuralRoute.structural_cycle_key routes

  -- The route is built of a path with the property.
  abbrev pub RouteOf : SearchInput → (List ℕ → Type 0) → StructuralRoute Carrier → Type 0
  RouteOf s P route = (path : List ℕ) × P path × (route_at address_debug f s path ≡ some route)

  add_route-All :
      (Q : StructuralRoute Carrier → Type 0) (route : Option (StructuralRoute Carrier))
      (found : Found Carrier)
      → ((r : StructuralRoute Carrier) → route ≡ some r → Q r)
      → All Q found.out
      → All Q (add_route address_debug f route found).out
  unfolding add_route
  add_route-All Q none found q h = h
  add_route-All Q (some r) found q h =
      elim (Bool-cases (contains r.structural_cycle_key found.seen_keys)) [
        | inl seen ↦ rw seen h
        | inr unseen ↦ rw unseen (All-append Q found.out (r ∷ []) h (q r refl, tt))
      ]

  -- The keys seen are those of the routes found, each once.
  abbrev pub KeysOnce : Found Carrier → Type 0
  KeysOnce found =
      Distinct (keys found.out)
      × ((k : String) → contains k (keys found.out) ≡ contains k found.seen_keys)

  add_route-KeysOnce :
      (route : Option (StructuralRoute Carrier)) (found : Found Carrier)
      → KeysOnce found
      → KeysOnce (add_route address_debug f route found)
  unfolding add_route
  add_route-KeysOnce none found h = h
  add_route-KeysOnce (some r) found (once, same) =
      elim (Bool-cases (contains r.structural_cycle_key found.seen_keys)) [
        | inl seen ↦ rw seen (once, same)
        | inr unseen ↦
            rw (unseen, map-append StructuralRoute.structural_cycle_key found.out (r ∷ []))
              (
                Distinct-concat r.structural_cycle_key (keys found.out) once
                    (same r.structural_cycle_key ∙ unseen),
                λ k.
                    contains-concat_comm k r.structural_cycle_key (keys found.out)
                    ∙ ap (λ b. string_eq.beq r.structural_cycle_key k || b) (same k),
              )
      ]

  pub search_all-KeysOnce :
      (s : SearchInput)
      → IsIndexed s.graph
      → (max_hops : ℕ) (start_tokens : List ℕ)
      → KeysOnce
          (search_all address_debug f s max_hops start_tokens (record { out = []; seen_keys = [] }))
  search_all-KeysOnce s indexed max_hops start_tokens =
      search_all-Keeps address_debug f s KeysOnce indexed max_hops start_tokens
        (λ start m rest c short long found h.
          add_route-KeysOnce (route_at address_debug f s ([] ++ rest)) found h)
        (record { out = []; seen_keys = [] }) (tt, λ k. refl)

  -- The path is a cycle from one of the start tokens.
  abbrev pub CycleFrom :
      List ExecutablePriceEdge → List ℕ → (min_hops max_hops : ℕ) → List ℕ → Type 0
  CycleFrom edges start_tokens min_hops max_hops path =
      (start : ℕ) × Memᴰ start start_tokens × IsCycle edges start min_hops max_hops path

  search_all-All :
      (s : SearchInput)
      → IsIndexed s.graph
      → (max_hops : ℕ) (start_tokens : List ℕ)
      → All
          (RouteOf s (CycleFrom s.graph.edges start_tokens s.min_hops max_hops))
          (search_all address_debug f s max_hops start_tokens
            (record { out = []; seen_keys = [] })).out
  search_all-All s indexed max_hops start_tokens =
      search_all-Keeps address_debug f s (λ found. All Q found.out) indexed max_hops start_tokens
        (λ start m rest c short long found h.
          add_route-All Q (route_at address_debug f s rest) found
            (λ r e. (rest, (start, m, record { closes = c; at_least = long; at_most = short }), e))
            h)
        (record { out = []; seen_keys = [] }) tt
    where
      Q : StructuralRoute Carrier → Type 0
      Q = RouteOf s (CycleFrom s.graph.edges start_tokens s.min_hops max_hops)

  -- Each route that the search returns is built of a cycle: of distinct edges that follow on one
  -- another from one of the start tokens back to it, not through it, in a number of hops from
  -- `min_hops` to `max_hops`. No two routes have the same key.
  pub find_structural_cycles_sound :
      (edges : List ExecutablePriceEdge) (start_tokens : List ℕ)
      → (min_hops max_hops route_input : ℕ) (profile : String)
      → (let routes =
            find_structural_cycles address_debug f
              (push_all new edges)
              start_tokens
              min_hops
              max_hops
              route_input
              profile in
          All
            (λ route.
              (path : List ℕ) × CycleFrom edges start_tokens min_hops max_hops path
              × (build_route address_debug f (edges_at edges path) profile route_input
                  ≡ some route))
            routes
          × Distinct (keys routes))
  unfolding find_structural_cycles route_at
  find_structural_cycles_sound edges start_tokens min_hops max_hops route_input profile =
      let s : SearchInput = record {
        graph = push_all new edges;
        min_hops = min_hops;
        route_input = route_input;
        profile = profile;
      } in
      let indexed = push_all-IsIndexed edges in
      let once = search_all-KeysOnce s indexed max_hops start_tokens in
      (
        subst
            (λ E.
              All
                (λ route.
                  (path : List ℕ) × CycleFrom E start_tokens min_hops max_hops path
                  × (build_route address_debug f (edges_at E path) profile route_input
                      ≡ some route))
                (search_all address_debug f s max_hops start_tokens
                  (record { out = []; seen_keys = [] })).out)
            (push_all-edges edges) (search_all-All s indexed max_hops start_tokens),
        once.0,
      )
