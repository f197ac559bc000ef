-- ===== src/PriceGraph/Rule.antt =====
-- What the search of src/core/executable_price_graph.rs keeps: a property of the routes found that
-- adding the route of each cycle keeps.
use Prim.Native.String.{String}
use mathlib.Core.List.{Memᴰ}
use mathlib.Core.List.{append_assoc}
use dex_arbitrage.Prelude.{
  ℕ, zero, suc, ◌≤◌, ◌≡◌, ◌≢◌, refl, sym, subst, inl, inr, some, false, List, [], ◌∷◌, ◌++◌, ◌==◌,
  leb, length, get_elem?, contains, All, nat_eq, string_eq, arith, Bool-cases, Option-cases,
}
use dex_arbitrage.Float.{F64Rates}
use dex_arbitrage.PriceEdge.{ExecutablePriceEdge}
use dex_arbitrage.PriceGraph.{
  edges_from, SearchInput, Found, add_route, route_at, follow_edge, visit_edge, visit_edges, dfs,
  search_all,
}
use dex_arbitrage.PriceGraph.Index.{IsIndexed, Leaves}
use dex_arbitrage.PriceGraph.Cycle.{Closes}

edge-Leaves :
    (edges : List ExecutablePriceEdge) (token i : ℕ) (edge : ExecutablePriceEdge)
    → Leaves edges token i
    → get_elem? edges i ≡ some edge
    → edge.token_in ≡ token
edge-Leaves edges token i edge (x, e, q) found = cc

module _ (address_debug : ℕ → String) (f : F64Rates) (s : SearchInput) where
  open f use {Carrier}

  module _ (I : Found Carrier → Type 0) where
    -- A call keeps the property.
    abbrev pub Keeps : (Found Carrier → Found Carrier) → Type 0
    Keeps call = (found : Found Carrier) → I found → I (call found)

    -- Adding the route of a path keeps it.
    abbrev pub Adds : List ℕ → Type 0
    Adds path = Keeps (add_route address_debug f (route_at address_debug f s path))

    -- So it is for every way in which `n` more hops may close the path.
    abbrev pub Extends : (start token n : ℕ) → List ℕ → Type 0
    Extends start token n path =
        (rest : List ℕ)
        → Closes s.graph.edges start token path rest
        → length rest ≤ n
        → s.min_hops ≤ length (path ++ rest)
        → Adds (path ++ rest)

    module _ (start : ℕ) where
      module _ (deeper : ℕ → List ℕ → Found Carrier → Found Carrier) where
        -- An edge that is followed closes the path or leads on.
        follow_edge-Keeps :
            (edge : ExecutablePriceEdge) (path : List ℕ)
            → (edge.token_out ≡ start → s.min_hops ≤ length path → Adds path)
            → (edge.token_out ≢ start → Keeps (deeper edge.token_out path))
            → Keeps (follow_edge address_debug f s start deeper edge path)
        unfolding follow_edge
        follow_edge-Keeps edge path close onward found h =
            elim (Bool-cases (edge.token_out == start)) [
              | inl back ↦ elim (Bool-cases (leb s.min_hops (length path))) [
                | inl long ↦ rw (back, long) (close (ground arith) (ground arith) found h)
                | inr short ↦ rw (back, short) h
              ]
              | inr away ↦ rw away (onward (ground arith) found h)
            ]

        pub visit_edge-Keeps :
            (i : ℕ) (path : List ℕ)
            → ((edge : ExecutablePriceEdge)
                → get_elem? s.graph.edges i ≡ some edge
                → contains i path ≡ false
                → edge.token_out ≡ start
                → s.min_hops ≤ length (path ++ i ∷ [])
                → Adds (path ++ i ∷ []))
            → ((edge : ExecutablePriceEdge)
                → get_elem? s.graph.edges i ≡ some edge
                → contains i path ≡ false
                → edge.token_out ≢ start
                → Keeps (deeper edge.token_out (path ++ i ∷ [])))
            → Keeps (visit_edge address_debug f s start deeper i path)
        unfolding visit_edge
        visit_edge-Keeps i path close onward found h = elim (Bool-cases (contains i path)) [
          | inl on_path ↦ rw on_path h
          | inr new_edge ↦ elim (Option-cases (get_elem? s.graph.edges i)) [
            | inl n ↦ rw (new_edge, n) h
            | inr (edge, e) ↦
                rw (new_edge, e)
                  (follow_edge-Keeps edge (path ++ i ∷ []) (close edge e new_edge)
                    (onward edge e new_edge) found h)
          ]
        ]

        visit_edges-Keeps :
            (token : ℕ) (indices path : List ℕ)
            → ((i : ℕ)
                → Leaves s.graph.edges token i
                → Keeps (visit_edge address_debug f s start deeper i path))
            → All (Leaves s.graph.edges token) indices
            → Keeps (visit_edges address_debug f s start deeper indices path)
        unfolding visit_edges
        visit_edges-Keeps token [] path step l found h = h
        visit_edges-Keeps token (i ∷ indices) path step l found h =
            visit_edges-Keeps token indices path step l.1 _ (step i l.0 found h)

      -- One more edge on the path leaves one hop less.
      Extends-step :
          (n i : ℕ) (path : List ℕ) (edge : ExecutablePriceEdge)
          → get_elem? s.graph.edges i ≡ some edge
          → contains i path ≡ false
          → edge.token_out ≢ start
          → Extends start edge.token_in (suc n) path
          → Extends start edge.token_out n (path ++ i ∷ [])
      Extends-step n i path edge e new_edge away x [] c short long = absurd c
      Extends-step n i path edge e new_edge away x (j ∷ rest) c short long =
          subst Adds (sym (append_assoc path (i ∷ []) (j ∷ rest))) (
            x (i ∷ j ∷ rest) (edge, e, refl, new_edge, away, c) (omega arith)
              (subst (λ p. s.min_hops ≤ length p) (append_assoc path (i ∷ []) (j ∷ rest)) long))

      -- A visit of an edge that leaves the token, where one hop less keeps the property.
      visit_leaving-Keeps :
          (n token : ℕ) (path : List ℕ)
          → ((next : ℕ) (longer : List ℕ)
              → Extends start next n longer
              → Keeps (dfs address_debug f s start n next longer))
          → Extends start token (suc n) path
          → (i : ℕ) → Leaves s.graph.edges token i
          → Keeps (visit_edge address_debug f s start (dfs address_debug f s start n) i path)
      visit_leaving-Keeps n token path ih x i l =
          visit_edge-Keeps (dfs address_debug f s start n) i path
            (λ edge e new_edge back long.
              x (i ∷ []) (edge, e, edge-Leaves s.graph.edges token i edge l e, new_edge, back)
                (omega arith) long)
            (λ edge e new_edge away. ih edge.token_out (path ++ i ∷ []) (
              Extends-step n i path edge e new_edge away (
                subst (λ t. Extends start t (suc n) path)
                  (sym (edge-Leaves s.graph.edges token i edge l e)) x)))

      pub dfs-Keeps :
          IsIndexed s.graph
          → (n token : ℕ) (path : List ℕ) → Extends start token n path
          → Keeps (dfs address_debug f s start n token path)
      unfolding dfs
      dfs-Keeps indexed zero token path x = λ found h. h
      dfs-Keeps indexed (suc n) token path x =
          visit_edges-Keeps (dfs address_debug f s start n) token (edges_from s.graph token) path
            (visit_leaving-Keeps n token path (dfs-Keeps indexed n) x) (indexed.listed token)

    -- The search keeps it from every start token.
    pub search_all-Keeps :
        IsIndexed s.graph
        → (max_hops : ℕ) (start_tokens : List ℕ)
        → ((start : ℕ) → Memᴰ start start_tokens → Extends start start max_hops [])
        → Keeps (search_all address_debug f s max_hops start_tokens)
    unfolding search_all
    search_all-Keeps indexed max_hops [] x found h = h
    search_all-Keeps indexed max_hops (start ∷ start_tokens) x found h =
        search_all-Keeps indexed max_hops start_tokens (λ t m. x t (Memᴰ.tail m)) _
          (dfs-Keeps start indexed max_hops start [] (x start (Memᴰ.head refl)) found h)
