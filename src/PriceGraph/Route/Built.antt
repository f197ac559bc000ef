-- ===== src/PriceGraph/Route/Built.antt =====
-- What a route of `build_route` (src/core/executable_price_graph.rs) is built of.
use Prim.Native.String.{String}
use dex_arbitrage.Prelude.{
  ℕ, ◌+◌, ◌≡◌, ◌≢◌, ap, ◌∙◌, some, Bool, true, false, not, ◌&&◌, ◌||◌, if_some, unless_some,
  match_some, ◌==◌, List, [], ◌∷◌, map, any, length, arith,
}
use dex_arbitrage.Float.{F64Rates}
use dex_arbitrage.PriceEdge.{ExecutablePriceEdge}
use dex_arbitrage.RouteArtifact.{StructuralRouteLeg, StructuralRoute, Linked}
use dex_arbitrage.PriceGraph.Route.{
  BuiltLeg, leg_of, legs_from, multiply_rates, finish_route, route_of_edges, is_closed_sequence,
  mixed_anchor, fresh_quote_ids, continuous, ends_at, verify_leg_parity, build_route,
}

-- The typed leg of each edge, numbered.
unfoldable pub typed_from : ℕ → List ExecutablePriceEdge → List StructuralRouteLeg
typed_from i [] = []
typed_from i (edge ∷ edges) =
    record {
      leg_index = i;
      venue = edge.venue;
      token_in = edge.token_in;
      token_out = edge.token_out;
      pool = edge.pool;
      router = edge.router;
      spender = edge.spender;
      fee = edge.fee;
    }
    ∷ typed_from (i + 1) edges

pub typed_from-Linked :
    (i : ℕ) (edges : List ExecutablePriceEdge)
    → continuous edges ≡ true
    → Linked (typed_from i edges)
unfolding continuous typed_from
typed_from-Linked i [] h = tt
typed_from-Linked i (a ∷ []) h = tt
typed_from-Linked i (a ∷ b ∷ edges) h =
    (ground arith, typed_from-Linked (i + 1) (b ∷ edges) (ground arith))

-- A reading of what two equal results hold.
pub read {ℓ κ} : {A : Type ℓ} {B : Type κ} (g : A → B) {x y : A} → some x ≡ some y → g y ≡ g x
read g e = cc

module _ (address_debug : ℕ → String) where
  legs_from-typed :
      (i : ℕ) (edges : List ExecutablePriceEdge) {built : List BuiltLeg}
      → legs_from address_debug i edges ≡ some built
      → map BuiltLeg.typed built ≡ typed_from i edges
  unfolding legs_from leg_of typed_from
  legs_from-typed i [] {built} q = let same : built ≡ [] = cc in ap (map BuiltLeg.typed) same
  legs_from-typed i (edge ∷ edges) {built} q =
      let (sym_in, has_in, q1) = match_some edge.token_in_symbol _ q in
      let (sym_out, has_out, q2) = match_some edge.token_out_symbol _ q1 in
      let (legs, later, q3) = match_some (legs_from address_debug (i + 1) edges) _ q2 in
      let same : built ≡ leg_of address_debug i edge sym_in sym_out ∷ legs = cc in
      ap (map BuiltLeg.typed) same
      ∙ ap (λ rest. (leg_of address_debug i edge sym_in sym_out).typed ∷ rest)
          (legs_from-typed (i + 1) edges later)

  module _ (f : F64Rates) where
    open f use {Carrier}

    finish_route-ok :
        (first : ExecutablePriceEdge) (edges : List ExecutablePriceEdge) (profile : String)
        (route_input : ℕ) (built : List BuiltLeg) (score : Carrier)
        {route : StructuralRoute Carrier}
        → finish_route address_debug f first edges profile route_input built score ≡ some route
        → (route.route_input ≡ route_input)
          × (route.hop_count ≡ length edges)
          × (route.anchor_block ≡ first.anchor_block)
          × (route.anchor_block_hash ≡ first.anchor_block_hash)
          × (route.executable_legs ≡ some (map BuiltLeg.typed built))
          × (verify_leg_parity address_debug route ≡ true)
    unfolding finish_route
    finish_route-ok first edges profile route_input built score {route} q =
        let (parity, same) = if_some _ _ q in
        (
          read StructuralRoute.route_input same,
          read StructuralRoute.hop_count same,
          read StructuralRoute.anchor_block same,
          read StructuralRoute.anchor_block_hash same,
          read StructuralRoute.executable_legs same,
          read (verify_leg_parity address_debug) same ∙ parity,
        )

    -- A route is built only of edges of one anchor with different quotes that follow on one
    -- another and end where they began, and for a positive input. It has one typed leg for each
    -- edge with the edge's data, and legs of text that agree with them.
    pub build_route_ok :
        (first : ExecutablePriceEdge) (rest : List ExecutablePriceEdge) (profile : String)
        (route_input : ℕ) {route : StructuralRoute Carrier}
        → build_route address_debug f (first ∷ rest) profile route_input ≡ some route
        → (any (mixed_anchor first) rest ≡ false)
          × (fresh_quote_ids [] (first ∷ rest) ≡ true)
          × (continuous (first ∷ rest) ≡ true)
          × (ends_at first.token_in (first ∷ rest) ≡ true)
          × (route_input ≢ 0)
          × (route.route_input ≡ route_input)
          × (route.hop_count ≡ length (first ∷ rest))
          × (route.anchor_block ≡ first.anchor_block)
          × (route.anchor_block_hash ≡ first.anchor_block_hash)
          × (route.executable_legs ≡ some (typed_from 0 (first ∷ rest)))
          × (verify_leg_parity address_debug route ≡ true)
    unfolding build_route is_closed_sequence route_of_edges finish_route
    build_route_ok first rest profile route_input {route} q =
        let edges = first ∷ rest in
        let (closed, q1) = if_some (is_closed_sequence address_debug f first rest) _ q in
        let (built, legs, q2) = match_some (legs_from address_debug 0 edges) _ q1 in
        let (input, q3) = unless_some (route_input == 0) _ q2 in
        let (score, rates, q4) = match_some (multiply_rates address_debug f f.one edges) _ q3 in
        let (fine, q5) =
          unless_some (not (f.is_finite score) || not (f.is_positive score))
            (finish_route address_debug f first edges profile route_input built score) q4 in
        let (input_kept, hops, block, hash, typed_legs, parity) =
          finish_route-ok first edges profile route_input built score q5 in
        let typed = legs_from-typed 0 edges legs in
        let (anchors, quotes, links, end) =
          four_tests (any (mixed_anchor first) rest) (fresh_quote_ids [] edges) (continuous edges)
            (ends_at first.token_in edges) closed in
        (
          anchors,
          quotes,
          links,
          end,
          ground arith,
          input_kept,
          hops,
          block,
          hash,
          typed_legs ∙ ap some typed,
          parity,
        )
      where
        four_tests :
            (a b c d : Bool)
            → (not a && (b && (c && d))) ≡ true
            → (a ≡ false) × (b ≡ true) × (c ≡ true) × (d ≡ true)
        four_tests a b c d h = ground arith
