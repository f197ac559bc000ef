-- ===== src/PriceGraph/Route.antt =====
-- `build_route` and `verify_leg_parity` of src/core/executable_price_graph.rs: a route from a
-- closed sequence of edges, or none.
pub mod Built
pub mod Digits
pub mod Parsed
use Prim.Native.String.{String, ◌++◌ as ◌&◌}
use dex_arbitrage.Prelude.{
  ℕ, zero, suc, ◌+◌, ◌/◌, ◌%◌, Option, none, some, Bool, true, false, not, ◌&&◌, ◌||◌,
  if◌then◌else◌, ltb, ◌==◌, List, [], ◌∷◌, length, any, map, contains, nat_eq, string_eq,
}
use dex_arbitrage.Float.{F64Rates}
use dex_arbitrage.PriceEdge.{Venue, uniswap_v3, quick_swap, sushi_swap, curve, ExecutablePriceEdge}
use dex_arbitrage.RouteArtifact.{
  RouteLeg, StructuralRouteLeg, return_insufficient_observations, StructuralRoute,
}

venue_name : Venue → String
venue_name uniswap_v3 = "UniswapV3"
venue_name quick_swap = "QuickSwap"
venue_name sushi_swap = "SushiSwap"
venue_name curve = "Curve"

protocol_version : Venue → String
protocol_version uniswap_v3 = "V3"
protocol_version quick_swap = "V2"
protocol_version sushi_swap = "V2"
protocol_version curve = "V2"

-- `to_string` of a u32, which has at most ten digits.
pub digit : ℕ → String
digit n =
    if n == 0
    then "0"
    else if n == 1
    then "1"
    else if n == 2
    then "2"
    else if n == 3
    then "3"
    else if n == 4
    then "4"
    else if n == 5
    then "5"
    else if n == 6
    then "6"
    else if n == 7
    then "7"
    else if n == 8
    then "8"
    else "9"

pub digits : ℕ → ℕ → String
digits zero n = ""
digits (suc places) n =
    let leading = digits places (n / 10) in if ltb n 10 then digit n else leading & digit (n % 10)

pub u32_to_string : ℕ → String
u32_to_string n = digits 10 n

pub fee_string : Option ℕ → String
unfolding u32_to_string digits digit
fee_string none = ""
fee_string (some fee) = u32_to_string fee

-- `rest.iter().any(..)` of the test for mixed anchors
unfoldable pub mixed_anchor : ExecutablePriceEdge → ExecutablePriceEdge → Bool
mixed_anchor first e =
    not (e.anchor_block == first.anchor_block)
    || not (e.anchor_block_hash == first.anchor_block_hash)

-- `iter().all(|e| quote_ids.insert(e.quote_id))`
unfoldable pub fresh_quote_ids : List ℕ → List ExecutablePriceEdge → Bool
fresh_quote_ids quote_ids [] = true
fresh_quote_ids quote_ids (e ∷ edges) =
    not (contains e.quote_id quote_ids) && fresh_quote_ids (e.quote_id ∷ quote_ids) edges

-- `windows(2)`
pub continuous : List ExecutablePriceEdge → Bool
continuous [] = true
continuous (a ∷ []) = true
continuous (a ∷ b ∷ edges) = a.token_out == b.token_in && continuous (b ∷ edges)

-- `edges.last()?.token_out == token`
pub ends_at : ℕ → List ExecutablePriceEdge → Bool
ends_at token [] = false
ends_at token (a ∷ []) = a.token_out == token
ends_at token (a ∷ b ∷ edges) = ends_at token (b ∷ edges)

-- What one round of the loop over the edges pushes.
pub record BuiltLeg : Type 0 where
  pub typed : StructuralRouteLeg
  pub key_part : String
  pub leg : RouteLeg
  pub pool : String
  pub venue : String

-- `key_parts.join("||")`
pub join_parts : List String → String
join_parts [] = ""
join_parts (part ∷ []) = part
join_parts (part ∷ next ∷ parts) = part & ("||" & join_parts (next ∷ parts))

-- Comparison of optional values.
same_text : Option String → Option String → Bool
same_text none none = true
same_text (some a) (some b) = string_eq.beq a b
same_text _ _ = false

same_fee : Option ℕ → Option ℕ → Bool
same_fee none none = true
same_fee (some a) (some b) = a == b
same_fee _ _ = false

module _ (address_debug : ℕ → String) where
  pub leg_of : ℕ → ExecutablePriceEdge → (sym_in sym_out : String) → BuiltLeg
  unfolding venue_name protocol_version fee_string
  leg_of i edge sym_in sym_out =
      let pool_str = address_debug edge.pool in
      let name = venue_name edge.venue in
      let version = protocol_version edge.venue in
      record {
        typed = record {
          leg_index = i;
          venue = edge.venue;
          token_in = edge.token_in;
          token_out = edge.token_out;
          pool = edge.pool;
          router = edge.router;
          spender = edge.spender;
          fee = edge.fee;
        };
        key_part =
            sym_in
            & (">"
                & (sym_out
                    & ("|"
                        & (name
                            & ("|"
                                & (version & ("|" & (pool_str & ("|" & fee_string edge.fee)))))))));
        leg = record {
          token_in = sym_in;
          token_out = sym_out;
          venue = name;
          protocol_version = version;
          pool_address = some pool_str;
          fee_tier = edge.fee;
        };
        pool = pool_str;
        venue = name;
      }

  pub legs_from : ℕ → List ExecutablePriceEdge → Option (List BuiltLeg)
  unfolding leg_of
  legs_from i [] = some []
  legs_from i (edge ∷ edges) = elim edge.token_in_symbol [
    | none ↦ none
    | some sym_in ↦ elim edge.token_out_symbol [
      | none ↦ none
      | some sym_out ↦ elim (legs_from (i + 1) edges) [
        | none ↦ none
        | some legs ↦ some (leg_of i edge sym_in sym_out ∷ legs)
      ]
    ]
  ]

  -- One round of `verify_leg_parity`.
  leg_parity : StructuralRouteLeg → RouteLeg → Bool
  unfolding same_text same_fee venue_name protocol_version
  leg_parity t s =
      same_text s.pool_address (some (address_debug t.pool))
      && (string_eq.beq s.venue (venue_name t.venue)
          && (string_eq.beq s.protocol_version (protocol_version t.venue)
              && same_fee s.fee_tier t.fee))

  legs_parity : List StructuralRouteLeg → List RouteLeg → Bool
  unfolding leg_parity
  legs_parity [] legs = true
  legs_parity (t ∷ typed) [] = true
  legs_parity (t ∷ typed) (s ∷ legs) = leg_parity t s && legs_parity typed legs

  unfoldable pub verify_leg_parity : {Score : Type 0} → StructuralRoute Score → Bool
  unfolding legs_parity
  verify_leg_parity route = elim route.executable_legs [
    | none ↦ false
    | some typed ↦
        if not (length typed == length route.legs) then false else legs_parity typed route.legs
  ]

  module _ (f : F64Rates) where
    open f use {Carrier, one, mul, div, is_positive, is_finite, parse}

    -- The `try_fold` over the rates.
    pub multiply_rates : Carrier → List ExecutablePriceEdge → Option Carrier
    multiply_rates acc [] = some acc
    multiply_rates acc (edge ∷ edges) = elim (parse edge.amount_in) [
      | none ↦ none
      | some amount_in ↦ elim (parse edge.amount_out) [
        | none ↦ none
        | some amount_out ↦
            let rate = div amount_out amount_in in
            let product = multiply_rates (mul acc rate) edges in
            if is_finite rate && is_positive rate then product else none
      ]
    ]

    -- The route of the legs and the score, if its two leg lists agree.
    pub finish_route :
        ExecutablePriceEdge
        → List ExecutablePriceEdge
        → String
        → ℕ
        → List BuiltLeg
        → Carrier
        → Option (StructuralRoute Carrier)
    unfolding verify_leg_parity join_parts
    finish_route first edges profile route_input built score =
        let structural_cycle_key = join_parts (map BuiltLeg.key_part built) in
        let route : StructuralRoute Carrier = record {
          route_id = profile & (":" & structural_cycle_key);
          structural_cycle_key = structural_cycle_key;
          legs = map BuiltLeg.leg built;
          hop_count = length edges;
          profile = profile;
          scans_observed = 1;
          return_class = return_insufficient_observations;
          pools = map BuiltLeg.pool built;
          venues = map BuiltLeg.venue built;
          gross_multiplier_avg = score;
          anchor_block = first.anchor_block;
          anchor_block_hash = first.anchor_block_hash;
          route_input = route_input;
          executable_legs = some (map BuiltLeg.typed built);
        } in
        if verify_leg_parity route then some route else none

    -- The statements from the loop over the edges on.
    pub route_of_edges :
        ExecutablePriceEdge
        → List ExecutablePriceEdge
        → String
        → ℕ
        → Option (StructuralRoute Carrier)
    unfolding legs_from multiply_rates finish_route
    route_of_edges first edges profile route_input = elim (legs_from 0 edges) [
      | none ↦ none
      | some built ↦ if route_input == 0 then none else elim (multiply_rates one edges) [
        | none ↦ none
        | some score ↦
            if not (is_finite score) || not (is_positive score)
            then none
            else finish_route first edges profile route_input built score
      ]
    ]

    -- The checks on the edges: one anchor, fresh quotes, no gap, and back at the first token.
    pub is_closed_sequence : ExecutablePriceEdge → List ExecutablePriceEdge → Bool
    unfolding mixed_anchor fresh_quote_ids continuous ends_at
    is_closed_sequence first rest =
        not (any (mixed_anchor first) rest)
        && (fresh_quote_ids [] (first ∷ rest)
            && (continuous (first ∷ rest) && ends_at first.token_in (first ∷ rest)))

    unfoldable pub build_route :
        List ExecutablePriceEdge → String → ℕ → Option (StructuralRoute Carrier)
    unfolding is_closed_sequence route_of_edges
    build_route [] profile route_input = none
    build_route (first ∷ rest) profile route_input =
        if is_closed_sequence first rest
        then route_of_edges first (first ∷ rest) profile route_input
        else none
