-- ===== src/BfGraph.antt =====
-- src/core/bf_graph.rs: the graph of rates, a vertex for each token and an edge for each rate. f64
-- is an argument, and so is the order in which the maps of prices are visited.
pub mod Build
pub mod Search
mod Tests
use Prim.Native.String.{String}
use dex_arbitrage.Prelude.{
  ℕ, zero, suc, ◌+◌, ◌-◌, Option, none, some, Bool, true, false, not, ◌&&◌, ◌||◌, if◌then◌else◌,
  ltb, ◌==◌, List, [], ◌∷◌, ◌++◌, length, get_elem?, contains, nat_eq, string_eq,
}
use dex_arbitrage.Prelude.Map.{Map, lookup, insert}
use dex_arbitrage.Prelude.Text.{split, eq_ignore_ascii_case}
use dex_arbitrage.Float.{F64Graph}

pub record PriceEdge (Rate : Type 0) : Type 0 where
  pub from : ℕ
  pub to : ℕ
  pub dex_name : String
  pub rate : Rate
  pub token_in : String
  pub token_out : String

pub record PriceGraph (Rate : Type 0) : Type 0 where
  pub tokens : List String
  pub edges : List (PriceEdge Rate)

pub record BfCycle (Rate : Type 0) : Type 0 where
  pub path : List ℕ
  pub token_path : List String
  pub edges : List (PriceEdge Rate)
  pub product : Rate
  pub spread_pct : Rate
  pub total_weight : Rate

-- The variables that `from_price_map` changes.
pub record Building (Rate : Type 0) : Type 0 where
  pub tokens : List String
  pub token_to_idx : Map String ℕ
  pub edges : List (PriceEdge Rate)

-- `iter().position(|t| t.eq_ignore_ascii_case(symbol))`
position_from : ℕ → String → List String → Option ℕ
position_from i symbol [] = none
position_from i symbol (t ∷ tokens) =
    let rest = position_from (i + 1) symbol tokens in
    if eq_ignore_ascii_case t symbol then some i else rest

module _ {Rate : Type 0} where
  pub get_or_insert_idx : Building Rate → String → ℕ × Building Rate
  get_or_insert_idx b token = elim (lookup token b.token_to_idx) [
    | some idx ↦ (idx, b)
    | none ↦
        let idx = length b.tokens in
        (
          idx,
          record b {
            tokens = b.tokens ++ token ∷ [];
            token_to_idx = insert token idx b.token_to_idx;
          },
        )
  ]

  -- The statements on a pair that splits into two tokens.
  add_edge : (dex_name token_a token_b : String) → Rate → Building Rate → Building Rate
  unfolding get_or_insert_idx
  add_edge dex_name token_a token_b rate b =
      let from = get_or_insert_idx b token_a in
      let to = get_or_insert_idx from.1 token_b in
      if not (from.0 == to.0)
      then record (to.1) {
        edges =
            (to.1).edges
            ++ record {
              from = from.0;
              to = to.0;
              dex_name = dex_name;
              rate = rate;
              token_in = token_a;
              token_out = token_b;
            }
              ∷ [];
      }
      else to.1

  add_parts : String → List String → Rate → Building Rate → Building Rate
  unfolding add_edge
  add_parts dex_name (token_a ∷ token_b ∷ []) rate b = add_edge dex_name token_a token_b rate b
  add_parts dex_name _ rate b = b

  pub token_idx : PriceGraph Rate → String → Option ℕ
  unfolding position_from
  token_idx graph symbol = position_from 0 symbol graph.tokens

module _ (f : F64Graph) where
  open f use {Carrier, le, is_finite}

  pub add_pair : String → String × Carrier → Building Carrier → Building Carrier
  unfolding add_parts
  add_pair dex_name (pair, rate) b =
      if not (is_finite rate) || le rate f.zero
      then b
      else add_parts dex_name (split b'-' pair) rate b

  pub add_pairs : String → Map String Carrier → Building Carrier → Building Carrier
  unfolding add_pair
  add_pairs dex_name [] b = b
  add_pairs dex_name (p ∷ dex_prices) b = add_pairs dex_name dex_prices (add_pair dex_name p b)

  pub add_dexes : Map String (Map String Carrier) → Building Carrier → Building Carrier
  unfolding add_pairs
  add_dexes [] b = b
  add_dexes ((dex_name, dex_prices) ∷ prices) b = add_dexes prices (add_pairs dex_name dex_prices b)

  -- The map is visited in the order of the list.
  pub from_price_map : Map String (Map String Carrier) → PriceGraph Carrier
  unfolding add_dexes
  from_price_map prices =
      let b = add_dexes prices (record { tokens = []; token_to_idx = []; edges = [] }) in
      record { tokens = b.tokens; edges = b.edges }
