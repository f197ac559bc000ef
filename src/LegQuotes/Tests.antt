-- ===== src/LegQuotes/Tests.antt =====
-- Quotes of a route of two legs for src/core/canonical_adapters.rs, and the edges made of them.
use dex_arbitrage.Prelude.{
  ℕ, ◌+◌, ◌<◌, ◌≡◌, ◌↔◌, refl, Option, none, true, false, ok, err, List, [], ◌∷◌, length, any,
}
use dex_arbitrage.PriceEdge.{
  quick_swap, PinnedQuoteRecord, PoolExecutionMetadata, ExecutablePriceEdge, from_quote,
}
use dex_arbitrage.PriceGraph.Route.{mixed_anchor, fresh_quote_ids}
use dex_arbitrage.LegQuotes.{mixed_block, assemble_route_leg_quotes}
use dex_arbitrage.LegQuotes.Chain.{AreChained, assemble_route_leg_quotes_iff}
use dex_arbitrage.LegQuotes.Edges.{assembled_edges_pass}

abbrev quote : (quote_id token_in token_out amount_in amount_out : ℕ) → PinnedQuoteRecord
quote quote_id token_in token_out amount_in amount_out = record {
  quote_id = quote_id;
  anchor_block = 9;
  anchor_hash = 90;
  venue = quick_swap;
  pool = 10 + quote_id;
  token_in = token_in;
  token_out = token_out;
  amount_in = amount_in;
  amount_out = amount_out;
  pool_state_id = 20 + quote_id;
  execution_metadata_id = 30 + quote_id;
  adapter_version = "v1";
  provenance_hash = 40 + quote_id;
}

abbrev quotes : List PinnedQuoteRecord
quotes = quote 1 1 2 100 250 ∷ quote 2 2 1 250 103 ∷ []

abbrev gap : List PinnedQuoteRecord
gap = quote 1 1 2 100 250 ∷ quote 2 2 1 251 103 ∷ []

abbrev pool_meta : (pool : ℕ) → PoolExecutionMetadata
pool_meta pool = record {
  venue = "QuickSwap";
  pool = pool;
  router = 7;
  spender = 7;
  token_order = (1, 2);
  fee = none;
  curve_method = none;
  curve_indices = none;
  implementation_code_hash = 5;
  anchor_block = 9;
}

abbrev hashed : (quote_id pool router spender : ℕ) → Option ℕ → ℕ
hashed quote_id pool router spender fee = quote_id

abbrev edge : (quote_id token_in token_out amount_in amount_out : ℕ) → ExecutablePriceEdge
edge quote_id token_in token_out amount_in amount_out = record {
  edge_id = quote_id;
  anchor_block = 9;
  anchor_block_hash = 90;
  venue = quick_swap;
  token_in = token_in;
  token_out = token_out;
  pool = 10 + quote_id;
  router = 7;
  spender = 7;
  fee = none;
  amount_in = amount_in;
  amount_out = amount_out;
  quote_id = quote_id;
  pool_state_id = 20 + quote_id;
  execution_metadata_id = 30 + quote_id;
  provenance_hash = 40 + quote_id;
  token_in_symbol = none;
  token_out_symbol = none;
}

quotes_taken : assemble_route_leg_quotes 100 9 90 quotes 2 ≡ ok 103
unfolding assemble_route_leg_quotes
quotes_taken = refl

gap_refused : assemble_route_leg_quotes 100 9 90 gap 2 ≡ err mixed_block
unfolding assemble_route_leg_quotes
gap_refused = refl

first_edge :
    from_quote hashed (quote 1 1 2 100 250) (pool_meta 11) none none ≡ ok (edge 1 1 2 100 250)
unfolding from_quote
first_edge = refl

second_edge :
    from_quote hashed (quote 2 2 1 250 103) (pool_meta 12) none none ≡ ok (edge 2 2 1 250 103)
unfolding from_quote
second_edge = refl

assemble_route_leg_quotes_iff_example :
    (assemble_route_leg_quotes 100 9 90 quotes 2 ≡ ok 103)
    ↔ ((length quotes ≡ 2) × (0 < 2) × AreChained 9 90 100 [] quotes 103)
assemble_route_leg_quotes_iff_example = assemble_route_leg_quotes_iff 100 9 90 quotes 2 103

assembled_edges_pass_example :
    (any (mixed_anchor (edge 1 1 2 100 250)) (edge 2 2 1 250 103 ∷ []) ≡ false)
    × (fresh_quote_ids [] (edge 1 1 2 100 250 ∷ edge 2 2 1 250 103 ∷ []) ≡ true)
assembled_edges_pass_example =
    assembled_edges_pass hashed 100 9 90 quotes 2 (edge 1 1 2 100 250) (edge 2 2 1 250 103 ∷ [])
      quotes_taken
      ((pool_meta 11, none, none, first_edge), ((pool_meta 12, none, none, second_edge), tt))
