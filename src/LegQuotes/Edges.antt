-- ===== src/LegQuotes/Edges.antt =====
-- The edges that src/core/executable_price_edge.rs makes of quotes that
-- src/core/canonical_adapters.rs takes.
use Prim.Native.String.{String}
use dex_arbitrage.Prelude.{
  ℕ, ◌≡◌, refl, sym, ap, ◌∙◌, Option, true, false, ok, bail_if-ok, ok-injective, List, [], ◌∷◌, any,
  nat_eq, arith,
}
use dex_arbitrage.PriceEdge.{
  PinnedQuoteRecord, PoolExecutionMetadata, ExecutablePriceEdge, missing_metadata, mixed_block,
  venue_mismatch, zero_address, from_quote,
}
use dex_arbitrage.PriceGraph.Route.{mixed_anchor, fresh_quote_ids}
use dex_arbitrage.LegQuotes.{assemble_route_leg_quotes}
use dex_arbitrage.LegQuotes.Chain.{AreChained, assemble_route_leg_quotes_iff}

module _ (keccak_edge : (quote_id pool router spender : ℕ) → Option ℕ → ℕ) where
  -- An edge for each quote.
  abbrev pub AreEdgesOf : List PinnedQuoteRecord → List ExecutablePriceEdge → Type 0
  AreEdgesOf [] [] = Unit
  AreEdgesOf [] (e ∷ edges) = ⊥
  AreEdgesOf (q ∷ quotes) [] = ⊥
  AreEdgesOf (q ∷ quotes) (e ∷ edges) =
      ((pool_meta : PoolExecutionMetadata) × (sym_in : Option String) × (sym_out : Option String)
        × (from_quote keccak_edge q pool_meta sym_in sym_out ≡ ok e))
      × AreEdgesOf quotes edges

  from_quote-anchor :
      (q : PinnedQuoteRecord) (pool_meta : PoolExecutionMetadata) (sym_in sym_out : Option String)
      {e : ExecutablePriceEdge}
      → from_quote keccak_edge q pool_meta sym_in sym_out ≡ ok e
      → (e.anchor_block ≡ q.anchor_block)
        × (e.anchor_block_hash ≡ q.anchor_hash)
        × (e.quote_id ≡ q.quote_id)
  unfolding from_quote
  from_quote-anchor q pool_meta sym_in sym_out h =
      let (_, h1) = bail_if-ok _ missing_metadata _ h in
      let (_, h2) = bail_if-ok _ mixed_block _ h1 in
      let (_, h3) = bail_if-ok _ venue_mismatch _ h2 in
      let (_, h4) = bail_if-ok _ zero_address _ h3 in
      let (_, h5) = bail_if-ok _ missing_metadata _ h4 in
      let same = ok-injective h5 in
      (
        ap ExecutablePriceEdge.anchor_block (sym same),
        ap ExecutablePriceEdge.anchor_block_hash (sym same),
        ap ExecutablePriceEdge.quote_id (sym same),
      )

  module _ (anchor_block anchor_hash : ℕ) where
    edges-fresh :
        (amount : ℕ) (seen : List ℕ) (quotes : List PinnedQuoteRecord) (final : ℕ)
        (edges : List ExecutablePriceEdge)
        → AreChained anchor_block anchor_hash amount seen quotes final
        → AreEdgesOf quotes edges
        → fresh_quote_ids seen edges ≡ true
    unfolding fresh_quote_ids
    edges-fresh amount seen [] final [] c made = refl
    edges-fresh amount seen [] final (e ∷ edges) c made = absurd made
    edges-fresh amount seen (q ∷ quotes) final [] c made = absurd made
    edges-fresh amount seen (q ∷ quotes) final (e ∷ edges) (_, _, _, _, new, later)
          ((pm, si, so, h), made) =
        let (_, _, id) = from_quote-anchor q pm si so h in
        let ih = edges-fresh q.amount_out (q.quote_id ∷ seen) quotes final edges later made in
        rw (id, new, ih) refl

    -- Every edge is at the anchor.
    edges-anchored :
        (first : ExecutablePriceEdge) (amount : ℕ) (seen : List ℕ) (quotes : List PinnedQuoteRecord)
        (final : ℕ) (edges : List ExecutablePriceEdge)
        → first.anchor_block ≡ anchor_block
        → first.anchor_block_hash ≡ anchor_hash
        → AreChained anchor_block anchor_hash amount seen quotes final
        → AreEdgesOf quotes edges
        → any (mixed_anchor first) edges ≡ false
    unfolding mixed_anchor
    edges-anchored first amount seen [] final [] b h c made = refl
    edges-anchored first amount seen [] final (e ∷ edges) b h c made = absurd made
    edges-anchored first amount seen (q ∷ quotes) final [] b h c made = absurd made
    edges-anchored first amount seen (q ∷ quotes) final (e ∷ edges) b h
          (at_block, at_hash, _, _, _, later) ((pm, si, so, made_e), made) =
        let (block, hash, _) = from_quote-anchor q pm si so made_e in
        let ih =
          edges-anchored first q.amount_out (q.quote_id ∷ seen) quotes final edges b h later made in
        ground arith

  -- The edges that are made of the quotes of a route that were taken are never refused as a route
  -- for a mixed anchor or for a quote that comes again.
  pub assembled_edges_pass :
      (route_input anchor_block anchor_hash : ℕ) (leg_quotes : List PinnedQuoteRecord)
      (expected_legs : ℕ) {final : ℕ} (first : ExecutablePriceEdge)
      (rest : List ExecutablePriceEdge)
      → assemble_route_leg_quotes route_input anchor_block anchor_hash leg_quotes expected_legs
        ≡ ok final
      → AreEdgesOf leg_quotes (first ∷ rest)
      → (any (mixed_anchor first) rest ≡ false) × (fresh_quote_ids [] (first ∷ rest) ≡ true)
  assembled_edges_pass route_input anchor_block anchor_hash [] expected_legs first rest taken made =
      absurd made
  assembled_edges_pass route_input anchor_block anchor_hash (q ∷ quotes) expected_legs {final} first
        rest taken ((pm, si, so, h), made) =
      let (_, _, chained) =
        (assemble_route_leg_quotes_iff route_input anchor_block anchor_hash (q ∷ quotes)
            expected_legs final).0
          taken in
      let (at_block, at_hash, _, _, _, later) = chained in
      let (block, hash, _) = from_quote-anchor q pm si so h in
      (
        edges-anchored anchor_block anchor_hash first q.amount_out (q.quote_id ∷ []) quotes final
            rest (block ∙ at_block) (hash ∙ at_hash) later made,
        edges-fresh anchor_block anchor_hash route_input [] (q ∷ quotes) final (first ∷ rest)
            chained ((pm, si, so, h), made),
      )
