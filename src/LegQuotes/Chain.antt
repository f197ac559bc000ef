-- ===== src/LegQuotes/Chain.antt =====
-- Which quotes `assemble_route_leg_quotes` of src/core/canonical_adapters.rs takes.
use dex_arbitrage.Prelude.{
  ℕ, ◌<◌, ◌≡◌, ap, ◌↔◌, false, not, ◌==◌, ok, bail_if-ok, List, [], ◌∷◌, length, contains, nat_eq,
  arith,
}
use dex_arbitrage.PriceEdge.{PinnedQuoteRecord}
use dex_arbitrage.LegQuotes.{
  missing_state, mixed_block, is_refused, check_quotes, is_empty, validate_leg_quote_sequence,
  assemble_route_leg_quotes,
}

module _ (anchor_block anchor_hash : ℕ) where
  -- Quotes at the anchor that hand an amount on, from one amount to another, and were not seen.
  abbrev pub AreChained : ℕ → List ℕ → List PinnedQuoteRecord → ℕ → Type 0
  AreChained amount seen [] final = amount ≡ final
  AreChained amount seen (q ∷ quotes) final =
      (q.anchor_block ≡ anchor_block)
      × (q.anchor_hash ≡ anchor_hash)
      × (q.amount_in ≡ amount)
      × (0 < q.amount_out)
      × (contains q.quote_id seen ≡ false)
      × AreChained q.amount_out (q.quote_id ∷ seen) quotes final

  check_quotes_iff :
      (amount : ℕ) (seen : List ℕ) (quotes : List PinnedQuoteRecord) (final : ℕ)
      → (check_quotes anchor_block anchor_hash amount seen quotes ≡ ok final)
        ↔ AreChained amount seen quotes final
  unfolding check_quotes is_refused
  check_quotes_iff amount seen [] final = (λ h. ground arith, λ h. ap ok h)
  check_quotes_iff amount seen (q ∷ quotes) final =
      let rest = check_quotes_iff q.amount_out (q.quote_id ∷ seen) quotes final in
      (
        λ h.
            let (fine, later) =
              bail_if-ok (is_refused anchor_block anchor_hash amount seen q) mixed_block _ h in
            (ground arith, ground arith, ground arith, ground arith, ground arith, rest.0 later),
        λ (a, b, c, d, e, later).
            let fine : is_refused anchor_block anchor_hash amount seen q ≡ false = ground arith in
            rw fine (rest.1 later),
      )

-- A route's quotes are taken exactly where there is one for each leg and at least one, all at the
-- anchor, different, and each takes what the one before gave, the first the route's input; none
-- gives nothing, and what the last one gives is the result.
pub assemble_route_leg_quotes_iff :
    (route_input anchor_block anchor_hash : ℕ) (leg_quotes : List PinnedQuoteRecord)
    (expected_legs final : ℕ)
    → (assemble_route_leg_quotes route_input anchor_block anchor_hash leg_quotes expected_legs
        ≡ ok final)
      ↔ ((length leg_quotes ≡ expected_legs)
          × (0 < expected_legs)
          × AreChained anchor_block anchor_hash route_input [] leg_quotes final)
unfolding assemble_route_leg_quotes validate_leg_quote_sequence is_empty
assemble_route_leg_quotes_iff route_input anchor_block anchor_hash [] expected_legs final =
    (λ h. ground arith, λ (a, b, c). absurd (omega arith))
assemble_route_leg_quotes_iff route_input anchor_block anchor_hash (q ∷ quotes) expected_legs
      final =
    let chained = check_quotes_iff anchor_block anchor_hash route_input [] (q ∷ quotes) final in
    (
      λ h.
          let (counted, later) =
            bail_if-ok (not (length (q ∷ quotes) == expected_legs)) missing_state _ h in
          (ground arith, ground arith, chained.0 later),
      λ (a, b, c).
          let counted : not (length (q ∷ quotes) == expected_legs) ≡ false = ground arith in
          rw counted (chained.1 c),
    )
