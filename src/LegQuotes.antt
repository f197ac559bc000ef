-- ===== src/LegQuotes.antt =====
-- The check of src/core/canonical_adapters.rs on the quotes of a route's legs: one anchor, each leg
-- takes what the one before gave, and no quote stands for two legs.
pub mod Chain
pub mod Edges
mod Tests
use dex_arbitrage.Prelude.{
  ℕ, Bool, true, false, not, ◌||◌, if◌then◌else◌, ◌==◌, Result, ok, err, ◌>>=◌, ◌>>◌, bail_if, List,
  [], ◌∷◌, length, contains, nat_eq,
}
use dex_arbitrage.PriceEdge.{PinnedQuoteRecord}

pub data AdapterError : Type 0 where
  missing_state : AdapterError
  incomplete_metadata : AdapterError
  mixed_block : AdapterError
  unsupported_curve : AdapterError

module _ (anchor_block anchor_hash : ℕ) where
  -- The test of one quote.
  is_refused : (expected : ℕ) → (seen : List ℕ) → PinnedQuoteRecord → Bool
  is_refused expected seen q =
      not (q.anchor_block == anchor_block)
      || (not (q.anchor_hash == anchor_hash)
          || (not (q.amount_in == expected) || (q.amount_out == 0 || contains q.quote_id seen)))

  -- The loop over the quotes, with the amount that is expected next.
  pub check_quotes :
      (expected : ℕ) → (seen : List ℕ) → List PinnedQuoteRecord → Result ℕ AdapterError
  unfolding is_refused
  check_quotes expected seen [] = ok expected
  check_quotes expected seen (q ∷ quotes) = do
    bail_if (is_refused expected seen q) mixed_block
    check_quotes (q.amount_out) (q.quote_id ∷ seen) quotes

-- `is_empty`
is_empty : List PinnedQuoteRecord → Bool
is_empty [] = true
is_empty (q ∷ quotes) = false

pub validate_leg_quote_sequence :
    List PinnedQuoteRecord → (route_input anchor_block anchor_hash : ℕ) → Result ℕ AdapterError
unfolding check_quotes is_empty
validate_leg_quote_sequence quotes route_input anchor_block anchor_hash = do
  bail_if (is_empty quotes) missing_state
  check_quotes anchor_block anchor_hash route_input [] quotes

pub assemble_route_leg_quotes :
    (route_input anchor_block anchor_hash : ℕ)
    → List PinnedQuoteRecord
    → (expected_legs : ℕ) → Result ℕ AdapterError
unfolding validate_leg_quote_sequence
assemble_route_leg_quotes route_input anchor_block anchor_hash leg_quotes expected_legs = do
  bail_if (not (length leg_quotes == expected_legs)) missing_state
  validate_leg_quote_sequence leg_quotes route_input anchor_block anchor_hash
