-- ===== src/PriceEdge.antt =====
-- src/core/executable_price_edge.rs: one directed quote with all that is needed to execute it, and
-- the records of src/core/canonical_adapters.rs and src/core/canonical_execution_context.rs that
-- it is built from. Addresses and hashes are numbers, 0 the zero one. `keccak256` of the printed
-- identity of an edge is an argument.
use Prim.Native.String.{String}
use dex_arbitrage.Prelude.{ℕ, Option, Bool, ◌||◌, not, ◌==◌, Result, ok, ◌>>◌, bail_if, ℤ}

-- `Venue` of src/core/executable_call.rs
pub data Venue : Type 0 where
  uniswap_v3 : Venue
  quick_swap : Venue
  sushi_swap : Venue
  curve : Venue

pub record PinnedQuoteRecord : Type 0 where
  pub quote_id : ℕ
  pub anchor_block : ℕ
  pub anchor_hash : ℕ
  pub venue : Venue
  pub pool : ℕ
  pub token_in : ℕ
  pub token_out : ℕ
  pub amount_in : ℕ
  pub amount_out : ℕ
  pub pool_state_id : ℕ
  pub execution_metadata_id : ℕ
  pub adapter_version : String
  pub provenance_hash : ℕ

pub record PoolExecutionMetadata : Type 0 where
  pub venue : String
  pub pool : ℕ
  pub router : ℕ
  pub spender : ℕ
  pub token_order : ℕ × ℕ
  pub fee : Option ℕ
  pub curve_method : Option String
  pub curve_indices : Option (ℤ × ℤ)
  pub implementation_code_hash : ℕ
  pub anchor_block : ℕ

pub data EdgeError : Type 0 where
  mixed_block : EdgeError
  missing_metadata : EdgeError
  venue_mismatch : EdgeError
  zero_address : EdgeError

pub record ExecutablePriceEdge : Type 0 where
  pub edge_id : ℕ
  pub anchor_block : ℕ
  pub anchor_block_hash : ℕ
  pub venue : Venue
  pub token_in : ℕ
  pub token_out : ℕ
  pub pool : ℕ
  pub router : ℕ
  pub spender : ℕ
  pub fee : Option ℕ
  pub amount_in : ℕ
  pub amount_out : ℕ
  pub quote_id : ℕ
  pub pool_state_id : ℕ
  pub execution_metadata_id : ℕ
  pub provenance_hash : ℕ
  pub token_in_symbol : Option String
  pub token_out_symbol : Option String

abbrev is_zero : ℕ → Bool
is_zero n = n == 0

module _ (keccak_edge : (quote_id pool router spender : ℕ) → Option ℕ → ℕ) where
  unfoldable pub from_quote :
      PinnedQuoteRecord
      → PoolExecutionMetadata
      → (token_in_symbol token_out_symbol : Option String) → Result ExecutablePriceEdge EdgeError
  from_quote quote pool_meta token_in_symbol token_out_symbol = do
    bail_if
        (is_zero quote.quote_id
          || (is_zero quote.pool_state_id
              || (is_zero quote.execution_metadata_id
                  || (is_zero quote.provenance_hash || is_zero quote.anchor_hash))))
        missing_metadata
    bail_if (not (quote.anchor_block == pool_meta.anchor_block)) mixed_block
    bail_if (not (quote.pool == pool_meta.pool) || quote.token_in == quote.token_out) venue_mismatch
    bail_if (is_zero pool_meta.router || (is_zero pool_meta.spender || is_zero pool_meta.pool))
        zero_address
    bail_if (is_zero quote.amount_in || is_zero quote.amount_out) missing_metadata
    ok (record {
      edge_id =
          keccak_edge quote.quote_id pool_meta.pool pool_meta.router pool_meta.spender
            pool_meta.fee;
      anchor_block = quote.anchor_block;
      anchor_block_hash = quote.anchor_hash;
      venue = quote.venue;
      token_in = quote.token_in;
      token_out = quote.token_out;
      pool = pool_meta.pool;
      router = pool_meta.router;
      spender = pool_meta.spender;
      fee = pool_meta.fee;
      amount_in = quote.amount_in;
      amount_out = quote.amount_out;
      quote_id = quote.quote_id;
      pool_state_id = quote.pool_state_id;
      execution_metadata_id = quote.execution_metadata_id;
      provenance_hash = quote.provenance_hash;
      token_in_symbol = token_in_symbol;
      token_out_symbol = token_out_symbol;
    })
