-- ===== src/ProfitLedger.antt =====
-- src/core/profit_ledger.rs: the ledger of trades with their finality, the reorg verdict and the
-- circuit breaker on losses. Profits are f64, an interface; a transaction hash is the number that
-- its bytes denote. A `HashMap` gives its keys in no fixed order, so `promote` takes the order in
-- which it visits them. Logging and metrics are left out.
pub mod Finality
pub mod Marks
pub mod Breaker
mod Tests
use dex_arbitrage.Prelude.{
  ℕ, ◌+◌, ◌-◌, Option, none, some, Bool, true, false, not, ◌&&◌, List, [], ◌∷◌, ltb, leb, ◌==◌,
  if◌then◌else◌, nat_eq, length,
}
use dex_arbitrage.Prelude.Map.{Map, lookup, insert, remove}
use dex_arbitrage.Float.{F64}

pub data ProfitSource : Type 0 where
  realized : Bool → ProfitSource
  estimated : ProfitSource

pub data TradeFinality : Type 0 where
  pending : TradeFinality
  included : (block : ℕ) → TradeFinality
  confirmed : (n : ℕ) → TradeFinality
  final : TradeFinality

abbrev pub u32_max : ℕ
u32_max = 4_294_967_295

abbrev pub u64_max : ℕ
u64_max = 18_446_744_073_709_551_615

abbrev pub is_final : TradeFinality → Bool
is_final final = true
is_final _ = false

pub advance : TradeFinality → ℕ → ℕ → ℕ → TradeFinality
advance pending inclusion_block n profit_confirmations = pending
advance final inclusion_block n profit_confirmations = final
advance (included _) inclusion_block n profit_confirmations =
    if leb profit_confirmations n
    then final
    else if ltb 0 n
    then confirmed n
    else included inclusion_block
advance (confirmed _) inclusion_block n profit_confirmations =
    if leb profit_confirmations n
    then final
    else if ltb 0 n
    then confirmed n
    else included inclusion_block

abbrev pub finalized : ProfitSource → ProfitSource
finalized (realized _) = realized true
finalized estimated = estimated

module _ (f : F64) where
  open f use {Carrier, add, sub}

  pub record TradeEntry : Type 0 where
    pub tx_hash : ℕ
    pub inclusion_block : ℕ
    pub state : TradeFinality
    pub profit_usd : Carrier
    pub source : ProfitSource

  pub record ProfitLedger : Type 0 where
    pub trades : Map ℕ TradeEntry
    pub provisory_profit_usd : Carrier
    pub final_profit_usd : Carrier
    pub reorg_reverted_trades : ℕ
    pub consecutive_final_losses : ℕ
    pub loss_breaker_threshold : ℕ
    pub breaker_tripped : Bool

  pub new : ℕ → ProfitLedger
  new threshold = record {
    trades = [];
    provisory_profit_usd = f.zero;
    final_profit_usd = f.zero;
    reorg_reverted_trades = 0;
    consecutive_final_losses = 0;
    loss_breaker_threshold = threshold;
    breaker_tripped = false;
  }

  pub set_loss_breaker_threshold : ProfitLedger → ℕ → ProfitLedger
  set_loss_breaker_threshold l t = record l { loss_breaker_threshold = t }

  -- The old amount of a hash that is recorded again leaves the sum that it is in.
  withdraw_previous : ProfitLedger → Option TradeEntry → ProfitLedger
  withdraw_previous l none = l
  withdraw_previous l (some prev) =
      if not (is_final prev.state)
      then record l { provisory_profit_usd = sub l.provisory_profit_usd prev.profit_usd }
      else record l { final_profit_usd = sub l.final_profit_usd prev.profit_usd }

  pub record_included : ProfitLedger → ℕ → ℕ → Carrier → ProfitSource → ProfitLedger
  unfolding withdraw_previous
  record_included l tx_hash block profit_usd source =
      let l' = withdraw_previous l (lookup tx_hash l.trades) in
      record l' {
        provisory_profit_usd = add l'.provisory_profit_usd profit_usd;
        trades =
            insert tx_hash
              (record {
                tx_hash = tx_hash;
                inclusion_block = block;
                state = included block;
                profit_usd = profit_usd;
                source = source;
              })
              l'.trades;
      }

  -- One more realized final result: a loss counts, anything else ends the series.
  count_final : ProfitLedger → ProfitSource → Carrier → ProfitLedger
  count_final l estimated profit_usd = l
  count_final l (realized _) profit_usd =
      let losses =
        if leb u32_max l.consecutive_final_losses
        then u32_max
        else l.consecutive_final_losses + 1 in
      if f.lt profit_usd f.zero
      then record l {
        consecutive_final_losses = losses;
        breaker_tripped = if leb l.loss_breaker_threshold losses then true else l.breaker_tripped;
      }
      else record l { consecutive_final_losses = 0 }

  settle : ProfitLedger → ℕ → TradeEntry → TradeFinality → ProfitLedger
  unfolding count_final
  settle l h entry new_state =
      let became_final = is_final new_state && not (is_final entry.state) in
      let advanced = record entry { state = new_state } in
      let moved = record l {
        trades = insert h (record advanced { source = finalized entry.source }) l.trades;
        provisory_profit_usd = sub l.provisory_profit_usd entry.profit_usd;
        final_profit_usd = add l.final_profit_usd entry.profit_usd;
      } in
      if became_final
      then count_final moved entry.source entry.profit_usd
      else record l { trades = insert h advanced l.trades }

  pub promote_one : ℕ → ℕ → ProfitLedger → ℕ → ProfitLedger
  unfolding advance settle
  promote_one current_block profit_confirmations l h = elim (lookup h l.trades) [
    | none ↦ l
    | some entry ↦ settle l h entry (
        advance entry.state entry.inclusion_block (current_block - entry.inclusion_block)
          profit_confirmations)
  ]

  pub promote : ℕ → ℕ → List ℕ → ProfitLedger → ProfitLedger
  unfolding promote_one
  promote current_block profit_confirmations [] l = l
  promote current_block profit_confirmations (h ∷ hash_list) l =
      promote current_block profit_confirmations hash_list
        (promote_one current_block profit_confirmations l h)

  pub revert : ProfitLedger → ℕ → Bool × ProfitLedger
  revert l tx_hash = elim (lookup tx_hash l.trades) [
    | none ↦ (false, l)
    | some entry ↦ if is_final entry.state then (false, l) else (
      true,
      record l {
        provisory_profit_usd = sub l.provisory_profit_usd entry.profit_usd;
        trades = remove tx_hash l.trades;
        reorg_reverted_trades =
            if leb u64_max l.reorg_reverted_trades then u64_max else l.reorg_reverted_trades + 1;
        consecutive_final_losses = 0;
      },
    )
  ]

  pub state_of : ProfitLedger → ℕ → Option TradeFinality
  state_of l tx_hash = elim (lookup tx_hash l.trades) [
    | none ↦ none
    | some entry ↦ some entry.state
  ]

  -- The calls that a caller makes on the ledger.
  pub data Call : Type 0 where
    records : (tx_hash block : ℕ) → Carrier → ProfitSource → Call
    promotes : (current_block profit_confirmations : ℕ) (hash_list : List ℕ) → Call
    reverts : (tx_hash : ℕ) → Call
    sets : (threshold : ℕ) → Call

  pub step : ProfitLedger → Call → ProfitLedger
  step l (records h b p s) = record_included l h b p s
  step l (promotes c n hs) = promote c n hs l
  step l (reverts h) = (revert l h).1
  step l (sets t) = set_loss_breaker_threshold l t

  pub run : ProfitLedger → List Call → ProfitLedger
  unfolding step
  run l [] = l
  run l (c ∷ cs) = run (step l c) cs

pub data ReorgVerdict : Type 0 where
  no_reorg block_hash_changed tx_disappeared : ReorgVerdict

abbrev pub detect_changed : Option ℕ → ℕ → ReorgVerdict
detect_changed none cur_block_hash = no_reorg
detect_changed (some prev) cur_block_hash =
    if not (prev == cur_block_hash) then block_hash_changed else no_reorg

pub detect_reorg : Option ℕ → ℕ → Bool → ReorgVerdict
detect_reorg prev_block_hash cur_block_hash tx_present =
    if not tx_present then tx_disappeared else detect_changed prev_block_hash cur_block_hash
