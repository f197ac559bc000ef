-- ===== src/ProfitLedger/Breaker.antt =====
-- The circuit breaker on losses of src/core/profit_ledger.rs.
use dex_arbitrage.Prelude.{◌≡◌, List, nat_eq}
use dex_arbitrage.Float.{F64}
use dex_arbitrage.ProfitLedger.{ProfitLedger}
use dex_arbitrage.ProfitLedger.Marks.{Mark, tallied}

module _ (f : F64) where
  -- The second ledger has the threshold of the first, and its count and breaker after the marks.
  Breaks : ProfitLedger f → ProfitLedger f → List Mark → Type 0
  Breaks l l' marks =
      (l'.loss_breaker_threshold ≡ l.loss_breaker_threshold)
      × ((l'.consecutive_final_losses, l'.breaker_tripped)
          ≡ tallied l.loss_breaker_threshold l.consecutive_final_losses l.breaker_tripped marks)
