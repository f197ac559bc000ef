-- ===== src/ProfitLedger/Tests.antt =====
-- Runs of src/core/profit_ledger.rs with whole amounts, and the theorems at such histories.
use dex_arbitrage.Prelude.{
  ℕ, ◌+◌, ◌≡◌, refl, none, some, true, false, List, [], ◌∷◌, nat_eq, if◌then◌else◌, ltb,
}
use dex_arbitrage.Prelude.Map.{lookup, insert, remove}
use dex_arbitrage.Float.{F64}
use dex_arbitrage.ProfitLedger.{
  ProfitLedger, TradeEntry, realized, estimated, included, confirmed, final, new, promote, Call,
  records, promotes, reverts, run, record_included, revert, state_of, detect_reorg, tx_disappeared,
  block_hash_changed, no_reorg,
}
use dex_arbitrage.ProfitLedger.Finality.{advanced, visits, promote_lem, run-final}
use dex_arbitrage.ProfitLedger.Marks.{lost, reverted, visits_marks, history_marks}

-- Amounts as a gain and a loss in whole units.
abbrev amounts : F64
amounts = record {
  Carrier = ℕ × ℕ;
  zero = (0, 0);
  add = λ a b. (a.0 + b.0, a.1 + b.1);
  sub = λ a b. (a.0 + b.1, a.1 + b.0);
  lt = λ a b. ltb (a.0 + b.1) (b.0 + a.1);
}

trade : ℕ → ℕ → ℕ × ℕ → TradeEntry amounts
trade h block profit = record {
  tx_hash = h;
  inclusion_block = block;
  state = included block;
  profit_usd = profit;
  source = realized false;
}

-- A loss at hash 1 and a gain at hash 2, both included in block 100.
abbrev two_trades : List (Call amounts)
two_trades = records 1 100 (0, 5) (realized false) ∷ records 2 100 (9, 0) (realized false) ∷ []

abbrev start : ProfitLedger amounts
start = run amounts (new amounts 3) two_trades

confirmed_then_final :
    (state_of amounts (promote amounts 105 10 (1 ∷ []) start) 1 ≡ some (confirmed 5))
    × (state_of amounts (promote amounts 110 10 (1 ∷ []) start) 1 ≡ some final)
unfolding record_included revert run new promote state_of lookup insert
confirmed_then_final = (refl, refl)

-- The count of losses in a row depends on the order in which one promotion visits the trades.
visit_order_matters :
    ((promote amounts 110 10 (1 ∷ 2 ∷ []) start).consecutive_final_losses ≡ 0)
    × ((promote amounts 110 10 (2 ∷ 1 ∷ []) start).consecutive_final_losses ≡ 1)
unfolding record_included revert run new promote lookup insert
visit_order_matters = (refl, refl)

-- A final trade whose hash is recorded again is no longer final.
recorded_again :
    state_of amounts
      (run amounts start (promotes 110 10 (1 ∷ []) ∷ records 1 111 (0, 5) (realized false) ∷ []))
      1
    ≡ some (included 111)
unfolding record_included revert run new promote state_of lookup insert
recorded_again = refl

verdicts :
    (detect_reorg (some 7) 7 false ≡ tx_disappeared)
    × (detect_reorg (some 7) 8 true ≡ block_hash_changed)
    × (detect_reorg none 8 true ≡ no_reorg)
unfolding detect_reorg
verdicts = (refl, refl, refl)

first_trade : lookup 1 start.trades ≡ some (trade 1 100 (0, 5))
unfolding record_included revert run new lookup insert trade
first_trade = refl

promote_lem_example :
    lookup 1 (promote amounts 110 10 (2 ∷ 1 ∷ 1 ∷ []) start).trades
    ≡ some (
        if visits amounts (2 ∷ 1 ∷ 1 ∷ []) 1
        then advanced amounts 110 10 (trade 1 100 (0, 5))
        else trade 1 100 (0, 5))
promote_lem_example = promote_lem amounts 110 10 (2 ∷ 1 ∷ 1 ∷ []) start 1 first_trade

final_trade : TradeEntry amounts
unfolding trade
final_trade = record (trade 1 100 (0, 5)) { state = final; source = realized true }

abbrev finished : ProfitLedger amounts
finished = promote amounts 110 10 (1 ∷ []) start

abbrev later : List (Call amounts)
later = reverts 1 ∷ promotes 111 50 (2 ∷ 1 ∷ []) ∷ records 2 112 (1, 0) estimated ∷ []

first_trade_final : lookup 1 finished.trades ≡ some final_trade
unfolding record_included revert run new promote lookup insert final_trade
first_trade_final = refl

run-final_example : lookup 1 (run amounts finished later).trades ≡ some final_trade
unfolding final_trade
run-final_example = run-final amounts later finished 1 refl first_trade_final refl

abbrev history : List (Call amounts)
history =
    records 1 100 (0, 5) (realized false)
    ∷ promotes 110 10 (1 ∷ [])
    ∷ records 2 111 (0, 5) (realized false)
    ∷ reverts 2
    ∷ []

abbrev losing : List (Call amounts)
losing =
    records 1 100 (0, 5) (realized false)
    ∷ promotes 110 10 (1 ∷ [])
    ∷ records 2 111 (0, 5) (realized false)
    ∷ reverts 2
    ∷ records 3 112 (0, 1) (realized false)
    ∷ records 4 112 (0, 2) (realized false)
    ∷ promotes 122 10 (3 ∷ 4 ∷ [])
    ∷ []

-- One loss that became final, then a trade that is reverted, then two losses in one promotion.
marked :
    (history_marks amounts (new amounts 2) history ≡ lost ∷ reverted ∷ [])
    × (history_marks amounts (new amounts 2) losing ≡ lost ∷ reverted ∷ lost ∷ lost ∷ [])
unfolding history_marks visits_marks record_included revert run new promote lookup insert remove
marked = (refl, refl)

tripped_by_two : (run amounts (new amounts 2) losing).breaker_tripped ≡ true
unfolding record_included revert run new promote lookup insert remove
tripped_by_two = refl
