-- ===== src/ProfitLedger/Marks.antt =====
-- What counts for the circuit breaker of src/core/profit_ledger.rs in a history of calls, and what
-- counting it one by one comes to.
use dex_arbitrage.Prelude.{
  ℕ, ◌+◌, ◌-◌, ◌∙◌, ◌≤◌, ◌<◌, ◌≡◌, Option, none, some, Bool, true, false, ◌||◌, List, [], ◌∷◌, ◌++◌,
  arith, nat_eq, if◌then◌else◌, leb, refl, min, max,
}
use dex_arbitrage.Prelude.Map.{lookup}
use dex_arbitrage.Float.{F64}
use dex_arbitrage.ProfitLedger.{
  is_final, ProfitSource, realized, estimated, pending, included, confirmed, final, TradeEntry,
  ProfitLedger, promote_one, u32_max, Call, records, promotes, reverts, sets, step,
}

-- What counts for the breaker: a realized profit that became final, as a loss or not, and a trade
-- that a reorg reverted.
pub data Mark : Type 0 where
  lost : Mark
  won : Mark
  reverted : Mark

-- The losses in a row at the end of the marks, of which `c` stood before them.
unfoldable pub series : ℕ → List Mark → ℕ
series c [] = c
series c (lost ∷ marks) = series (c + 1) marks
series c (won ∷ marks) = series 0 marks
series c (reverted ∷ marks) = series 0 marks

-- The most losses in a row anywhere in the marks.
unfoldable pub longest : ℕ → List Mark → ℕ
longest c [] = c
longest c (lost ∷ marks) = longest (c + 1) marks
longest c (won ∷ marks) = max c (longest 0 marks)
longest c (reverted ∷ marks) = max c (longest 0 marks)

abbrev pub sets_nothing : {f : F64} → Call f → Bool
sets_nothing (sets t) = false
sets_nothing _ = true

module _ (f : F64) where
  -- A trade in a block becomes final once it has the confirmations that are asked for.
  abbrev pub becomes_final : TradeEntry f → (current_block profit_confirmations : ℕ) → Bool
  becomes_final entry current_block profit_confirmations = elim entry.state [
    | pending ↦ false
    | final ↦ false
    | included _ ↦ leb profit_confirmations (current_block - entry.inclusion_block)
    | confirmed _ ↦ leb profit_confirmations (current_block - entry.inclusion_block)
  ]

  abbrev pub result_marks : ProfitSource → f.Carrier → List Mark
  result_marks estimated profit_usd = []
  result_marks (realized _) profit_usd = (if f.lt profit_usd f.zero then lost else won) ∷ []

  abbrev pub visit_marks :
      (current_block profit_confirmations : ℕ) → Option (TradeEntry f) → List Mark
  visit_marks current_block profit_confirmations none = []
  visit_marks current_block profit_confirmations (some entry) =
      if becomes_final entry current_block profit_confirmations
      then result_marks entry.source entry.profit_usd
      else []

  unfoldable pub visits_marks :
      (current_block profit_confirmations : ℕ) → List ℕ → ProfitLedger f → List Mark
  visits_marks current_block profit_confirmations [] l = []
  visits_marks current_block profit_confirmations (h ∷ hash_list) l =
      visit_marks current_block profit_confirmations (lookup h l.trades)
      ++ visits_marks current_block profit_confirmations hash_list
          (promote_one f current_block profit_confirmations l h)

  abbrev pub revert_marks : Option (TradeEntry f) → List Mark
  revert_marks none = []
  revert_marks (some entry) = if is_final entry.state then [] else reverted ∷ []

  abbrev pub call_marks : ProfitLedger f → Call f → List Mark
  call_marks l (records h block profit_usd source) = []
  call_marks l (promotes current_block profit_confirmations hash_list) =
      visits_marks current_block profit_confirmations hash_list l
  call_marks l (reverts h) = revert_marks (lookup h l.trades)
  call_marks l (sets threshold) = []

  -- The marks of a history, in their order.
  unfoldable pub history_marks : ProfitLedger f → List (Call f) → List Mark
  history_marks l [] = []
  history_marks l (c ∷ cs) = call_marks l c ++ history_marks (step f l c) cs

-- `saturating_add(1)` on the count.
abbrev pub next_loss : ℕ → ℕ
next_loss c = if leb u32_max c then u32_max else c + 1

-- The count and the breaker after the marks, one by one.
unfoldable pub tallied : (threshold : ℕ) → ℕ → Bool → List Mark → ℕ × Bool
tallied t c b [] = (c, b)
tallied t c b (lost ∷ marks) =
    tallied t (next_loss c) (if leb t (next_loss c) then true else b) marks
tallied t c b (won ∷ marks) = tallied t 0 b marks
tallied t c b (reverted ∷ marks) = tallied t 0 b marks

pub tallied-append :
    (t c : ℕ) (b : Bool) (ms ns : List Mark)
    → tallied t c b (ms ++ ns) ≡ tallied t (tallied t c b ms).0 (tallied t c b ms).1 ns
unfolding tallied
tallied-append t c b [] ns = refl
tallied-append t c b (lost ∷ ms) ns = tallied-append t (next_loss c) _ ms ns
tallied-append t c b (won ∷ ms) ns = tallied-append t 0 b ms ns
tallied-append t c b (reverted ∷ ms) ns = tallied-append t 0 b ms ns

longest-le : (c : ℕ) (marks : List Mark) → c ≤ longest c marks
unfolding longest
longest-le c [] = omega arith
longest-le c (lost ∷ marks) = omega (arith, longest-le (c + 1) marks)
longest-le c (won ∷ marks) = ground arith
longest-le c (reverted ∷ marks) = ground arith

next_loss_lem : (c k : ℕ) → k ≡ min c u32_max → next_loss k ≡ min (c + 1) u32_max
next_loss_lem c k e = ground arith

-- What the breaker sees at the saturated count is what the series itself shows.
trips :
    (t c k : ℕ) (b : Bool)
    → t ≤ u32_max
    → k ≡ min c u32_max
    → t ≤ c
    → (if leb t k then true else b) ≡ true
trips t c k b fits e le = ground arith

still : (t n k : ℕ) (b : Bool) → k ≤ n → ((if leb t k then true else b) || leb t n) ≡ (b || leb t n)
still t n k b le = ground arith

ended : (t c n : ℕ) (b : Bool) → (t ≤ c → b ≡ true) → (b || leb t n) ≡ (b || leb t (max c n))
ended t c n b before = ground (arith, before)

pub no_series : (t : ℕ) (b : Bool) → 0 < t → t ≤ 0 → b ≡ true
no_series t b some_loss le = absurd (omega arith)

-- The count is the series at the end, and the breaker has tripped where a series was long enough.
pub tallied_lem :
    (t c k : ℕ) (b : Bool) (marks : List Mark)
    → 0 < t
    → t ≤ u32_max
    → k ≡ min c u32_max
    → (t ≤ c → b ≡ true)
    → ((tallied t k b marks).0 ≡ min (series c marks) u32_max)
      × ((tallied t k b marks).1 ≡ (b || leb t (longest c marks)))
unfolding tallied series longest
tallied_lem t c k b [] some_loss fits e before = (e, ground (arith, before))
tallied_lem t c k b (lost ∷ marks) some_loss fits e before =
    let e' = next_loss_lem c k e in
    let (counted, tripped) =
      tallied_lem t (c + 1) (next_loss k) (if leb t (next_loss k) then true else b) marks some_loss
        fits e' (trips t (c + 1) (next_loss k) b fits e') in
    (
      counted,
      tripped
          ∙ still t (longest (c + 1) marks) (next_loss k) b
              (omega (arith, e', longest-le (c + 1) marks)),
    )
tallied_lem t c k b (won ∷ marks) some_loss fits e before =
    let (counted, tripped) =
      tallied_lem t 0 0 b marks some_loss fits (omega arith) (no_series t b some_loss) in
    (counted, tripped ∙ ended t c (longest 0 marks) b before)
tallied_lem t c k b (reverted ∷ marks) some_loss fits e before =
    let (counted, tripped) =
      tallied_lem t 0 0 b marks some_loss fits (omega arith) (no_series t b some_loss) in
    (counted, tripped ∙ ended t c (longest 0 marks) b before)
