-- ===== src/ProfitLedger/Finality.antt =====
-- The states of trades in src/core/profit_ledger.rs, over one promotion and over any history.
use dex_arbitrage.Prelude.{
  ℕ, ◌-◌, ◌≡◌, ◌≢◌, refl, ◌∙◌, ap, inl, inr, Option, none, some, Bool, true, false, not, ◌&&◌, ◌||◌,
  List, [], ◌∷◌, arith, Option-cases, Bool-cases, nat_eq, ◌==◌, if◌then◌else◌, any, all,
}
use dex_arbitrage.Prelude.Map.{
  lookup, insert, lookup-insert, lookup-insert_ne, lookup-insert_self, lookup-remove,
}
use dex_arbitrage.Float.{F64}
use dex_arbitrage.ProfitLedger.{
  TradeFinality, pending, included, confirmed, final, is_final, ProfitSource, realized, estimated,
  TradeEntry, ProfitLedger, set_loss_breaker_threshold, withdraw_previous, record_included, advance,
  count_final, settle, promote_one, promote, revert, finalized, Call, records, promotes, reverts,
  sets, step, run,
}

module _ (f : F64) where
  open f use {Carrier}

  abbrev pub settled : TradeEntry f → TradeFinality → TradeEntry f
  settled e s = record e {
    state = s;
    source = if is_final s && not (is_final e.state) then finalized e.source else e.source;
  }

  count_final-trades :
      (l : ProfitLedger f) (s : ProfitSource) (p : Carrier)
      → (count_final f l s p).trades ≡ l.trades
  unfolding count_final
  count_final-trades l estimated p = refl
  count_final-trades l (realized b) p = ground arith

  settle-trades :
      (l : ProfitLedger f) (k : ℕ) (e : TradeEntry f) (s : TradeFinality)
      → (settle f l k e s).trades ≡ insert k (settled e s) l.trades
  unfolding settle
  settle-trades l k e s = elim (Bool-cases (is_final s && not (is_final e.state))) [
    | inl b ↦ rw (b, settle) (count_final-trades _ e.source e.profit_usd)
    | inr b ↦ rw (b, settle)
  ]

  -- Where a trade stands after a visit at block `c` with `n` confirmations asked for.
  abbrev pub advanced : ℕ → ℕ → TradeEntry f → TradeEntry f
  advanced c n e = settled e (advance e.state e.inclusion_block (c - e.inclusion_block) n)

  promote_one-lookup_self :
      (c n : ℕ) (l : ProfitLedger f) (h : ℕ) {e : TradeEntry f}
      → lookup h l.trades ≡ some e
      → lookup h (promote_one f c n l h).trades ≡ some (advanced c n e)
  unfolding promote_one
  promote_one-lookup_self c n l h {e} q =
      rw (q, promote_one, settle-trades l h e _) (lookup-insert_self h (advanced c n e) l.trades)

  promote_one-lookup_ne :
      (c n : ℕ) (l : ProfitLedger f) (k h : ℕ)
      → k ≢ h
      → lookup h (promote_one f c n l k).trades ≡ lookup h l.trades
  unfolding promote_one
  promote_one-lookup_ne c n l k h ne = elim (Option-cases (lookup k l.trades)) [
    | inl q ↦ rw (q, promote_one)
    | inr (e, q) ↦
        rw (q, promote_one, settle-trades l k e _, lookup-insert k h (settled e _) l.trades)
          (ground arith)
  ]

  advance-advance :
      (s : TradeFinality) (b m n : ℕ) → advance (advance s b m n) b m n ≡ advance s b m n
  unfolding advance
  advance-advance pending b m n = refl
  advance-advance (included k) b m n = ground arith
  advance-advance (confirmed k) b m n = ground arith
  advance-advance final b m n = refl

  advanced-advanced : (c n : ℕ) (e : TradeEntry f) → advanced c n (advanced c n e) ≡ advanced c n e
  unfolding advance
  advanced-advanced c n e =
      ground (arith, advance-advance e.state e.inclusion_block (c - e.inclusion_block) n)

  abbrev pub visits : List ℕ → ℕ → Bool
  visits hs h = any (λ k. k == h) hs

  promote_one-lookup :
      (c n : ℕ) (l : ProfitLedger f) (k h : ℕ) {e : TradeEntry f}
      → lookup h l.trades ≡ some e
      → lookup h (promote_one f c n l k).trades ≡ some (if k == h then advanced c n e else e)
  promote_one-lookup c n l k h {e} q = elim (Bool-cases (k == h)) [
    | inl b ↦
        let same : h ≡ k = ground arith in rw b (rw (← same) (promote_one-lookup_self c n l h q))
    | inr b ↦ rw b (promote_one-lookup_ne c n l k h (λ same. ground arith) ∙ q)
  ]

  visited_again :
      (c n : ℕ) (a b : Bool) (e : TradeEntry f)
      → (if b
          then advanced c n (if a then advanced c n e else e)
          else (if a then advanced c n e else e))
        ≡ (if a || b then advanced c n e else e)
  visited_again c n true true e = advanced-advanced c n e
  visited_again c n true false e = refl
  visited_again c n false b e = refl

  -- After a promotion each trade that was visited stands where its own entry, the block and the
  -- number of confirmations put it, and the others are as they were: the order of the visits and
  -- repeated visits make no difference.
  pub promote_lem :
      (c n : ℕ) (hs : List ℕ) (l : ProfitLedger f) (h : ℕ) {e : TradeEntry f}
      → lookup h l.trades ≡ some e
      → lookup h (promote f c n hs l).trades ≡ some (if visits hs h then advanced c n e else e)
  unfolding promote
  promote_lem c n [] l h q = q
  promote_lem c n (k ∷ hs) l h {e} q =
      promote_lem c n hs (promote_one f c n l k) h (promote_one-lookup c n l k h q)
      ∙ ap some (visited_again c n (k == h) (visits hs h) e)

  abbrev spared : ℕ → Call f → Bool
  spared h (records k b p s) = not (k == h)
  spared h _ = true

  -- No call of the history records `h`.
  abbrev spares : ℕ → List (Call f) → Bool
  spares h cs = all (spared h) cs

  advanced_final : (c n : ℕ) (e : TradeEntry f) → e.state ≡ final → advanced c n e ≡ e
  unfolding advance
  advanced_final c n e st = ground (arith, st)

  withdraw_previous-trades :
      (l : ProfitLedger f) (o : Option (TradeEntry f)) → (withdraw_previous f l o).trades ≡ l.trades
  unfolding withdraw_previous
  withdraw_previous-trades l none = refl
  withdraw_previous-trades l (some e) = ground arith

  revert-final :
      (l : ProfitLedger f) (k h : ℕ) {e : TradeEntry f}
      → lookup h l.trades ≡ some e
      → e.state ≡ final
      → lookup h (revert f l k).1.trades ≡ some e
  unfolding revert
  revert-final l k h {e} q st = ground (arith, q, st, lookup-remove k h l.trades)

  step-final :
      (c : Call f) (l : ProfitLedger f) (h : ℕ) {e : TradeEntry f}
      → spared h c ≡ true
      → lookup h l.trades ≡ some e
      → e.state ≡ final
      → lookup h (step f l c).trades ≡ some e
  unfolding step record_included withdraw_previous revert set_loss_breaker_threshold
  step-final (records k b p s) l h {e} ne q st =
      rw (withdraw_previous-trades l (lookup k l.trades))
        (lookup-insert_ne k h _ l.trades (λ same. ground arith) ∙ q)
  step-final (promotes c n hs) l h {e} ne q st =
      promote_lem c n hs l h q ∙ ap some (ground (arith, advanced_final c n e st))
  step-final (reverts k) l h {e} ne q st = revert-final l k h q st
  step-final (sets t) l h ne q st = q

  -- A trade that is final stays in the ledger, final and with its amount, through any history that
  -- does not record its hash again.
  pub run-final :
      (cs : List (Call f)) (l : ProfitLedger f) (h : ℕ) {e : TradeEntry f}
      → spares h cs ≡ true
      → lookup h l.trades ≡ some e
      → e.state ≡ final
      → lookup h (run f l cs).trades ≡ some e
  unfolding run
  run-final [] l h s q st = q
  run-final (c ∷ cs) l h s q st =
      run-final cs (step f l c) h (ground arith) (step-final c l h (ground arith) q st) st
