-- ===== src/Cooldown/Timestamps.antt =====
-- The timestamps that `CooldownManager` (src/config/mod.rs) keeps, and what a minute counts of them.
use Prim.Native.String.{String}
use dex_arbitrage.Prelude.{
  ℕ, ◌≤◌, ◌≡◌, refl, ap, Option, none, some, [], ◌∷◌, ◌++◌, arith, string_eq, nat_eq, length,
  filter, length-filter_mono, filter-filter_weaker,
}
use dex_arbitrage.Prelude.Map.{remove}
use dex_arbitrage.Cooldown.{
  CooldownConfig, CooldownState, Refusal, Verdict, refused_or, is_within, secs, cleanup_old_data,
  executions_last_minute, check_pair_and_strategy, check_reverted, check_state, can_execute,
  note_block, record_execution,
}

refused_or_timestamps :
    (r : Option Refusal) (s : CooldownState) (rest : Verdict)
    → rest.1.execution_timestamps ≡ s.execution_timestamps
    → (refused_or r s rest).1.execution_timestamps ≡ s.execution_timestamps
unfolding refused_or
refused_or_timestamps none s rest e = e
refused_or_timestamps (some r) s rest e = refl

module _ (config : CooldownConfig) (now : ℕ) (pair strategy : String) where
  check_reverted-timestamps :
      (s : CooldownState)
      → (check_reverted config s now pair strategy).1.execution_timestamps ≡ s.execution_timestamps
  unfolding check_reverted check_pair_and_strategy
  check_reverted-timestamps s = refused_or_timestamps _ s _ (
      refused_or_timestamps _ (record s { reverted_pairs = remove pair s.reverted_pairs }) _
        (refused_or_timestamps _ (record s { reverted_pairs = remove pair s.reverted_pairs }) _
          refl))

  check_state-timestamps :
      (s : CooldownState) (block : Option ℕ)
      → (check_state config s now pair strategy block).1.execution_timestamps
        ≡ s.execution_timestamps
  unfolding check_state
  check_state-timestamps s block =
      refused_or_timestamps _ s _
        (refused_or_timestamps _ s _ (refused_or_timestamps _ s _ (check_reverted-timestamps s)))

  can_execute-timestamps :
      (s : CooldownState) (block : Option ℕ)
      → (can_execute config s now pair strategy block).1.execution_timestamps
        ≡ s.execution_timestamps
  unfolding can_execute cleanup_old_data
  can_execute-timestamps s block =
      let kept = check_state-timestamps (cleanup_old_data s now) block in ground arith

-- The minutes that end later than a record see its instant and all timestamps that it keeps.
pub record_execution-minute :
    (s : CooldownState) (now later : ℕ) (pair strategy : String) (block : Option ℕ)
    → now ≤ later
    → executions_last_minute (record_execution s now pair strategy block) later
      ≡ length (filter (is_within later (secs 60)) (s.execution_timestamps ++ now ∷ []))
unfolding executions_last_minute record_execution note_block
record_execution-minute s now later pair strategy none le = ap length (
    filter-filter_weaker (is_within later (secs 60)) (is_within now (secs 120))
      (λ t e. ground arith) (s.execution_timestamps ++ now ∷ []))
record_execution-minute s now later pair strategy (some b) le = ap length (
    filter-filter_weaker (is_within later (secs 60)) (is_within now (secs 120))
      (λ t e. ground arith) (s.execution_timestamps ++ now ∷ []))

pub can_execute-executions_last_minute :
    (config : CooldownConfig) (s : CooldownState) (now at : ℕ) (pair strategy : String)
    (block : Option ℕ)
    → executions_last_minute (can_execute config s now pair strategy block).1 at
      ≡ executions_last_minute s at
unfolding executions_last_minute
can_execute-executions_last_minute config s now at pair strategy block =
    ap (λ ts. length (filter (is_within at (secs 60)) ts))
      (can_execute-timestamps config now pair strategy s block)

pub executions_last_minute-later :
    (s : CooldownState) (now later : ℕ)
    → now ≤ later
    → executions_last_minute s later ≤ executions_last_minute s now
unfolding executions_last_minute
executions_last_minute-later s now later le =
    length-filter_mono (is_within later (secs 60)) (is_within now (secs 60)) (λ t e. ground arith)
      s.execution_timestamps
