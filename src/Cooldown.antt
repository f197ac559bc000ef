-- ===== src/Cooldown.antt =====
-- `CooldownManager` of src/config/mod.rs and src/core/cooldown_service.rs: when a pair and a
-- strategy may execute again. Time is an argument in nanoseconds, and what `duration_since` gives
-- is 0 for a later instant. The lock makes each call one step. Debug output is left out.
pub mod Gate
pub mod Timestamps
pub mod Window
mod Tests
use Prim.Native.String.{String}
use dex_arbitrage.Prelude.{
  ℕ, ◌+◌, ◌-◌, ◌*◌, ◌/◌, ◌%◌, ◌^◌, Option, none, some, Bool, true, false, not, List, [], ◌∷◌, ◌++◌,
  ltb, leb, ◌==◌, if◌then◌else◌, Result, ok, err, string_eq, nat_eq, length, filter, ◌>>=◌,
}
use dex_arbitrage.Prelude.Map.{Map, lookup, insert, remove, retain, contains_key}

abbrev pub millis : ℕ → ℕ
millis n = n * 1_000_000

abbrev pub secs : ℕ → ℕ
secs n = n * 1_000_000_000

pub record CooldownConfig : Type 0 where
  pub enabled : Bool
  pub global_ms : ℕ
  pub pair_ms : ℕ
  pub strategy_ms : ℕ
  pub revert_penalty_ms : ℕ
  pub max_concurrent_executions : ℕ

pub record CooldownState : Type 0 where
  pub last_global_execution : Option ℕ
  pub last_pair_execution : Map String ℕ
  pub last_strategy_execution : Map String ℕ
  pub reverted_pairs : Map String ℕ
  pub executed_blocks : Map ℕ ℕ
  pub execution_count : ℕ
  pub execution_timestamps : List ℕ
  pub last_block_number : Option ℕ

-- The messages of the refusals, with the values that they print.
pub data Refusal : Type 0 where
  block_recorded : (block : ℕ) → Refusal
  same_block : (block : ℕ) → Refusal
  minute_limit : (executions limit : ℕ) → Refusal
  global_cooldown : (remain : ℕ) → Refusal
  revert_penalty : (pair : String) (remain : ℕ) → Refusal
  pair_cooldown : (pair : String) (remain : ℕ) → Refusal
  strategy_cooldown : (strategy : String) (remain : ℕ) → Refusal

pub initial : CooldownState
initial = record {
  last_global_execution = none;
  last_pair_execution = [];
  last_strategy_execution = [];
  reverted_pairs = [];
  executed_blocks = [];
  execution_count = 0;
  execution_timestamps = [];
  last_block_number = none;
}

abbrev pub is_within : ℕ → ℕ → ℕ → Bool
is_within now window t = ltb (now - t) window

pub cleanup_old_data : CooldownState → ℕ → CooldownState
cleanup_old_data state now = record state {
  executed_blocks = retain (λ _ t. is_within now (secs 300) t) state.executed_blocks;
  last_pair_execution = retain (λ _ t. is_within now (secs 600) t) state.last_pair_execution;
  last_strategy_execution =
      retain (λ _ t. is_within now (secs 600) t) state.last_strategy_execution;
  reverted_pairs = retain (λ _ t. is_within now (secs 600) t) state.reverted_pairs;
}

pub executions_last_minute : CooldownState → ℕ → ℕ
executions_last_minute state now =
    length (filter (is_within now (secs 60)) state.execution_timestamps)

-- `ms.saturating_sub(elapsed.as_millis() as u64)`
abbrev remain : ℕ → ℕ → ℕ
remain ms elapsed = ms - elapsed / 1_000_000 % 2 ^ 64

block_refusal : CooldownState → Option ℕ → Option Refusal
block_refusal state none = none
block_refusal state (some block_num) =
    if contains_key block_num state.executed_blocks
    then some (block_recorded block_num)
    else elim state.last_block_number [
      | none ↦ none
      | some last_block ↦ if block_num == last_block then some (same_block block_num) else none
    ]

-- One of the three waits: refused while less than `ms` has passed since `last`.
wait_refusal : Option ℕ → ℕ → ℕ → (ℕ → Refusal) → Option Refusal
wait_refusal none now ms refusal = none
wait_refusal (some last) now ms refusal =
    if is_within now (millis ms) last then some (refusal (remain ms (now - last))) else none

abbrev pub Verdict : Type 0
Verdict = Result Bool Refusal × CooldownState

-- A refusal returns at once; otherwise the check goes on.
unfoldable pub refused_or : Option Refusal → CooldownState → Verdict → Verdict
refused_or none state rest = rest
refused_or (some refusal) state rest = (err refusal, state)

module _ (config : CooldownConfig) where
  open config use {
    enabled, global_ms, pair_ms, strategy_ms, revert_penalty_ms, max_concurrent_executions,
  }

  minute_refusal : CooldownState → ℕ → Option Refusal
  minute_refusal state now =
      let executions = executions_last_minute state now in
      if leb max_concurrent_executions executions
      then some (minute_limit executions max_concurrent_executions)
      else none

  -- The last two waits, on the state from which a served revert penalty is removed.
  check_pair_and_strategy : CooldownState → ℕ → String → String → Verdict
  check_pair_and_strategy state now pair strategy =
      refused_or
        (wait_refusal (lookup pair state.last_pair_execution) now pair_ms (pair_cooldown pair))
        state
        (refused_or
          (wait_refusal (lookup strategy state.last_strategy_execution) now strategy_ms
            (strategy_cooldown strategy))
          state (ok true, state))

  check_reverted : CooldownState → ℕ → String → String → Verdict
  check_reverted state now pair strategy =
      refused_or
        (wait_refusal (lookup pair state.reverted_pairs) now revert_penalty_ms
          (revert_penalty pair))
        state
        (check_pair_and_strategy
          (record state { reverted_pairs = remove pair state.reverted_pairs }) now pair strategy)

  check_state : CooldownState → ℕ → String → String → Option ℕ → Verdict
  check_state state now pair strategy current_block =
      refused_or (block_refusal state current_block) state (
        refused_or (minute_refusal state now) state (
          refused_or (wait_refusal state.last_global_execution now global_ms global_cooldown) state
            (check_reverted state now pair strategy)))

  pub can_execute : CooldownState → ℕ → String → String → Option ℕ → Verdict
  can_execute state now pair strategy current_block =
      if not enabled
      then (ok true, state)
      else check_state (cleanup_old_data state now) now pair strategy current_block

note_block : CooldownState → ℕ → Option ℕ → CooldownState
note_block state now none = state
note_block state now (some block_num) = record state {
  executed_blocks = insert block_num now state.executed_blocks;
  last_block_number = some block_num;
}

-- `execution_count` is a u32, which wraps in a release build.
pub record_execution : CooldownState → ℕ → String → String → Option ℕ → CooldownState
unfolding note_block
record_execution state now pair strategy block_number =
    let noted =
      note_block
        (record state {
          last_global_execution = some now;
          last_pair_execution = insert pair now state.last_pair_execution;
          last_strategy_execution = insert strategy now state.last_strategy_execution;
          execution_timestamps = state.execution_timestamps ++ now ∷ [];
          execution_count = (state.execution_count + 1) % 2 ^ 32;
        })
        now block_number in
    record noted {
      execution_timestamps = filter (is_within now (secs 120)) noted.execution_timestamps;
    }

pub record_revert : CooldownState → ℕ → String → CooldownState
record_revert state now pair = record state {
  reverted_pairs = insert pair now state.reverted_pairs;
}

pub record CooldownStats : Type 0 where
  pub total_executions : ℕ
  pub executions_last_minute : ℕ
  pub active_cooldowns : ℕ
  pub reverted_pairs : ℕ
  pub blocked_blocks : ℕ
  pub last_block_executed : Option ℕ

pub get_stats : CooldownState → ℕ → CooldownStats
get_stats state now = record {
  total_executions = state.execution_count;
  executions_last_minute = executions_last_minute state now;
  active_cooldowns = length state.last_pair_execution;
  reverted_pairs = length state.reverted_pairs;
  blocked_blocks = length state.executed_blocks;
  last_block_executed = state.last_block_number;
}

pub reset : CooldownState → CooldownState
unfolding initial
reset state = initial

-- `CooldownService`: with no manager everything is allowed and nothing is kept.
pub record Manager : Type 0 where
  pub config : CooldownConfig
  pub state : CooldownState

pub check_execution :
    Option Manager → ℕ → String → String → Option ℕ → Result (Unit {0}) Refusal × Option Manager
unfolding can_execute
check_execution none now pair strategy current_block = (ok tt, none)
check_execution (some manager) now pair strategy current_block =
    let (r, state) = can_execute manager.config manager.state now pair strategy current_block in
    (r >>= (λ _. ok tt), some (record manager { state = state }))

pub service_record_execution : Option Manager → ℕ → String → String → Option ℕ → Option Manager
unfolding record_execution
service_record_execution none now pair strategy block_number = none
service_record_execution (some manager) now pair strategy block_number =
    some (record manager { state = record_execution manager.state now pair strategy block_number })

pub service_record_revert : Option Manager → ℕ → String → Option Manager
unfolding record_revert
service_record_revert none now pair = none
service_record_revert (some manager) now pair =
    some (record manager { state = record_revert manager.state now pair })
