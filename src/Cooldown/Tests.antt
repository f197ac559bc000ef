-- ===== src/Cooldown/Tests.antt =====
-- Runs of the cooldown manager of src/config/mod.rs, and the theorems at such histories.
use dex_arbitrage.Prelude.{
  ℕ, ◌+◌, ◌<◌, ◌≤◌, ◌≡◌, refl, none, some, true, List, [], ◌∷◌, arith, ok, err,
}
use dex_arbitrage.Prelude.Map.{lookup, insert, remove, retain}
use dex_arbitrage.Cooldown.{
  check_state, check_reverted, check_pair_and_strategy, refused_or, block_refusal, minute_refusal,
  wait_refusal, cleanup_old_data, note_block, CooldownConfig, CooldownState, millis, secs, initial,
  can_execute, record_execution, record_revert, executions_last_minute, block_recorded,
  global_cooldown, pair_cooldown,
}
use dex_arbitrage.Cooldown.Window.{
  Event, asks, executes, reverts, begin, happen, run, keeps_to, executed_last_minute,
  run-executed_last_minute,
}

-- Two executions a minute, 2 seconds apart, a pair every 3 seconds.
abbrev two_a_minute : CooldownConfig
two_a_minute = record {
  enabled = true;
  global_ms = 2000;
  pair_ms = 3000;
  strategy_ms = 0;
  revert_penalty_ms = 1_200_000;
  max_concurrent_executions = 2;
}

-- The pair is executed in block 100 at second 50.
abbrev one_execution : CooldownState
one_execution = record_execution initial (secs 50) "WETH/USDC" "cycle" (some 100)

same_block_is_refused :
    (can_execute two_a_minute one_execution (secs 60) "WETH/DAI" "cycle" (some 100)).0
    ≡ err (block_recorded 100)
unfolding can_execute record_execution record_revert initial check_state check_reverted
    check_pair_and_strategy refused_or block_refusal minute_refusal wait_refusal
    executions_last_minute cleanup_old_data note_block lookup insert remove retain
same_block_is_refused = refl

too_early :
    (can_execute two_a_minute one_execution (secs 51) "WETH/DAI" "cycle" (some 101)).0
    ≡ err (global_cooldown 1000)
unfolding can_execute record_execution record_revert initial check_state check_reverted
    check_pair_and_strategy refused_or block_refusal minute_refusal wait_refusal
    executions_last_minute cleanup_old_data note_block lookup insert remove retain
too_early = refl

pair_too_early :
    (can_execute two_a_minute one_execution (millis 52_500) "WETH/USDC" "cycle" (some 101)).0
    ≡ err (pair_cooldown "WETH/USDC" 500)
unfolding can_execute record_execution record_revert initial check_state check_reverted
    check_pair_and_strategy refused_or block_refusal minute_refusal wait_refusal
    executions_last_minute cleanup_old_data note_block lookup insert remove retain
pair_too_early = refl

-- A penalty of 20 minutes is over after ten, when the entry is dropped.
long_penalty_is_dropped :
    (can_execute two_a_minute
      (record_revert initial (secs 50) "WETH/USDC")
      (secs 650)
      "WETH/USDC"
      "cycle"
      none).0
    ≡ ok true
unfolding can_execute record_execution record_revert initial check_state check_reverted
    check_pair_and_strategy refused_or block_refusal minute_refusal wait_refusal
    executions_last_minute cleanup_old_data note_block lookup insert remove retain
long_penalty_is_dropped = refl

allowed_again :
    (can_execute two_a_minute one_execution (secs 60) "WETH/USDC" "cycle" (some 101)).0 ≡ ok true
unfolding can_execute record_execution record_revert initial check_state check_reverted
    check_pair_and_strategy refused_or block_refusal minute_refusal wait_refusal
    executions_last_minute cleanup_old_data note_block lookup insert remove retain
allowed_again = refl

-- One caller at a time: the third execution is refused by the minute, so that nobody is allowed.
abbrev busy : List (ℕ × Event)
busy =
    (secs 1, asks "WETH/USDC" "cycle" (some 100))
    ∷ (millis 300, executes "WETH/USDC" "cycle" (some 100))
    ∷ (secs 1, asks "WETH/DAI" "cycle" (some 101))
    ∷ (secs 2, asks "WETH/DAI" "cycle" (some 102))
    ∷ (millis 300, executes "WETH/DAI" "cycle" (some 102))
    ∷ (secs 1, reverts "WETH/DAI")
    ∷ (secs 35, asks "WETH/USDT" "cycle" (some 103))
    ∷ []

two_in_a_minute :
    (executed_last_minute (run two_a_minute (begin 0) busy) (secs 45) ≡ 2)
    × ((run two_a_minute (begin 0) busy).permits ≡ 0)
unfolding run happen executed_last_minute can_execute record_execution record_revert initial
    check_state check_reverted check_pair_and_strategy refused_or block_refusal minute_refusal
    wait_refusal executions_last_minute cleanup_old_data note_block lookup insert remove retain
two_in_a_minute = (refl, refl)

-- Two callers that both ask before one of them has recorded are both allowed.
abbrev two_callers : List (ℕ × Event)
two_callers =
    (secs 1, asks "WETH/USDC" "cycle" (some 100))
    ∷ (secs 0, executes "WETH/USDC" "cycle" (some 100))
    ∷ (secs 3, asks "WETH/DAI" "cycle" (some 101))
    ∷ (secs 0, asks "WETH/USDT" "cycle" (some 101))
    ∷ (secs 1, executes "WETH/DAI" "cycle" (some 101))
    ∷ (secs 0, executes "WETH/USDT" "cycle" (some 101))
    ∷ []

one_more_than_the_limit :
    (executed_last_minute (run two_a_minute (begin 0) two_callers) (secs 10) ≡ 3)
    × (keeps_to two_a_minute 2 (begin 0) two_callers ≡ true)
unfolding run keeps_to happen executed_last_minute can_execute record_execution record_revert
    initial check_state check_reverted check_pair_and_strategy refused_or block_refusal
    minute_refusal wait_refusal executions_last_minute cleanup_old_data note_block lookup insert
    remove retain
one_more_than_the_limit = (refl, refl)

busy_keeps : keeps_to two_a_minute 1 (begin 0) busy ≡ true
unfolding keeps_to happen can_execute record_execution record_revert initial check_state
    check_reverted check_pair_and_strategy refused_or block_refusal minute_refusal wait_refusal
    executions_last_minute cleanup_old_data note_block lookup insert remove retain
busy_keeps = refl

busy_end : (run two_a_minute (begin 0) busy).now ≤ secs 45
unfolding run happen
busy_end = omega arith

run-executed_last_minute_example :
    (executed_last_minute (run two_a_minute (begin 0) busy) (secs 45)
      < two_a_minute.max_concurrent_executions + 1)
    × (executions_last_minute (run two_a_minute (begin 0) busy).state (secs 45)
        ≡ executed_last_minute (run two_a_minute (begin 0) busy) (secs 45))
run-executed_last_minute_example =
    run-executed_last_minute two_a_minute 1 0 busy refl (omega arith) busy_keeps (secs 45) busy_end
