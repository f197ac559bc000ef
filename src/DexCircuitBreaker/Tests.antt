-- ===== src/DexCircuitBreaker/Tests.antt =====
-- Runs of src/dex/circuit_breaker.rs, and the theorems at such logs.
use dex_arbitrage.Prelude.{◌≡◌, refl, true, false, List, [], ◌∷◌, string_eq}
use dex_arbitrage.Prelude.Map.{lookup, insert}
use dex_arbitrage.DexCircuitBreaker.{
  should_skip, is_in_cooldown, list_states, entry_skips, record_failure, record_success, new,
  fail_entry, reset_entry, entry_or_new,
}
use dex_arbitrage.DexCircuitBreaker.Replay.{Call, fails, succeeds, apply, replay}

-- Two failures in a row on one exchange, and one on another, which then succeeds.
abbrev two_failures : List Call
two_failures =
    succeeds "QuickSwap"
    ∷ fails 8_000 "Uniswap"
    ∷ fails 7_000 "QuickSwap"
    ∷ fails 5_000 "Uniswap"
    ∷ []

skipped_for_a_second :
    (should_skip (replay 2 1 two_failures) 1_000_007_999 "Uniswap" ≡ true)
    × (is_in_cooldown (replay 2 1 two_failures) 1_000_008_000 "Uniswap" ≡ false)
    × (should_skip (replay 1 1 two_failures) 9_000 "QuickSwap" ≡ false)
unfolding should_skip is_in_cooldown entry_skips replay apply new record_failure record_success
    fail_entry reset_entry entry_or_new lookup insert
skipped_for_a_second = (refl, refl, refl)

listed :
    list_states (replay 2 1 two_failures).state 9_000
    ≡ ("Uniswap", (2, true)) ∷ ("QuickSwap", (0, false)) ∷ []
unfolding list_states entry_skips replay apply new record_failure record_success fail_entry
    reset_entry entry_or_new lookup insert
listed = refl
