-- ===== src/DexCircuitBreaker/Replay.antt =====
-- The breaker of src/dex/circuit_breaker.rs against the log of the calls made on it.
use Prim.Native.String.{String}
use dex_arbitrage.Prelude.{
  ℕ, ◌+◌, ◌*◌, ◌≡◌, Option, ◌&&◌, List, [], ◌∷◌, ltb, leb, if◌then◌else◌, string_eq,
}
use dex_arbitrage.Prelude.Map.{Map, lookup}
use dex_arbitrage.DexCircuitBreaker.{
  DexEntry, DexCircuitBreaker, new, entry_skips, record_failure, record_success, count_of, clear,
}

pub data Call : Type 0 where
  fails : (now : ℕ) (dex_name : String) → Call
  succeeds : (dex_name : String) → Call
  clears : Call

unfoldable pub apply : DexCircuitBreaker → Call → DexCircuitBreaker
apply b (fails now dex_name) = record_failure b now dex_name
apply b (succeeds dex_name) = record_success b dex_name
apply b clears = clear b

-- The breaker after the calls of a log, the latest call first.
unfoldable pub replay : ℕ → ℕ → List Call → DexCircuitBreaker
replay max_failures cooldown_secs [] = new max_failures cooldown_secs
replay max_failures cooldown_secs (call ∷ log) = apply (replay max_failures cooldown_secs log) call

-- The failures of an exchange since its last success, and the time of the last one.
unfoldable pub failures_in_a_row : List Call → String → ℕ
failures_in_a_row [] d = 0
failures_in_a_row (fails now e ∷ log) d =
    let n = failures_in_a_row log d in if string_eq.beq e d then n + 1 else n
failures_in_a_row (succeeds e ∷ log) d =
    let n = failures_in_a_row log d in if string_eq.beq e d then 0 else n
failures_in_a_row (clears ∷ log) d = 0

unfoldable pub last_failure_at : List Call → String → ℕ
last_failure_at [] d = 0
last_failure_at (fails now e ∷ log) d =
    let t = last_failure_at log d in if string_eq.beq e d then now else t
last_failure_at (succeeds e ∷ log) d = last_failure_at log d
last_failure_at (clears ∷ log) d = last_failure_at log d

-- An entry holds the failures in a row, and a cooldown from the last one once they suffice.
Holds : ℕ → ℕ → Option DexEntry → ℕ → ℕ → Type 0
Holds most cooldown o count at =
    (count_of o ≡ count)
    × ((now : ℕ) → entry_skips o now ≡ (ltb 0 count && (leb most count && ltb now (at + cooldown))))

module _ (most secs : ℕ) where
  HoldsAfter : List Call → String → Type 0
  HoldsAfter log d =
      Holds most (secs * 1_000_000_000) (lookup d (replay most secs log).state)
        (failures_in_a_row log d) (last_failure_at log d)
