-- ===== src/DexCircuitBreaker.antt =====
-- `DexCircuitBreaker` of src/dex/circuit_breaker.rs: the exchanges that are skipped after failures.
-- Time is an argument in nanoseconds, and the lock makes each call one step.
pub mod Replay
mod Tests
use Prim.Native.String.{String}
use dex_arbitrage.Prelude.{
  ℕ, ◌+◌, ◌*◌, ◌%◌, ◌^◌, Option, none, some, Bool, true, false, List, [], ◌∷◌, ltb, leb,
  if◌then◌else◌, string_eq,
}
use dex_arbitrage.Prelude.Map.{Map, lookup, insert, or_insert}

pub record DexEntry : Type 0 where
  pub failures : ℕ
  pub last_failure : Option ℕ
  pub cooldown_until : Option ℕ

pub record DexCircuitBreaker : Type 0 where
  pub state : Map String DexEntry
  pub max_failures : ℕ
  pub cooldown : ℕ

pub new : ℕ → ℕ → DexCircuitBreaker
new max_failures cooldown_secs = record {
  state = [];
  max_failures = max_failures;
  cooldown = cooldown_secs * 1_000_000_000;
}

entry_skips : Option DexEntry → ℕ → Bool
entry_skips none now = false
entry_skips (some entry) now = elim entry.cooldown_until [
  | none ↦ false
  | some until ↦ ltb now until
]

pub should_skip : DexCircuitBreaker → ℕ → String → Bool
should_skip b now dex_name = entry_skips (lookup dex_name b.state) now

pub is_in_cooldown : DexCircuitBreaker → ℕ → String → Bool
is_in_cooldown b now dex_name = entry_skips (lookup dex_name b.state) now

-- The entry that `or_insert` gives.
entry_or_new : Option DexEntry → DexEntry
entry_or_new none = record { failures = 0; last_failure = none; cooldown_until = none }
entry_or_new (some entry) = entry

-- `failures` is a u32, which wraps in a release build.
fail_entry : ℕ → ℕ → ℕ → DexEntry → DexEntry
fail_entry max_failures cooldown now entry =
    let failures = (entry.failures + 1) % 2 ^ 32 in
    record {
      failures = failures;
      last_failure = some now;
      cooldown_until =
          if leb max_failures failures then some (now + cooldown) else entry.cooldown_until;
    }

pub record_failure : DexCircuitBreaker → ℕ → String → DexCircuitBreaker
record_failure b now dex_name = record b {
  state =
      insert dex_name
        (fail_entry b.max_failures b.cooldown now (entry_or_new (lookup dex_name b.state))) b.state;
}

reset_entry : DexEntry → DexEntry
reset_entry entry =
    if ltb 0 entry.failures then record entry { failures = 0; cooldown_until = none } else entry

pub record_success : DexCircuitBreaker → String → DexCircuitBreaker
record_success b dex_name = elim (lookup dex_name b.state) [
  | none ↦ b
  | some entry ↦ record b { state = insert dex_name (reset_entry entry) b.state }
]

count_of : Option DexEntry → ℕ
count_of none = 0
count_of (some entry) = entry.failures

pub get_failure_count : DexCircuitBreaker → String → ℕ
get_failure_count b dex_name = count_of (lookup dex_name b.state)

pub clear : DexCircuitBreaker → DexCircuitBreaker
clear b = record b { state = [] }

-- `list_states`, in the order of the list.
pub list_states : Map String DexEntry → ℕ → List (String × (ℕ × Bool))
list_states [] now = []
list_states ((dex, entry) ∷ state) now =
    (dex, (entry.failures, entry_skips (some entry) now)) ∷ list_states state now
