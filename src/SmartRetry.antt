-- ===== src/SmartRetry.antt =====
-- src/core/smart_retry.rs: an operation is called again after a failure, with longer and longer
-- pauses. The operation is the sequence of its results, the random numbers are a sequence of
-- functions of their bound, f64 is an argument, and times are in nanoseconds.
pub mod Attempts
mod Tests
use dex_arbitrage.Prelude.{
  ℕ, zero, suc, ◌+◌, ◌*◌, ◌/◌, ◌^◌, Bool, true, false, if◌then◌else◌, ltb, Result, ok, err, List,
  [], ◌∷◌,
}
use dex_arbitrage.Float.{F64Delay}

-- `Duration::MAX` and one nanosecond: a product from there on is a panic.
abbrev pub duration_limit : ℕ
duration_limit = 2 ^ 64 * 1_000_000_000

pub record SmartRetryManager (Rate : Type 0) : Type 0 where
  pub max_retries : ℕ
  pub base_delay : ℕ
  pub jitter : Rate
  pub priority_mode : Bool

-- What a run of `exec` did: the calls, the pauses in milliseconds, and how it ended.
pub data Ending (T E : Type 0) : Type 0 where
  returned : Result T E → Ending T E
  panicked : Ending T E

pub record Run (T E : Type 0) : Type 0 where
  pub calls : ℕ
  pub sleeps : List ℕ
  pub ending : Ending T E

module _ (f : F64Delay) where
  open f use {Carrier, one, two, mul, add, clamp, lt, to_u64, from_u128}

  pub new : (max_retries base_delay : ℕ) → SmartRetryManager Carrier
  new max_retries base_delay = record {
    max_retries = max_retries;
    base_delay = base_delay;
    jitter = f.default_jitter;
    priority_mode = false;
  }

  pub with_jitter : Carrier → SmartRetryManager Carrier → SmartRetryManager Carrier
  with_jitter jitter m = record m { jitter = clamp jitter f.zero one }

  pub with_priority : Bool → SmartRetryManager Carrier → SmartRetryManager Carrier
  with_priority enabled m = record m { priority_mode = enabled }

  -- The pause of an attempt, in milliseconds.
  pub pause_ms : SmartRetryManager Carrier → (random : Carrier → Carrier) → (delay : ℕ) → ℕ
  pause_ms m random delay =
      let delay_ms = from_u128 (delay / 1_000_000) in
      let factor = add one (random (mul two m.jitter)) in
      let jittered = if lt f.zero m.jitter then mul delay_ms factor else delay_ms in
      to_u64 (if m.priority_mode then mul jittered f.four_tenths else jittered)

  module _ {T E : Type 0} (m : SmartRetryManager Carrier) (random : ℕ → Carrier → Carrier)
      (operation : ℕ → Result T E) where
    one_more : (slept : ℕ) → Run T E → Run T E
    one_more slept run = record run { calls = run.calls + 1; sleeps = slept ∷ run.sleeps }

    -- The loop from an attempt on, with the retries that are left.
    pub exec_from : (left attempt delay : ℕ) → Run T E
    unfolding one_more pause_ms
    exec_from zero attempt delay = record {
      calls = 1;
      sleeps = [];
      ending = returned (operation attempt);
    }
    exec_from (suc left) attempt delay = elim (operation attempt) [
      | ok v ↦ record { calls = 1; sleeps = []; ending = returned (ok v) }
      | err e ↦
          let rest = exec_from left (attempt + 1) (delay * 2) in
          let stopped : Run T E = record { calls = 0; sleeps = []; ending = panicked } in
          one_more (pause_ms m (random attempt) delay)
            (if ltb (delay * 2) duration_limit then rest else stopped)
    ]

    pub exec : Run T E
    unfolding exec_from
    exec = exec_from m.max_retries 0 m.base_delay

    execute_with_retry : Run T E
    unfolding exec
    execute_with_retry = exec
