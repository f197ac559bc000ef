-- ===== src/SmartRetry/Tests.antt =====
-- A retry of src/core/smart_retry.rs that succeeds, one that gives up, and one whose delay leaves
-- its range; with f64 replaced by hundredths.
use dex_arbitrage.Prelude.{
  ℕ, ◌+◌, ◌*◌, ◌/◌, ◌^◌, ◌≡◌, refl, true, false, if◌then◌else◌, ltb, Result, ok, err, [], ◌∷◌,
  arith,
}
use dex_arbitrage.Float.{F64Delay}
use dex_arbitrage.SmartRetry.{
  SmartRetryManager, returned, panicked, new, with_jitter, with_priority, exec,
}
use dex_arbitrage.SmartRetry.Attempts.{run_of, exec_first}

abbrev hundredths : F64Delay
hundredths = record {
  Carrier = ℕ;
  zero = 0;
  one = 100;
  two = 200;
  default_jitter = 15;
  four_tenths = 40;
  add = ◌+◌;
  mul = λ a b. a * b / 100;
  clamp = λ x lo hi. if ltb x lo then lo else if ltb hi x then hi else x;
  lt = ltb;
  from_u128 = λ n. n * 100;
  to_u64 = λ a. a / 100;
}

-- Three retries from a tenth of a second on, without jitter.
abbrev manager : SmartRetryManager ℕ
manager = record { max_retries = 3; base_delay = 100_000_000; jitter = 0; priority_mode = false }

-- The draws are a third of their bound.
abbrev thirds : ℕ → ℕ → ℕ
thirds attempt bound = bound / 3

abbrev third_time : ℕ → Result ℕ ℕ
third_time attempt = if ltb attempt 2 then err attempt else ok attempt

abbrev never : ℕ → Result ℕ ℕ
never attempt = err attempt

configured :
    with_jitter hundredths 0 (with_priority hundredths false (new hundredths 3 100_000_000))
    ≡ manager
unfolding new with_jitter with_priority
configured = refl

third_time_runs :
    exec hundredths manager thirds third_time
    ≡ record { calls = 3; sleeps = 100 ∷ 200 ∷ []; ending = returned (ok 2) }
unfolding exec
third_time_runs = refl

never_runs :
    exec hundredths manager thirds never
    ≡ record { calls = 4; sleeps = 100 ∷ 200 ∷ 400 ∷ []; ending = returned (err 3) }
unfolding exec
never_runs = refl

jittered_runs :
    exec hundredths (with_priority hundredths true (new hundredths 1 100_000_000)) thirds never
    ≡ record { calls = 2; sleeps = 44 ∷ []; ending = returned (err 1) }
unfolding exec new with_priority
jittered_runs = refl

overflow_panics :
    exec hundredths (record manager { base_delay = 2 ^ 63 * 1_000_000_000 }) thirds never
    ≡ record { calls = 1; sleeps = 9_223_372_036_854_775_808_000 ∷ []; ending = panicked }
unfolding exec
overflow_panics = refl

exec_first_example :
    exec hundredths manager thirds third_time
    ≡ run_of hundredths manager thirds third_time 2 0 100_000_000 (ok 2)
exec_first_example =
    exec_first hundredths manager thirds third_time 2 (omega arith) ((0, refl), ((1, refl), tt))
      refl (omega arith)
