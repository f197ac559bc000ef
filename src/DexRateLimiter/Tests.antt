-- ===== src/DexRateLimiter/Tests.antt =====
-- Calls of src/dex/rate_limiter.rs, and the theorems at them.
use dex_arbitrage.Prelude.{ℕ, ◌≤◌, ◌≡◌, ◌≢◌, refl, some, none, List, [], ◌∷◌, ◌++◌, length, arith}
use dex_arbitrage.DexRateLimiter.{
  UltraRateLimiter, new, retained, first_lock, replace_oldest, forced_lock, Round, acquire,
}
use dex_arbitrage.DexRateLimiter.Bound.{first, forced, cleaned, run, run-bounded}
use dex_arbitrage.DexRateLimiter.Liveness.{acquire_returns}

-- One request in five seconds, and one was let in at 10 seconds.
abbrev busy : UltraRateLimiter
busy = record {
  requests = 10_000_000_000 ∷ [];
  max_requests = 1;
  time_window = 5_000_000_000;
  name = "dex_calls";
  start_time = 0;
}

abbrev round_at : ℕ → Round
round_at now = record { now = now; later = now; at_first = busy; at_second = busy }

abbrev three_rounds : List Round
three_rounds = round_at 11_000_000_000 ∷ round_at 11_025_000_000 ∷ round_at 11_075_000_000 ∷ []

still_waits : acquire 11_000_000_000 0 three_rounds ≡ none
unfolding acquire first_lock forced_lock retained
still_waits = refl

-- The fourth round takes the place of the request of a second ago.
forced_in :
    acquire 11_000_000_000 0 (three_rounds ++ round_at 13_150_000_000 ∷ [])
    ≡ some (record busy { requests = 13_150_000_000 ∷ [] })
unfolding acquire first_lock forced_lock retained replace_oldest
forced_in = refl

acquire_returns_example :
    acquire 11_000_000_000 0 (three_rounds ++ round_at 13_150_000_000 ∷ []) ≢ none
acquire_returns_example =
    acquire_returns 11_000_000_000 three_rounds (round_at 13_150_000_000) [] (omega arith)
      (omega arith) (omega arith)

run-bounded_example :
    length (run (new 1 5 "dex_calls" 0) (first 3 ∷ first 4 ∷ forced 5 ∷ cleaned 20 ∷ [])).requests
    ≤ 1
run-bounded_example = run-bounded 1 5 "dex_calls" 0 (first 3 ∷ first 4 ∷ forced 5 ∷ cleaned 20 ∷ [])
