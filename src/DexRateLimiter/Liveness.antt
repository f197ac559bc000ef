-- ===== src/DexRateLimiter/Liveness.antt =====
-- When `acquire` of src/dex/rate_limiter.rs returns.
use dex_arbitrage.Prelude.{
  ℕ, ◌+◌, ◌<◌, ◌≤◌, ◌≡◌, ◌≢◌, refl, none, true, false, ltb, List, [], ◌∷◌, ◌++◌, length, inl, inr,
  Bool-cases, arith,
}
use dex_arbitrage.DexRateLimiter.{
  UltraRateLimiter, retained, replace_oldest, forced_lock, Round, two_seconds, acquire,
}

replace_oldest_full :
    (kept : List ℕ) (now limit : ℕ)
    → 0 < limit
    → ltb (length kept) limit ≡ false
    → (replace_oldest kept now).0 ≡ true
unfolding replace_oldest
replace_oldest_full [] now limit positive full = ground arith
replace_oldest_full (oldest ∷ kept) now limit positive full = refl

-- The forced lock lets a request in, unless the limit is 0.
forced_lock-succeeds :
    (limiter : UltraRateLimiter) (now : ℕ)
    → 0 < limiter.max_requests
    → (forced_lock limiter now).0 ≡ true
unfolding forced_lock
forced_lock-succeeds limiter now positive =
    let full = replace_oldest_full (retained limiter now) now limiter.max_requests positive in
    elim (Bool-cases (ltb (length (retained limiter now)) limiter.max_requests)) [
      | inl free ↦ rw free refl
      | inr at_limit ↦ rw at_limit (full at_limit)
    ]

returns_after :
    (start retry_count : ℕ) (before : List Round) (round : Round) (rounds : List Round)
    → 3 ≤ retry_count + length before
    → 0 < round.at_second.max_requests
    → start + two_seconds < round.later
    → acquire start retry_count (before ++ round ∷ rounds) ≢ none
unfolding acquire
returns_after start retry_count [] round rounds enough positive late =
    let succeeds = forced_lock-succeeds round.at_second round.now positive in ground arith
returns_after start retry_count (r ∷ before) round rounds enough positive late =
    let rest =
      returns_after start (retry_count + 1) before round rounds (omega arith) positive late in
    ground arith

-- Whatever the other tasks do between the locks, a call of `acquire` with a positive limit returns
-- by the first round that comes after three others and in which more than two seconds have gone by.
pub acquire_returns :
    (start : ℕ) (before : List Round) (round : Round) (rounds : List Round)
    → 3 ≤ length before
    → 0 < round.at_second.max_requests
    → start + two_seconds < round.later
    → acquire start 0 (before ++ round ∷ rounds) ≢ none
acquire_returns start before round rounds enough =
    returns_after start 0 before round rounds (omega arith)
