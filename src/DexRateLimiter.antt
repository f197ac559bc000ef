-- ===== src/DexRateLimiter.antt =====
-- src/dex/rate_limiter.rs: a limit on the requests in a sliding window. Times are nanoseconds on
-- one clock. `acquire` locks the requests at most twice in a round, and other tasks may have
-- changed them between two locks: a round carries what each of its locks finds.
pub mod Bound
pub mod Liveness
mod Tests
use Prim.Native.String.{String}
use dex_arbitrage.Prelude.{
  ℕ, ◌+◌, ◌-◌, min, Option, none, some, Bool, true, false, if◌then◌else◌, ltb, leb, List, [], ◌∷◌,
  ◌++◌, length, filter,
}

pub record UltraRateLimiter : Type 0 where
  pub requests : List ℕ
  pub max_requests : ℕ
  pub time_window : ℕ
  pub name : String
  pub start_time : ℕ

pub new : (max_requests time_window : ℕ) → String → (now : ℕ) → UltraRateLimiter
new max_requests time_window name now = record {
  requests = [];
  max_requests = max_requests;
  time_window = time_window;
  name = name;
  start_time = now;
}

-- `requests.retain(|&time| time >= cutoff)`, with the cutoff at `now`
unfoldable pub retained : UltraRateLimiter → ℕ → List ℕ
retained limiter now =
    let cutoff = now - min (now - limiter.start_time) limiter.time_window in
    filter (leb cutoff) limiter.requests

-- The first lock of a round: a request is let in below the limit.
unfoldable pub first_lock : UltraRateLimiter → ℕ → Bool × UltraRateLimiter
unfolding retained
first_lock limiter now =
    let kept = retained limiter now in
    if ltb (length kept) limiter.max_requests
    then (true, record limiter { requests = kept ++ now ∷ [] })
    else (false, record limiter { requests = kept })

-- `requests.remove(0); requests.push(now)`, where there is one
replace_oldest : List ℕ → ℕ → Bool × List ℕ
replace_oldest [] now = (false, [])
replace_oldest (oldest ∷ requests) now = (true, requests ++ now ∷ [])

-- The second lock, after the retries: the oldest request makes room.
unfoldable pub forced_lock : UltraRateLimiter → ℕ → Bool × UltraRateLimiter
unfolding retained replace_oldest
forced_lock limiter now =
    let kept = retained limiter now in
    let replaced = replace_oldest kept now in
    if ltb (length kept) limiter.max_requests
    then (true, record limiter { requests = kept ++ now ∷ [] })
    else (replaced.0, record limiter { requests = replaced.1 })

pub record Round : Type 0 where
  pub now : ℕ
  -- when `start.elapsed()` is read
  pub later : ℕ
  pub at_first : UltraRateLimiter
  pub at_second : UltraRateLimiter

abbrev pub max_retries : ℕ
max_retries = 3

-- `Duration::from_secs(2)`
abbrev pub two_seconds : ℕ
two_seconds = 2_000_000_000

-- The limiter that `acquire` leaves when it returns, or `none` while it is still waiting.
pub acquire : (start retry_count : ℕ) → List Round → Option UltraRateLimiter
unfolding first_lock forced_lock
acquire start retry_count [] = none
acquire start retry_count (round ∷ rounds) =
    let rest = acquire start (retry_count + 1) rounds in
    let first = first_lock round.at_first round.now in
    let forced = forced_lock round.at_second round.now in
    if first.0
    then some first.1
    else if ltb max_retries (retry_count + 1)
    then (if ltb two_seconds (round.later - start)
        then (if forced.0 then some forced.1 else rest)
        else rest)
    else rest

pub cleanup : UltraRateLimiter → ℕ → UltraRateLimiter
unfolding retained
cleanup limiter now = record limiter { requests = retained limiter now }

pub get_usage : UltraRateLimiter → ℕ → ℕ × ℕ
unfolding retained
get_usage limiter now = (length (retained limiter now), limiter.max_requests)
