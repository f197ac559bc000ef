-- ===== src/DexRateLimiter/Bound.antt =====
-- The bound on the requests of src/dex/rate_limiter.rs under any interleaving of tasks.
use Prim.Native.String.{String}
use dex_arbitrage.Prelude.{
  ℕ, ◌≤◌, ◌≡◌, refl, Bool, ltb, List, [], ◌∷◌, length, length-append, filter, inl, inr, Bool-cases,
  arith,
}
use dex_arbitrage.DexRateLimiter.{
  UltraRateLimiter, new, retained, first_lock, replace_oldest, forced_lock, cleanup,
}

-- What a task can do to the limiter between two locks of another.
pub data Step : Type 0 where
  first : (now : ℕ) → Step
  forced : (now : ℕ) → Step
  cleaned : (now : ℕ) → Step

unfoldable pub step : UltraRateLimiter → Step → UltraRateLimiter
step limiter (first now) = (first_lock limiter now).1
step limiter (forced now) = (forced_lock limiter now).1
step limiter (cleaned now) = cleanup limiter now

unfoldable pub run : UltraRateLimiter → List Step → UltraRateLimiter
run limiter [] = limiter
run limiter (s ∷ steps) = run (step limiter s) steps

length-filter_le : {A : Type 0} (p : A → Bool) (xs : List A) → length (filter p xs) ≤ length xs
length-filter_le p [] = omega arith
length-filter_le p (x ∷ xs) = let ih = length-filter_le p xs in ground arith

abbrev pub IsBounded : UltraRateLimiter → Type 0
IsBounded limiter = length limiter.requests ≤ limiter.max_requests

retained-le :
    (limiter : UltraRateLimiter) (now : ℕ) → length (retained limiter now) ≤ length limiter.requests
unfolding retained
retained-le limiter now = length-filter_le _ limiter.requests

length-replace_oldest :
    (requests : List ℕ) (now : ℕ) → length (replace_oldest requests now).1 ≡ length requests
unfolding replace_oldest
length-replace_oldest [] now = refl
length-replace_oldest (oldest ∷ requests) now = omega (arith, length-append requests (now ∷ []))

first_lock-IsBounded :
    (limiter : UltraRateLimiter) (now : ℕ)
    → IsBounded limiter
    → IsBounded (first_lock limiter now).1
unfolding first_lock
first_lock-IsBounded limiter now h =
    let kept = retained-le limiter now in
    let pushed = length-append (retained limiter now) (now ∷ []) in
    elim (Bool-cases (ltb (length (retained limiter now)) limiter.max_requests)) [
      | inl free ↦ rw free (ground arith)
      | inr full ↦ rw full (omega arith)
    ]

forced_lock-IsBounded :
    (limiter : UltraRateLimiter) (now : ℕ)
    → IsBounded limiter
    → IsBounded (forced_lock limiter now).1
unfolding forced_lock
forced_lock-IsBounded limiter now h =
    let kept = retained-le limiter now in
    let pushed = length-append (retained limiter now) (now ∷ []) in
    let replaced = length-replace_oldest (retained limiter now) now in
    elim (Bool-cases (ltb (length (retained limiter now)) limiter.max_requests)) [
      | inl free ↦ rw free (ground arith)
      | inr full ↦ rw full (omega arith)
    ]

step-IsBounded :
    (limiter : UltraRateLimiter) (s : Step) → IsBounded limiter → IsBounded (step limiter s)
unfolding step cleanup
step-IsBounded limiter (first now) h = first_lock-IsBounded limiter now h
step-IsBounded limiter (forced now) h = forced_lock-IsBounded limiter now h
step-IsBounded limiter (cleaned now) h = let kept = retained-le limiter now in omega arith

run-IsBounded :
    (limiter : UltraRateLimiter) (steps : List Step)
    → IsBounded limiter
    → IsBounded (run limiter steps)
unfolding run
run-IsBounded limiter [] h = h
run-IsBounded limiter (s ∷ steps) h =
    run-IsBounded (step limiter s) steps (step-IsBounded limiter s h)

step-max_requests :
    (limiter : UltraRateLimiter) (s : Step) → (step limiter s).max_requests ≡ limiter.max_requests
unfolding step first_lock forced_lock cleanup
step-max_requests limiter (first now) = ground arith
step-max_requests limiter (forced now) = ground arith
step-max_requests limiter (cleaned now) = refl

run-max_requests :
    (limiter : UltraRateLimiter) (steps : List Step)
    → (run limiter steps).max_requests ≡ limiter.max_requests
unfolding run
run-max_requests limiter [] = refl
run-max_requests limiter (s ∷ steps) =
    omega (arith, run-max_requests (step limiter s) steps, step-max_requests limiter s)

-- However the locks of the tasks and the cleanups interleave and whatever the times are, a limiter
-- never holds more requests than its limit.
pub run-bounded :
    (max_requests time_window : ℕ) (name : String) (start_time : ℕ) (steps : List Step)
    → length (run (new max_requests time_window name start_time) steps).requests ≤ max_requests
unfolding new
run-bounded max_requests time_window name start_time steps =
    let limiter = new max_requests time_window name start_time in
    omega (arith, run-IsBounded limiter steps (omega arith), run-max_requests limiter steps)
