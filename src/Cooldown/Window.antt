-- ===== src/Cooldown/Window.antt =====
-- The minute window of `CooldownManager` (src/config/mod.rs) over the executions of its callers.
use Prim.Native.String.{String}
use dex_arbitrage.Prelude.{
  ℕ, ◌+◌, ◌-◌, ◌∙◌, ◌≤◌, ◌<◌, ◌≡◌, refl, ap, sym, subst, Option, Bool, true, false, ◌&&◌, List, [],
  ◌∷◌, ◌++◌, arith, ok, err, Result, leb, ltb, if◌then◌else◌, string_eq, nat_eq, length, filter,
  length-append, filter-append, inl, inr, Bool-cases,
}
use dex_arbitrage.Cooldown.{
  CooldownConfig, CooldownState, Refusal, is_within, secs, executions_last_minute, can_execute,
  record_execution, record_revert, initial,
}
use dex_arbitrage.Cooldown.Timestamps.{
  record_execution-minute, can_execute-executions_last_minute, executions_last_minute-later,
}
use dex_arbitrage.Cooldown.Gate.{can_execute_ok}

-- What the callers do, in the order in which the lock lets them in. A caller asks, and later either
-- executes, which it records, or gives its permission up; others may come in between.
pub data Event : Type 0 where
  asks : (pair strategy : String) (block : Option ℕ) → Event
  executes : (pair strategy : String) (block : Option ℕ) → Event
  gives_up : Event
  reverts : (pair : String) → Event

-- The manager and the clock, with the permissions not used yet and the instants of all executions.
pub record World : Type 0 where
  pub state : CooldownState
  pub now : ℕ
  pub permits : ℕ
  pub executed : List ℕ

abbrev pub begin : ℕ → World
begin now = record { state = initial; now = now; permits = 0; executed = [] }

abbrev pub is_allowed : Result Bool Refusal → Bool
is_allowed (ok allowed) = allowed
is_allowed (err refusal) = false

unfoldable pub happen : CooldownConfig → World → Event → World
happen config w (asks pair strategy block) =
    let verdict = can_execute config w.state w.now pair strategy block in
    record w {
      state = verdict.1;
      permits = if is_allowed verdict.0 then w.permits + 1 else w.permits;
    }
happen config w (executes pair strategy block) = record w {
  state = record_execution w.state w.now pair strategy block;
  permits = w.permits - 1;
  executed = w.executed ++ w.now ∷ [];
}
happen config w gives_up = record w { permits = w.permits - 1 }
happen config w (reverts pair) = record w { state = record_revert w.state w.now pair }

abbrev pub wait : World → ℕ → World
wait w time = record w { now = w.now + time }

-- Each event with the time since the one before it.
unfoldable pub run : CooldownConfig → World → List (ℕ × Event) → World
run config w [] = w
run config w ((time, event) ∷ events) = run config (happen config (wait w time) event) events

abbrev has_permit : World → Event → Bool
has_permit w (executes pair strategy block) = ltb 0 w.permits
has_permit w _ = true

-- Nobody executes without a permission, and at most `callers` permissions are unused at a time.
unfoldable pub keeps_to : CooldownConfig → (callers : ℕ) → World → List (ℕ × Event) → Bool
keeps_to config callers w [] = true
keeps_to config callers w ((time, event) ∷ events) =
    let after = happen config (wait w time) event in
    let rest = keeps_to config callers after events in
    has_permit w event && leb after.permits callers && rest

-- The executions of the minute that ends `at` an instant, from the instants themselves.
unfoldable pub executed_last_minute : World → (at : ℕ) → ℕ
executed_last_minute w at = length (filter (is_within at (secs 60)) w.executed)

is_allowed_lem : (r : Result Bool Refusal) → is_allowed r ≡ true → r ≡ ok true
is_allowed_lem (ok true) e = refl
is_allowed_lem (ok false) e = cc
is_allowed_lem (err refusal) e = cc

length-filter-one : (p : ℕ → Bool) (x : ℕ) → length (filter p (x ∷ [])) ≤ 1
length-filter-one p x = ground arith

length-filter-append :
    (p : ℕ → Bool) (xs ys : List ℕ)
    → length (filter p (xs ++ ys)) ≡ length (filter p xs) + length (filter p ys)
length-filter-append p xs ys =
    ap length (filter-append p xs ys) ∙ length-append (filter p xs) (filter p ys)

module _ (config : CooldownConfig) (callers : ℕ) (on : config.enabled ≡ true) where
  -- At an instant: the state counts the executions that there were, and with the permissions not
  -- used yet they are at most one below the limit and the number of callers together.
  record Holds (w : World) (at : ℕ) : Type 0 where
    counts : executed_last_minute w at ≡ executions_last_minute w.state at
    below :
        executions_last_minute w.state at + w.permits < config.max_concurrent_executions + callers

  IsBounded : World → Type 0
  IsBounded w = (at : ℕ) → w.now ≤ at → Holds w at

  asks-IsBounded :
      (w : World) (pair strategy : String) (block : Option ℕ)
      → IsBounded w
      → (happen config w (asks pair strategy block)).permits ≤ callers
      → IsBounded (happen config w (asks pair strategy block))
  unfolding IsBounded happen executed_last_minute
  asks-IsBounded w pair strategy block b few at le =
      let v = can_execute config w.state w.now pair strategy block in
      let h = b at le in
      let same = can_execute-executions_last_minute config w.state w.now at pair strategy block in
      record {
        counts = h.counts ∙ sym same;
        below = elim (Bool-cases (is_allowed v.0)) [
          | inl given ↦
              let allowed =
                can_execute_ok config w.now pair strategy w.state block on
                  (is_allowed_lem v.0 given) in
              let older = executions_last_minute-later w.state w.now at le in
              let room =
                subst (λ b. (if b then w.permits + 1 else w.permits) ≤ callers) given few in
              rw given (omega (arith, allowed.below_limit, older, same, room))
          | inr refused ↦ rw refused (omega (arith, h.below, same))
        ];
      }

  executes-IsBounded :
      (w : World) (pair strategy : String) (block : Option ℕ)
      → IsBounded w
      → 0 < w.permits
      → IsBounded (happen config w (executes pair strategy block))
  unfolding IsBounded happen executed_last_minute executions_last_minute
  executes-IsBounded w pair strategy block b one at le =
      let h = b at le in
      let recorded = record_execution-minute w.state w.now at pair strategy block le in
      let p = is_within at (secs 60) in
      let log = length-filter-append p w.executed (w.now ∷ []) in
      let kept = length-filter-append p w.state.execution_timestamps (w.now ∷ []) in
      let new = length-filter-one p w.now in
      record {
        counts = omega (arith, h.counts, recorded, log, kept);
        below = omega (arith, h.below, recorded, kept, new);
      }

  gives_up-IsBounded : (w : World) → IsBounded w → IsBounded (happen config w gives_up)
  unfolding IsBounded happen executed_last_minute
  gives_up-IsBounded w b at le =
      let h = b at le in record { counts = h.counts; below = omega (arith, h.below) }

  reverts-IsBounded :
      (w : World) (pair : String) → IsBounded w → IsBounded (happen config w (reverts pair))
  unfolding IsBounded happen executed_last_minute record_revert executions_last_minute
  reverts-IsBounded w pair b at le =
      let h = b at le in record { counts = h.counts; below = h.below }

  wait-IsBounded : (w : World) (time : ℕ) → IsBounded w → IsBounded (wait w time)
  unfolding IsBounded executed_last_minute
  wait-IsBounded w time b at le =
      let h = b at (omega (arith, le)) in record { counts = h.counts; below = h.below }

  happen-IsBounded :
      (w : World) (event : Event)
      → IsBounded w
      → has_permit w event ≡ true
      → (happen config w event).permits ≤ callers
      → IsBounded (happen config w event)
  happen-IsBounded w (asks pair strategy block) b may few =
      asks-IsBounded w pair strategy block b few
  happen-IsBounded w (executes pair strategy block) b may few =
      executes-IsBounded w pair strategy block b (ground arith)
  happen-IsBounded w gives_up b may few = gives_up-IsBounded w b
  happen-IsBounded w (reverts pair) b may few = reverts-IsBounded w pair b

  run-IsBounded :
      (w : World) (events : List (ℕ × Event))
      → IsBounded w
      → keeps_to config callers w events ≡ true
      → IsBounded (run config w events)
  unfolding run keeps_to
  run-IsBounded w [] b kept = b
  run-IsBounded w ((time, event) ∷ events) b kept =
      let after = happen config (wait w time) event in
      run-IsBounded after events
        (happen-IsBounded (wait w time) event (wait-IsBounded w time b) (ground arith)
          (ground arith))
        (ground arith)

  begin-IsBounded : (start : ℕ) → 0 < callers → IsBounded (begin start)
  unfolding IsBounded initial executed_last_minute executions_last_minute
  begin-IsBounded start some_caller at le = record { counts = refl; below = omega arith }

-- From a new manager that is not reset, while cooldowns are enabled, for a positive number of
-- `callers`: where nobody executes without a permission and at most `callers` permissions are unused
-- at a time, whatever the events and the times between them are, in every minute that ends after
-- the last of them the executions, by their own instants, are fewer than `max_concurrent_executions`
-- and `callers` together, so at most the limit with one caller; and the manager counts exactly those.
pub run-executed_last_minute :
    (config : CooldownConfig) (callers start : ℕ) (events : List (ℕ × Event))
    → config.enabled ≡ true
    → 0 < callers
    → keeps_to config callers (begin start) events ≡ true
    → (at : ℕ) → (run config (begin start) events).now ≤ at
    → (executed_last_minute (run config (begin start) events) at
        < config.max_concurrent_executions + callers)
      × (executions_last_minute (run config (begin start) events).state at
          ≡ executed_last_minute (run config (begin start) events) at)
unfolding IsBounded
run-executed_last_minute config callers start events on some_caller kept at le =
    let h =
      run-IsBounded config callers on (begin start) events
        (begin-IsBounded config callers on start some_caller) kept at le in
    (omega (arith, h.counts, h.below), sym h.counts)
