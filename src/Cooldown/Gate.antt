-- ===== src/Cooldown/Gate.antt =====
-- What a permission of `CooldownManager::can_execute` (src/config/mod.rs) guarantees.
use Prim.Native.String.{String}
use dex_arbitrage.Prelude.{
  ℕ, ◌-◌, ◌≤◌, ◌<◌, ◌≡◌, ◌≢◌, refl, inl, inr, Option, none, some, true, min, arith, ok, Bool-cases,
  string_eq, nat_eq,
}
use dex_arbitrage.Prelude.Map.{Map, lookup, retain, lookup-retain}
use dex_arbitrage.Cooldown.{
  CooldownConfig, CooldownState, Refusal, pair_cooldown, strategy_cooldown, revert_penalty,
  is_within, millis, secs, cleanup_old_data, executions_last_minute, block_refusal, wait_refusal,
  minute_refusal, check_pair_and_strategy, check_reverted, check_state, Verdict, refused_or,
  global_cooldown, can_execute,
}

-- A wait that is over was at least `ms` long.
wait_over :
    (last : Option ℕ) (now ms : ℕ) (refusal : ℕ → Refusal)
    → wait_refusal last now ms refusal ≡ none
    → (t : ℕ) → last ≡ some t
    → millis ms ≤ now - t
unfolding wait_refusal
wait_over none now ms refusal e t q = cc
wait_over (some last) now ms refusal e t q = ground arith

-- An entry that `cleanup_old_data` may have dropped was at least ten minutes old.
kept_wait :
    (m : Map String ℕ) (k : String) (now ms : ℕ) (refusal : ℕ → Refusal)
    → wait_refusal (lookup k (retain (λ _ t. is_within now (secs 600) t) m)) now ms refusal ≡ none
    → (t : ℕ) → lookup k m ≡ some t
    → min (millis ms) (secs 600) ≤ now - t
kept_wait m k now ms refusal e t q = elim (Bool-cases (is_within now (secs 600) t)) [
  | inl b ↦
      let found = lookup-retain (λ _ t. is_within now (secs 600) t) k m q b in
      omega (arith, wait_over _ now ms refusal e t found)
  | inr b ↦ ground arith
]

refused_or_ok :
    (r : Option Refusal) (s : CooldownState) (rest : Verdict)
    → (refused_or r s rest).0 ≡ ok true
    → (r ≡ none) × (rest.0 ≡ ok true)
unfolding refused_or
refused_or_ok none s rest e = (refl, e)
refused_or_ok (some r) s rest e = cc

module _ (config : CooldownConfig) (now : ℕ) (pair strategy : String) where
  open config use {global_ms, pair_ms, strategy_ms, revert_penalty_ms, max_concurrent_executions}

  -- Every wait that a permission looked at is over.
  record Permitted (s : CooldownState) (block : Option ℕ) : Type 0 where
    free_block : block_refusal s block ≡ none
    minute : minute_refusal config s now ≡ none
    over_global : wait_refusal s.last_global_execution now global_ms global_cooldown ≡ none
    over_revert :
        wait_refusal (lookup pair s.reverted_pairs) now revert_penalty_ms (revert_penalty pair)
        ≡ none
    over_pair :
        wait_refusal (lookup pair s.last_pair_execution) now pair_ms (pair_cooldown pair) ≡ none
    over_strategy :
        wait_refusal
          (lookup strategy s.last_strategy_execution)
          now
          strategy_ms
          (strategy_cooldown strategy)
        ≡ none

  check_state_ok :
      (s : CooldownState) (block : Option ℕ)
      → (check_state config s now pair strategy block).0 ≡ ok true
      → Permitted s block
  unfolding check_state check_reverted check_pair_and_strategy
  check_state_ok s block e =
      let (b, e) = refused_or_ok _ _ _ e in
      let (m, e) = refused_or_ok _ _ _ e in
      let (g, e) = refused_or_ok _ _ _ e in
      let (v, e) = refused_or_ok _ _ _ e in
      let (p, e) = refused_or_ok _ _ _ e in
      let (t, e) = refused_or_ok _ _ _ e in
      record {
        free_block = b;
        minute = m;
        over_global = g;
        over_revert = v;
        over_pair = p;
        over_strategy = t;
      }

  -- What a permission promises about the state that it was asked of.
  pub record Allowed (s : CooldownState) (block : Option ℕ) : Type 0 where
    pub below_limit : executions_last_minute s now < max_concurrent_executions
    pub global_wait : (t : ℕ) → s.last_global_execution ≡ some t → millis global_ms ≤ now - t
    pub revert_wait :
        (t : ℕ)
        → lookup pair s.reverted_pairs ≡ some t
        → min (millis revert_penalty_ms) (secs 600) ≤ now - t
    pub pair_wait :
        (t : ℕ)
        → lookup pair s.last_pair_execution ≡ some t
        → min (millis pair_ms) (secs 600) ≤ now - t
    pub strategy_wait :
        (t : ℕ)
        → lookup strategy s.last_strategy_execution ≡ some t
        → min (millis strategy_ms) (secs 600) ≤ now - t
    pub new_block : (b : ℕ) → block ≡ some b → s.last_block_number ≢ some b

  fresh_block :
      (s : CooldownState) (block : Option ℕ)
      → block_refusal (cleanup_old_data s now) block ≡ none
      → (b : ℕ) → block ≡ some b
      → s.last_block_number ≢ some b
  unfolding block_refusal cleanup_old_data
  fresh_block s block e b q l = ground arith

  below :
      (s : CooldownState)
      → minute_refusal config (cleanup_old_data s now) now ≡ none
      → executions_last_minute s now < max_concurrent_executions
  unfolding minute_refusal cleanup_old_data executions_last_minute
  below s e = ground arith

  -- While cooldowns are enabled, a permission means that fewer than `max_concurrent_executions`
  -- executions stand in the last minute, that the whole global wait is over, that the waits of
  -- the pair, of the strategy and of a revert of the pair are over up to ten minutes each, and
  -- that the block is not the last one executed in.
  pub can_execute_ok :
      (s : CooldownState) (block : Option ℕ)
      → config.enabled ≡ true
      → (can_execute config s now pair strategy block).0 ≡ ok true
      → Allowed s block
  unfolding can_execute cleanup_old_data
  can_execute_ok s block on e =
      let open_gate : (check_state config (cleanup_old_data s now) now pair strategy block).0
          ≡ ok true =
        ground arith in
      let ok_gate = check_state_ok (cleanup_old_data s now) block open_gate in
      record {
        below_limit = below s ok_gate.minute;
        global_wait = wait_over s.last_global_execution now global_ms _ ok_gate.over_global;
        revert_wait = kept_wait s.reverted_pairs pair now revert_penalty_ms _ ok_gate.over_revert;
        pair_wait = kept_wait s.last_pair_execution pair now pair_ms _ ok_gate.over_pair;
        strategy_wait =
            kept_wait s.last_strategy_execution strategy now strategy_ms _ ok_gate.over_strategy;
        new_block = fresh_block s block ok_gate.free_block;
      }
