-- ===== src/Stability/Tests.antt =====
-- Rounds through the gate of src/core/stability.rs, and the theorems at them.
use dex_arbitrage.Prelude.{ℕ, ◌+◌, ◌≡◌, ◌≢◌, refl, some, Bool, true, false, List, [], ◌∷◌, pos}
use dex_arbitrage.Prelude.Map.{lookup, insert}
use dex_arbitrage.Materializer.{ExecutableRoutePlan}
use dex_arbitrage.C2bOrchestrator.{evidence}
use dex_arbitrage.Stability.{
  RoundEvidence, fork_trace_audit_profile, requires_fork_evidence, from_evidence, same_key,
  set_insert, collect_set, complete_evidence, positive_economics, entry_passes, anchor_numbers,
  anchor_hashes, is_stable, new, keep_three, or_default, three_if_stable, push,
}
use dex_arbitrage.Stability.Evidence.{Passes, is_stable_three}
use dex_arbitrage.Stability.Window.{replay, with_key, latest, push-replay}

abbrev plan : ℕ → ExecutableRoutePlan
plan number = record {
  structural_cycle_key = "k";
  anchor_block = number;
  start_token = 1;
  legs = [];
  snapshot = record { pools = [] };
  fork_setup = record {
    anchor_block = number;
    caller = 99;
    tokens = [];
    funding = [];
    approvals = [];
    targets = [];
    balance_checks = [];
  };
}

-- A round of one route at an anchor, with a hash and an audit that passed or did not.
round_at : ℕ → ℕ → Bool → RoundEvidence
round_at number hash pass = record {
  structural_cycle_key = "k";
  anchor = record {
    number = number;
    hash = hash;
    selected_from_head = number + 2;
    confirmation_lag = 2;
  };
  context_hash = 9;
  route_plan = plan number;
  amount_in = 1_000;
  execution_profile = record { chain_id = 137; profile_label = fork_trace_audit_profile };
  economics = some (record {
    final_amount_atomic = 1_100;
    gross_pnl_atomic = pos 100;
    gas_cost_atomic = 1;
    flashloan_cost_atomic = 0;
    net_pnl_atomic = pos 99;
    pool_reuse_detected = false;
    all_models_supported = true;
  });
  gross_pnl_atomic = some (pos 100);
  gas_used_total = 0;
  orchestrator_evidence = some (evidence "k" true 100 true pass);
  rejected_registry_hit = false;
  leg_quotes = [];
}

three_anchors :
    is_stable (round_at 100 1 true ∷ round_at 103 2 true ∷ round_at 106 3 true ∷ []) ≡ true
unfolding round_at is_stable collect_set set_insert anchor_numbers anchor_hashes entry_passes
    positive_economics requires_fork_evidence complete_evidence evidence
three_anchors = refl

repeated_anchor :
    is_stable (round_at 100 1 true ∷ round_at 100 1 true ∷ round_at 103 2 true ∷ []) ≡ false
unfolding round_at is_stable collect_set set_insert anchor_numbers anchor_hashes
repeated_anchor = refl

failed_audit :
    is_stable (round_at 100 1 true ∷ round_at 103 2 false ∷ round_at 106 3 true ∷ []) ≡ false
unfolding round_at is_stable collect_set set_insert anchor_numbers anchor_hashes entry_passes
    positive_economics requires_fork_evidence complete_evidence evidence
failed_audit = refl

is_stable_three_example :
    (let a = round_at 100 1 true in
      let b = round_at 103 2 true in
      let c = round_at 106 3 true in
      ((a.anchor.number ≢ b.anchor.number)
        × (a.anchor.number ≢ c.anchor.number)
        × (b.anchor.number ≢ c.anchor.number))
      × ((a.anchor.hash ≢ b.anchor.hash)
          × (a.anchor.hash ≢ c.anchor.hash)
          × (b.anchor.hash ≢ c.anchor.hash))
      × ((a.rejected_registry_hit ≡ false)
          × (b.rejected_registry_hit ≡ false)
          × (c.rejected_registry_hit ≡ false))
      × (Passes a × Passes b × Passes c))
is_stable_three_example =
    is_stable_three (round_at 100 1 true) (round_at 103 2 true) (round_at 106 3 true) three_anchors

-- Three rounds, the latest first, of which the oldest failed its audit.
abbrev three_rounds : List RoundEvidence
three_rounds = round_at 106 3 true ∷ round_at 103 2 true ∷ round_at 100 1 false ∷ []

-- The fourth round moves the failed one out of the window.
fourth_round_is_stable :
    (push (replay three_rounds) (round_at 109 4 true)).0
    ≡ some (round_at 103 2 true, round_at 106 3 true, round_at 109 4 true)
unfolding round_at is_stable collect_set set_insert anchor_numbers anchor_hashes entry_passes
    positive_economics requires_fork_evidence complete_evidence evidence push replay new
    from_evidence same_key keep_three or_default three_if_stable lookup insert
fourth_round_is_stable = refl

push-replay_example :
    (push (replay three_rounds) (round_at 109 4 true)).0
    ≡ three_if_stable (
        latest
          (with_key (from_evidence (round_at 109 4 true)) (round_at 109 4 true ∷ three_rounds)))
push-replay_example = push-replay three_rounds (round_at 109 4 true)
