-- ===== src/RiskGate/Tests.antt =====
-- Opportunities at the gate of src/core/risk.rs, and the theorems at them.
use Prim.Native.String.{String}
use dex_arbitrage.Prelude.{
  ℕ, ◌+◌, ◌≡◌, refl, some, none, true, false, ok, err, [], ◌∷◌, All, ℤ, pos,
}
use dex_arbitrage.U256.{reference}
use dex_arbitrage.C2bOrchestrator.{evidence}
use dex_arbitrage.PriceEdge.{quick_swap}
use dex_arbitrage.Materializer.{ExecutableRoutePlan}
use dex_arbitrage.Stability.{
  RoundEvidence, fork_trace_audit_profile, requires_fork_evidence, set_insert, collect_set,
  complete_evidence, positive_economics, entry_passes, anchor_numbers, anchor_hashes, is_stable,
}
use dex_arbitrage.Opportunity.{
  StabilityRecord, ExecutionEvidence, ExecutableOpportunity, find_quote, quote_of, evidence_of,
  from_stable_rounds,
}
use dex_arbitrage.RiskGate.{
  CanonicalRiskConfig, stale_anchor, unstable_route, gas_exceeds_limit, push_if, ascending,
  push_fork_checks, rejections_of, as_u128, approval_of, assess_executable_opportunity,
}
use dex_arbitrage.RiskGate.Checks.{Verdict, assess_executable_opportunity-Verdict}
use dex_arbitrage.RiskGate.Stable.{rejected_for, settled_checks, stable_rounds_pass}

abbrev plan : ℕ → ExecutableRoutePlan
plan number = record {
  structural_cycle_key = "k";
  anchor_block = number;
  start_token = 1;
  legs =
      record {
        venue = quick_swap;
        token_in = 1;
        token_out = 2;
        pool = 30;
        router = 40;
        fee = none;
        curve_method = none;
        token_in_index = none;
        token_out_index = none;
        spender = 40;
      }
      ∷ [];
  snapshot = record { pools = [] };
  fork_setup = record {
    anchor_block = number;
    caller = 99;
    tokens = [];
    funding = [];
    approvals = [];
    targets = [];
    balance_checks = [];
  };
}

-- A round at an anchor that earned 10,000 with a complete audit.
abbrev round_at : ℕ → ℕ → RoundEvidence
round_at number hash = record {
  structural_cycle_key = "k";
  anchor = record {
    number = number;
    hash = hash;
    selected_from_head = number + 2;
    confirmation_lag = 2;
  };
  context_hash = 9;
  route_plan = plan number;
  amount_in = 1_000;
  execution_profile = record { chain_id = 137; profile_label = fork_trace_audit_profile };
  economics = some (record {
    final_amount_atomic = 11_500;
    gross_pnl_atomic = pos 10_500;
    gas_cost_atomic = 500;
    flashloan_cost_atomic = 0;
    net_pnl_atomic = pos 10_000;
    pool_reuse_detected = false;
    all_models_supported = true;
  });
  gross_pnl_atomic = some (pos 10_500);
  gas_used_total = 0;
  orchestrator_evidence = some (evidence "k" true 100 true true);
  rejected_registry_hit = false;
  leg_quotes = [];
}

abbrev evidence_digest : String → StabilityRecord → ℤ → ExecutionEvidence → ℕ
evidence_digest key stability net found = 5

abbrev opportunity_digest : String → (amount_in evidence_hash : ℕ) → ℕ
opportunity_digest key amount_in evidence_hash = 6

abbrev opportunity : (a b c : ℕ) → ExecutableOpportunity
opportunity a b c = record {
  opportunity_id = 6;
  structural_cycle_key = "k";
  route_plan = plan c;
  anchor_block = c;
  anchor_block_hash = 3;
  context_hash = 9;
  evidence_hash = 5;
  amount_in = 1_000;
  expected_amount_out = 11_500;
  gross_pnl = pos 10_500;
  gas_estimate = 500;
  net_pnl = pos 10_000;
  leg_quotes =
      record { pool = 30; token_in = 1; token_out = 2; amount_in = 0; amount_out = 0 } ∷ [];
  evidence = record {
    eth_call_pass = true;
    preflight_pass = true;
    trace_validated = true;
    balance_delta = 100;
  };
  stability = record { anchor_blocks = (a, b, c); anchor_hashes = (1, 2, 3) };
  execution_profile = record { chain_id = 137; profile_label = fork_trace_audit_profile };
  rejected_registry_hit = false;
}

abbrev limits : CanonicalRiskConfig
limits = record {
  absolute_min_profit_floor_raw = 100;
  retention_bps = 5_000;
  max_gas_raw = 1_000;
  max_slippage_bps = 50;
  max_anchor_age_blocks = 10;
}

assembles :
    from_stable_rounds evidence_digest opportunity_digest
      (round_at 100 1, round_at 103 2, round_at 106 3)
    ≡ some (opportunity 100 103 106)
unfolding from_stable_rounds find_quote quote_of evidence_of evidence
assembles = refl

-- Half of the net profit is retained.
approves :
    assess_executable_opportunity reference (opportunity 100 103 106) limits 110
    ≡ ok (record { min_profit_raw = 5_000; max_gas_raw = 1_000; max_slippage_bps = 50 })
unfolding assess_executable_opportunity rejections_of push_if push_fork_checks ascending approval_of
    as_u128 requires_fork_evidence
approves = refl

rejects_for_age_and_gas :
    assess_executable_opportunity reference
      (record (opportunity 100 103 106) { gas_estimate = 1_001 })
      limits
      117
    ≡ err (stale_anchor ∷ gas_exceeds_limit ∷ [])
unfolding assess_executable_opportunity rejections_of push_if push_fork_checks ascending approval_of
    requires_fork_evidence
rejects_for_age_and_gas = refl

-- Rounds that are stable in the sense of src/core/stability.rs, at anchors that descend.
descending_anchors_are_stable :
    is_stable (round_at 106 1 ∷ round_at 103 2 ∷ round_at 100 3 ∷ []) ≡ true
unfolding is_stable collect_set set_insert anchor_numbers anchor_hashes entry_passes
    positive_economics requires_fork_evidence complete_evidence evidence
descending_anchors_are_stable = refl

descending_anchors_are_rejected :
    assess_executable_opportunity reference (opportunity 106 103 100) limits 110
    ≡ err (unstable_route ∷ [])
unfolding assess_executable_opportunity rejections_of push_if push_fork_checks ascending
    requires_fork_evidence
descending_anchors_are_rejected = refl

assess_executable_opportunity-Verdict_example :
    Verdict
      (opportunity 106 103 100)
      limits
      110
      (assess_executable_opportunity reference (opportunity 106 103 100) limits 110)
assess_executable_opportunity-Verdict_example =
    assess_executable_opportunity-Verdict (opportunity 106 103 100) limits 110 reference

three_anchors : is_stable (round_at 100 1 ∷ round_at 103 2 ∷ round_at 106 3 ∷ []) ≡ true
unfolding is_stable collect_set set_insert anchor_numbers anchor_hashes entry_passes
    positive_economics requires_fork_evidence complete_evidence evidence
three_anchors = refl

stable_rounds_pass_example :
    (o : ExecutableOpportunity) × (from_stable_rounds evidence_digest opportunity_digest
        (round_at 100 1, round_at 103 2, round_at 106 3)
      ≡ some o)
    × All
        (λ r. rejected_for r (assess_executable_opportunity reference o limits 110) ≡ false)
        settled_checks
stable_rounds_pass_example =
    stable_rounds_pass evidence_digest opportunity_digest (round_at 100 1) (round_at 103 2)
      (round_at 106 3) three_anchors reference limits 110
