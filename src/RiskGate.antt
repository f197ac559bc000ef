-- ===== src/RiskGate.antt =====
-- The canonical gate of src/core/risk.rs (`RiskManager::assess_executable_opportunity`): every
-- check that an opportunity fails, or the limits that it is approved with.
pub mod Pushes
pub mod Checks
pub mod Stable
mod Tests
use dex_arbitrage.Prelude.{
  ℕ, ◌+◌, ◌-◌, ◌*◌, ◌/◌, ◌^◌, max, Bool, true, false, not, ◌&&◌, ◌||◌, ◌==◌, ltb, if◌then◌else◌,
  Result, ok, err, List, [], ◌∷◌, ◌++◌, ℤ, pos, negsuc, is_positive,
}
use dex_arbitrage.U256.{U256}
use dex_arbitrage.Stability.{requires_fork_evidence}
use dex_arbitrage.Opportunity.{ExecutableOpportunity}

pub record CanonicalRiskConfig : Type 0 where
  pub absolute_min_profit_floor_raw : ℕ
  pub retention_bps : ℕ
  pub max_gas_raw : ℕ
  pub max_slippage_bps : ℕ
  pub max_anchor_age_blocks : ℕ

pub record RiskApproval : Type 0 where
  pub min_profit_raw : ℕ
  pub max_gas_raw : ℕ
  pub max_slippage_bps : ℕ

pub data CanonicalRiskRejection : Type 0 where
  stale_anchor : CanonicalRiskRejection
  invalid_context_hash : CanonicalRiskRejection
  unstable_route : CanonicalRiskRejection
  non_positive_net_pnl : CanonicalRiskRejection
  gas_exceeds_limit : CanonicalRiskRejection
  slippage_exceeds_limit : CanonicalRiskRejection
  eth_call_failed : CanonicalRiskRejection
  preflight_failed : CanonicalRiskRejection
  trace_failed : CanonicalRiskRejection
  incomplete_quotes : CanonicalRiskRejection
  route_discontinuity : CanonicalRiskRejection
  rejected_registry_hit : CanonicalRiskRejection

-- `if test { rejections.push(rejection) }`
pub push_if :
    Bool → CanonicalRiskRejection → List CanonicalRiskRejection → List CanonicalRiskRejection
push_if test rejection rejections = if test then rejections ++ rejection ∷ [] else rejections

-- `first < second && second < third`
pub ascending : ℕ × ℕ × ℕ → Bool
ascending (first, second, third) = ltb first second && ltb second third

abbrev pub is_empty : {A : Type 0} → List A → Bool
is_empty [] = true
is_empty (x ∷ xs) = false

-- The checks that only a fork audit has to pass.
pub push_fork_checks :
    ExecutableOpportunity → List CanonicalRiskRejection → List CanonicalRiskRejection
unfolding push_if
push_fork_checks opportunity rejections =
    if requires_fork_evidence opportunity.execution_profile
    then push_if (not opportunity.evidence.trace_validated) trace_failed (
        push_if (not opportunity.evidence.preflight_pass) preflight_failed
          (push_if (not opportunity.evidence.eth_call_pass) eth_call_failed rejections))
    else rejections

pub rejections_of : ExecutableOpportunity → CanonicalRiskConfig → ℕ → List CanonicalRiskRejection
unfolding push_if push_fork_checks ascending
rejections_of opportunity cfg current_head_block =
    let age = current_head_block - opportunity.anchor_block in
    let stale = push_if (ltb cfg.max_anchor_age_blocks age) stale_anchor [] in
    let hashes =
      push_if (opportunity.context_hash == 0 || opportunity.evidence_hash == 0) invalid_context_hash
        stale in
    let anchors =
      push_if (not (ascending opportunity.stability.anchor_blocks)) unstable_route hashes in
    let profit = push_if (not (is_positive opportunity.net_pnl)) non_positive_net_pnl anchors in
    let gas = push_if (ltb cfg.max_gas_raw opportunity.gas_estimate) gas_exceeds_limit profit in
    let fork = push_fork_checks opportunity gas in
    let legs = push_if (is_empty opportunity.route_plan.legs) route_discontinuity fork in
    push_if opportunity.rejected_registry_hit rejected_registry_hit legs

-- `net_pnl as u128`
pub as_u128 : ℤ → ℕ
as_u128 (pos n) = n
as_u128 (negsuc n) = 2 ^ 128 - (n + 1)

module _ (u : U256) where
  open u use {saturating_mul}

  pub approval_of : ExecutableOpportunity → CanonicalRiskConfig → RiskApproval
  unfolding as_u128
  approval_of opportunity cfg = record {
    min_profit_raw =
        max cfg.absolute_min_profit_floor_raw
          (saturating_mul (as_u128 opportunity.net_pnl) cfg.retention_bps / 10_000);
    max_gas_raw = cfg.max_gas_raw;
    max_slippage_bps = cfg.max_slippage_bps;
  }

  unfoldable pub assess_executable_opportunity :
      ExecutableOpportunity
      → CanonicalRiskConfig
      → ℕ
      → Result RiskApproval (List CanonicalRiskRejection)
  unfolding rejections_of approval_of
  assess_executable_opportunity opportunity cfg current_head_block =
      let rejections = rejections_of opportunity cfg current_head_block in
      if not (is_empty rejections) then err rejections else ok (approval_of opportunity cfg)
