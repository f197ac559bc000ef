-- ===== src/RiskGate/Checks.antt =====
-- What each verdict of `assess_executable_opportunity` (src/core/risk.rs) means.
use dex_arbitrage.Prelude.{
  ℕ, ◌+◌, ◌-◌, ◌*◌, ◌/◌, ◌<◌, ◌≡◌, ◌≢◌, ◌↔◌, ◌⊎◌, max, refl, sym, ap, subst, inl, inr, Bool, true,
  false, not, ◌||◌, ◌==◌, leb, ltb, if◌then◌else◌, Result, ok, err, List, [], ◌∷◌, ℤ, pos, negsuc,
  is_positive, arith,
}
use dex_arbitrage.U256.{U256, u256_max}
use dex_arbitrage.Stability.{requires_fork_evidence}
use dex_arbitrage.Opportunity.{ExecutableOpportunity}
use dex_arbitrage.RiskGate.{
  CanonicalRiskConfig, RiskApproval, CanonicalRiskRejection, stale_anchor, invalid_context_hash,
  unstable_route, non_positive_net_pnl, gas_exceeds_limit, slippage_exceeds_limit, eth_call_failed,
  preflight_failed, trace_failed, incomplete_quotes, route_discontinuity, rejected_registry_hit,
  ascending, is_empty, rejections_of, as_u128, approval_of, assess_executable_opportunity,
}
use dex_arbitrage.RiskGate.Pushes.{rejects, pushed_by, rejects-chain}

module _ (opportunity : ExecutableOpportunity) (cfg : CanonicalRiskConfig)
    (current_head_block : ℕ) where
  -- When a check fails. Slippage and the completeness of the quotes are not checked here.
  abbrev pub Fails : CanonicalRiskRejection → Type 0
  Fails stale_anchor = opportunity.anchor_block + cfg.max_anchor_age_blocks < current_head_block
  Fails invalid_context_hash = (opportunity.context_hash ≡ 0) ⊎ (opportunity.evidence_hash ≡ 0)
  Fails unstable_route =
      let (first, second, third) = opportunity.stability.anchor_blocks in
      ((first < second) × (second < third)) → ⊥
  Fails non_positive_net_pnl = is_positive opportunity.net_pnl ≡ false
  Fails gas_exceeds_limit = cfg.max_gas_raw < opportunity.gas_estimate
  Fails slippage_exceeds_limit = ⊥
  Fails eth_call_failed =
      (requires_fork_evidence opportunity.execution_profile ≡ true)
      × (opportunity.evidence.eth_call_pass ≡ false)
  Fails preflight_failed =
      (requires_fork_evidence opportunity.execution_profile ≡ true)
      × (opportunity.evidence.preflight_pass ≡ false)
  Fails trace_failed =
      (requires_fork_evidence opportunity.execution_profile ≡ true)
      × (opportunity.evidence.trace_validated ≡ false)
  Fails incomplete_quotes = ⊥
  Fails route_discontinuity = opportunity.route_plan.legs ≡ []
  Fails rejected_registry_hit = opportunity.rejected_registry_hit ≡ true

is_empty_iff : {A : Type 0} (xs : List A) → (is_empty xs ≡ true) ↔ (xs ≡ [])
is_empty_iff [] = (λ _. refl, λ _. refl)
is_empty_iff (x ∷ xs) = (λ e. cc, λ e. cc)

positive-pos : (n : ℤ) → is_positive n ≡ true → n ≡ pos (as_u128 n)
unfolding as_u128
positive-pos (pos n) e = refl
positive-pos (negsuc n) e = cc

module _ (o : ExecutableOpportunity) (cfg : CanonicalRiskConfig) (head : ℕ) where
  -- The tests of the checks, by rejection.
  abbrev test_of : CanonicalRiskRejection → Bool
  test_of r =
      pushed_by r (ltb cfg.max_anchor_age_blocks (head - o.anchor_block))
        (o.context_hash == 0 || o.evidence_hash == 0) (not (ascending o.stability.anchor_blocks))
        (not (is_positive o.net_pnl)) (ltb cfg.max_gas_raw o.gas_estimate)
        (is_empty o.route_plan.legs) o.rejected_registry_hit
        (requires_fork_evidence o.execution_profile) o.evidence.eth_call_pass
        o.evidence.preflight_pass o.evidence.trace_validated

  test_of-Fails : (r : CanonicalRiskRejection) → (test_of r ≡ true) ↔ Fails o cfg head r
  unfolding ascending
  test_of-Fails stale_anchor = ground arith
  test_of-Fails invalid_context_hash = ground arith
  test_of-Fails unstable_route = ground arith
  test_of-Fails non_positive_net_pnl = ground arith
  test_of-Fails gas_exceeds_limit = ground arith
  test_of-Fails slippage_exceeds_limit = ground arith
  test_of-Fails eth_call_failed = ground arith
  test_of-Fails preflight_failed = ground arith
  test_of-Fails trace_failed = ground arith
  test_of-Fails incomplete_quotes = ground arith
  test_of-Fails route_discontinuity = is_empty_iff o.route_plan.legs
  test_of-Fails rejected_registry_hit = ground arith

  rejects-rejections_of :
      (r : CanonicalRiskRejection) → rejects r (rejections_of o cfg head) ≡ test_of r
  unfolding rejections_of
  rejects-rejections_of r =
      rejects-chain r o (ltb cfg.max_anchor_age_blocks (head - o.anchor_block))
        (o.context_hash == 0 || o.evidence_hash == 0) (not (ascending o.stability.anchor_blocks))
        (not (is_positive o.net_pnl)) (ltb cfg.max_gas_raw o.gas_estimate)
        (is_empty o.route_plan.legs) o.rejected_registry_hit

  -- The meaning of a verdict: an approval where nothing fails, with the larger of the floor and
  -- the retained share of the net profit as the least profit; else exactly the failing checks.
  abbrev pub Verdict : Result RiskApproval (List CanonicalRiskRejection) → Type 0
  Verdict (ok approval) =
      ((r : CanonicalRiskRejection) → Fails o cfg head r → ⊥)
      × (approval.max_gas_raw ≡ cfg.max_gas_raw)
      × (approval.max_slippage_bps ≡ cfg.max_slippage_bps)
      × (profit : ℕ) × (o.net_pnl ≡ pos profit)
      × (approval.min_profit_raw
          ≡ max cfg.absolute_min_profit_floor_raw (
              (if leb (profit * cfg.retention_bps) u256_max
                then profit * cfg.retention_bps
                else u256_max)
              / 10_000))
  Verdict (err rejections) =
      (rejections ≢ [])
      × ((r : CanonicalRiskRejection) → (rejects r rejections ≡ true) ↔ Fails o cfg head r)

  no_failure : rejections_of o cfg head ≡ [] → (r : CanonicalRiskRejection) → Fails o cfg head r → ⊥
  no_failure none_pushed r fails =
      let test = (test_of-Fails r).1 fails in
      let pushed = rejects-rejections_of r in let gone = ap (rejects r) none_pushed in cc

  -- An opportunity is approved exactly where no check fails, with the limits of the configuration
  -- and, as the least profit, the larger of the floor and the retained share of its net profit,
  -- which is positive; otherwise the rejections are exactly the checks that fail.
  pub assess_executable_opportunity-Verdict :
      (u : U256) → Verdict (assess_executable_opportunity u o cfg head)
  unfolding assess_executable_opportunity approval_of
  assess_executable_opportunity-Verdict u = elim (List-cases (rejections_of o cfg head)) [
    | inl none_pushed ↦
        let fine = no_failure none_pushed in
        rw none_pushed (
          fine,
          refl,
          refl,
          as_u128 o.net_pnl,
          positive-pos o.net_pnl (not_false _ (fine non_positive_net_pnl)),
          ap (λ n. max cfg.absolute_min_profit_floor_raw (n / 10_000))
              (u.saturating_mul_lem (as_u128 o.net_pnl) cfg.retention_bps),
        )
    | inr (x, xs, pushed) ↦ rw pushed (
      (λ e. cc),
      λ r.
          subst (λ l. (rejects r l ≡ true) ↔ Fails o cfg head r) pushed
            (subst (λ b. (b ≡ true) ↔ Fails o cfg head r) (sym (rejects-rejections_of r))
              (test_of-Fails r)),
    )
  ]
    where
      not_false : (b : Bool) → (b ≡ false → ⊥) → b ≡ true
      not_false true h = refl
      not_false false h = absurd (h refl)

      List-cases :
          {A : Type 0} (xs : List A) → (xs ≡ []) ⊎ ((y : A) × (ys : List A) × (xs ≡ y ∷ ys))
      List-cases [] = inl refl
      List-cases (y ∷ ys) = inr (y, ys, refl)
