-- ===== src/RiskGate/Stable.antt =====
-- Stable rounds (src/core/stability.rs) through the assembly of their opportunity
-- (src/core/executable_opportunity.rs) and the canonical gate (src/core/risk.rs).
use Prim.Native.String.{String}
use dex_arbitrage.Prelude.{
  ℕ, ◌≡◌, refl, sym, ap, ◌∙◌, some, Bool, true, false, Bool-cases, inl, inr, Result, ok, err, List,
  [], ◌∷◌, All, ℤ, is_positive,
}
use dex_arbitrage.U256.{U256}
use dex_arbitrage.Stability.{RoundEvidence, requires_fork_evidence, is_stable}
use dex_arbitrage.Stability.Evidence.{Passes, is_stable_three, complete_evidence-stages}
use dex_arbitrage.Opportunity.{
  StabilityRecord, ExecutionEvidence, ExecutableOpportunity, evidence_of, from_stable_rounds,
}
use dex_arbitrage.Opportunity.Latest.{from_stable_rounds-latest, evidence_of-some}
use dex_arbitrage.RiskGate.{
  CanonicalRiskConfig, RiskApproval, CanonicalRiskRejection, non_positive_net_pnl, eth_call_failed,
  preflight_failed, trace_failed, rejected_registry_hit, assess_executable_opportunity,
}
use dex_arbitrage.RiskGate.Pushes.{rejects}
use dex_arbitrage.RiskGate.Checks.{Fails, Verdict, assess_executable_opportunity-Verdict}

-- The verdict has the rejection.
abbrev pub rejected_for :
    CanonicalRiskRejection → Result RiskApproval (List CanonicalRiskRejection) → Bool
rejected_for r (ok approval) = false
rejected_for r (err rejections) = rejects r rejections

module _ (u : U256) (o : ExecutableOpportunity) (cfg : CanonicalRiskConfig) (head : ℕ) where
  not_rejected_for :
      (r : CanonicalRiskRejection)
      → (Fails o cfg head r → ⊥)
      → rejected_for r (assess_executable_opportunity u o cfg head) ≡ false
  not_rejected_for r fine =
      by_verdict (assess_executable_opportunity u o cfg head)
        (assess_executable_opportunity-Verdict o cfg head u)
    where
      by_verdict :
          (verdict : Result RiskApproval (List CanonicalRiskRejection))
          → Verdict o cfg head verdict
          → rejected_for r verdict ≡ false
      by_verdict (ok approval) v = refl
      by_verdict (err rejections) v = elim (Bool-cases (rejects r rejections)) [
        | inl t ↦ absurd (fine ((v.1 r).0 t))
        | inr e ↦ e
      ]

-- The checks that the stability of the rounds settles.
abbrev pub settled_checks : List CanonicalRiskRejection
settled_checks =
    non_positive_net_pnl ∷ eth_call_failed ∷ preflight_failed ∷ trace_failed ∷ rejected_registry_hit
    ∷ []

module _ (evidence_digest : String → StabilityRecord → ℤ → ExecutionEvidence → ℕ)
    (opportunity_digest : String → (amount_in evidence_hash : ℕ) → ℕ) where
  -- Three stable rounds give an opportunity, and whatever the configuration and the head of the
  -- chain, the gate does not reject it for its net profit, for a stage of the fork audit, or as a
  -- rejected route.
  pub stable_rounds_pass :
      (a b c : RoundEvidence)
      → is_stable (a ∷ b ∷ c ∷ []) ≡ true
      → (u : U256) (cfg : CanonicalRiskConfig) (head : ℕ)
      → (o : ExecutableOpportunity) × (from_stable_rounds evidence_digest opportunity_digest
            (a, b, c)
          ≡ some o)
        × All
            (λ r. rejected_for r (assess_executable_opportunity u o cfg head) ≡ false)
            settled_checks
  stable_rounds_pass a b c stable u cfg head =
      let (numbers, hashes, (a_new, b_new, c_new), (a_passes, b_passes, c_passes)) =
        is_stable_three a b c stable in
      let (o, built, net, registry, profile, evidence) =
        from_stable_rounds-latest evidence_digest opportunity_digest a b c c_passes.simulation
          c_passes.simulated in
      let audited : requires_fork_evidence o.execution_profile ≡ true
          → (o.evidence.eth_call_pass ≡ true)
            × (o.evidence.preflight_pass ≡ true)
            × (o.evidence.trace_validated ≡ true) =
        λ forked. audit o c c_passes profile evidence forked in
      (
        o,
        built,
        (
          not_rejected_for u o cfg head non_positive_net_pnl
              (λ bad. clash (ap is_positive net ∙ c_passes.net_positive) bad),
          (
            not_rejected_for u o cfg head eth_call_failed (λ bad. clash (audited bad.0).0 bad.1),
            (
              not_rejected_for u o cfg head preflight_failed (λ bad. clash (audited bad.0).1 bad.1),
              (
                not_rejected_for u o cfg head trace_failed (λ bad. clash (audited bad.0).2 bad.1),
                (
                  not_rejected_for u o cfg head rejected_registry_hit
                      (λ bad. clash bad (registry ∙ c_new)),
                  tt,
                ),
              ),
            ),
          ),
        ),
      )
    where
      clash : {t : Bool} → t ≡ true → t ≡ false → ⊥
      clash p q = cc

      audit :
          (o : ExecutableOpportunity) (c : RoundEvidence) (passes : Passes c)
          → o.execution_profile ≡ c.execution_profile
          → o.evidence ≡ evidence_of c.orchestrator_evidence
          → requires_fork_evidence o.execution_profile ≡ true
          → (o.evidence.eth_call_pass ≡ true)
            × (o.evidence.preflight_pass ≡ true)
            × (o.evidence.trace_validated ≡ true)
      audit o c passes profile evidence forked =
          let (found, is_found, complete) =
            passes.audited (sym (ap requires_fork_evidence profile) ∙ forked) in
          let (call, preflight, trace) = complete_evidence-stages found complete in
          let (e_call, e_preflight, e_trace) = evidence_of-some found in
          let same = evidence ∙ ap evidence_of is_found in
          (
            ap ExecutionEvidence.eth_call_pass same ∙ e_call ∙ call,
            ap ExecutionEvidence.preflight_pass same ∙ e_preflight ∙ preflight,
            ap ExecutionEvidence.trace_validated same ∙ e_trace ∙ trace,
          )
