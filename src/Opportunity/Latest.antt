-- ===== src/Opportunity/Latest.antt =====
-- What the opportunity of three rounds (src/core/executable_opportunity.rs) takes from the latest.
use Prim.Native.String.{String}
use dex_arbitrage.Prelude.{ℕ, ◌≡◌, refl, some, ℤ}
use dex_arbitrage.C2bOrchestrator.{OrchestratorEvidence}
use dex_arbitrage.FreshEconomics.{RouteSimulationResult}
use dex_arbitrage.Stability.{RoundEvidence}
use dex_arbitrage.Opportunity.{
  StabilityRecord, ExecutionEvidence, ExecutableOpportunity, evidence_of, from_stable_rounds,
}

module _ (evidence_digest : String → StabilityRecord → ℤ → ExecutionEvidence → ℕ)
    (opportunity_digest : String → (amount_in evidence_hash : ℕ) → ℕ) where
  -- With economics in the latest round there is an opportunity, and it has that round's results.
  pub from_stable_rounds-latest :
      (first second latest : RoundEvidence) (economics : RouteSimulationResult)
      → latest.economics ≡ some economics
      → (o : ExecutableOpportunity) × (from_stable_rounds evidence_digest opportunity_digest
            (first, second, latest)
          ≡ some o)
        × (o.net_pnl ≡ economics.net_pnl_atomic)
        × (o.rejected_registry_hit ≡ latest.rejected_registry_hit)
        × (o.execution_profile ≡ latest.execution_profile)
        × (o.evidence ≡ evidence_of latest.orchestrator_evidence)
  unfolding from_stable_rounds
  from_stable_rounds-latest first second latest economics e = rw e (_, refl, refl, refl, refl, refl)

pub evidence_of-some :
    (evidence : OrchestratorEvidence)
    → ((evidence_of (some evidence)).eth_call_pass ≡ evidence.readonly_pass)
      × ((evidence_of (some evidence)).preflight_pass ≡ evidence.preflight_pass)
      × ((evidence_of (some evidence)).trace_validated ≡ evidence.trace_validated)
unfolding evidence_of
evidence_of-some evidence = (refl, refl, refl)
