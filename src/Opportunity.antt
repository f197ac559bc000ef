-- ===== src/Opportunity.antt =====
-- src/core/executable_opportunity.rs: the opportunity that is assembled from three stable rounds.
-- The hashes over printed evidence (`keccak256` of ethers) are arguments. The field `net_pnl_usd`,
-- an optional f64 that is always absent here, is left out.
pub mod Latest
use Prim.Native.String.{String}
use dex_arbitrage.Prelude.{
  ℕ, Option, none, some, Bool, true, false, ◌&&◌, ◌==◌, if◌then◌else◌, List, [], ◌∷◌, map, ℤ,
}
use dex_arbitrage.PriceEdge.{PinnedQuoteRecord}
use dex_arbitrage.C2bOrchestrator.{OrchestratorEvidence}
use dex_arbitrage.Materializer.{ExecutableLegPlan, ExecutableRoutePlan}
use dex_arbitrage.Stability.{ExecutionProfile, RoundEvidence, Three}

pub record LegQuote : Type 0 where
  pub pool : ℕ
  pub token_in : ℕ
  pub token_out : ℕ
  pub amount_in : ℕ
  pub amount_out : ℕ

pub record ExecutionEvidence : Type 0 where
  pub eth_call_pass : Bool
  pub preflight_pass : Bool
  pub trace_validated : Bool
  pub balance_delta : ℕ

pub record StabilityRecord : Type 0 where
  pub anchor_blocks : ℕ × ℕ × ℕ
  pub anchor_hashes : ℕ × ℕ × ℕ

pub record ExecutableOpportunity : Type 0 where
  pub opportunity_id : ℕ
  pub structural_cycle_key : String
  pub route_plan : ExecutableRoutePlan
  pub anchor_block : ℕ
  pub anchor_block_hash : ℕ
  pub context_hash : ℕ
  pub evidence_hash : ℕ
  pub amount_in : ℕ
  pub expected_amount_out : ℕ
  pub gross_pnl : ℤ
  pub gas_estimate : ℕ
  pub net_pnl : ℤ
  pub leg_quotes : List LegQuote
  pub evidence : ExecutionEvidence
  pub stability : StabilityRecord
  pub execution_profile : ExecutionProfile
  pub rejected_registry_hit : Bool

-- `iter().find(|q| q.pool == leg.pool && q.token_in == leg.token_in)`
unfoldable pub find_quote : ExecutableLegPlan → List PinnedQuoteRecord → Option PinnedQuoteRecord
find_quote leg [] = none
find_quote leg (q ∷ quotes) =
    let rest = find_quote leg quotes in
    if q.pool == leg.pool && q.token_in == leg.token_in then some q else rest

-- Amounts of 0 where no quote is found.
unfoldable pub quote_of : ExecutableLegPlan → Option PinnedQuoteRecord → LegQuote
quote_of leg none = record {
  pool = leg.pool;
  token_in = leg.token_in;
  token_out = leg.token_out;
  amount_in = 0;
  amount_out = 0;
}
quote_of leg (some quote) = record {
  pool = leg.pool;
  token_in = leg.token_in;
  token_out = leg.token_out;
  amount_in = quote.amount_in;
  amount_out = quote.amount_out;
}

unfoldable pub evidence_of : Option OrchestratorEvidence → ExecutionEvidence
evidence_of (some orchestrator) = record {
  eth_call_pass = orchestrator.readonly_pass;
  preflight_pass = orchestrator.preflight_pass;
  trace_validated = orchestrator.trace_validated;
  balance_delta = orchestrator.balance_delta;
}
evidence_of none = record {
  eth_call_pass = false;
  preflight_pass = false;
  trace_validated = false;
  balance_delta = 0;
}

module _ (evidence_digest : String → StabilityRecord → ℤ → ExecutionEvidence → ℕ)
    (opportunity_digest : String → (amount_in evidence_hash : ℕ) → ℕ) where
  unfoldable pub from_stable_rounds : Three → Option ExecutableOpportunity
  unfolding find_quote quote_of evidence_of
  from_stable_rounds (first, second, latest) = elim latest.economics [
    | none ↦ none
    | some economics ↦
        let stability : StabilityRecord = record {
          anchor_blocks = (first.anchor.number, second.anchor.number, latest.anchor.number);
          anchor_hashes = (first.anchor.hash, second.anchor.hash, latest.anchor.hash);
        } in
        let evidence = evidence_of latest.orchestrator_evidence in
        let evidence_hash =
          evidence_digest latest.structural_cycle_key stability economics.net_pnl_atomic evidence in
        some (record {
          opportunity_id =
              opportunity_digest latest.structural_cycle_key latest.amount_in evidence_hash;
          structural_cycle_key = latest.structural_cycle_key;
          route_plan = latest.route_plan;
          anchor_block = latest.anchor.number;
          anchor_block_hash = latest.anchor.hash;
          context_hash = latest.context_hash;
          evidence_hash = evidence_hash;
          amount_in = latest.amount_in;
          expected_amount_out = economics.final_amount_atomic;
          gross_pnl = economics.gross_pnl_atomic;
          gas_estimate = economics.gas_cost_atomic;
          net_pnl = economics.net_pnl_atomic;
          leg_quotes =
              map (λ leg. quote_of leg (find_quote leg latest.leg_quotes)) latest.route_plan.legs;
          evidence = evidence;
          stability = stability;
          execution_profile = latest.execution_profile;
          rejected_registry_hit = latest.rejected_registry_hit;
        })
  ]
