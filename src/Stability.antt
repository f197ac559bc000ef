-- ===== src/Stability.antt =====
-- The three-anchor stability gate of src/core/stability.rs, with the evidence of a round
-- (src/core/c2b_round.rs) and its profile (src/core/execution_profile.rs). Addresses and hashes
-- are numbers that are only compared.
pub mod Window
pub mod Evidence
mod Tests
use Prim.Native.String.{String}
use dex_arbitrage.Prelude.{
  ℕ, Option, none, some, Bool, true, false, not, ◌&&◌, ◌||◌, ◌==◌, ltb, if◌then◌else◌, List, [],
  ◌∷◌, ◌++◌, length, all, any, Eq, nat_eq, string_eq, ◌≡◌, ◌↔◌, refl, arith, ℤ, is_positive,
}
use dex_arbitrage.Prelude.Map.{Map, lookup, insert, beq_refl}
use dex_arbitrage.PriceEdge.{PinnedQuoteRecord}
use dex_arbitrage.FreshEconomics.{RouteSimulationResult}
use dex_arbitrage.Materializer.{ExecutableRoutePlan}
use dex_arbitrage.C2bOrchestrator.{OrchestratorEvidence}

pub record ExecutionProfile : Type 0 where
  pub chain_id : ℕ
  pub profile_label : String

abbrev pub fork_trace_audit_profile : String
fork_trace_audit_profile = "fork-trace-audit"

unfoldable pub requires_fork_evidence : ExecutionProfile → Bool
requires_fork_evidence profile = string_eq.beq profile.profile_label fork_trace_audit_profile

pub record AnchorBlock : Type 0 where
  pub number : ℕ
  pub hash : ℕ
  pub selected_from_head : ℕ
  pub confirmation_lag : ℕ

pub record RoundEvidence : Type 0 where
  pub structural_cycle_key : String
  pub anchor : AnchorBlock
  pub context_hash : ℕ
  pub route_plan : ExecutableRoutePlan
  pub amount_in : ℕ
  pub execution_profile : ExecutionProfile
  pub economics : Option RouteSimulationResult
  pub gross_pnl_atomic : Option ℤ
  pub gas_used_total : ℕ
  pub orchestrator_evidence : Option OrchestratorEvidence
  pub rejected_registry_hit : Bool
  pub leg_quotes : List PinnedQuoteRecord

pub record StabilityKey : Type 0 where
  pub structural_cycle_key : String
  pub start_token : ℕ
  pub amount_in : ℕ
  pub execution_profile : ExecutionProfile

pub from_evidence : RoundEvidence → StabilityKey
from_evidence evidence = record {
  structural_cycle_key = evidence.structural_cycle_key;
  start_token = evidence.route_plan.start_token;
  amount_in = evidence.amount_in;
  execution_profile = evidence.execution_profile;
}

-- The derived equality of the key: field by field.
unfoldable pub same_key : StabilityKey → StabilityKey → Bool
same_key k j =
    string_eq.beq k.structural_cycle_key j.structural_cycle_key
    && (k.start_token == j.start_token
        && (k.amount_in == j.amount_in
            && (k.execution_profile.chain_id == j.execution_profile.chain_id
                && string_eq.beq k.execution_profile.profile_label
                    j.execution_profile.profile_label)))

same_key_refl : (k : StabilityKey) → same_key k k ≡ true
unfolding same_key
same_key_refl k = ground (
  arith,
  beq_refl k.structural_cycle_key,
  beq_refl k.execution_profile.profile_label,
  beq_refl k.start_token,
  beq_refl k.amount_in,
  beq_refl k.execution_profile.chain_id,
)

same_key-fields :
    (k j : StabilityKey)
    → same_key k j ≡ true
    → (k.structural_cycle_key ≡ j.structural_cycle_key)
      × (k.start_token ≡ j.start_token)
      × (k.amount_in ≡ j.amount_in)
      × (k.execution_profile.chain_id ≡ j.execution_profile.chain_id)
      × (k.execution_profile.profile_label ≡ j.execution_profile.profile_label)
unfolding same_key
same_key-fields k j e = ground (
  arith,
  string_eq.beq_iff k.structural_cycle_key j.structural_cycle_key,
  string_eq.beq_iff k.execution_profile.profile_label j.execution_profile.profile_label,
)

pub same_key_iff : (k j : StabilityKey) → (same_key k j ≡ true) ↔ (k ≡ j)
same_key_iff k j =
    (λ e. let (a, b, c, d, f) = same_key-fields k j e in cc, λ q. rw q (same_key_refl j))

instance abbrev pub stability_key_eq : Eq StabilityKey
stability_key_eq = record { beq = same_key; beq_iff = same_key_iff }

-- `BTreeSet::insert`, and the set collected from a list.
unfoldable pub set_insert : ℕ → List ℕ → List ℕ
set_insert x s = if any (λ y. x == y) s then s else x ∷ s

unfoldable pub collect_set : List ℕ → List ℕ
collect_set [] = []
collect_set (x ∷ xs) = set_insert x (collect_set xs)

abbrev is_some_and : {A : Type 0} → Option A → (A → Bool) → Bool
is_some_and none p = false
is_some_and (some a) p = p a

unfoldable pub complete_evidence : OrchestratorEvidence → Bool
complete_evidence evidence =
    evidence.economic_positive
    && (evidence.builder_called
        && (evidence.readonly_pass
            && (evidence.preflight_pass
                && (evidence.output_propagated
                    && (evidence.trace_validated
                        && (not evidence.rejected_registry_hit
                            && not evidence.placeholder_evidence))))))

unfoldable pub positive_economics : RoundEvidence → Bool
positive_economics entry =
    is_some_and entry.economics (λ economics. is_positive economics.net_pnl_atomic)
    && is_some_and entry.gross_pnl_atomic is_positive

unfoldable pub entry_passes : RoundEvidence → Bool
entry_passes entry =
    if not (positive_economics entry)
    then false
    else if not (requires_fork_evidence entry.execution_profile)
    then true
    else is_some_and entry.orchestrator_evidence complete_evidence

unfoldable pub anchor_numbers : List RoundEvidence → List ℕ
anchor_numbers [] = []
anchor_numbers (entry ∷ entries) = entry.anchor.number ∷ anchor_numbers entries

unfoldable pub anchor_hashes : List RoundEvidence → List ℕ
anchor_hashes [] = []
anchor_hashes (entry ∷ entries) = entry.anchor.hash ∷ anchor_hashes entries

abbrev is_rejected : RoundEvidence → Bool
is_rejected entry = entry.rejected_registry_hit

unfoldable pub is_stable : List RoundEvidence → Bool
is_stable entries =
    if not (length entries == 3)
    then false
    else if not (length (collect_set (anchor_numbers entries)) == 3)
        || (not (length (collect_set (anchor_hashes entries)) == 3) || any is_rejected entries)
    then false
    else all entry_passes entries

pub record StableOpportunityAggregator : Type 0 where
  pub windows : Map StabilityKey (List RoundEvidence)

pub new : StableOpportunityAggregator
new = record { windows = [] }

-- `while window.len() > 3 { window.pop_front() }`
keep_three : List RoundEvidence → List RoundEvidence
keep_three [] = []
keep_three (entry ∷ entries) =
    let rest = keep_three entries in
    if ltb 3 (length (entry ∷ entries)) then rest else entry ∷ entries

pub or_default : Option (List RoundEvidence) → List RoundEvidence
or_default none = []
or_default (some window) = window

abbrev pub Three : Type 0
Three = RoundEvidence × RoundEvidence × RoundEvidence

-- The three entries of a full window, if they are stable.
pub three_if_stable : List RoundEvidence → Option Three
three_if_stable (a ∷ b ∷ c ∷ []) = if is_stable (a ∷ b ∷ c ∷ []) then some (a, b, c) else none
three_if_stable _ = none

pub push : StableOpportunityAggregator → RoundEvidence → Option Three × StableOpportunityAggregator
push aggregator evidence =
    let key = from_evidence evidence in
    let window = keep_three (or_default (lookup key aggregator.windows) ++ evidence ∷ []) in
    (three_if_stable window, record { windows = insert key window aggregator.windows })
