-- ===== src/ExecutionViability.antt =====
-- src/core/execution_viability.rs: which routes may go to a fork, and the registry of those that
-- were rejected. The labels, the audit records and the selectors of routers are left out.
pub mod Gate
pub mod Registry
mod Tests
use Prim.Native.String.{String}
use dex_arbitrage.Prelude.{
  ℕ, Option, none, some, Bool, true, false, not, if◌then◌else◌, List, [], ◌∷◌, length, string_eq,
  ◌==◌,
}
use dex_arbitrage.Prelude.Map.{Map, lookup, insert, contains_key}

pub data ExecutionEvidenceLevel : Type 0 where
  quote_only : ExecutionEvidenceLevel
  stateful_math_simulated : ExecutionEvidenceLevel
  read_only_call_verified : ExecutionEvidenceLevel
  local_fork_leg_verified : ExecutionEvidenceLevel
  local_fork_route_verified : ExecutionEvidenceLevel
  rejected_known_revert : ExecutionEvidenceLevel

pub data ExecutionPreflightOutcome : Type 0 where
  preflight_pass : ExecutionPreflightOutcome
  preflight_revert : ExecutionPreflightOutcome
  preflight_invalid_calldata : ExecutionPreflightOutcome
  preflight_unsupported : ExecutionPreflightOutcome
  preflight_environment_failure : ExecutionPreflightOutcome

pub data RouteRejectionReason : Type 0 where
  aave_reserve_inactive : (detail : String) → RouteRejectionReason
  aave_reserve_frozen : (detail : String) → RouteRejectionReason
  aave_pool_paused : (detail : String) → RouteRejectionReason
  aave_supply_cap_reached : (detail : String) → RouteRejectionReason
  aave_deposit_disabled : (detail : String) → RouteRejectionReason
  curve_method_incompatible : (detail : String) → RouteRejectionReason
  curve_token_index_invalid : (detail : String) → RouteRejectionReason
  curve_implementation_deprecated : (detail : String) → RouteRejectionReason
  historical_protocol_incompatibility : (detail : String) → RouteRejectionReason
  invalid_calldata : (detail : String) → RouteRejectionReason
  wrong_selector : (detail : String) → RouteRejectionReason
  unsupported_pool_reuse : (detail : String) → RouteRejectionReason
  leg_revert_during_preflight : (detail : String) → RouteRejectionReason
  unknown_deterministic_protocol_revert : (detail : String) → RouteRejectionReason

pub record RejectedRoute : Type 0 where
  pub structural_cycle_key : String
  pub reason : RouteRejectionReason
  pub evidence_artifact : String
  pub first_observed_block : ℕ
  pub last_confirmed_block : ℕ
  pub deterministic : Bool
  pub source_profiles : List String
  pub token_path : List String
  pub venue_path : List String
  pub pool_path : List String

pub record RejectedRouteRegistry : Type 0 where
  pub routes : Map String RejectedRoute

pub new : RejectedRouteRegistry
new = record { routes = [] }

pub register : RejectedRouteRegistry → RejectedRoute → RejectedRouteRegistry
register registry route = record registry {
  routes = insert route.structural_cycle_key route registry.routes;
}

pub is_rejected : RejectedRouteRegistry → String → Bool
is_rejected registry structural_cycle_key = contains_key structural_cycle_key registry.routes

pub rejection : RejectedRouteRegistry → String → Option RejectedRoute
rejection registry structural_cycle_key = lookup structural_cycle_key registry.routes

pub len : RejectedRouteRegistry → ℕ
len registry = length registry.routes

pub check_rejected : RejectedRouteRegistry → String → Option RejectedRoute
check_rejected registry structural_cycle_key = rejection registry structural_cycle_key

-- The levels that the match on `evidence` goes on with.
evidence_goes_on : ExecutionEvidenceLevel → Bool
evidence_goes_on quote_only = false
evidence_goes_on stateful_math_simulated = false
evidence_goes_on rejected_known_revert = false
evidence_goes_on read_only_call_verified = true
evidence_goes_on local_fork_leg_verified = true
evidence_goes_on local_fork_route_verified = true

is_route_verified : ExecutionEvidenceLevel → Bool
is_route_verified local_fork_route_verified = true
is_route_verified _ = false

preflight_allows : ExecutionEvidenceLevel → Option ExecutionPreflightOutcome → Bool
preflight_allows evidence (some preflight_pass) = true
preflight_allows evidence (some preflight_revert) = false
preflight_allows evidence (some preflight_invalid_calldata) = false
preflight_allows evidence (some preflight_unsupported) = false
preflight_allows evidence (some preflight_environment_failure) = false
preflight_allows evidence none = is_route_verified evidence

pub is_fork_candidate_eligible :
    ExecutionEvidenceLevel
    → Option ExecutionPreflightOutcome
    → (rejected economically_positive : Bool) → Bool
is_fork_candidate_eligible evidence preflight rejected economically_positive =
    if rejected
    then false
    else if not economically_positive
    then false
    else if not (evidence_goes_on evidence)
    then false
    else preflight_allows evidence preflight
