-- ===== src/RouteEconomics.antt =====
-- src/core/sequential_route_economics.rs: the outcomes of the rounds of one (route, size) and their
-- classification, and the capacity boundary of a grid of sizes. A size is an f64 that is only
-- copied, so it is of any type.
pub mod Classification
pub mod Capacity
mod Tests
use Prim.Native.String.{String}
use dex_arbitrage.Prelude.{
  ℕ, Option, none, some, Bool, true, false, not, ◌&&◌, ◌||◌, List, [], ◌∷◌, leb, ◌==◌,
  if◌then◌else◌, length, all, any,
}

pub data RoundOutcome : Type 0 where
  route_invalid simulation_error temporally_incoherent unsupported_reused_pool : RoundOutcome
  gross_negative gross_positive_net_unavailable gross_positive_net_negative : RoundOutcome
  net_positive : RoundOutcome

pub data RouteSizeClassification : Type 0 where
  sequentially_net_positive_stable : RouteSizeClassification
  sequentially_gross_positive_gas_negative : RouteSizeClassification
  sequentially_positive_unstable : RouteSizeClassification
  slippage_negative : RouteSizeClassification
  gross_negative : RouteSizeClassification
  temporally_incoherent : RouteSizeClassification
  unsupported_pool_model : RouteSizeClassification
  unsupported_reused_pool : RouteSizeClassification
  usd_conversion_unavailable : RouteSizeClassification
  gas_unavailable : RouteSizeClassification
  route_invalid : RouteSizeClassification
  simulation_error : RouteSizeClassification

pub label : RouteSizeClassification → String
label sequentially_net_positive_stable = "SEQUENTIALLY_NET_POSITIVE_STABLE"
label sequentially_gross_positive_gas_negative = "SEQUENTIALLY_GROSS_POSITIVE_GAS_NEGATIVE"
label sequentially_positive_unstable = "SEQUENTIALLY_POSITIVE_UNSTABLE"
label slippage_negative = "SLIPPAGE_NEGATIVE"
label RouteSizeClassification.gross_negative = "GROSS_NEGATIVE"
label RouteSizeClassification.temporally_incoherent = "TEMPORALLY_INCOHERENT"
label unsupported_pool_model = "UNSUPPORTED_POOL_MODEL"
label RouteSizeClassification.unsupported_reused_pool = "UNSUPPORTED_REUSED_POOL"
label usd_conversion_unavailable = "USD_CONVERSION_UNAVAILABLE"
label gas_unavailable = "GAS_UNAVAILABLE"
label RouteSizeClassification.route_invalid = "ROUTE_INVALID"
label RouteSizeClassification.simulation_error = "SIMULATION_ERROR"

abbrev pub outcome_tag : RoundOutcome → ℕ
outcome_tag RoundOutcome.route_invalid = 0
outcome_tag RoundOutcome.simulation_error = 1
outcome_tag RoundOutcome.temporally_incoherent = 2
outcome_tag RoundOutcome.unsupported_reused_pool = 3
outcome_tag RoundOutcome.gross_negative = 4
outcome_tag gross_positive_net_unavailable = 5
outcome_tag gross_positive_net_negative = 6
outcome_tag net_positive = 7

-- The derived `==` of `RoundOutcome`.
abbrev pub is : RoundOutcome → RoundOutcome → Bool
is a b = outcome_tag a == outcome_tag b

-- `rounds.contains(&o)`
abbrev pub contains : List RoundOutcome → RoundOutcome → Bool
contains rounds o = any (λ r. is r o) rounds

-- `rounds.iter().all(|r| *r == o)`
abbrev pub all_are : List RoundOutcome → RoundOutcome → Bool
all_are rounds o = all (λ r. is r o) rounds

abbrev pub none_is : List RoundOutcome → RoundOutcome → Bool
none_is rounds o = all (λ r. not (is r o)) rounds

abbrev pub is_empty {ℓ} : {A : Type ℓ} → List A → Bool
is_empty [] = true
is_empty (x ∷ xs) = false

pub aggregate_final_classification : List RoundOutcome → RouteSizeClassification
aggregate_final_classification rounds =
    if is_empty rounds || contains rounds RoundOutcome.route_invalid
    then RouteSizeClassification.route_invalid
    else if contains rounds RoundOutcome.simulation_error
    then RouteSizeClassification.simulation_error
    else if contains rounds RoundOutcome.temporally_incoherent
    then RouteSizeClassification.temporally_incoherent
    else if contains rounds RoundOutcome.unsupported_reused_pool
    then RouteSizeClassification.unsupported_reused_pool
    else if all_are rounds RoundOutcome.gross_negative
    then RouteSizeClassification.gross_negative
    else if all_are rounds net_positive
    then sequentially_net_positive_stable
    else if contains rounds RoundOutcome.gross_negative
    then sequentially_positive_unstable
    else if all_are rounds gross_positive_net_unavailable
    then sequentially_gross_positive_gas_negative
    else if contains rounds net_positive && none_is rounds gross_positive_net_negative
    then sequentially_positive_unstable
    else if contains rounds gross_positive_net_negative && none_is rounds net_positive
    then slippage_negative
    else sequentially_positive_unstable

abbrev is_stable : RouteSizeClassification → Bool
is_stable sequentially_net_positive_stable = true
is_stable _ = false

pub is_fork_candidate : RouteSizeClassification → List RoundOutcome → Bool
is_fork_candidate classification rounds =
    is_stable classification && leb 3 (length rounds) && all_are rounds net_positive

pub record RoundPnl {ℓ} (Size : Type ℓ) : Type ℓ where
  pub size_human : Size
  pub gross_positive : Bool
  pub net_positive : Option Bool

pub record CapacityBoundary {ℓ} (Size : Type ℓ) : Type ℓ where
  pub largest_gross_positive_size : Option Size
  pub largest_net_positive_size : Option Size
  pub first_negative_size : Option Size
  pub capacity_upper_bound_unknown : Bool

abbrev pub is_some {ℓ} : {A : Type ℓ} → Option A → Bool
is_some none = false
is_some (some a) = true

-- `option == Some(true)`
abbrev pub is_some_true : Option Bool → Bool
is_some_true none = false
is_some_true (some b) = b

module _ {ℓ} {Size : Type ℓ} where
  unset : CapacityBoundary Size
  unset = record {
    largest_gross_positive_size = none;
    largest_net_positive_size = none;
    first_negative_size = none;
    capacity_upper_bound_unknown = false;
  }

  -- The first test of the loop body, then its second.
  note_gross : CapacityBoundary Size → RoundPnl Size → CapacityBoundary Size
  note_gross boundary entry =
      if entry.gross_positive
      then record boundary { largest_gross_positive_size = some entry.size_human }
      else if is_some boundary.first_negative_size
      then boundary
      else record boundary { first_negative_size = some entry.size_human }

  note_net : CapacityBoundary Size → RoundPnl Size → CapacityBoundary Size
  note_net boundary entry =
      if is_some_true entry.net_positive
      then record boundary { largest_net_positive_size = some entry.size_human }
      else boundary

  scan : CapacityBoundary Size → List (RoundPnl Size) → CapacityBoundary Size
  scan boundary [] = boundary
  scan boundary (entry ∷ entries) = scan (note_net (note_gross boundary entry) entry) entries

  -- `sizes_ascending.last().is_some_and(|last| last.gross_positive)`
  abbrev pub last_gross_positive : List (RoundPnl Size) → Bool
  last_gross_positive [] = false
  last_gross_positive (entry ∷ []) = entry.gross_positive
  last_gross_positive (_ ∷ entry ∷ entries) = last_gross_positive (entry ∷ entries)

  pub capacity_boundary : List (RoundPnl Size) → CapacityBoundary Size
  unfolding unset note_gross note_net scan
  capacity_boundary sizes_ascending =
      let boundary = scan unset sizes_ascending in
      record boundary {
        capacity_upper_bound_unknown =
            last_gross_positive sizes_ascending && not (is_some boundary.first_negative_size);
      }
