-- ===== src/RouteEconomics/Tests.antt =====
-- Runs of src/core/sequential_route_economics.rs, and the theorems at such rounds.
use dex_arbitrage.Prelude.{ℕ, ◌≡◌, refl, Bool, true, false, some, List, [], ◌∷◌, not, ◌&&◌, all}
use dex_arbitrage.RouteEconomics.{
  RoundOutcome, net_positive, gross_positive_net_unavailable, gross_positive_net_negative,
  sequentially_positive_unstable, slippage_negative, RoundPnl, is_empty,
  aggregate_final_classification, capacity_boundary,
}
use dex_arbitrage.RouteEconomics.Classification.{SameOutcomes}
use dex_arbitrage.RouteEconomics.Capacity.{
  first_size, last_size, is_gross, is_net, is_negative, capacity_boundary_lem,
}

abbrev three_positive : List RoundOutcome
three_positive = net_positive ∷ net_positive ∷ net_positive ∷ []

abbrev mixed : List RoundOutcome
mixed = net_positive ∷ gross_positive_net_negative ∷ []

abbrev mixed_again : List RoundOutcome
mixed_again = gross_positive_net_negative ∷ net_positive ∷ gross_positive_net_negative ∷ []

mixed_is_unstable : aggregate_final_classification mixed ≡ sequentially_positive_unstable
unfolding aggregate_final_classification
mixed_is_unstable = refl

slippage :
    aggregate_final_classification
      (gross_positive_net_negative ∷ gross_positive_net_unavailable ∷ [])
    ≡ slippage_negative
unfolding aggregate_final_classification
slippage = refl

mixed-SameOutcomes : SameOutcomes mixed mixed_again
mixed-SameOutcomes RoundOutcome.route_invalid = refl
mixed-SameOutcomes RoundOutcome.simulation_error = refl
mixed-SameOutcomes RoundOutcome.temporally_incoherent = refl
mixed-SameOutcomes RoundOutcome.unsupported_reused_pool = refl
mixed-SameOutcomes RoundOutcome.gross_negative = refl
mixed-SameOutcomes gross_positive_net_unavailable = refl
mixed-SameOutcomes gross_positive_net_negative = refl
mixed-SameOutcomes net_positive = refl

abbrev unpriced : List RoundOutcome
unpriced = gross_positive_net_unavailable ∷ gross_positive_net_unavailable ∷ []

pnl : ℕ → Bool → RoundPnl ℕ
pnl size gross = record { size_human = size; gross_positive = gross; net_positive = some gross }

-- Positive, negative, positive again: the last positive size is reported, over the negative one.
abbrev grid : List (RoundPnl ℕ)
grid = pnl 10 true ∷ pnl 100 false ∷ pnl 1_000 true ∷ []

grid_boundary : capacity_boundary grid ≡ record {
  largest_gross_positive_size = some 1_000;
  largest_net_positive_size = some 1_000;
  first_negative_size = some 100;
  capacity_upper_bound_unknown = false;
}
unfolding capacity_boundary pnl
grid_boundary = refl

capacity_boundary_lem_example : capacity_boundary grid ≡ record {
  largest_gross_positive_size = last_size is_gross grid;
  largest_net_positive_size = last_size is_net grid;
  first_negative_size = first_size is_negative grid;
  capacity_upper_bound_unknown = not (is_empty grid) && all is_gross grid;
}
capacity_boundary_lem_example = capacity_boundary_lem grid
