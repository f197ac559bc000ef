-- ===== src/RouteArtifact.antt =====
-- The routes of src/core/route_artifact.rs, with the identity of a leg's pool and the legs that
-- use a pool again. A price graph finds them, and what executes a route
-- reads them. Addresses and hashes are numbers; the score of a route is an f64.
pub mod Load
mod Tests
use Prim.Native.String.{String, ◌++◌ as ◌&◌}
use dex_arbitrage.Prelude.{ℕ, ◌+◌, ◌≡◌, Option, none, some, List, [], ◌∷◌, string_eq}
use dex_arbitrage.Prelude.Map.{Map, lookup, or_insert}
use dex_arbitrage.Prelude.Text.{str_to_ascii_lowercase}
use dex_arbitrage.PriceEdge.{Venue}

pub record RouteLeg : Type 0 where
  pub token_in : String
  pub token_out : String
  pub venue : String
  pub protocol_version : String
  pub pool_address : Option String
  pub fee_tier : Option ℕ

pub record StructuralRouteLeg : Type 0 where
  pub leg_index : ℕ
  pub venue : Venue
  pub token_in : ℕ
  pub token_out : ℕ
  pub pool : ℕ
  pub router : ℕ
  pub spender : ℕ
  pub fee : Option ℕ

pub data RouteReturnClass : Type 0 where
  return_stable : RouteReturnClass
  return_insufficient_observations : RouteReturnClass

pub record StructuralRoute (Score : Type 0) : Type 0 where
  pub route_id : String
  pub structural_cycle_key : String
  pub legs : List RouteLeg
  pub hop_count : ℕ
  pub profile : String
  pub scans_observed : ℕ
  pub return_class : RouteReturnClass
  pub pools : List String
  pub venues : List String
  pub gross_multiplier_avg : Score
  pub anchor_block : ℕ
  pub anchor_block_hash : ℕ
  pub route_input : ℕ
  pub executable_legs : Option (List StructuralRouteLeg)

unfoldable pub pool_identity : RouteLeg → String
pool_identity leg = elim leg.pool_address [
  | some addr ↦ leg.venue & (":" & str_to_ascii_lowercase addr)
  | none ↦
      leg.venue
      & (":" & (str_to_ascii_lowercase leg.token_in & (">" & str_to_ascii_lowercase leg.token_out)))
]

-- Each leg takes the token that the one before gives.
abbrev pub Linked : List StructuralRouteLeg → Type 0
Linked [] = Unit
Linked (leg ∷ []) = Unit
Linked (leg ∷ next ∷ legs) = (leg.token_out ≡ next.token_in) × Linked (next ∷ legs)

-- One round of the loop at index `i`, with the first leg of each pool seen.
unfoldable pub reuses_from : Map String ℕ → (i : ℕ) → List RouteLeg → List (Option ℕ)
reuses_from first_seen i [] = []
reuses_from first_seen i (leg ∷ legs) =
    lookup (pool_identity leg) first_seen
    ∷ reuses_from (or_insert (pool_identity leg) i first_seen) (i + 1) legs

unfoldable pub detect_pool_reuse : List RouteLeg → List (Option ℕ)
unfolding reuses_from
detect_pool_reuse legs = reuses_from [] 0 legs
