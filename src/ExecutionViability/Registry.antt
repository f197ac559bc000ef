-- ===== src/ExecutionViability/Registry.antt =====
-- The registry of rejected routes of src/core/execution_viability.rs against what was registered.
use Prim.Native.String.{String}
use dex_arbitrage.Prelude.{
  ◌≡◌, refl, Option, none, some, Bool, true, false, if◌then◌else◌, List, [], ◌∷◌, ◌++◌, string_eq,
  arith,
}
use dex_arbitrage.Prelude.Map.{lookup, lookup-insert, lookup-insert_self}
use dex_arbitrage.ExecutionViability.{
  RejectedRoute, RejectedRouteRegistry, new, register, is_rejected, rejection,
  ExecutionEvidenceLevel, ExecutionPreflightOutcome, is_fork_candidate_eligible,
}

-- The registry after the registrations of a list, the latest first.
unfoldable pub registered : List RejectedRoute → RejectedRouteRegistry
registered [] = new
registered (route ∷ routes) = register (registered routes) route

-- The latest route of the list with the key.
unfoldable pub latest_with : String → List RejectedRoute → Option RejectedRoute
latest_with key [] = none
latest_with key (route ∷ routes) =
    let earlier = latest_with key routes in
    if string_eq.beq route.structural_cycle_key key then some route else earlier

-- The rejection of a key is the latest one that was registered for it, under any profile.
pub rejection-registered :
    (routes : List RejectedRoute) (key : String)
    → rejection (registered routes) key ≡ latest_with key routes
unfolding rejection registered register new latest_with lookup
rejection-registered [] key = refl
rejection-registered (route ∷ routes) key =
    let earlier = rejection-registered routes key in
    let found = lookup-insert route.structural_cycle_key key route (registered routes).routes in
    ground (arith, found, earlier)

register-is_rejected :
    (registry : RejectedRouteRegistry) (route : RejectedRoute) (key : String)
    → is_rejected registry key ≡ true
    → is_rejected (register registry route) key ≡ true
unfolding is_rejected register
register-is_rejected registry route key e =
    let found = lookup-insert route.structural_cycle_key key route registry.routes in
    ground (arith, found)

registered-is_rejected :
    (later : List RejectedRoute) (route : RejectedRoute) (earlier : List RejectedRoute)
    → is_rejected (registered (later ++ route ∷ earlier)) route.structural_cycle_key ≡ true
unfolding is_rejected registered register
registered-is_rejected [] route earlier =
    let found = lookup-insert_self route.structural_cycle_key route (registered earlier).routes in
    ground (arith, found)
registered-is_rejected (r ∷ later) route earlier =
    register-is_rejected (registered (later ++ route ∷ earlier)) r route.structural_cycle_key
      (registered-is_rejected later route earlier)

-- Once a route was registered, whatever was registered before and after it, no evidence and no
-- preflight make its key a fork candidate.
pub registered_never_eligible :
    (later : List RejectedRoute) (route : RejectedRoute) (earlier : List RejectedRoute)
    → (evidence : ExecutionEvidenceLevel) (preflight : Option ExecutionPreflightOutcome)
      (positive : Bool)
    → is_fork_candidate_eligible evidence preflight
        (is_rejected (registered (later ++ route ∷ earlier)) route.structural_cycle_key)
        positive
      ≡ false
unfolding is_fork_candidate_eligible
registered_never_eligible later route earlier evidence preflight positive =
    let rejected = registered-is_rejected later route earlier in ground arith
