-- ===== src/RouteArtifact/Tests.antt =====
-- The loader of src/core/route_artifact.rs on a few cycles.
use Prim.Native.String.{String}
use dex_arbitrage.Prelude.{
  ℕ, ◌+◌, ◌≡◌, ◌≢◌, refl, none, some, List, [], ◌∷◌, length, map, All, Distinct, string_eq,
}
use dex_arbitrage.Prelude.Text.{split, split_once, eq_ignore_ascii_case}
use dex_arbitrage.RouteArtifact.{StructuralRoute}
use dex_arbitrage.RouteArtifact.Load.{
  RouteLoadError, edge_missing, artifact_invalid, token_discontinuity, not_closed, duplicate, panic,
  RouteFailure, RawCycle, load_structural_routes,
}
use dex_arbitrage.RouteArtifact.Load.Checked.{IsLoaded}
use dex_arbitrage.RouteArtifact.Load.Report.{route_ids, load_structural_routes_ok}

abbrev raw : (key : String) → (hop_count : ℕ) → RawCycle ℕ
raw key hop_count = record {
  structural_cycle_key = key;
  hop_count = hop_count;
  profile = "base";
  scans_observed = 2;
  pools = [];
  venues = [];
  gross_multiplier_avg = 1;
}

-- A good cycle, the same once more, and cycles with a wrong number of hops, with a fee that is no
-- number, with a gap, and with an end elsewhere.
abbrev cycles : List (RawCycle ℕ)
cycles =
    raw "A>B|quick|V2|0x1|||b>A|uni|V3||500" 2
    ∷ raw "A>B|quick|V2|0x1|||b>A|uni|V3||500" 2
    ∷ raw "A>A|quick|V2|0x1|" 2
    ∷ raw "A>A|quick|V2|0x1|1x" 1
    ∷ raw "A>B|quick|V2|0x1|||C>A|uni|V3||500" 2
    ∷ raw "A>B|quick|V2|0x1|||B>C|uni|V3||500" 2
    ∷ raw "" 0
    ∷ []

errors_of : List RouteFailure → List RouteLoadError
errors_of = map RouteFailure.error

cycles_report :
    errors_of (load_structural_routes cycles).failures
    ≡ duplicate ∷ edge_missing ∷ artifact_invalid ∷ token_discontinuity ∷ not_closed
      ∷ artifact_invalid ∷ []
unfolding errors_of load_structural_routes split split_once eq_ignore_ascii_case
cycles_report = refl

cycles_legs :
    map StructuralRoute.legs (load_structural_routes cycles).routes
    ≡ (record {
      token_in = "A";
      token_out = "B";
      venue = "quick";
      protocol_version = "V2";
      pool_address = some "0x1";
      fee_tier = none;
    }
        ∷ record {
          token_in = "b";
          token_out = "A";
          venue = "uni";
          protocol_version = "V3";
          pool_address = none;
          fee_tier = some 500;
        }
        ∷ [])
      ∷ []
unfolding load_structural_routes split split_once eq_ignore_ascii_case
cycles_legs = refl

load_structural_routes_ok_example :
    (length (load_structural_routes cycles).routes + length (load_structural_routes cycles).failures
      ≡ length cycles)
    × All IsLoaded (load_structural_routes cycles).routes
    × All (λ failure. failure.error ≢ panic) (load_structural_routes cycles).failures
    × Distinct (route_ids (load_structural_routes cycles).routes)
load_structural_routes_ok_example = load_structural_routes_ok cycles
