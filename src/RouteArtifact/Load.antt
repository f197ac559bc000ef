-- ===== src/RouteArtifact/Load.antt =====
-- The loader of src/core/route_artifact.rs behind the reading of its file: a structural cycle key
-- is split into legs, and the legs are checked. The texts of the errors are left out; a slice out
-- of range is an error of its own.
pub mod Checked
pub mod Report
use Prim.Native.Char.{code}
use Prim.Native.String.{String, ◌++◌ as ◌&◌}
use dex_arbitrage.Prelude.{
  ℕ, zero, suc, ◌+◌, ◌-◌, ◌*◌, ◌^◌, Result, ok, err, ◌>>=◌, ◌>>◌, bail_if, ok_or, Option, none,
  some, Bool, true, false, not, ◌||◌, ◌&&◌, if◌then◌else◌, ltb, leb, ◌==◌, List, [], ◌∷◌, ◌++◌,
  length, contains, string_eq,
}
use dex_arbitrage.Prelude.Text.{split, split_once, eq_ignore_ascii_case}
use dex_arbitrage.RouteArtifact.{
  RouteLeg, RouteReturnClass, return_stable, return_insufficient_observations, StructuralRoute,
}

pub data RouteLoadError : Type 0 where
  artifact_missing : RouteLoadError
  artifact_invalid : RouteLoadError
  edge_missing : RouteLoadError
  token_discontinuity : RouteLoadError
  not_closed : RouteLoadError
  duplicate : RouteLoadError
  -- `tokens[idx..idx + 5]` out of range
  panic : RouteLoadError

pub record RouteFailure : Type 0 where
  pub route_id : String
  pub error : RouteLoadError

pub record RouteLoadReport (Score : Type 0) : Type 0 where
  pub routes : List (StructuralRoute Score)
  pub failures : List RouteFailure

pub record RawCycle (Score : Type 0) : Type 0 where
  pub structural_cycle_key : String
  pub hop_count : ℕ
  pub profile : String
  pub scans_observed : ℕ
  pub pools : List String
  pub venues : List String
  pub gross_multiplier_avg : Score

-- The digits of `parse::<u32>`, after the number read so far.
unfoldable pub parse_digits : ℕ → String → Option ℕ
parse_digits acc String.[] = some acc
parse_digits acc (String.◌∷◌ c s) =
    let value = acc * 10 + (code c - b'0') in
    let rest = parse_digits value s in
    if leb b'0' (code c) && leb (code c) b'9' && ltb value (2 ^ 32) then rest else none

-- `parse::<u32>`: digits with at most a plus sign in front.
unfoldable pub parse_u32 : String → Option ℕ
unfolding parse_digits
parse_u32 String.[] = none
parse_u32 (String.◌∷◌ c s) =
    let signed = if string_eq.beq s "" then none else parse_digits 0 s in
    let unsigned = parse_digits 0 (String.◌∷◌ c s) in if code c == b'+' then signed else unsigned

unfoldable pub parse_fee : String → Result (Option ℕ) RouteLoadError
unfolding parse_u32
parse_fee text =
    if string_eq.beq text ""
    then ok none
    else elim (parse_u32 text) [ none ↦ err artifact_invalid | some fee ↦ ok (some fee) ]

-- The leg of a chunk of five tokens.
unfoldable pub parse_leg :
    (pair venue protocol_version pool fee : String) → Result RouteLeg RouteLoadError
unfolding parse_fee
parse_leg pair venue protocol_version pool fee = do
  (token_in, token_out) ← ok_or (split_once b'>' pair) artifact_invalid
  bail_if (string_eq.beq token_in "" || string_eq.beq token_out "") artifact_invalid
  fee_tier ← parse_fee fee
  ok (record {
    token_in = token_in;
    token_out = token_out;
    venue = venue;
    protocol_version = protocol_version;
    pool_address = if string_eq.beq pool "" then none else some pool;
    fee_tier = fee_tier;
  })

-- The loop over the legs, with the tokens that are left: five for a leg, and between two legs an
-- empty one.
unfoldable pub parse_chunks : (legs_left : ℕ) → List String → Result (List RouteLeg) RouteLoadError
unfolding parse_leg
parse_chunks zero tokens = ok []
parse_chunks (suc zero) (pair ∷ venue ∷ version ∷ pool ∷ fee ∷ tokens) = do
  leg ← parse_leg pair venue version pool fee
  ok (leg ∷ [])
parse_chunks (suc (suc left)) (pair ∷ venue ∷ version ∷ pool ∷ fee ∷ sep ∷ tokens) = do
  leg ← parse_leg pair venue version pool fee
  bail_if (not (string_eq.beq sep "")) artifact_invalid
  legs ← parse_chunks (suc left) tokens
  ok (leg ∷ legs)
parse_chunks (suc (suc left)) (pair ∷ venue ∷ version ∷ pool ∷ fee ∷ []) = do
  leg ← parse_leg pair venue version pool fee
  err artifact_invalid
parse_chunks (suc left) _ = err panic

-- The number of tokens of a key, in `usize` arithmetic.
unfoldable pub expected_tokens : ℕ → Option ℕ
expected_tokens hop_count =
    let tokens = hop_count * 6 in
    if ltb tokens (2 ^ 64) && leb 1 tokens then some (tokens - 1) else none

unfoldable pub parse_legs : String → (hop_count : ℕ) → Result (List RouteLeg) RouteLoadError
unfolding parse_chunks expected_tokens
parse_legs key hop_count = do
  let tokens = split b'|' key
  expected ← ok_or (expected_tokens hop_count) artifact_invalid
  bail_if (hop_count == 0 || not (length tokens == expected)) edge_missing
  parse_chunks hop_count tokens

-- `windows(2)`: whether each leg starts with the token that the one before gives, whatever the case
-- of the letters.
pub is_continuous : List RouteLeg → Bool
is_continuous [] = true
is_continuous (leg ∷ []) = true
is_continuous (leg ∷ next ∷ legs) =
    eq_ignore_ascii_case leg.token_out next.token_in && is_continuous (next ∷ legs)

pub last_from : RouteLeg → List RouteLeg → RouteLeg
last_from leg [] = leg
last_from leg (next ∷ legs) = last_from next legs

pub validate_route : List RouteLeg → Result (Unit {0}) RouteLoadError
unfolding is_continuous last_from
validate_route legs = bail_if (not (is_continuous legs)) token_discontinuity >> (elim legs [
  | [] ↦ err artifact_invalid
  | first ∷ rest ↦
      bail_if (not (eq_ignore_ascii_case first.token_in (last_from first rest).token_out))
        not_closed
])

-- The legs of a cycle that pass both.
pub outcome_of : {Score : Type 0} → RawCycle Score → Result (List RouteLeg) RouteLoadError
unfolding parse_legs validate_route
outcome_of cycle = do
  legs ← parse_legs cycle.structural_cycle_key cycle.hop_count
  validate_route legs
  ok legs

pub route_id_of : {Score : Type 0} → RawCycle Score → String
route_id_of cycle = cycle.profile & (":" & cycle.structural_cycle_key)

pub route_of : {Score : Type 0} → RawCycle Score → List RouteLeg → StructuralRoute Score
unfolding route_id_of
route_of cycle legs = record {
  route_id = route_id_of cycle;
  structural_cycle_key = cycle.structural_cycle_key;
  legs = legs;
  hop_count = cycle.hop_count;
  profile = cycle.profile;
  scans_observed = cycle.scans_observed;
  return_class =
      if leb 2 cycle.scans_observed then return_stable else return_insufficient_observations;
  pools = cycle.pools;
  venues = cycle.venues;
  gross_multiplier_avg = cycle.gross_multiplier_avg;
  anchor_block = 0;
  anchor_block_hash = 0;
  route_input = 0;
  executable_legs = none;
}

module _ {Score : Type 0} where
  -- One round of the loop, for a route id that was not seen before.
  pub load_cycle : RawCycle Score → RouteLoadReport Score → RouteLoadReport Score
  unfolding outcome_of route_of
  load_cycle cycle report = elim (outcome_of cycle) [
    | ok legs ↦ record report { routes = report.routes ++ route_of cycle legs ∷ [] }
    | err error ↦ record report {
      failures = report.failures ++ record { route_id = route_id_of cycle; error = error } ∷ [];
    }
  ]

  pub load_cycles :
      List (RawCycle Score) → (seen : List String) → RouteLoadReport Score → RouteLoadReport Score
  unfolding load_cycle
  load_cycles [] seen report = report
  load_cycles (cycle ∷ cycles) seen report =
      let id = route_id_of cycle in
      let failure : RouteFailure = record { route_id = id; error = duplicate } in
      if contains id seen
      then load_cycles cycles seen (record report { failures = report.failures ++ failure ∷ [] })
      else load_cycles cycles (id ∷ seen) (load_cycle cycle report)

  -- The file and its JSON are read before.
  unfoldable pub load_structural_routes : List (RawCycle Score) → RouteLoadReport Score
  unfolding load_cycles
  load_structural_routes cycles = load_cycles cycles [] (record { routes = []; failures = [] })
