-- ===== src/RouteArtifact/Load/Checked.antt =====
-- What the loader of src/core/route_artifact.rs lets through, and what it reports of the rest.
use Prim.Native.String.{String}
use dex_arbitrage.Prelude.{
  ℕ, zero, suc, ◌+◌, ◌*◌, ◌<◌, ◌≡◌, refl, sym, ap, ◌∙◌, subst, inl, inr, ok, bind-ok, bail_if-ok,
  ok_or-ok, ok-injective, Avoids, ok-Avoids, err-Avoids, bind-Avoids, bail_if-Avoids, ok_or-Avoids,
  none, some, Bool, true, false, not, ◌||◌, ◌==◌, Bool-cases, Option-cases, List, [], ◌∷◌, length,
  string_eq, arith,
}
use dex_arbitrage.Prelude.Text.{split, split_once, eq_ignore_ascii_case}
use dex_arbitrage.RouteArtifact.{RouteLeg, StructuralRoute}
use dex_arbitrage.RouteArtifact.Load.{
  RouteLoadError, artifact_invalid, edge_missing, token_discontinuity, not_closed, panic, RawCycle,
  parse_u32, parse_fee, parse_leg, parse_chunks, expected_tokens, parse_legs, is_continuous,
  last_from, validate_route, outcome_of, route_of,
}

abbrev pub is_panic : RouteLoadError → Bool
is_panic panic = true
is_panic _ = false

parse_fee-Avoids : (text : String) → Avoids is_panic (parse_fee text)
unfolding parse_fee
parse_fee-Avoids text = elim (Bool-cases (string_eq.beq text "")) [
  | inl empty ↦ rw empty (ok-Avoids is_panic none)
  | inr filled ↦ elim (Option-cases (parse_u32 text)) [
    | inl bad ↦ rw (filled, bad, parse_fee) (err-Avoids is_panic artifact_invalid refl)
    | inr (fee, good) ↦ rw (filled, good, parse_fee) (ok-Avoids is_panic (some fee))
  ]
]

parse_leg-Avoids :
    (pair venue version pool fee : String) → Avoids is_panic (parse_leg pair venue version pool fee)
unfolding parse_leg
parse_leg-Avoids pair venue version pool fee =
    ok_or-Avoids is_panic (split_once b'>' pair) artifact_invalid _ refl
      (λ (token_in, token_out) split_at.
        bail_if-Avoids is_panic (string_eq.beq token_in "" || string_eq.beq token_out "")
          artifact_invalid _ (λ empty. refl)
          (λ filled.
            bind-Avoids is_panic (parse_fee fee) _ (parse_fee-Avoids fee)
              (λ fee_tier read. ok-Avoids is_panic _)))

-- With six tokens for each leg, less one, no slice is out of range.
parse_chunks-Avoids :
    (n : ℕ) (tokens : List String)
    → length tokens + 1 ≡ n * 6
    → Avoids is_panic (parse_chunks n tokens)
unfolding parse_chunks
parse_chunks-Avoids zero tokens h = ok-Avoids is_panic []
parse_chunks-Avoids (suc zero) (pair ∷ venue ∷ version ∷ pool ∷ fee ∷ tokens) h =
    bind-Avoids is_panic (parse_leg pair venue version pool fee) _
      (parse_leg-Avoids pair venue version pool fee) (λ leg read. ok-Avoids is_panic _)
parse_chunks-Avoids (suc (suc n)) (pair ∷ venue ∷ version ∷ pool ∷ fee ∷ sep ∷ tokens) h =
    bind-Avoids is_panic (parse_leg pair venue version pool fee) _
      (parse_leg-Avoids pair venue version pool fee)
      (λ leg read.
        bail_if-Avoids is_panic (not (string_eq.beq sep "")) artifact_invalid _ (λ odd. refl)
          (λ even.
            bind-Avoids is_panic (parse_chunks (suc n) tokens) _
              (parse_chunks-Avoids (suc n) tokens (omega arith))
              (λ legs later. ok-Avoids is_panic _)))
parse_chunks-Avoids (suc n) [] h = absurd (omega arith)
parse_chunks-Avoids (suc n) (a ∷ []) h = absurd (omega arith)
parse_chunks-Avoids (suc n) (a ∷ b ∷ []) h = absurd (omega arith)
parse_chunks-Avoids (suc n) (a ∷ b ∷ c ∷ []) h = absurd (omega arith)
parse_chunks-Avoids (suc n) (a ∷ b ∷ c ∷ d ∷ []) h = absurd (omega arith)
parse_chunks-Avoids (suc (suc n)) (a ∷ b ∷ c ∷ d ∷ e ∷ []) h = absurd (omega arith)

expected_tokens-six : (n expected : ℕ) → expected_tokens n ≡ some expected → expected + 1 ≡ n * 6
unfolding expected_tokens
expected_tokens-six n expected h = ground arith

parse_legs-Avoids : (key : String) (n : ℕ) → Avoids is_panic (parse_legs key n)
unfolding parse_legs expected_tokens
parse_legs-Avoids key n =
    ok_or-Avoids is_panic (expected_tokens n) artifact_invalid _ refl (λ expected counted.
      bail_if-Avoids is_panic (n == 0 || not (length (split b'|' key) == expected)) edge_missing _
        (λ wrong. refl)
        (λ right.
          parse_chunks-Avoids n (split b'|' key)
            (let six = expected_tokens-six n expected counted in ground arith)))

parse_chunks-length :
    (n : ℕ) (tokens : List String) {legs : List RouteLeg}
    → length tokens + 1 ≡ n * 6
    → parse_chunks n tokens ≡ ok legs
    → length legs ≡ n
unfolding parse_chunks
parse_chunks-length zero tokens count h = ground arith
parse_chunks-length (suc zero) (pair ∷ venue ∷ version ∷ pool ∷ fee ∷ tokens) {legs} count h =
    let (leg, read, h1) = bind-ok (parse_leg pair venue version pool fee) _ h in
    let same : leg ∷ [] ≡ legs = cc in ap length (sym same)
parse_chunks-length (suc (suc n)) (pair ∷ venue ∷ version ∷ pool ∷ fee ∷ sep ∷ tokens) {legs} count
      h =
    let (leg, read, h1) = bind-ok (parse_leg pair venue version pool fee) _ h in
    let (empty, h2) = bail_if-ok (not (string_eq.beq sep "")) artifact_invalid _ h1 in
    let (rest, later, h3) = bind-ok (parse_chunks (suc n) tokens) _ h2 in
    let same : leg ∷ rest ≡ legs = cc in
    ap length (sym same) ∙ ap suc (parse_chunks-length (suc n) tokens (omega arith) later)
parse_chunks-length (suc (suc n)) (pair ∷ venue ∷ version ∷ pool ∷ fee ∷ []) count h =
    absurd (omega arith)
parse_chunks-length (suc n) [] count h = absurd (omega arith)
parse_chunks-length (suc n) (a ∷ []) count h = absurd (omega arith)
parse_chunks-length (suc n) (a ∷ b ∷ []) count h = absurd (omega arith)
parse_chunks-length (suc n) (a ∷ b ∷ c ∷ []) count h = absurd (omega arith)
parse_chunks-length (suc n) (a ∷ b ∷ c ∷ d ∷ []) count h = absurd (omega arith)

parse_legs-length :
    (key : String) (n : ℕ) {legs : List RouteLeg}
    → parse_legs key n ≡ ok legs
    → (length legs ≡ n) × (0 < n)
unfolding parse_legs expected_tokens
parse_legs-length key n h =
    let (expected, counted, h1) = ok_or-ok (expected_tokens n) artifact_invalid _ h in
    let (right, h2) =
      bail_if-ok (n == 0 || not (length (split b'|' key) == expected)) edge_missing _ h1 in
    let six = expected_tokens-six n expected counted in
    (parse_chunks-length n (split b'|' key) (ground arith) h2, omega (arith, six))

-- Each leg starts with the token that the one before gives, whatever the case of the letters.
abbrev pub AreChained : List RouteLeg → Type 0
AreChained [] = Unit
AreChained (leg ∷ []) = Unit
AreChained (leg ∷ next ∷ legs) =
    (eq_ignore_ascii_case leg.token_out next.token_in ≡ true) × AreChained (next ∷ legs)

-- The last leg gives the token that the first one starts with.
abbrev pub ReturnsTo : String → List RouteLeg → Type 0
ReturnsTo token [] = ⊥
ReturnsTo token (leg ∷ []) = eq_ignore_ascii_case token leg.token_out ≡ true
ReturnsTo token (leg ∷ next ∷ legs) = ReturnsTo token (next ∷ legs)

abbrev pub IsClosed : List RouteLeg → Type 0
IsClosed [] = ⊥
IsClosed (leg ∷ legs) = ReturnsTo leg.token_in (leg ∷ legs)

is_continuous-AreChained : (legs : List RouteLeg) → is_continuous legs ≡ true → AreChained legs
unfolding is_continuous
is_continuous-AreChained [] h = tt
is_continuous-AreChained (leg ∷ []) h = tt
is_continuous-AreChained (leg ∷ next ∷ legs) h =
    (ground arith, is_continuous-AreChained (next ∷ legs) (ground arith))

last_from-ReturnsTo :
    (token : String) (leg : RouteLeg) (legs : List RouteLeg)
    → eq_ignore_ascii_case token (last_from leg legs).token_out ≡ true
    → ReturnsTo token (leg ∷ legs)
unfolding last_from
last_from-ReturnsTo token leg [] h = h
last_from-ReturnsTo token leg (next ∷ legs) h = last_from-ReturnsTo token next legs h

validate_route-IsClosed :
    (legs : List RouteLeg) → validate_route legs ≡ ok tt → AreChained legs × IsClosed legs
unfolding validate_route
validate_route-IsClosed [] h = cc
validate_route-IsClosed (leg ∷ legs) h =
    let (chained, h1) = bail_if-ok (not (is_continuous (leg ∷ legs))) token_discontinuity _ h in
    let closed : eq_ignore_ascii_case leg.token_in (last_from leg legs).token_out ≡ true =
      ground arith in
    (
      is_continuous-AreChained (leg ∷ legs) (ground arith),
      last_from-ReturnsTo leg.token_in leg legs closed,
    )

validate_route-Avoids : (legs : List RouteLeg) → Avoids is_panic (validate_route legs)
unfolding validate_route
validate_route-Avoids [] = err-Avoids is_panic artifact_invalid refl
validate_route-Avoids (leg ∷ legs) =
    let closed = eq_ignore_ascii_case leg.token_in (last_from leg legs).token_out in
    bail_if-Avoids is_panic (not (is_continuous (leg ∷ legs))) token_discontinuity _ (λ gap. refl)
      (λ chained. elim (Bool-cases closed) [
        | inl back ↦ rw back (ok-Avoids is_panic tt)
        | inr away ↦ rw away (err-Avoids is_panic not_closed refl)
      ])

module _ {Score : Type 0} where
  pub outcome_of-Avoids : (cycle : RawCycle Score) → Avoids is_panic (outcome_of cycle)
  unfolding outcome_of
  outcome_of-Avoids cycle =
      bind-Avoids is_panic (parse_legs cycle.structural_cycle_key cycle.hop_count) _
        (parse_legs-Avoids cycle.structural_cycle_key cycle.hop_count)
        (λ legs parsed.
          bind-Avoids is_panic (validate_route legs) _ (validate_route-Avoids legs)
            (λ valid q. ok-Avoids is_panic legs))

  -- What is known of a route that was loaded.
  pub record IsLoaded (route : StructuralRoute Score) : Type 0 where
    parsed : parse_legs route.structural_cycle_key route.hop_count ≡ ok route.legs
    has_leg : 0 < route.hop_count
    one_leg_a_hop : length route.legs ≡ route.hop_count
    chained : AreChained route.legs
    closed : IsClosed route.legs

  pub route_of-IsLoaded :
      (cycle : RawCycle Score) (legs : List RouteLeg)
      → outcome_of cycle ≡ ok legs
      → IsLoaded (route_of cycle legs)
  unfolding outcome_of route_of
  route_of-IsLoaded cycle legs h =
      let (read, parsed, h1) =
        bind-ok (parse_legs cycle.structural_cycle_key cycle.hop_count) _ h in
      let (done, valid, h2) = bind-ok (validate_route read) _ h1 in
      let same : read ≡ legs = ok-injective h2 in
      let was =
        subst (λ l. parse_legs cycle.structural_cycle_key cycle.hop_count ≡ ok l) same parsed in
      let checked = subst (λ l. validate_route l ≡ ok tt) same valid in
      let (hops, some_hop) = parse_legs-length cycle.structural_cycle_key cycle.hop_count was in
      let (chained, closed) = validate_route-IsClosed legs checked in
      record {
        parsed = was;
        has_leg = some_hop;
        one_leg_a_hop = hops;
        chained = chained;
        closed = closed;
      }
