-- ===== src/ExecutionViability/Gate.antt =====
-- Which routes `is_fork_candidate_eligible` (src/core/execution_viability.rs) lets through.
use dex_arbitrage.Prelude.{
  ◌≡◌, ◌⊎◌, ◌↔◌, inl, inr, refl, Option, none, some, Bool, true, false, not, if◌then◌else◌, arith,
}
use dex_arbitrage.ExecutionViability.{
  ExecutionEvidenceLevel, quote_only, stateful_math_simulated, read_only_call_verified,
  local_fork_leg_verified, local_fork_route_verified, rejected_known_revert,
  ExecutionPreflightOutcome, preflight_pass, preflight_revert, preflight_invalid_calldata,
  preflight_unsupported, preflight_environment_failure, evidence_goes_on, is_route_verified,
  preflight_allows, is_fork_candidate_eligible,
}

-- The preflight passed and the evidence is at least a call that was read; or there was no
-- preflight, and the whole route was verified on a fork.
unfoldable pub Verified : ExecutionEvidenceLevel → Option ExecutionPreflightOutcome → Type 0
Verified evidence preflight =
    ((preflight ≡ some preflight_pass)
      × ((evidence ≡ read_only_call_verified)
          ⊎ ((evidence ≡ local_fork_leg_verified) ⊎ (evidence ≡ local_fork_route_verified))))
    ⊎ ((preflight ≡ none) × (evidence ≡ local_fork_route_verified))

on_pass :
    (evidence : ExecutionEvidenceLevel)
    → (evidence_goes_on evidence ≡ true) ↔ (
        (evidence ≡ read_only_call_verified)
        ⊎ ((evidence ≡ local_fork_leg_verified) ⊎ (evidence ≡ local_fork_route_verified)))
unfolding evidence_goes_on
on_pass quote_only = ground arith
on_pass stateful_math_simulated = ground arith
on_pass read_only_call_verified = ground arith
on_pass local_fork_leg_verified = ground arith
on_pass local_fork_route_verified = ground arith
on_pass rejected_known_revert = ground arith

on_route :
    (evidence : ExecutionEvidenceLevel)
    → (is_route_verified evidence ≡ true) ↔ (evidence ≡ local_fork_route_verified)
unfolding is_route_verified
on_route quote_only = ground arith
on_route stateful_math_simulated = ground arith
on_route read_only_call_verified = ground arith
on_route local_fork_leg_verified = ground arith
on_route local_fork_route_verified = ground arith
on_route rejected_known_revert = ground arith

-- The two matches on the evidence and the preflight let exactly the verified routes through.
on_matches :
    (evidence : ExecutionEvidenceLevel) (preflight : Option ExecutionPreflightOutcome)
    → ((evidence_goes_on evidence ≡ true) × (preflight_allows evidence preflight ≡ true))
      ↔ Verified evidence preflight
unfolding Verified preflight_allows
on_matches evidence none =
    let pass = on_pass evidence in
    let route = on_route evidence in
    (
      λ h. inr (refl, route.0 (h.1)),
      λ h. elim h [ inl v ↦ cc | inr v ↦ (pass.1 (inr (inr v.1)), route.1 v.1) ],
    )
on_matches evidence (some preflight_pass) =
    let pass = on_pass evidence in
    (λ h. inl (refl, pass.0 (h.0)), λ h. elim h [ inl v ↦ (pass.1 v.1, refl) | inr v ↦ cc ])
on_matches evidence (some preflight_revert) = ground arith
on_matches evidence (some preflight_invalid_calldata) = ground arith
on_matches evidence (some preflight_unsupported) = ground arith
on_matches evidence (some preflight_environment_failure) = ground arith

eligible_tests :
    (rejected positive goes_on allows : Bool)
    → ((if rejected
          then false
          else if not positive
          then false
          else if not goes_on
          then false
          else allows)
        ≡ true)
      ↔ ((rejected ≡ false) × (positive ≡ true) × ((goes_on ≡ true) × (allows ≡ true)))
eligible_tests rejected positive goes_on allows = ground arith

-- A route is eligible exactly when it is not rejected, is economically positive, and is verified:
-- a passed preflight with evidence of a read call or of a fork, or no preflight and the whole
-- route verified on a fork.
pub is_fork_candidate_eligible_iff :
    (evidence : ExecutionEvidenceLevel) (preflight : Option ExecutionPreflightOutcome)
    → (rejected positive : Bool)
    → (is_fork_candidate_eligible evidence preflight rejected positive ≡ true)
      ↔ ((rejected ≡ false) × (positive ≡ true) × Verified evidence preflight)
unfolding is_fork_candidate_eligible
is_fork_candidate_eligible_iff evidence preflight rejected positive =
    let tests =
      eligible_tests rejected positive (evidence_goes_on evidence)
        (preflight_allows evidence preflight) in
    let matches = on_matches evidence preflight in
    (
      λ e. let (r, p, m) = tests.0 e in (r, p, matches.0 m),
      λ h. let (r, p, v) = h in tests.1 (r, p, matches.1 v),
    )
