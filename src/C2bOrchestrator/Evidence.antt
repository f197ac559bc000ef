-- ===== src/C2bOrchestrator/Evidence.antt =====
-- What evidence from `execute_route` (src/core/c2b_orchestrator.rs) stands on.
use Prim.Native.String.{String}
use dex_arbitrage.Prelude.{
  ℕ, ◌<◌, ◌≡◌, refl, ◌∙◌, ap, sym, Bool, true, false, not, ◌&&◌, ◌==◌, ok, err, arith,
}
use dex_arbitrage.C2bOrchestrator.{
  OrchestratorEvidence, OrchestratorError, OrchestratorStages, Outcome, and_then, guard, evidence,
  is_zero, execute_route, build_and_call, preflight_and_trace,
}

-- A stage that was passed returned a value, with which the rest went on.
and_then_ok :
    {S A B : Type 0} (m : Outcome S A) (next : A → S → Outcome S B) (b : B) (end : S)
    → and_then m next ≡ (ok b, end)
    → (a : A) × (s : S) × (m ≡ (ok a, s)) × (next a s ≡ (ok b, end))
unfolding and_then
and_then_ok (ok a, s) next b end e = (a, s, refl, e)
and_then_ok (err x, s) next b end e = cc

guard_ok :
    {S B : Type 0} (test : Bool) (error : OrchestratorError) (s : S) (next : Outcome S B) (b : B)
    (end : S)
    → guard test error s next ≡ (ok b, end)
    → (test ≡ true) × (next ≡ (ok b, end))
unfolding guard
guard_ok true error s next b end e = (refl, e)
guard_ok false error s next b end e = cc

is_fresh : (rejected : Bool) → not rejected ≡ true → rejected ≡ false
is_fresh rejected e = ground arith

tests_amount :
    (built amount_in : ℕ)
    → (built == amount_in && not (is_zero built)) ≡ true
    → (built ≡ amount_in) × (0 < amount_in)
tests_amount built amount_in e = ground arith

tests_positive : (n : ℕ) → not (is_zero n) ≡ true → 0 < n
tests_positive n e = ground arith

tests_delta :
    (delta : ℕ) (propagated : Bool)
    → (not (is_zero delta) && propagated) ≡ true
    → (0 < delta) × (propagated ≡ true)
tests_delta delta propagated e = ground arith

returned :
    {S B : Type 0} (a b : B) (s end : S)
    → ◌≡◌ {A = Outcome S B} (ok a, s) (ok b, end)
    → (a ≡ b) × (s ≡ end)
returned a b s end e = (cc, cc)

evidence-true :
    (key : String) (positive : Bool) (delta : ℕ) {q v : Bool}
    → q ≡ true
    → v ≡ true
    → evidence key positive delta q v ≡ evidence key positive delta true true
evidence-true key positive delta a b = cc

module _ {S : Type 0} (stages : OrchestratorStages S) where
  -- The stages on the fork passed: a positive propagated balance change and a valid trace.
  pub record PassedFork (start : S) (key : String) (readonly_amount : ℕ) (end : S) (delta : ℕ)
      : Type 0 where
    ran : S
    preflight : stages.anvil_preflight start key readonly_amount ≡ (ok (delta, true), ran)
    delta_positive : 0 < delta
    trace : stages.validate_trace ran key ≡ (ok true, end)

  -- The call was built for the whole positive amount and read, and the fork passed after it.
  pub record PassedCall (start : S) (key : String) (amount_in : ℕ) (end : S) (delta : ℕ)
      : Type 0 where
    built : S
    called : S
    readonly_amount : ℕ
    amount_positive : 0 < amount_in
    build : stages.build_executable_call start key amount_in ≡ (ok amount_in, built)
    readonly : stages.readonly_eth_call built key amount_in ≡ (ok readonly_amount, called)
    readonly_positive : 0 < readonly_amount
    on_fork : PassedFork called key readonly_amount end delta

  preflight_and_trace_ok :
      (start : S) (key : String) (positive : Bool) (readonly_amount : ℕ) (ev : OrchestratorEvidence)
      (end : S)
      → preflight_and_trace stages start key positive readonly_amount ≡ (ok ev, end)
      → (delta : ℕ) × (ev ≡ evidence key positive delta true true)
        × PassedFork start key readonly_amount end delta
  unfolding preflight_and_trace
  preflight_and_trace_ok start key positive readonly_amount ev end e =
      let (moved, ran, preflight, e) = and_then_ok _ _ _ _ e in
      let (is_moved, e) = guard_ok _ _ _ _ _ _ e in
      let (valid, last, trace, e) = and_then_ok _ _ _ _ e in
      let (is_valid, e) = guard_ok _ _ _ _ _ _ e in
      let (delta_positive, propagated) = tests_delta moved.0 moved.1 is_moved in
      let (same_evidence, same_end) = returned _ _ _ _ e in
      (
        moved.0,
        sym same_evidence ∙ evidence-true key positive moved.0 propagated is_valid,
        record {
          ran = ran;
          preflight = preflight ∙ ap (λ b. (ok (moved.0, b), ran)) propagated;
          delta_positive = delta_positive;
          trace = trace ∙ ap (λ b. (ok b, last)) is_valid ∙ ap (λ s. (ok true, s)) same_end;
        },
      )

  build_and_call_ok :
      (start : S) (key : String) (positive : Bool) (amount_in : ℕ) (ev : OrchestratorEvidence)
      (end : S)
      → build_and_call stages start key positive amount_in ≡ (ok ev, end)
      → (delta : ℕ) × (ev ≡ evidence key positive delta true true)
        × PassedCall start key amount_in end delta
  unfolding build_and_call
  build_and_call_ok start key positive amount_in ev end e =
      let (amount, built, build, e) = and_then_ok _ _ _ _ e in
      let (is_amount, e) = guard_ok _ _ _ _ _ _ e in
      let (readonly_amount, called, readonly, e) = and_then_ok _ _ _ _ e in
      let (is_readonly, e) = guard_ok _ _ _ _ _ _ e in
      let (same_amount, amount_positive) = tests_amount amount amount_in is_amount in
      let (delta, same_evidence, on_fork) =
        preflight_and_trace_ok called key positive readonly_amount ev end e in
      (
        delta,
        same_evidence,
        record {
          built = built;
          called = called;
          readonly_amount = readonly_amount;
          amount_positive = amount_positive;
          build = build ∙ ap (λ n. (ok n, built)) same_amount;
          readonly = ap (λ n. stages.readonly_eth_call built key n) (sym same_amount) ∙ readonly;
          readonly_positive = tests_positive readonly_amount is_readonly;
          on_fork = on_fork;
        },
      )

  -- Evidence is returned only for a route that is not rejected, of which every stage passed in
  -- its order: positive economics, a call built for the whole positive amount, a positive
  -- read-only output, a positive propagated balance change and a valid trace; it states that.
  pub execute_route_ok :
      (start : S) (key : String) (rejected : Bool) (amount_in : ℕ) (ev : OrchestratorEvidence)
      (end : S)
      → execute_route stages start key rejected amount_in ≡ (ok ev, end)
      → (rejected ≡ false)
        × ((priced : S) × (delta : ℕ) × (stages.stateful_economics start key ≡ (ok true, priced))
            × PassedCall priced key amount_in end delta
            × (ev ≡ evidence key true delta true true))
  unfolding execute_route
  execute_route_ok start key rejected amount_in ev end e =
      let (fresh, e) = guard_ok _ _ _ _ _ _ e in
      let (positive, priced, economics, e) = and_then_ok _ _ _ _ e in
      let (is_positive, e) = guard_ok _ _ _ _ _ _ e in
      let (delta, same_evidence, call) = build_and_call_ok priced key positive amount_in ev end e in
      (
        is_fresh rejected fresh,
        (
          priced,
          delta,
          economics ∙ ap (λ b. (ok b, priced)) is_positive,
          call,
          same_evidence ∙ ap (λ b. evidence key b delta true true) is_positive,
        ),
      )
