-- ===== src/C2bOrchestrator/Order.antt =====
-- The order of the calls that `execute_route` (src/core/c2b_orchestrator.rs) makes.
use Prim.Native.String.{String}
use mathlib.Core.List.{append_assoc, append-nil}
use dex_arbitrage.Prelude.{
  ℕ, ◌≡◌, refl, inl, inr, Bool, true, false, not, ◌&&◌, ◌==◌, if◌then◌else◌, Bool-cases, Result, ok,
  err, List, [], ◌∷◌, ◌++◌, sym,
}
use dex_arbitrage.C2bOrchestrator.{
  OrchestratorError, rejected_registry_hit, OrchestratorStages, Outcome, and_then, guard,
  execute_route, build_and_call, preflight_and_trace,
}

pub data StageName : Type 0 where
  economics : StageName
  build : StageName
  readonly : StageName
  preflight : StageName
  trace : StageName

abbrev pub all_stages : List StageName
all_stages = economics ∷ build ∷ readonly ∷ preflight ∷ trace ∷ []

-- A call of a stage: whether it returned a value, and one that the route can go on with.
pub record Visit : Type 0 where
  pub name : StageName
  pub passed : Bool

abbrev accepted : {A : Type 0} → (A → Bool) → Result A OrchestratorError → Bool
accepted test (ok a) = test a
accepted test (err e) = false

-- The outcome of a stage, with the call written at the end of the log.
unfoldable pub noted :
    {S A : Type 0} → StageName → (A → Bool) → List Visit → Outcome S A → Outcome (S × List Visit) A
noted name test log (r, s) =
    (r, (s, log ++ (record { name = name; passed = accepted test r }) ∷ []))

-- Any adapter, with a log of the calls made on it: positive economics, a call for the whole
-- positive amount, a positive output, a positive propagated balance change and a valid trace pass.
unfoldable pub recording : {S : Type 0} → OrchestratorStages S → OrchestratorStages (S × List Visit)
recording stages = record {
  stateful_economics =
      λ s key. noted economics (λ positive. positive) s.1 (stages.stateful_economics s.0 key);
  build_executable_call = λ s key amount.
      noted build (λ built. built == amount && not (built == 0)) s.1
        (stages.build_executable_call s.0 key amount);
  readonly_eth_call = λ s key amount.
      noted readonly (λ output. not (output == 0)) s.1 (stages.readonly_eth_call s.0 key amount);
  anvil_preflight = λ s key amount.
      noted preflight (λ moved. not (moved.0 == 0) && moved.1) s.1
        (stages.anvil_preflight s.0 key amount);
  validate_trace = λ s key. noted trace (λ valid. valid) s.1 (stages.validate_trace s.0 key);
}

abbrev pub is_ok : {A E : Type 0} → Result A E → Bool
is_ok (ok a) = true
is_ok (err e) = false

abbrev is_stage : StageName → StageName → Bool
is_stage economics economics = true
is_stage build build = true
is_stage readonly readonly = true
is_stage preflight preflight = true
is_stage trace trace = true
is_stage _ _ = false

abbrev is_empty : List Visit → Bool
is_empty [] = true
is_empty (visit ∷ log) = false

-- The log goes through the stages in their order, goes on after a call that passed, ends at one
-- that did not, and the run succeeds exactly where every stage passed.
unfoldable pub follows : List StageName → List Visit → Bool → Bool
follows [] [] succeeded = succeeded
follows [] (visit ∷ log) succeeded = false
follows (stage ∷ stages) [] succeeded = false
follows (stage ∷ stages) (visit ∷ log) succeeded =
    let rest = follows stages log succeeded in
    let ends = is_empty log && not succeeded in
    is_stage stage visit.name && (if visit.passed then rest else ends)

-- What a part of the route adds to the log goes through the stages that are left.
GoesOn : {S A : Type 0} → List StageName → List Visit → Outcome (S × List Visit) A → Type 0
GoesOn stages before x =
    (added : List Visit) × (x.1.1 ≡ before ++ added) × (follows stages added (is_ok x.0) ≡ true)

module _ {S A B : Type 0} (name : StageName) (stages : List StageName) (log : List Visit)
    (test : A → Bool) (error : OrchestratorError)
    (next : A → S × List Visit → Outcome (S × List Visit) B) where
  abbrev visited : Bool → List Visit
  visited passed = log ++ (record { name = name; passed = passed }) ∷ []

  -- A stage with its test: the rest of the route runs where the test accepts what it returned.
  stage-GoesOn :
      (m : Outcome S A)
      → is_stage name name ≡ true
      → ((a : A) (s : S) → GoesOn stages (visited true) (next a (s, visited true)))
      → GoesOn
          (name ∷ stages)
          log
          (and_then (noted name test log m) (λ a s. guard (test a) error s (next a s)))
  unfolding and_then noted guard GoesOn follows
  stage-GoesOn (ok a, s) same goes_on = elim (Bool-cases (test a)) [
    | inl passed ↦ rw passed (
        let (added, extends, fits) = goes_on a s in
        (
          record { name = name; passed = true } ∷ added,
          rw extends (append_assoc log (record { name = name; passed = true } ∷ []) added),
          rw (follows, same) fits,
        ))
    | inr failed ↦
        rw failed (record { name = name; passed = false } ∷ [], refl, rw (follows, same) refl)
  ]
  stage-GoesOn (err e, s) same goes_on =
      (record { name = name; passed = false } ∷ [], refl, rw (follows, same) refl)

done-GoesOn :
    {S A : Type 0} (log : List Visit) (a : A) (s : S)
    → GoesOn {S = S} {A = A} [] log (ok a, (s, log))
unfolding GoesOn follows
done-GoesOn log a s = ([], sym (append-nil log), refl)

execute_route-GoesOn :
    {S : Type 0} (stages : OrchestratorStages S) (start : S) (key : String) (amount_in : ℕ)
    → GoesOn all_stages [] (execute_route (recording stages) (start, []) key false amount_in)
unfolding execute_route build_and_call preflight_and_trace recording guard
execute_route-GoesOn stages start key amount_in =
    stage-GoesOn economics _ _ (λ positive. positive) _ _ (stages.stateful_economics start key) refl
      (λ positive s.
        stage-GoesOn build _ _ (λ built. built == amount_in && not (built == 0)) _ _
          (stages.build_executable_call s key amount_in) refl
          (λ built s.
            stage-GoesOn readonly _ _ (λ output. not (output == 0)) _ _
              (stages.readonly_eth_call s key built) refl
              (λ amount s.
                stage-GoesOn preflight _ _ (λ moved. not (moved.0 == 0) && moved.1) _ _
                  (stages.anvil_preflight s key amount) refl
                  (λ moved s.
                    stage-GoesOn trace _ _ (λ valid. valid) _ _ (stages.validate_trace s key) refl
                      (λ valid s. done-GoesOn _ _ s)))))

rejected_at_once :
    {S : Type 0} (stages : OrchestratorStages S) (start : S) (key : String) (amount_in : ℕ)
    → execute_route stages start key true amount_in ≡ (err rejected_registry_hit, start)
unfolding execute_route guard
rejected_at_once stages start key amount_in = refl

-- Whatever the stages return: a rejected route calls none of them and gives the registry hit.
-- Any other route calls them in the order economics, build, readonly, preflight, trace, each at most
-- once; the next one exactly where the one before passed, that is, returned what its test accepts,
-- and none after one that failed or did not pass; and evidence is returned exactly where all five
-- passed.
pub execute_route-order :
    {S : Type 0} (stages : OrchestratorStages S) (start : S) (key : String) (rejected : Bool)
    (amount_in : ℕ)
    → (let out = execute_route (recording stages) (start, []) key rejected amount_in in
        (rejected ≡ true → out ≡ (err rejected_registry_hit, (start, [])))
        × (rejected ≡ false → follows all_stages out.1.1 (is_ok out.0) ≡ true))
unfolding GoesOn
execute_route-order stages start key rejected amount_in = (
  λ r. rw r (rejected_at_once (recording stages) (start, []) key amount_in),
  λ r. rw r (
      let (added, extends, fits) = execute_route-GoesOn stages start key amount_in in
      rw extends fits),
)
