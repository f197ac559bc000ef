-- ===== src/C2bOrchestrator.antt =====
-- src/core/c2b_orchestrator.rs: the one order in which a route is taken through its stages. The
-- adapters behind the trait `OrchestratorStages` are a record of operations on a state of theirs.
pub mod Evidence
pub mod Order
mod Tests
use Prim.Native.String.{String}
use dex_arbitrage.Prelude.{
  ℕ, Bool, true, false, not, ◌&&◌, ◌||◌, ◌==◌, if◌then◌else◌, Result, ok, err, List, [], ◌∷◌,
}

pub record OrchestratorEvidence : Type 0 where
  pub structural_cycle_key : String
  pub economic_positive : Bool
  pub builder_called : Bool
  pub readonly_pass : Bool
  pub preflight_pass : Bool
  pub balance_delta : ℕ
  pub output_propagated : Bool
  pub trace_validated : Bool
  pub rejected_registry_hit : Bool
  pub placeholder_evidence : Bool

pub data OrchestratorError : Type 0 where
  rejected_registry_hit : OrchestratorError
  stage : (name : String) → OrchestratorError
  placeholder_evidence : OrchestratorError

-- What a method with `&mut self` returns, and the adapter after it.
abbrev pub Outcome : Type 0 → Type 0 → Type 0
Outcome S A = Result A OrchestratorError × S

pub record OrchestratorStages (S : Type 0) : Type 0 where
  pub stateful_economics : S → String → Outcome S Bool
  pub build_executable_call : S → String → ℕ → Outcome S ℕ
  pub readonly_eth_call : S → String → ℕ → Outcome S ℕ
  pub anvil_preflight : S → String → ℕ → Outcome S (ℕ × Bool)
  pub validate_trace : S → String → Outcome S Bool

-- The operator `?` on the result of a stage.
unfoldable pub and_then : {S A B : Type 0} → Outcome S A → (A → S → Outcome S B) → Outcome S B
and_then (ok a, s) next = next a s
and_then (err e, s) next = (err e, s)

-- `return Err(error)` when the test fails.
unfoldable pub guard : {S B : Type 0} → Bool → OrchestratorError → S → Outcome S B → Outcome S B
guard true error s next = next
guard false error s next = (err error, s)

unfoldable pub evidence : String → Bool → ℕ → Bool → Bool → OrchestratorEvidence
evidence key economic_positive balance_delta propagated trace_validated = record {
  structural_cycle_key = key;
  economic_positive = economic_positive;
  builder_called = true;
  readonly_pass = true;
  preflight_pass = true;
  balance_delta = balance_delta;
  output_propagated = propagated;
  trace_validated = trace_validated;
  rejected_registry_hit = false;
  placeholder_evidence = false;
}

abbrev is_zero : ℕ → Bool
is_zero n = n == 0

module _ {S : Type 0} (stages : OrchestratorStages S) where
  -- The stages on the fork, from the balance change on.
  preflight_and_trace : S → String → Bool → ℕ → Outcome S OrchestratorEvidence
  preflight_and_trace s key economic_positive readonly_amount =
      and_then (stages.anvil_preflight s key readonly_amount) (λ preflight s.
        guard (not (is_zero preflight.0) && preflight.1) (stage "balance_delta_or_propagation") s (
          and_then (stages.validate_trace s key) (λ trace_validated s.
            guard trace_validated (stage "trace_validation") s
              (ok (evidence key economic_positive preflight.0 preflight.1 trace_validated), s))))

  -- The call is built and read before it runs on the fork.
  build_and_call : S → String → Bool → ℕ → Outcome S OrchestratorEvidence
  build_and_call s key economic_positive amount_in =
      and_then (stages.build_executable_call s key amount_in) (λ built_amount s.
        guard (built_amount == amount_in && not (is_zero built_amount)) placeholder_evidence s (
          and_then (stages.readonly_eth_call s key built_amount) (λ readonly_amount s.
            guard (not (is_zero readonly_amount)) (stage "readonly_eth_call") s
              (preflight_and_trace s key economic_positive readonly_amount))))

  pub execute_route : S → String → Bool → ℕ → Outcome S OrchestratorEvidence
  execute_route s key rejected amount_in = guard (not rejected) rejected_registry_hit s (
      and_then (stages.stateful_economics s key) (λ economic_positive s.
        guard economic_positive (stage "stateful_economics") s
          (build_and_call s key economic_positive amount_in)))
