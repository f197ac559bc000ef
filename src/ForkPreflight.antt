-- ===== src/ForkPreflight.antt =====
-- src/core/fork_preflight.rs: what a leg really gave, whether the next leg takes it, and the class
-- of a trace. A trace's hash is left out.
pub mod Verdict
pub mod Handover
mod Tests
use Prim.Native.String.{String}
use dex_arbitrage.Prelude.{
  ℕ, ◌^◌, Result, ok, err, Option, Bool, true, false, not, if◌then◌else◌, ◌==◌, List, any, ℤ, pos,
  negsuc,
}
use dex_arbitrage.ForkBalance.{BalanceError, signed_delta}
use dex_arbitrage.ForkTrace.{
  AnomalyKind, unexpected_call_target, unexpected_native_value_transfer, self_destruct,
  unexpected_delegate_target, internal_revert, TraceAnomaly, CallFrame, validate_trace,
}

pub data PreflightStatus : Type 0 where
  pass : PreflightStatus
  revert : PreflightStatus
  invalid_calldata : PreflightStatus
  balance_mismatch : PreflightStatus
  unexpected_call : PreflightStatus
  unsupported : PreflightStatus
  environment_failure : PreflightStatus

pub record OutputPropagation : Type 0 where
  pub previous_actual_output : ℕ
  pub next_amount_in : ℕ
  pub matches : Bool

pub data PreflightAccountingError : Type 0 where
  balance_delta : BalanceError → PreflightAccountingError
  output_propagation_mismatch : (expected actual : ℕ) → PreflightAccountingError

pub actual_output : ℕ → ℕ → Result ℕ PreflightAccountingError
actual_output balance_before balance_after = elim (signed_delta balance_before balance_after) [
  | err e ↦ err (balance_delta e)
  | ok (pos delta) ↦ ok delta
  | ok (negsuc n) ↦ err (output_propagation_mismatch 0 balance_after)
]

pub propagate_output : ℕ → ℕ → Result OutputPropagation PreflightAccountingError
propagate_output previous_actual_output next_amount_in =
    let matches = previous_actual_output == next_amount_in in
    if not matches
    then err (output_propagation_mismatch previous_actual_output next_amount_in)
    else ok (record {
      previous_actual_output = previous_actual_output;
      next_amount_in = next_amount_in;
      matches = matches;
    })

pub validate_preflight_trace :
    (String → Option ℕ) → CallFrame → (allowlist callbacks : List ℕ) → List TraceAnomaly
validate_preflight_trace parse_address trace allowlist callbacks =
    validate_trace parse_address allowlist callbacks trace

-- `matches!(a.kind, ..)`
pub is_unexpected : AnomalyKind → Bool
is_unexpected unexpected_call_target = true
is_unexpected unexpected_delegate_target = true
is_unexpected unexpected_native_value_transfer = true
is_unexpected self_destruct = true
is_unexpected internal_revert = false

pub is_revert : AnomalyKind → Bool
is_revert internal_revert = true
is_revert _ = false

pub classify_trace : List TraceAnomaly → PreflightStatus
unfolding is_unexpected is_revert
classify_trace anomalies =
    if any (λ a. is_unexpected a.kind) anomalies
    then unexpected_call
    else if any (λ a. is_revert a.kind) anomalies
    then revert
    else pass
