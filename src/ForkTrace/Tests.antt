-- ===== src/ForkTrace/Tests.antt =====
-- The places of the anomalies in a trace of src/core/fork_trace_validation.rs.
use Prim.Native.String.{String}
use dex_arbitrage.Prelude.{
  ℕ, ◌≡◌, refl, Option, none, some, Bool, false, if◌then◌else◌, [], ◌∷◌, any, ◌==◌, string_eq,
}
use dex_arbitrage.Prelude.Text.{eq_ignore_ascii_case}
use dex_arbitrage.ForkTrace.{
  unexpected_call_target, TraceAnomaly, FrameFields, CallFrame, frame, no_calls, call,
  validate_trace,
}
use dex_arbitrage.ForkTrace.Paths.{some_at, shows_at, any-validate_trace}

abbrev address : String → Option ℕ
address text = if string_eq.beq text "router" then some 1 else some 9

abbrev fields : (to : String) → FrameFields
fields to = record {
  call_type = some "CALL";
  to = some to;
  value = none;
  input = none;
  error = none;
}

-- The second call of the transaction goes elsewhere.
abbrev trace : CallFrame
trace =
    frame (fields "router")
      (call (frame (fields "router") no_calls) (call (frame (fields "thief") no_calls) no_calls))

trace_found :
    validate_trace address (1 ∷ []) [] trace
    ≡ record { path = 0 ∷ 1 ∷ []; kind = unexpected_call_target } ∷ []
unfolding validate_trace eq_ignore_ascii_case
trace_found = refl

-- Anomalies of the second call of a frame.
abbrev second_call : TraceAnomaly → Bool
second_call anomaly = elim anomaly.path [ root ∷ i ∷ rest ↦ i == 1 | _ ↦ false ]

any-validate_trace_example :
    any second_call (validate_trace address (1 ∷ []) [] trace)
    ≡ some_at (λ rest. shows_at address (1 ∷ []) [] second_call (0 ∷ rest)) trace
any-validate_trace_example = any-validate_trace address (1 ∷ []) [] second_call trace
