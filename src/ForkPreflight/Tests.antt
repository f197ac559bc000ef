-- ===== src/ForkPreflight/Tests.antt =====
-- Traces and balances of src/core/fork_preflight.rs, and the theorems at them.
use Prim.Native.String.{String}
use dex_arbitrage.Prelude.{
  ℕ, ◌+◌, ◌≤◌, ◌≡◌, ◌↔◌, refl, Option, none, some, ok, if◌then◌else◌, List, [], ◌∷◌, string_eq,
}
use dex_arbitrage.Prelude.Text.{eq_ignore_ascii_case}
use dex_arbitrage.ForkBalance.{i128_max}
use dex_arbitrage.ForkTrace.{
  unexpected_native_value_transfer, unexpected_delegate_target, internal_revert, FrameFields,
  CallFrame, frame, no_calls, call, uniswap_v3_swap_callback_selector, has_error, validate_trace,
}
use dex_arbitrage.ForkTrace.Walk.{some_frame}
use dex_arbitrage.ForkPreflight.{
  OutputPropagation, pass, revert, unexpected_call, validate_preflight_trace, classify_trace,
}
use dex_arbitrage.ForkPreflight.Verdict.{leaves_route, classify_trace-validate_preflight_trace}
use dex_arbitrage.ForkPreflight.Handover.{handover, handover_iff}

-- The addresses of these tests.
abbrev address : String → Option ℕ
address text =
    if string_eq.beq text "router"
    then some 1
    else if string_eq.beq text "pool"
    then some 2
    else if string_eq.beq text "thief"
    then some 9
    else none

abbrev fields : (call_type to value input : String) → FrameFields
fields call_type to value input = record {
  call_type = some call_type;
  to = some to;
  value = some value;
  input = some input;
  error = none;
}

abbrev allowlist : List ℕ
allowlist = 1 ∷ 2 ∷ []

abbrev callbacks : List ℕ
callbacks = uniswap_v3_swap_callback_selector ∷ []

-- A swap, with the pool's call back to a contract that is not listed.
abbrev swap : CallFrame
swap = frame (fields "CALL" "router" "0x0" "0x414bf389") (
    call
      (frame (fields "CALL" "pool" "0x0" "0x128acb08")
        (call (frame (fields "CALL" "thief" "0x0" "0xfa461e3300") no_calls) no_calls))
      no_calls)

-- The same with a delegate call elsewhere two levels down, which moves value and fails.
abbrev stolen : CallFrame
stolen = frame (fields "CALL" "router" "0x0" "0x414bf389") (
    call (frame (fields "CALL" "pool" "0x" "0x128acb08") no_calls) (
      call
        (frame (fields "CALL" "pool" "0x0" "0x12") (
          call
            (frame
              (record (fields "delegatecall" "thief" "0xDe" "0xfa461e") {
                error = some "out of gas";
              })
              no_calls)
            no_calls))
        no_calls))

swap_passes : classify_trace (validate_preflight_trace address swap allowlist callbacks) ≡ pass
unfolding classify_trace validate_preflight_trace validate_trace eq_ignore_ascii_case
swap_passes = refl

stolen_found :
    validate_preflight_trace address stolen allowlist callbacks
    ≡ record { path = 0 ∷ 1 ∷ 0 ∷ []; kind = unexpected_native_value_transfer }
      ∷ record { path = 0 ∷ 1 ∷ 0 ∷ []; kind = unexpected_delegate_target }
      ∷ record { path = 0 ∷ 1 ∷ 0 ∷ []; kind = internal_revert }
      ∷ []
unfolding validate_preflight_trace validate_trace eq_ignore_ascii_case
stolen_found = refl

classify_trace-validate_preflight_trace_example :
    classify_trace (validate_preflight_trace address stolen allowlist callbacks) ≡ (
      if some_frame (leaves_route address allowlist callbacks) stolen
      then unexpected_call
      else if some_frame has_error stolen
      then revert
      else pass)
classify_trace-validate_preflight_trace_example =
    classify_trace-validate_preflight_trace address allowlist callbacks stolen

handover_iff_example :
    ((p : OutputPropagation) × (handover 100 145 45 ≡ ok p)) ↔ ((100 + 45 ≡ 145) × (145 ≤ i128_max))
handover_iff_example = handover_iff 100 145 45
