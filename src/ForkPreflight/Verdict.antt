-- ===== src/ForkPreflight/Verdict.antt =====
-- The verdict of src/core/fork_preflight.rs on a call tree and on the balances around a leg.
use Prim.Native.String.{String}
use dex_arbitrage.Prelude.{ℕ, ◌≡◌, refl, ◌∙◌, Option, Bool, ◌||◌, if◌then◌else◌, List, arith}
use dex_arbitrage.ForkTrace.{
  FrameFields, CallFrame, stray_kind, is_stray, is_self_destruct, moves_value, has_error,
}
use dex_arbitrage.ForkTrace.Paths.{shows}
use dex_arbitrage.ForkTrace.Walk.{some_frame, some_frame_same, found-validate_trace}
use dex_arbitrage.ForkPreflight.{
  pass, revert, unexpected_call, is_unexpected, is_revert, classify_trace, validate_preflight_trace,
}

module _ (parse_address : String → Option ℕ) (allowlist callbacks : List ℕ) where
  -- A frame that destroys its contract, moves value, or goes to an address that is neither allowed
  -- nor called by a known callback.
  abbrev pub leaves_route : FrameFields → Bool
  leaves_route fields =
      is_self_destruct fields
      || (moves_value fields || is_stray parse_address allowlist callbacks fields)

  shows_unexpected :
      (fields : FrameFields)
      → shows parse_address allowlist callbacks is_unexpected fields ≡ leaves_route fields
  unfolding is_unexpected stray_kind
  shows_unexpected fields = ground arith

  shows_revert :
      (fields : FrameFields)
      → shows parse_address allowlist callbacks is_revert fields ≡ has_error fields
  unfolding is_revert stray_kind
  shows_revert fields = ground arith

  -- A trace is unexpected exactly where some frame of the tree, however deep, leaves the route;
  -- otherwise it is a revert exactly where some frame has an error, and else it passes.
  pub classify_trace-validate_preflight_trace :
      (trace : CallFrame)
      → classify_trace (validate_preflight_trace parse_address trace allowlist callbacks) ≡ (
          if some_frame leaves_route trace
          then unexpected_call
          else if some_frame has_error trace
          then revert
          else pass)
  unfolding classify_trace validate_preflight_trace
  classify_trace-validate_preflight_trace trace =
      let unexpected =
        found-validate_trace parse_address allowlist callbacks is_unexpected trace
        ∙ some_frame_same _ leaves_route shows_unexpected trace in
      let reverted =
        found-validate_trace parse_address allowlist callbacks is_revert trace
        ∙ some_frame_same _ has_error shows_revert trace in
      rw (unexpected, reverted) refl
