-- ===== src/ForkPreflight/Handover.antt =====
-- What a leg hands on to the next in src/core/fork_preflight.rs.
use dex_arbitrage.Prelude.{
  ℕ, ◌+◌, ◌-◌, ◌≤◌, ◌≡◌, ap, ◌∙◌, ◌↔◌, Result, ok, err, ◌>>=◌, bind-ok, true, if◌then◌else◌, leb,
  ltb, arith,
}
use dex_arbitrage.ForkBalance.{overflow, panicked, i128_max, u128_max}
use dex_arbitrage.ForkBalance.Delta.{expected_delta, signed_delta_total}
use dex_arbitrage.ForkPreflight.{
  OutputPropagation, PreflightAccountingError, balance_delta, output_propagation_mismatch,
  actual_output, propagate_output,
}

abbrev pub handover :
    (before after next_amount_in : ℕ) → Result OutputPropagation PreflightAccountingError
handover before after next_amount_in =
    actual_output before after >>= (λ out. propagate_output out next_amount_in)

-- The output of a leg by the balances around it.
actual_output-cases :
    (before after : ℕ)
    → actual_output before after ≡ (
        if ltb u128_max before
        then err (balance_delta panicked)
        else if ltb i128_max before
        then err (balance_delta (overflow before))
        else if ltb u128_max after
        then err (balance_delta panicked)
        else if ltb i128_max after
        then err (balance_delta (overflow after))
        else if leb before after
        then ok (after - before)
        else err (output_propagation_mismatch 0 after))
unfolding actual_output expected_delta
actual_output-cases before after = let total = signed_delta_total before after in ground arith

-- A leg's output is handed on exactly where the balance rose by what the next leg takes, to at
-- most 2^127 - 1.
pub handover_iff :
    (before after next_amount_in : ℕ)
    → ((p : OutputPropagation) × (handover before after next_amount_in ≡ ok p))
      ↔ ((before + next_amount_in ≡ after) × (after ≤ i128_max))
unfolding propagate_output
handover_iff before after next = (
  λ (p, q).
      let cases = actual_output-cases before after in
      let (out, gives, takes) =
        bind-ok (actual_output before after) (λ out. propagate_output out next) q in
      ground arith,
  λ (rise, bound).
      let cases = actual_output-cases before after in
      let out : actual_output before after ≡ ok next = ground arith in
      let passed : OutputPropagation = record {
        previous_actual_output = next;
        next_amount_in = next;
        matches = true;
      } in
      (passed, ap (λ r. r >>= (λ o. propagate_output o next)) out ∙ ground arith),
)
