-- ===== src/ForkBalance/Delta.antt =====
-- The exact balance changes of src/core/fork_balance_accounting.rs and where they are refused.
use dex_arbitrage.Prelude.{
  ℕ, ◌+◌, ◌≤◌, ◌≡◌, inl, inr, Bool-cases, ap, ◌∙◌, ltb, leb, if◌then◌else◌, Result, ok, err, ◌>>=◌,
  ℤ, pos, minus, arith,
}
use dex_arbitrage.ForkBalance.{
  BalanceError, overflow, panicked, i128_max, u128_max, as_u128, i128_try_from, checked_sub,
  signed_delta, gross_pnl_atomic, net_pnl_atomic,
}

-- What `signed_delta` answers for any two balances: the exact difference where both are at most
-- 2^127 - 1, and otherwise the fault of the balance before if it is too large, else of the one
-- after: an overflow below 2^128 and a panic from there on.
unfoldable pub expected_delta : ℕ → ℕ → Result ℤ BalanceError
expected_delta before after =
    if ltb u128_max before
    then err panicked
    else if ltb i128_max before
    then err (overflow before)
    else if ltb u128_max after
    then err panicked
    else if ltb i128_max after
    then err (overflow after)
    else ok (minus after before)

-- The change of a balance, for any two balances, is the one that is expected: exact where both
-- are at most 2^127 - 1, an overflow for one from there to 2^128 - 1, and a panic above.
pub signed_delta_total :
    (before after : ℕ) → signed_delta before after ≡ expected_delta before after
unfolding signed_delta as_u128 i128_try_from checked_sub expected_delta
signed_delta_total before after = ground arith

sub_gas :
    (initial final gas : ℕ)
    → initial + gas ≤ i128_max
    → final ≤ i128_max
    → checked_sub (minus final initial) (pos gas) ≡ ok (minus final (initial + gas))
unfolding checked_sub
sub_gas initial final gas i f = elim (Bool-cases (leb initial final)) [
  | inl up ↦ rw up (ground arith)
  | inr down ↦ rw down (ground arith)
]

signed_delta_exact :
    (before after : ℕ)
    → before ≤ i128_max
    → after ≤ i128_max
    → signed_delta before after ≡ ok (minus after before)
unfolding expected_delta
signed_delta_exact before after b a = let total = signed_delta_total before after in ground arith

net_of_gas :
    (gross : ℤ) (gas : ℕ) → gas ≤ i128_max → net_pnl_atomic gross gas ≡ checked_sub gross (pos gas)
unfolding net_pnl_atomic as_u128 i128_try_from
net_of_gas gross gas g = ground arith

-- The gross result of a route less its gas is exactly the final balance less the initial balance
-- and the gas, above zero or below, whenever the final balance and the initial balance with the
-- gas are at most 2^127 - 1.
pub net_pnl_exact :
    (initial final gas : ℕ)
    → initial + gas ≤ i128_max
    → final ≤ i128_max
    → (gross_pnl_atomic initial final >>= (λ gross. net_pnl_atomic gross gas))
      ≡ ok (minus final (initial + gas))
unfolding gross_pnl_atomic
net_pnl_exact initial final gas i f =
    ap (λ r. r >>= (λ gross. net_pnl_atomic gross gas))
      (signed_delta_exact initial final (omega (arith, i)) f)
    ∙ net_of_gas (minus final initial) gas (omega (arith, i))
    ∙ sub_gas initial final gas i f
