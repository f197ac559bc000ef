-- ===== src/ForkBalance.antt =====
-- src/core/fork_balance_accounting.rs: what a route moved, as signed 128-bit amounts. A U256 is a
-- number; `U256::as_u128` panics from 2^128 on, which is an error of its own here.
pub mod Delta
mod Tests
use dex_arbitrage.Prelude.{
  ℕ, ◌+◌, ◌-◌, ◌^◌, Bool, true, false, ltb, leb, if◌then◌else◌, Result, ok, err, ◌>>=◌, ℤ, pos,
  negsuc, is_positive, minus,
}

abbrev pub i128_max : ℕ
i128_max = 2 ^ 127 - 1

abbrev pub u128_max : ℕ
u128_max = 2 ^ 128 - 1

-- `overflow` carries the one amount that does not fit, or says which subtraction left the range.
pub data BalanceError : Type 0 where
  overflow : (amount : ℕ) → BalanceError
  difference_overflow : BalanceError
  panicked : BalanceError

as_u128 : ℕ → Result ℕ BalanceError
as_u128 amount = if leb amount u128_max then ok amount else err panicked

i128_try_from : ℕ → Result ℤ BalanceError
i128_try_from amount = if leb amount i128_max then ok (pos amount) else err (overflow amount)

abbrev fits_i128 : ℤ → Bool
fits_i128 (pos n) = leb n i128_max
fits_i128 (negsuc n) = leb n i128_max

abbrev pub exact_sub : ℤ → ℤ → ℤ
exact_sub (pos m) (pos n) = minus m n
exact_sub (pos m) (negsuc n) = pos (m + n + 1)
exact_sub (negsuc m) (pos n) = negsuc (m + n)
exact_sub (negsuc m) (negsuc n) = minus n m

checked_sub : ℤ → ℤ → Result ℤ BalanceError
checked_sub a b = if fits_i128 (exact_sub a b) then ok (exact_sub a b) else err difference_overflow

pub signed_delta : ℕ → ℕ → Result ℤ BalanceError
signed_delta before after = do
  b ← as_u128 before
  before_i ← i128_try_from b
  a ← as_u128 after
  after_i ← i128_try_from a
  checked_sub after_i before_i

pub gross_pnl_atomic : ℕ → ℕ → Result ℤ BalanceError
gross_pnl_atomic initial_balance final_balance = signed_delta initial_balance final_balance

pub net_pnl_atomic : ℤ → ℕ → Result ℤ BalanceError
net_pnl_atomic gross_pnl gas_cost_start_token_atomic = do
  g ← as_u128 gas_cost_start_token_atomic
  gas_i ← i128_try_from g
  checked_sub gross_pnl gas_i

pub is_material_residual : ℕ → ℕ → Bool
is_material_residual residual_atomic threshold_atomic = ltb threshold_atomic residual_atomic
