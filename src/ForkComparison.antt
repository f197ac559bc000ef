-- ===== src/ForkComparison.antt =====
-- src/core/fork_economics_comparison.rs: how an amount on the fork compares with its prediction.
-- The arguments are i128, u128 and u32 in the source; the sizes enter where they can saturate.
pub mod Classification
mod Tests
use dex_arbitrage.Prelude.{
  ℕ, ◌+◌, ◌-◌, ◌*◌, ◌/◌, ◌^◌, Bool, true, false, not, ◌&&◌, ◌||◌, leb, ltb, ◌==◌, if◌then◌else◌,
  min, max, ℤ, pos, negsuc, is_positive,
}

abbrev pub u128_max : ℕ
u128_max = 2 ^ 128 - 1

pub data DeltaClassification : Type 0 where
  exact_match : DeltaClassification
  within_documented_atomic_bound : DeltaClassification
  economically_equivalent : DeltaClassification
  material_divergence : DeltaClassification
  sign_flip : DeltaClassification

-- `signum() != 0` of the one and the other, and different.
opposite_signs : ℤ → ℤ → Bool
opposite_signs (pos m) (pos n) = false
opposite_signs (pos m) (negsuc n) = ltb 0 m
opposite_signs (negsuc m) (pos n) = ltb 0 n
opposite_signs (negsuc m) (negsuc n) = false

same_bool : Bool → Bool → Bool
same_bool true b = b
same_bool false b = not b

distance : ℕ → ℕ → ℕ
distance m n = if leb m n then n - m else m - n

pub abs_diff : ℤ → ℤ → ℕ
abs_diff (pos m) (pos n) = distance m n
abs_diff (pos m) (negsuc n) = m + n + 1
abs_diff (negsuc m) (pos n) = m + n + 1
abs_diff (negsuc m) (negsuc n) = distance m n

pub unsigned_abs : ℤ → ℕ
unsigned_abs (pos m) = m
unsigned_abs (negsuc m) = m + 1

-- `delta.saturating_mul(10_000).checked_div(base).unwrap_or(u128::MAX)`, where base is not 0.
bps_of : ℕ → ℕ → ℕ
bps_of delta base = min u128_max (delta * 10_000) / base

classify_size : (delta base atomic_bound equivalence_bps : ℕ) → DeltaClassification
classify_size delta base atomic_bound equivalence_bps =
    if delta == 0
    then exact_match
    else if leb delta atomic_bound
    then within_documented_atomic_bound
    else if leb (bps_of delta base) equivalence_bps
    then economically_equivalent
    else material_divergence

pub classify_delta : ℤ → ℤ → ℕ → ℕ → DeltaClassification
classify_delta predicted actual atomic_bound equivalence_bps =
    if opposite_signs predicted actual
    then sign_flip
    else if not (same_bool (is_positive predicted) (is_positive actual))
    then sign_flip
    else classify_size (abs_diff predicted actual) (max (unsigned_abs predicted) 1) atomic_bound
        equivalence_bps
