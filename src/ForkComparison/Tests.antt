-- ===== src/ForkComparison/Tests.antt =====
-- Comparisons of src/core/fork_economics_comparison.rs, and the theorems at them.
use dex_arbitrage.Prelude.{◌≡◌, refl, pos}
use dex_arbitrage.ForkComparison.{
  exact_match, within_documented_atomic_bound, economically_equivalent, material_divergence,
  sign_flip, opposite_signs, same_bool, distance, abs_diff, unsigned_abs, bps_of, classify_size,
  classify_delta,
}

classes :
    (classify_delta (pos 1_000) (pos 1_000) 1 50 ≡ exact_match)
    × (classify_delta (pos 1_000) (pos 999) 1 50 ≡ within_documented_atomic_bound)
    × (classify_delta (pos 1_000) (pos 996) 1 50 ≡ economically_equivalent)
    × (classify_delta (pos 1_000) (pos 900) 1 50 ≡ material_divergence)
    × (classify_delta (pos 1) (pos 0) 1 50 ≡ sign_flip)
unfolding classify_delta classify_size opposite_signs same_bool abs_diff unsigned_abs distance
    bps_of
classes = (refl, refl, refl, refl, refl)
