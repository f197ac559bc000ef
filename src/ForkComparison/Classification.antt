-- ===== src/ForkComparison/Classification.antt =====
-- What each class of src/core/fork_economics_comparison.rs says of the two amounts.
use dex_arbitrage.Prelude.{
  ℕ, ◌≡◌, ◌≢◌, ◌↔◌, ◌⊎◌, inl, inr, refl, ap, sym, ◌∙◌, Bool, true, false, not, if◌then◌else◌, max,
  ℤ, pos, negsuc, is_positive, arith,
}
use dex_arbitrage.ForkComparison.{
  DeltaClassification, exact_match, sign_flip, opposite_signs, same_bool, distance, abs_diff,
  unsigned_abs, classify_size, classify_delta,
}

-- Opposite signs mean that exactly one of the two is above zero.
opposite_signs-differ :
    (p a : ℤ) → opposite_signs p a ≡ true → same_bool (is_positive p) (is_positive a) ≡ false
unfolding opposite_signs same_bool
opposite_signs-differ (pos m) (pos n) e = cc
opposite_signs-differ (pos m) (negsuc n) e = ground arith
opposite_signs-differ (negsuc m) (pos n) e = ground arith
opposite_signs-differ (negsuc m) (negsuc n) e = cc

same_bool_iff : (p q : Bool) → (same_bool p q ≡ true) ↔ (p ≡ q)
unfolding same_bool
same_bool_iff true true = (λ e. refl, λ e. refl)
same_bool_iff true false = (λ e. cc, λ e. cc)
same_bool_iff false true = (λ e. cc, λ e. cc)
same_bool_iff false false = (λ e. refl, λ e. refl)

classify_size-sign_flip :
    (delta base bound bps : ℕ) → classify_size delta base bound bps ≢ sign_flip
unfolding classify_size
classify_size-sign_flip delta base bound bps e = ground arith

-- The tests before the sizes are compared, by whether exactly one amount is above zero.
flip_tests :
    (opposite same : Bool) (size : DeltaClassification)
    → (opposite ≡ true → same ≡ false)
    → ((same ≡ false)
        × ((if opposite then sign_flip else if not same then sign_flip else size) ≡ sign_flip))
      ⊎ ((same ≡ true)
          × ((if opposite then sign_flip else if not same then sign_flip else size) ≡ size))
flip_tests true true size h = let never : true ≡ false = h refl in cc
flip_tests true false size h = inl (refl, refl)
flip_tests false true size h = inr (refl, refl)
flip_tests false false size h = inl (refl, refl)

-- A comparison is a sign flip of amounts one of which is above zero, or compares the sizes.
classify_delta-cases :
    (p a : ℤ) (bound bps : ℕ)
    → ((is_positive p ≢ is_positive a) × (classify_delta p a bound bps ≡ sign_flip))
      ⊎ ((is_positive p ≡ is_positive a)
          × (classify_delta p a bound bps
              ≡ classify_size (abs_diff p a) (max (unsigned_abs p) 1) bound bps))
unfolding classify_delta
classify_delta-cases p a bound bps =
    elim (flip_tests (opposite_signs p a) (same_bool (is_positive p) (is_positive a))
      (classify_size (abs_diff p a) (max (unsigned_abs p) 1) bound bps)
      (opposite_signs-differ p a)) [
        | inl (s, e) ↦
            inl (λ q. let same = (same_bool_iff (is_positive p) (is_positive a)).1 q in cc, e)
        | inr (s, e) ↦ inr ((same_bool_iff _ _).0 s, e)
      ]

-- The comparison is a sign flip exactly when one of the two amounts is above zero and the other
-- is not, whatever the tolerances are.
pub classify_delta_flip :
    (predicted actual : ℤ) (bound bps : ℕ)
    → (classify_delta predicted actual bound bps ≡ sign_flip)
      ↔ (is_positive predicted ≢ is_positive actual)
classify_delta_flip p a bound bps = elim (classify_delta-cases p a bound bps) [
  | inl (differ, e) ↦ (λ flip. differ, λ d. e)
  | inr (same, e) ↦
      (λ flip. absurd (classify_size-sign_flip _ _ _ _ (sym e ∙ flip)), λ d. absurd (d same))
]

abs_diff-zero : (p a : ℤ) → (abs_diff p a ≡ 0) ↔ (p ≡ a)
unfolding abs_diff distance
abs_diff-zero (pos m) (pos n) = ground arith
abs_diff-zero (pos m) (negsuc n) = ground arith
abs_diff-zero (negsuc m) (pos n) = ground arith
abs_diff-zero (negsuc m) (negsuc n) = ground arith

classify_size-exact :
    (delta base bound bps : ℕ) → (classify_size delta base bound bps ≡ exact_match) ↔ (delta ≡ 0)
unfolding classify_size
classify_size-exact delta base bound bps = ground arith

-- The comparison is an exact match exactly when the amounts are the same.
pub classify_delta_exact :
    (predicted actual : ℤ) (bound bps : ℕ)
    → (classify_delta predicted actual bound bps ≡ exact_match) ↔ (predicted ≡ actual)
classify_delta_exact p a bound bps = elim (classify_delta-cases p a bound bps) [
  | inl (differ, e) ↦ (λ exact. absurd cc, λ q. absurd (differ (ap is_positive q)))
  | inr (same, e) ↦
      let on_size = classify_size-exact (abs_diff p a) (max (unsigned_abs p) 1) bound bps in
      let on_amounts = abs_diff-zero p a in
      (λ exact. on_amounts.0 (on_size.0 (sym e ∙ exact)), λ q. e ∙ on_size.1 (on_amounts.1 q))
]
