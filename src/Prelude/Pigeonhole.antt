-- ===== src/Prelude/Pigeonhole.antt =====
-- Different numbers below a bound are at most as many as the bound.
use Prim.Native.Nat.{ℕ, zero, suc, ◌≤◌, ◌<◌}
use mathlib.Core.Path.{◌≡◌, refl}
use mathlib.Core.Bool.{false, not}
use mathlib.Core.List.{List, [], ◌∷◌}
use dex_arbitrage.Prelude.Tests.{◌==◌, nat_eq}
use dex_arbitrage.Prelude.Lists.{length, filter}
use dex_arbitrage.Prelude.Members.{contains, All, Distinct}
use native.Mathlib.Omega.{arith}

abbrev without : ℕ → List ℕ → List ℕ
without n xs = filter (λ x. not (x == n)) xs

contains-without :
    (a n : ℕ) (xs : List ℕ) → contains a xs ≡ false → contains a (without n xs) ≡ false
contains-without a n [] h = refl
contains-without a n (x ∷ xs) h = let ih = contains-without a n xs in ground arith

without-Distinct : (n : ℕ) (xs : List ℕ) → Distinct xs → Distinct (without n xs)
without-Distinct n [] d = tt
without-Distinct n (x ∷ xs) (fresh, d) =
    let ih = without-Distinct n xs d in let kept = contains-without x n xs fresh in ground arith

length-without_fresh :
    (n : ℕ) (xs : List ℕ) → contains n xs ≡ false → length (without n xs) ≡ length xs
length-without_fresh n [] h = refl
length-without_fresh n (x ∷ xs) h = let ih = length-without_fresh n xs in ground arith

length-without_le : (n : ℕ) (xs : List ℕ) → Distinct xs → length xs ≤ suc (length (without n xs))
length-without_le n [] d = omega arith
length-without_le n (x ∷ xs) (fresh, d) =
    let ih = length-without_le n xs d in let same = length-without_fresh n xs in ground arith

without-below : (n : ℕ) (xs : List ℕ) → All (λ x. x < suc n) xs → All (λ x. x < n) (without n xs)
without-below n [] h = tt
without-below n (x ∷ xs) (here, h) = let ih = without-below n xs h in ground arith

pub length-Distinct_le : (n : ℕ) (xs : List ℕ) → Distinct xs → All (λ x. x < n) xs → length xs ≤ n
length-Distinct_le zero [] d h = omega arith
length-Distinct_le zero (x ∷ xs) d (here, h) = absurd (omega arith)
length-Distinct_le (suc n) xs d h = omega (
  arith,
  length-without_le n xs d,
  length-Distinct_le n (without n xs) (without-Distinct n xs d) (without-below n xs h),
)
