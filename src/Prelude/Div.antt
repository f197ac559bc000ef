-- ===== src/Prelude/Div.antt =====
-- Powers of ten, and floor division by a variable.
use native.Mathlib.Nat.{pow-suc, pow-le-pow_right}
use Prim.Native.Nat.{ℕ, zero, suc, ◌+◌, ◌*◌, ◌/◌, ◌%◌, ◌^◌, ◌≤◌, ◌<◌}
use mathlib.Core.Path.{◌≡◌, ap}
use native.Mathlib.Omega.{arith}

pub pow10_pos : (n : ℕ) → 0 < 10 ^ n
pow10_pos zero = omega arith
pow10_pos (suc n) = omega (arith, pow-suc 10 n, pow10_pos n)

pub pow10_le : (n : ℕ) → n ≤ 36 → 10 ^ n ≤ 10 ^ 36
pow10_le n h = pow-le-pow_right {n = 10} (omega arith) h

pub mul_mono : (a b c d : ℕ) → a ≤ c → b ≤ d → a * b ≤ c * d
mul_mono a b c d h k = grind arith

pub mul-lt_cancel : (a b c : ℕ) → a * c < b * c → a < b
mul-lt_cancel a b c h = grind arith

pub div_unique : (n s c r : ℕ) → n ≡ c * s + r → r < s → n / s ≡ c
div_unique n s c r e h = grind arith

parts : (a s : ℕ) → a ≡ a / s * s + a % s
parts a s = omega arith

-- The quotient may be taken of the whole and of the fraction of `a` apart.
pub div_split : (a p s : ℕ) → 0 < s → (a * p) / s ≡ (a / s) * p + ((a % s) * p) / s
div_split a p s h =
    div_unique (a * p) s (a / s * p + a % s * p / s) (a % s * p % s)
      (omega (arith, ap (λ (t : ℕ). t * p) (parts a s), parts (a % s * p) s)) (omega arith)

pub div_mono : (a b s : ℕ) → a ≤ b → a / s ≤ b / s
div_mono a b s h = grind arith

pub div-le_iff : (a s c : ℕ) → 0 < s → a < (c + 1) * s → a / s ≤ c
div-le_iff a s c h k = grind arith

pub le-div : (c n s : ℕ) → 0 < s → c * s ≤ n → c ≤ n / s
le-div c n s h k = grind arith

pub div-mul_le : (n s : ℕ) → n / s * s ≤ n
div-mul_le n s = omega arith

-- The least multiple of `p` at or over `n` lies less than `p` above it.
pub least_tight : (n p c : ℕ) → 0 < p → ((r : ℕ) → n ≤ r * p → c ≤ r) → c * p < n + p
least_tight n p zero h least = omega arith
least_tight n p (suc c) h least = grind (arith, least c)

pub div-lt : (n s c : ℕ) → 0 < s → n < c * s → n / s < c
div-lt n s c h k = grind arith

pub div_anti : (n n' s s' : ℕ) → n ≤ n' → 0 < s' → s' ≤ s → n / s ≤ n' / s'
div_anti n n' s s' h p k =
    le-div (n / s) n' s' p (grind (arith, div-mul_le n s, mul_mono (n / s) s' (n / s) s))
