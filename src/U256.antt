-- ===== src/U256.antt =====
-- The 256-bit unsigned integers of the crate `primitive-types` (`ethers::types::U256`), which is
-- not part of this repository: an interface of the operations that the code calls, each with its
-- documented result. A value stands as the number that it denotes.
use dex_arbitrage.Prelude.{
  ℕ, ◌+◌, ◌-◌, ◌*◌, ◌/◌, ◌%◌, ◌^◌, ◌<◌, ◌≡◌, refl, Option, none, some, leb, ◌==◌, if◌then◌else◌,
}

abbrev pub u256_max : ℕ
u256_max = 2 ^ 256 - 1

abbrev pub u128_max : ℕ
u128_max = 2 ^ 128 - 1

pub record U256 : Type 0 where
  pub checked_add : ℕ → ℕ → Option ℕ
  pub checked_sub : ℕ → ℕ → Option ℕ
  pub checked_mul : ℕ → ℕ → Option ℕ
  pub checked_div : ℕ → ℕ → Option ℕ
  pub checked_rem : ℕ → ℕ → Option ℕ
  pub saturating_add : ℕ → ℕ → ℕ
  pub saturating_sub : ℕ → ℕ → ℕ
  pub saturating_mul : ℕ → ℕ → ℕ
  pub exp10 : ℕ → ℕ
  -- `none` is the panic on a value that does not fit.
  pub as_u128 : ℕ → Option ℕ
  pub checked_add_lem :
      (a b : ℕ) → checked_add a b ≡ (if leb (a + b) u256_max then some (a + b) else none)
  pub checked_sub_lem : (a b : ℕ) → checked_sub a b ≡ (if leb b a then some (a - b) else none)
  pub checked_mul_lem :
      (a b : ℕ) → checked_mul a b ≡ (if leb (a * b) u256_max then some (a * b) else none)
  pub checked_div_lem : (a b : ℕ) → checked_div a b ≡ (if b == 0 then none else some (a / b))
  pub checked_rem_lem : (a b : ℕ) → checked_rem a b ≡ (if b == 0 then none else some (a % b))
  pub saturating_add_lem :
      (a b : ℕ) → saturating_add a b ≡ (if leb (a + b) u256_max then a + b else u256_max)
  pub saturating_sub_lem : (a b : ℕ) → saturating_sub a b ≡ a - b
  pub saturating_mul_lem :
      (a b : ℕ) → saturating_mul a b ≡ (if leb (a * b) u256_max then a * b else u256_max)
  pub exp10_lem : (n : ℕ) → n < 78 → exp10 n ≡ 10 ^ n
  pub as_u128_lem : (a : ℕ) → as_u128 a ≡ (if leb a u128_max then some a else none)

-- The documented operations themselves meet the interface.
abbrev pub reference : U256
reference = record {
  checked_add = λ a b. if leb (a + b) u256_max then some (a + b) else none;
  checked_sub = λ a b. if leb b a then some (a - b) else none;
  checked_mul = λ a b. if leb (a * b) u256_max then some (a * b) else none;
  checked_div = λ a b. if b == 0 then none else some (a / b);
  checked_rem = λ a b. if b == 0 then none else some (a % b);
  saturating_add = λ a b. if leb (a + b) u256_max then a + b else u256_max;
  saturating_sub = λ a b. a - b;
  saturating_mul = λ a b. if leb (a * b) u256_max then a * b else u256_max;
  exp10 = λ n. 10 ^ n;
  as_u128 = λ a. if leb a u128_max then some a else none;
  checked_add_lem = λ a b. refl;
  checked_sub_lem = λ a b. refl;
  checked_mul_lem = λ a b. refl;
  checked_div_lem = λ a b. refl;
  checked_rem_lem = λ a b. refl;
  saturating_add_lem = λ a b. refl;
  saturating_sub_lem = λ a b. refl;
  saturating_mul_lem = λ a b. refl;
  exp10_lem = λ n h. refl;
  as_u128_lem = λ a. refl;
}
