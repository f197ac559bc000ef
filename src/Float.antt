-- ===== src/Float.antt =====
-- The f64 operations that the modelled code calls, as an interface: floating-point arithmetic has
-- none of the laws of exact arithmetic, so none is assumed here.
use dex_arbitrage.Prelude.{ℕ, Bool, Option}

pub record F64 : Type 1 where
  pub Carrier : Type 0
  pub zero : Carrier
  pub add : Carrier → Carrier → Carrier
  pub sub : Carrier → Carrier → Carrier
  -- `a < b`, false where one of them is NaN
  pub lt : Carrier → Carrier → Bool

-- What the scores of routes and cycles are computed with.
pub record F64Rates : Type 1 where
  pub Carrier : Type 0
  pub one : Carrier
  pub mul : Carrier → Carrier → Carrier
  pub div : Carrier → Carrier → Carrier
  -- `a > 0.0`
  pub is_positive : Carrier → Bool
  pub is_finite : Carrier → Bool
  -- `U256::to_string` read by `parse::<f64>`
  pub parse : ℕ → Option Carrier

-- What the search with logarithmic weights computes with.
pub record F64Graph : Type 1 where
  pub Carrier : Type 0
  pub zero : Carrier
  pub one : Carrier
  -- `100.0`
  pub hundred : Carrier
  -- `1e-12`
  pub tolerance : Carrier
  pub add : Carrier → Carrier → Carrier
  pub sub : Carrier → Carrier → Carrier
  pub mul : Carrier → Carrier → Carrier
  pub div : Carrier → Carrier → Carrier
  pub neg : Carrier → Carrier
  pub ln : Carrier → Carrier
  -- `a < b` and `a <= b`, false where one of them is NaN
  pub lt : Carrier → Carrier → Bool
  pub le : Carrier → Carrier → Bool
  pub is_finite : Carrier → Bool

-- What the pauses between retries are computed with.
pub record F64Delay : Type 1 where
  pub Carrier : Type 0
  pub zero : Carrier
  pub one : Carrier
  pub two : Carrier
  -- `0.15` and `0.4`
  pub default_jitter : Carrier
  pub four_tenths : Carrier
  pub add : Carrier → Carrier → Carrier
  pub mul : Carrier → Carrier → Carrier
  pub clamp : Carrier → Carrier → Carrier → Carrier
  pub lt : Carrier → Carrier → Bool
  pub from_u128 : ℕ → Carrier
  pub to_u64 : Carrier → ℕ
