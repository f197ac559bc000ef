-- ===== src/PoolSim/Swap.antt =====
-- The constant-product swap of src/core/pool_state_sim.rs.
use Prim.Native.String.{String}
use dex_arbitrage.Prelude.{
  ℕ, zero, suc, ◌+◌, ◌-◌, ◌*◌, ◌/◌, ◌^◌, ◌≤◌, ◌<◌, ◌≡◌, ok, err, if◌then◌else◌, ◌==◌, arith,
}
use dex_arbitrage.Prelude.Div.{div-mul_le, mul_mono, div-lt, div_anti}
use native.Mathlib.Nat.{le_trans}
use dex_arbitrage.U256.{U256, u256_max}
use dex_arbitrage.PoolSim.{constant_product_amount_out, zero_output, constant_product_apply}

-- Output of a swap over the integers: fee off the input, rounded down.
abbrev pub swap_floor : ℕ → ℕ → ℕ → ℕ → ℕ
swap_floor a ri ro fee = a * (10_000 - fee) * ro / (ri * 10_000 + a * (10_000 - fee))

module _ (u : U256) (a ri ro fee : ℕ) (p : String) (i : ℕ) {out : ℕ}
    (e : constant_product_amount_out u a ri ro fee p i ≡ ok out) where
  -- What a successful swap has checked, and what it returns.
  pub swap_facts :
      (0 < ri)
      × (0 < ro)
      × (fee ≤ 10_000)
      × (ri * 10_000 + a * (10_000 - fee) ≤ u256_max)
      × (out ≡ swap_floor a ri ro fee)
      × (0 < out)
      × (out < ro)
  unfolding constant_product_amount_out
  swap_facts = ground (
    arith,
    u.checked_sub_lem 10_000 fee,
    u.checked_mul_lem a (10_000 - fee),
    u.checked_mul_lem (a * (10_000 - fee)) ro,
    u.checked_mul_lem ri 10_000,
    u.checked_add_lem (ri * 10_000) (a * (10_000 - fee)),
    u.checked_div_lem (a * (10_000 - fee) * ro) (ri * 10_000 + a * (10_000 - fee)),
  )

paid_for :
    (a m ri d out : ℕ)
    → m ≤ 10_000
    → out * (ri * 10_000 + a * m) ≤ a * m * (out + d)
    → ri * (out + d) ≤ (ri + a) * d
paid_for a m ri d out h e = omega (arith, mul_mono m (a * d) 10_000 (a * d) h (omega arith))

-- The output is paid for: with an output of at most the floor, the product of the reserves stays.
product_kept :
    (a m ri ro out : ℕ)
    → m ≤ 10_000
    → out < ro
    → out * (ri * 10_000 + a * m) ≤ a * m * ro
    → ri * ro ≤ (ri + a) * (ro - out)
product_kept a m ri ro out h k e =
    let split : ro ≡ out + (ro - out) = omega arith in
    rw (← split) at (paid_for a m ri (ro - out) out h (rw split at e))

zero_product : (a ro d : ℕ) → a * 0 * ro / d ≡ 0
zero_product a ro d = let e : a * 0 * ro ≡ 0 = omega arith in rw e (omega arith)

-- A positive output was bought at a positive rate, so the input is at most the scaled one.
positive_rate : (a m ro out d : ℕ) → out ≡ a * m * ro / d → 0 < out → a ≤ a * m
positive_rate a zero ro out d e h = absurd (omega (arith, zero_product a ro d))
positive_rate a (suc m) ro out d e h = grind arith

-- A successful quote is positive, below the output reserve, and the reserves after it have at least
-- the product they had before.
pub constant_product_amount_out_safe :
    (u : U256) (a ri ro fee : ℕ) (p : String) (i : ℕ) {out : ℕ}
    → constant_product_amount_out u a ri ro fee p i ≡ ok out
    → (0 < out)
      × (out < ro)
      × (let (ri', ro') = constant_product_apply u ri ro a out in ri * ro ≤ ri' * ro')
unfolding constant_product_apply
constant_product_amount_out_safe u a ri ro fee p i {out} e =
    let facts = swap_facts u a ri ro fee p i e in
    ground (
      arith,
      facts,
      u.saturating_add_lem ri a,
      u.saturating_sub_lem ro out,
      positive_rate a (10_000 - fee) ro out (ri * 10_000 + a * (10_000 - fee)),
      product_kept a (10_000 - fee) ri ro out (omega arith) facts.6,
      div-mul_le (a * (10_000 - fee) * ro) (ri * 10_000 + a * (10_000 - fee)),
    )

-- The new input reserve fits 256 bits, so the saturating addition is exact.
pub swap_room :
    (u : U256) (a ri ro fee : ℕ) (p : String) (i : ℕ) {out : ℕ}
    → constant_product_amount_out u a ri ro fee p i ≡ ok out
    → ri + a ≤ u256_max
swap_room u a ri ro fee p i {out} e =
    let facts = swap_facts u a ri ro fee p i e in
    ground (arith, facts, positive_rate a (10_000 - fee) ro out (ri * 10_000 + a * (10_000 - fee)))

unit_bound :
    (a m ro ri : ℕ)
    → m ≤ 10_000
    → ro < 2 ^ 112
    → a < 2 ^ 112
    → ri < 2 ^ 112
    → (a * m * ro ≤ u256_max) × (a * m ≤ 2 ^ 112 * 10_000)
unit_bound a m ro ri h k l n =
    let scaled = mul_mono a m (2 ^ 112) 10_000 (omega arith) h in
    (
      le_trans (mul_mono (a * m) ro (2 ^ 112 * 10_000) (2 ^ 112) scaled (omega arith))
          (omega arith),
      scaled,
    )

below_reserve : (k ri ro : ℕ) → 0 < ri → 0 < ro → k * ro / (ri * 10_000 + k) < ro
below_reserve k ri ro h l = div-lt (k * ro) (ri * 10_000 + k) ro (omega arith) (grind arith)

-- For positive reserves below 2^112 (the reserves of a V2 pair), an input below 2^112 and a fee of
-- at most 100% the quote is the rounded-down output, or the error `zero_output` where that is 0: it
-- neither overflows nor runs out of liquidity.
pub constant_product_amount_out_floor :
    (u : U256) (a ri ro fee : ℕ) (p : String) (i : ℕ)
    → 0 < ri
    → ri < 2 ^ 112
    → 0 < ro
    → ro < 2 ^ 112
    → a < 2 ^ 112
    → fee ≤ 10_000
    → constant_product_amount_out u a ri ro fee p i
      ≡ (if swap_floor a ri ro fee == 0 then err (zero_output p i) else ok (swap_floor a ri ro fee))
unfolding constant_product_amount_out
constant_product_amount_out_floor u a ri ro fee p i rp rb op ob ab fb =
    let m = 10_000 - fee in
    ground (
      arith,
      unit_bound a m ro ri (omega arith) ob ab rb,
      below_reserve (a * m) ri ro rp op,
      u.checked_sub_lem 10_000 fee,
      u.checked_mul_lem a m,
      u.checked_mul_lem (a * m) ro,
      u.checked_mul_lem ri 10_000,
      u.checked_add_lem (ri * 10_000) (a * m),
      u.checked_div_lem (a * m * ro) (ri * 10_000 + a * m),
    )

-- More of the input token and less of the output token in the pool never make a quote better.
pub constant_product_amount_out_anti :
    (u : U256) (a ri ro ri' ro' fee : ℕ) (p : String) (i j : ℕ) {out out' : ℕ}
    → ri ≤ ri'
    → ro' ≤ ro
    → constant_product_amount_out u a ri ro fee p i ≡ ok out
    → constant_product_amount_out u a ri' ro' fee p j ≡ ok out'
    → out' ≤ out
constant_product_amount_out_anti u a ri ro ri' ro' fee p i j h k e e' =
    let facts = swap_facts u a ri ro fee p i e in
    let facts' = swap_facts u a ri' ro' fee p j e' in
    ground (
      arith,
      facts,
      facts',
      mul_mono (a * (10_000 - fee)) ro' (a * (10_000 - fee)) ro (omega arith) k,
      div_anti (a * (10_000 - fee) * ro') (a * (10_000 - fee) * ro)
          (ri' * 10_000 + a * (10_000 - fee)) (ri * 10_000 + a * (10_000 - fee)),
    )
