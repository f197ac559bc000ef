-- ===== src/PoolSim/Tests.antt =====
-- Runs of src/core/pool_state_sim.rs with the values of its own tests, and the theorems at them.
use dex_arbitrage.Prelude.{
  ◌*◌, ◌≤◌, ◌<◌, ◌≡◌, refl, List, [], ◌∷◌, ok, err, arith, if◌then◌else◌, ◌==◌, string_eq,
}
use dex_arbitrage.Prelude.Map.{lookup, insert}
use dex_arbitrage.U256.{reference}
use dex_arbitrage.PoolSim.{
  classify, curve_stable_swap, uniswap_v3_concentrated, uniswap_v2_constant_product,
  constant_product, opaque, zero_output, insufficient_liquidity, reuse_computed_locally,
  PoolReuseTracker, constant_product_amount_out, constant_product_apply, touch,
}
use dex_arbitrage.PoolSim.Swap.{
  swap_floor, constant_product_amount_out_safe, constant_product_amount_out_floor,
}
use dex_arbitrage.PoolSim.Tracker.{Evolves, touches, records, Call, run, run-Evolves}

curve_kind : classify "cURVE" "V2" ≡ curve_stable_swap
unfolding classify
curve_kind = refl

v3_kind : classify "UniswapV3" "v3" ≡ uniswap_v3_concentrated
unfolding classify
v3_kind = refl

v2_kind : classify "QuickSwap" "V2" ≡ uniswap_v2_constant_product
unfolding classify
v2_kind = refl

-- `constant_product_matches_hand_computed_example`
hand_computed : constant_product_amount_out reference 1_000 1_000_000 1_000_000 30 "pool" 0 ≡ ok 996
unfolding constant_product_amount_out
hand_computed = refl

-- The same input against the reserves that the first swap left.
hand_computed_again :
    constant_product_amount_out reference 1_000 1_001_000 999_004 30 "pool" 0 ≡ ok 994
unfolding constant_product_amount_out
hand_computed_again = refl

-- `zero_reserve_is_insufficient_liquidity_not_panic`
zero_reserve :
    constant_product_amount_out reference 100 0 100 30 "p" 0 ≡ err (insufficient_liquidity "p" 0)
unfolding constant_product_amount_out
zero_reserve = refl

-- `tiny_amount_in_can_floor_to_zero_output`
tiny_amount :
    constant_product_amount_out reference 1 10_000_000_000 1 30 "p" 0 ≡ err (zero_output "p" 0)
unfolding constant_product_amount_out
tiny_amount = refl

abbrev tracked : PoolReuseTracker
tracked = record {
  states =
      ("pool", constant_product 1_000_000 1_000_000 30) ∷ ("curve", opaque curve_stable_swap) ∷ [];
  first_touch_leg = ("pool", 0) ∷ ("curve", 1) ∷ [];
}

first_swap : (touch reference tracked "pool" 2 1_000).0 ≡ ok (reuse_computed_locally 996)
unfolding touch constant_product_amount_out lookup
first_swap = refl

second_swap :
    (touch reference (touch reference tracked "pool" 2 1_000).1 "pool" 3 1_000).0
    ≡ ok (reuse_computed_locally 994)
unfolding touch constant_product_amount_out lookup insert
second_swap = refl

constant_product_amount_out_safe_example :
    (0 < 996)
    × (996 < 1_000_000)
    × (let (ri', ro') = constant_product_apply reference 1_000_000 1_000_000 1_000 996 in
        1_000_000 * 1_000_000 ≤ ri' * ro')
constant_product_amount_out_safe_example =
    constant_product_amount_out_safe reference 1_000 1_000_000 1_000_000 30 "pool" 0 hand_computed

constant_product_amount_out_floor_example :
    constant_product_amount_out reference 1_000 1_000_000 1_000_000 30 "pool" 0 ≡ (
      if swap_floor 1_000 1_000_000 1_000_000 30 == 0
      then err (zero_output "pool" 0)
      else ok (swap_floor 1_000 1_000_000 1_000_000 30))
constant_product_amount_out_floor_example =
    constant_product_amount_out_floor reference 1_000 1_000_000 1_000_000 30 "pool" 0 (omega arith)
      (omega arith) (omega arith) (omega arith) (omega arith) (omega arith)

abbrev route : List Call
route =
    touches "pool" 2 1_000
    ∷ records "pool" 3 (opaque uniswap_v3_concentrated)
    ∷ touches "pool" 4 500
    ∷ []

run-Evolves_example :
    Evolves (lookup "pool" tracked.states) (lookup "pool" (run reference tracked route).states)
run-Evolves_example = run-Evolves reference tracked route "pool"
