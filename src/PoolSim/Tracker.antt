-- ===== src/PoolSim/Tracker.antt =====
-- `PoolReuseTracker` of src/core/pool_state_sim.rs: what one touch does, and what holds after any
-- sequence of touches and records.
use Prim.Native.String.{String}
use dex_arbitrage.Prelude.{
  Result-cases, if◌then◌else◌, ℕ, ◌+◌, ◌-◌, ◌*◌, ◌≤◌, ◌≡◌, refl, ap, ◌∙◌, ◌⊎◌, inl, inr, Option,
  none, some, List, [], ◌∷◌, Result, ok, err, arith, Option-cases, string_eq,
}
use dex_arbitrage.Prelude.Map.{lookup, insert, lookup-insert_self, lookup-or_insert, insert-cases}
use dex_arbitrage.U256.{U256}
use dex_arbitrage.PoolSim.{
  PoolKind, SimulatedPoolState, constant_product, opaque, SimulationError, PoolTouch, first_touch,
  reuse_computed_locally, unsupported_reused_pool, PoolReuseTracker, constant_product_amount_out,
  constant_product_apply, touch, record_first_touch,
}
use dex_arbitrage.PoolSim.Swap.{
  swap_room, constant_product_amount_out_safe, constant_product_amount_out_anti,
}

-- The tracker after a swap of `a` for `out` against the reserves `ri` and `ro` of pool `p`.
abbrev pub swapped : PoolReuseTracker → String → ℕ → ℕ → ℕ → ℕ → ℕ → PoolReuseTracker
swapped t p a ri ro fee out = record t {
  states = insert p (constant_product (ri + a) (ro - out) fee) t.states;
}

module _ (u : U256) (t : PoolReuseTracker) (p : String) (i a : ℕ) where
  touch-swapped :
      {ri ro fee out : ℕ}
      → lookup p t.states ≡ some (constant_product ri ro fee)
      → constant_product_amount_out u a ri ro fee p i ≡ ok out
      → touch u t p i a ≡ (ok (reuse_computed_locally out), swapped t p a ri ro fee out)
  unfolding touch constant_product_apply
  touch-swapped {ri} {ro} {fee} {out} e q =
      let room = swap_room u a ri ro fee p i q in
      ground (arith, e, q, room, u.saturating_add_lem ri a, u.saturating_sub_lem ro out)

  touch_refused :
      {ri ro fee : ℕ} {x : SimulationError}
      → lookup p t.states ≡ some (constant_product ri ro fee)
      → constant_product_amount_out u a ri ro fee p i ≡ err x
      → touch u t p i a ≡ (err x, t)
  unfolding touch
  touch_refused e q = ground (arith, e, q)

  -- What a touch can do: an unknown pool asks for a quote, an opaque one is refused, and a
  -- constant-product one is swapped against its tracked reserves or fails as the swap fails.
  abbrev pub TouchOutcome : Type 0
  TouchOutcome =
      ((lookup p t.states ≡ none) × (touch u t p i a ≡ (ok first_touch, t)))
      ⊎ ((kind : PoolKind) × (lookup p t.states ≡ some (opaque kind))
          × (touch u t p i a ≡ (err (unsupported_reused_pool p i), t)))
      ⊎ ((ri : ℕ) × (ro : ℕ) × (fee : ℕ) × (out : ℕ) × (lookup p t.states
            ≡ some (constant_product ri ro fee))
          × (constant_product_amount_out u a ri ro fee p i ≡ ok out)
          × (touch u t p i a ≡ (ok (reuse_computed_locally out), swapped t p a ri ro fee out)))
      ⊎ ((ri : ℕ) × (ro : ℕ) × (fee : ℕ) × (x : SimulationError) × (lookup p t.states
            ≡ some (constant_product ri ro fee))
          × (constant_product_amount_out u a ri ro fee p i ≡ err x)
          × (touch u t p i a ≡ (err x, t)))

  reuse_outcome :
      (ri ro fee : ℕ) → lookup p t.states ≡ some (constant_product ri ro fee) → TouchOutcome
  reuse_outcome ri ro fee e = elim (Result-cases (constant_product_amount_out u a ri ro fee p i)) [
    | inl (out, q) ↦ inr (inr (inl (ri, ro, fee, out, e, q, touch-swapped e q)))
    | inr (x, q) ↦ inr (inr (inr (ri, ro, fee, x, e, q, touch_refused e q)))
  ]

  -- Every touch is one of these four: the first use of a pool asks for a quote, an opaque pool is
  -- refused, a constant-product pool is quoted against its tracked reserves, which move by exactly
  -- the input and the output, and where that quote fails the tracker stays as it was.
  pub touch-TouchOutcome : TouchOutcome
  unfolding touch
  touch-TouchOutcome = elim (Option-cases (lookup p t.states)) [
    | inl e ↦ inl (e, ground (arith, e))
    | inr (opaque kind, e) ↦ inr (inl (kind, e, ground (arith, e)))
    | inr (constant_product ri ro fee, e) ↦ reuse_outcome ri ro fee e
  ]

-- A tracked pool later on: an opaque pool is as it was; a constant-product pool has its fee, no
-- less of the input token, no more of the output token, and no smaller product.
abbrev pub EvolvesTo : SimulatedPoolState → SimulatedPoolState → Type 0
EvolvesTo (constant_product ri ro fee) (constant_product ri' ro' fee') =
    (fee ≡ fee') × (ri ≤ ri') × (ro' ≤ ro) × (ri * ro ≤ ri' * ro')
EvolvesTo (constant_product ri ro fee) (opaque kind) = ⊥
EvolvesTo (opaque kind) (opaque kind') = kind ≡ kind'
EvolvesTo (opaque kind) (constant_product ri ro fee) = ⊥

abbrev pub Evolves : Option SimulatedPoolState → Option SimulatedPoolState → Type 0
Evolves none s = Unit {0}
Evolves (some s) none = ⊥
Evolves (some s) (some s') = EvolvesTo s s'

Evolves-refl : (s : Option SimulatedPoolState) → Evolves s s
Evolves-refl none = tt
Evolves-refl (some (constant_product ri ro fee)) = ground arith
Evolves-refl (some (opaque kind)) = refl

Evolves-trans : (r s t : Option SimulatedPoolState) → Evolves r s → Evolves s t → Evolves r t
Evolves-trans none s t h k = tt
Evolves-trans (some r) none t h k = absurd h
Evolves-trans (some r) (some s) none h k = absurd k
Evolves-trans (some (constant_product ri ro fee)) (some (constant_product ri' ro' fee'))
      (some (constant_product ri'' ro'' fee'')) h k =
    ground arith
Evolves-trans (some (constant_product ri ro fee)) (some (constant_product ri' ro' fee'))
      (some (opaque k'')) h k =
    absurd k
Evolves-trans (some (constant_product ri ro fee)) (some (opaque k')) (some t) h k = absurd h
Evolves-trans (some (opaque k)) (some (constant_product ri' ro' fee')) (some t) h q = absurd h
Evolves-trans (some (opaque k)) (some (opaque k')) (some (constant_product ri ro fee)) h q =
    absurd q
Evolves-trans (some (opaque k)) (some (opaque k')) (some (opaque k'')) h q = h ∙ q

Evolves-default :
    (o d : Option SimulatedPoolState) → Evolves o (elim o [ none ↦ d | some s ↦ some s ])
Evolves-default none d = tt
Evolves-default (some s) d = Evolves-refl (some s)

swapped-Evolves :
    (u : U256) (t : PoolReuseTracker) (p : String) (i a ri ro fee out : ℕ) (q : String)
    → lookup p t.states ≡ some (constant_product ri ro fee)
    → constant_product_amount_out u a ri ro fee p i ≡ ok out
    → Evolves (lookup q t.states) (lookup q (swapped t p a ri ro fee out).states)
unfolding constant_product_apply
swapped-Evolves u t p i a ri ro fee out q e h =
    let kept = constant_product_amount_out_safe u a ri ro fee p i h in
    let room = swap_room u a ri ro fee p i h in
    elim (insert-cases p q (constant_product (ri + a) (ro - out) fee) t.states) [
      | inl (same, f) ↦
          rw (f, ← same, e)
            (ground (arith, kept, room, u.saturating_add_lem ri a, u.saturating_sub_lem ro out))
      | inr (_, f) ↦ rw f (Evolves-refl (lookup q t.states))
    ]

-- A pool that is followed keeps its state, a new one gets the given one.
pub lookup-record_first_touch :
    (t : PoolReuseTracker) (p : String) (i : ℕ) (s : SimulatedPoolState) (q : String)
    → lookup q (record_first_touch t p i s).states ≡ elim (lookup q t.states) [
      | none ↦ if string_eq.beq p q then some s else none
      | some w ↦ some w
    ]
unfolding record_first_touch
lookup-record_first_touch t p i s q = lookup-or_insert p q s t.states

record_first_touch-Evolves :
    (t : PoolReuseTracker) (p : String) (i : ℕ) (s : SimulatedPoolState) (q : String)
    → Evolves (lookup q t.states) (lookup q (record_first_touch t p i s).states)
unfolding record_first_touch
record_first_touch-Evolves t p i s q =
    rw (lookup-or_insert p q s t.states) (Evolves-default (lookup q t.states) _)

touch-Evolves :
    (u : U256) (t : PoolReuseTracker) (p : String) (i a : ℕ) (q : String)
    → Evolves (lookup q t.states) (lookup q (touch u t p i a).1.states)
touch-Evolves u t p i a q = elim (touch-TouchOutcome u t p i a) [
  | inl (_, e) ↦ rw e (Evolves-refl (lookup q t.states))
  | inr (inl (_, _, e)) ↦ rw e (Evolves-refl (lookup q t.states))
  | inr (inr (inl (ri, ro, fee, out, f, h, e))) ↦
      rw e (swapped-Evolves u t p i a ri ro fee out q f h)
  | inr (inr (inr (_, _, _, _, _, _, e))) ↦ rw e (Evolves-refl (lookup q t.states))
]

-- The calls of a route simulation.
pub data Call : Type 0 where
  touches : (pool_id : String) (leg_index amount_in : ℕ) → Call
  records : (pool_id : String) (leg_index : ℕ) → SimulatedPoolState → Call

module _ (u : U256) where
  pub step : PoolReuseTracker → Call → PoolReuseTracker
  step t (touches p i a) = (touch u t p i a).1
  step t (records p i s) = record_first_touch t p i s

  pub run : PoolReuseTracker → List Call → PoolReuseTracker
  unfolding step
  run t [] = t
  run t (c ∷ cs) = run (step t c) cs

  step-Evolves :
      (t : PoolReuseTracker) (c : Call) (q : String)
      → Evolves (lookup q t.states) (lookup q (step t c).states)
  unfolding step
  step-Evolves t (touches p i a) q = touch-Evolves u t p i a q
  step-Evolves t (records p i s) q = record_first_touch-Evolves t p i s q

  -- Over any sequence of touches and records no tracked pool is forgotten or reset: an opaque pool
  -- stays as it was recorded, and a constant-product pool keeps its fee, never gives back input,
  -- never gains output, and never loses product.
  pub run-Evolves :
      (t : PoolReuseTracker) (cs : List Call) (q : String)
      → Evolves (lookup q t.states) (lookup q (run t cs).states)
  unfolding run
  run-Evolves t [] q = Evolves-refl (lookup q t.states)
  run-Evolves t (c ∷ cs) q =
      Evolves-trans _ (lookup q (step t c).states) _ (step-Evolves t c q)
        (run-Evolves (step t c) cs q)

abbrev Touched : Type 0
Touched = Result PoolTouch SimulationError × PoolReuseTracker

reuse_inv :
    (u : U256) (t : PoolReuseTracker) (p : String) (i a : ℕ) {ri ro fee out : ℕ}
    → lookup p t.states ≡ some (constant_product ri ro fee)
    → (touch u t p i a).0 ≡ ok (reuse_computed_locally out)
    → constant_product_amount_out u a ri ro fee p i ≡ ok out
unfolding touch
reuse_inv u t p i a {ri} {ro} {fee} {out} l e = ground (arith, l, e)

-- Two swaps of one input against one pool, the second on the state that the first left: the second
-- pays no more than the first.
pub touch_twice :
    (u : U256) (t : PoolReuseTracker) (p : String) (i j a : ℕ) {out out' : ℕ}
    → (touch u t p i a).0 ≡ ok (reuse_computed_locally out)
    → (touch u (touch u t p i a).1 p j a).0 ≡ ok (reuse_computed_locally out')
    → out' ≤ out
touch_twice u t p i j a {out} {out'} e e' = elim (touch-TouchOutcome u t p i a) [
  | inl (_, f) ↦ let g = ap (λ (r : Touched). r.0) f in cc
  | inr (inl (_, _, f)) ↦ let g = ap (λ (r : Touched). r.0) f in cc
  | inr (inr (inl (ri, ro, fee, o, l, h, f))) ↦
      let later =
        reuse_inv u (swapped t p a ri ro fee o) p j a
          (lookup-insert_self p (constant_product (ri + a) (ro - o) fee) t.states) (rw f at e') in
      constant_product_amount_out_anti u a ri ro (ri + a) (ro - o) fee p i j (omega arith)
        (omega arith) (reuse_inv u t p i a l e) later
  | inr (inr (inr (_, _, _, _, _, _, f))) ↦ let g = ap (λ (r : Touched). r.0) f in cc
]
