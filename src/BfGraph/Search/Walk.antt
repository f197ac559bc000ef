-- ===== src/BfGraph/Search/Walk.antt =====
-- The two loops of src/core/bf_graph.rs that follow the predecessors end, whatever the predecessors
-- are, if they are vertices of the graph.
use dex_arbitrage.Prelude.{
  ℕ, zero, suc, ◌+◌, ◌-◌, ◌≤◌, ◌<◌, ◌≡◌, refl, subst, ◌⊎◌, inl, inr, none, some, true, List, [],
  ◌∷◌, ◌++◌, ◌==◌, length, contains, All, Distinct, nat_eq, Bool-cases, Option-cases, arith,
}
use mathlib.Core.List.{reverse}
use dex_arbitrage.Prelude.Pigeonhole.{length-Distinct_le}
use dex_arbitrage.BfGraph.Search.{
  Predecessors, pred_at, find_start, walk_back, cycle_vertices, first_of_each,
}

-- Every predecessor is one of `n` vertices.
abbrev pub Within : ℕ → Predecessors → Type 0
Within n pred = (v : ℕ) (p : ℕ × ℕ) → pred_at pred v ≡ some p → p.1 < n

module _ (pred : Predecessors) where
  -- The walk back from `cur` stops at `start`, or where there is no predecessor, within `k` steps.
  abbrev pub Ends : (start k cur : ℕ) → Type 0
  Ends start zero cur = ⊥
  Ends start (suc k) cur =
      (pred_at pred cur ≡ none)
      ⊎ ((p : ℕ × ℕ) × (pred_at pred cur ≡ some p) × ((p.1 ≡ start) ⊎ Ends start k p.1))

  Ends-suc : (start k cur : ℕ) → Ends start k cur → Ends start (suc k) cur
  Ends-suc start zero cur h = absurd h
  Ends-suc start (suc k) cur (inl e) = inl e
  Ends-suc start (suc k) cur (inr (p, e, inl q)) = inr (p, e, inl q)
  Ends-suc start (suc k) cur (inr (p, e, inr h)) = inr (p, e, inr (Ends-suc start k (p.1) h))

  Ends-add : (start k more cur : ℕ) → Ends start k cur → Ends start (more + k) cur
  Ends-add start k zero cur h =
      let e : k ≡ zero + k = omega arith in subst (λ m. Ends start m cur) e h
  Ends-add start k (suc more) cur h =
      let e : suc (more + k) ≡ suc more + k = omega arith in
      subst (λ m. Ends start m cur) e (Ends-suc start (more + k) cur (Ends-add start k more cur h))

  Ends-le : (start k m cur : ℕ) → k ≤ m → Ends start k cur → Ends start m cur
  Ends-le start k m cur le h =
      let e : (m - k) + k ≡ m = omega arith in
      subst (λ j. Ends start j cur) e (Ends-add start k (m - k) cur h)

  -- Each visited vertex has the one visited after it as its predecessor, and the latest has `cur`.
  abbrev Trail : ℕ → List ℕ → Type 0
  Trail cur [] = Unit
  Trail cur (v ∷ visited) = ((ei : ℕ) × (pred_at pred v ≡ some (ei, cur))) × Trail v visited

  Trail-Ends :
      (start k cur w : ℕ) (visited : List ℕ)
      → ((cur ≡ start) ⊎ Ends start k cur)
      → Trail cur visited
      → contains w visited ≡ true
      → Ends start (k + length visited) w
  Trail-Ends start k cur w [] h t m = cc
  Trail-Ends start k cur w (v ∷ visited) h ((ei, e), t) m =
      let here : Ends start (suc k) v = inr ((ei, cur), e, h) in
      elim (Bool-cases (v == w)) [
        | inl same ↦
            let eq : v ≡ w = ground arith in
            subst (Ends start (k + suc (length visited))) eq
              (Ends-le start (suc k) (k + suc (length visited)) v (omega arith) here)
        | inr other ↦
            let e : suc k + length visited ≡ k + suc (length visited) = omega arith in
            subst (λ j. Ends start j w) e
              (Trail-Ends start (suc k) v w visited (inr here) t (ground arith))
      ]

  walk_back-returns :
      (start k cur : ℕ)
      → Ends start k cur
      → (vertices : List ℕ) × (walk_back pred start k cur ≡ some vertices)
  unfolding walk_back
  walk_back-returns start zero cur h = absurd h
  walk_back-returns start (suc k) cur (inl e) = (cur ∷ [], rw (e, walk_back) refl)
  walk_back-returns start (suc k) cur (inr (p, e, h)) = elim (Bool-cases (p.1 == start)) [
    | inl same ↦ (cur ∷ [], rw (e, same, walk_back) refl)
    | inr other ↦ elim h [
      | inl q ↦ ground arith
      | inr later ↦
          let (vertices, w) = walk_back-returns start k (p.1) later in
          (cur ∷ vertices, rw (e, other, w, walk_back) refl)
    ]
  ]

  module _ (n fallback : ℕ) (within : Within n pred) where
    -- With enough fuel the first loop gives a start from where the second loop ends.
    find_start-Ends :
        (fuel : ℕ) (visited : List ℕ) (cur : ℕ)
        → Trail cur visited
        → Distinct visited
        → All (λ v. v < n) visited
        → cur < n
        → ((cur ≡ fallback) ⊎ (contains fallback visited ≡ true))
        → n < fuel + length visited
        → (start : ℕ) × (find_start pred fallback fuel visited cur ≡ some start)
          × Ends start (suc n) start
    unfolding find_start
    find_start-Ends zero visited cur t d b c f enough =
        absurd (omega (arith, length-Distinct_le n visited d b))
    find_start-Ends (suc fuel) visited cur t d b c f enough =
        let few = length-Distinct_le n visited d b in
        elim (Bool-cases (contains cur visited)) [
          | inl met ↦ (
            cur,
            rw (met, find_start) refl,
            Ends-le cur (0 + length visited) (suc n) cur (omega arith)
                (Trail-Ends cur 0 cur cur visited (inl refl) t met),
          )
          | inr fresh ↦ elim (Option-cases (pred_at pred cur)) [
            | inl e ↦ (fallback, rw (fresh, e, find_start) refl, last_stop visited cur t e f few)
            | inr (p, e) ↦
                let (start, found, ends) =
                  find_start-Ends fuel (cur ∷ visited) (p.1) ((p.0, e), t) (fresh, d) (c, b)
                    (within cur p e) (inr (seen visited cur f)) (omega arith) in
                (start, rw (fresh, e, find_start) found, ends)
          ]
        ]
      where
        last_stop :
            (visited : List ℕ) (cur : ℕ)
            → Trail cur visited
            → pred_at pred cur ≡ none
            → ((cur ≡ fallback) ⊎ (contains fallback visited ≡ true))
            → length visited ≤ n
            → Ends fallback (suc n) fallback
        last_stop visited cur t e (inl same) few = inl (subst (λ v. pred_at pred v ≡ none) same e)
        last_stop visited cur t e (inr m) few =
            Ends-le fallback (1 + length visited) (suc n) fallback (omega arith)
              (Trail-Ends fallback 1 cur fallback visited (inr (inl e)) t m)

        seen :
            (visited : List ℕ) (cur : ℕ)
            → ((cur ≡ fallback) ⊎ (contains fallback visited ≡ true))
            → contains fallback (cur ∷ visited) ≡ true
        seen visited cur (inl same) = ground arith
        seen visited cur (inr m) = ground arith

  pub cycle_vertices-returns :
      (n from : ℕ)
      → Within n pred
      → from < n
      → (unique : List ℕ) × (cycle_vertices pred (suc n) from ≡ some unique)
  unfolding cycle_vertices
  cycle_vertices-returns n from within c =
      let (start, found, ends) =
        find_start-Ends n from within (suc n) [] from tt tt tt c (inl refl) (omega arith) in
      let (vertices, walked) = walk_back-returns start (suc n) start ends in
      (first_of_each [] (reverse (vertices ++ start ∷ [])), rw (found, walked, cycle_vertices) refl)
