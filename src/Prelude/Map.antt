-- ===== src/Prelude/Map.antt =====
-- `HashMap` and `BTreeMap` as association lists; the keys are only compared. A key stands at most
-- once in a map that is built by `insert`, and iteration order is the order of the list.
use mathlib.Core.Path.{◌≡◌, refl}
use mathlib.Core.Logic.{◌≢◌, ◌⊎◌, inl, inr}
use mathlib.Core.List.{List, [], ◌∷◌}
use mathlib.Core.Bool.{Bool, true, false}
use mathlib.Core.Option.{Option, none, some}
use native.Mathlib.Omega.{arith}
use dex_arbitrage.Prelude.Tests.{Eq, Bool-cases, if◌then◌else◌}

abbrev pub Map {ℓ κ} : Type ℓ → Type κ → Type (ℓ ⊔ κ)
Map K V = List (K × V)

pub beq_refl {ℓ} : {K : Type ℓ} ⦃e : Eq K⦄ (k : K) → e.beq k k ≡ true
beq_refl ⦃e⦄ k = (e.beq_iff k k).1 refl

module _ {ℓ κ} {K : Type ℓ} {V : Type κ} ⦃e : Eq K⦄ where
  unfoldable pub lookup : K → Map K V → Option V
  lookup k [] = none
  lookup k ((j, v) ∷ m) = if e.beq j k then some v else lookup k m

  unfoldable pub insert : K → V → Map K V → Map K V
  insert k v [] = (k, v) ∷ []
  insert k v ((j, w) ∷ m) = if e.beq j k then (k, v) ∷ m else (j, w) ∷ insert k v m

  unfoldable pub remove : K → Map K V → Map K V
  remove k [] = []
  remove k ((j, w) ∷ m) = if e.beq j k then remove k m else (j, w) ∷ remove k m

  -- `entry(k).or_insert(v)`
  unfoldable pub or_insert : K → V → Map K V → Map K V
  or_insert k v m = elim (lookup k m) [ none ↦ insert k v m | some _ ↦ m ]

  -- `contains_key`
  abbrev pub contains_key : K → Map K V → Bool
  contains_key k m = elim (lookup k m) [ none ↦ false | some _ ↦ true ]

  pub lookup-insert :
      (k j : K) (v : V) (m : Map K V)
      → lookup j (insert k v m) ≡ (if e.beq k j then some v else lookup j m)
  unfolding lookup insert
  lookup-insert k j v [] = refl
  lookup-insert k j v ((i, w) ∷ m) =
      ground (arith, e.beq_iff k j, e.beq_iff i k, e.beq_iff i j, lookup-insert k j v m)

  pub lookup-insert_self : (k : K) (v : V) (m : Map K V) → lookup k (insert k v m) ≡ some v
  lookup-insert_self k v m = ground (arith, lookup-insert k k v m, beq_refl k)

  pub lookup-insert_ne :
      (k j : K) (v : V) (m : Map K V) → k ≢ j → lookup j (insert k v m) ≡ lookup j m
  lookup-insert_ne k j v m h = ground (arith, lookup-insert k j v m, e.beq_iff k j)

  pub lookup-remove :
      (k j : K) (m : Map K V) → lookup j (remove k m) ≡ (if e.beq k j then none else lookup j m)
  unfolding lookup remove
  lookup-remove k j [] = ground arith
  lookup-remove k j ((i, w) ∷ m) =
      ground (arith, e.beq_iff k j, e.beq_iff i k, e.beq_iff i j, lookup-remove k j m)

  pub lookup-or_insert :
      (k j : K) (v : V) (m : Map K V)
      → lookup j (or_insert k v m)
        ≡ elim (lookup j m) [ none ↦ if e.beq k j then some v else none | some w ↦ some w ]
  unfolding or_insert
  lookup-or_insert k j v m = ground (arith, lookup-insert k j v m, e.beq_iff k j)

  -- A read after a write sees the write at its key, and what was there elsewhere.
  pub insert-cases :
      (k j : K) (v : V) (m : Map K V)
      → ((k ≡ j) × (lookup j (insert k v m) ≡ some v))
        ⊎ ((k ≢ j) × (lookup j (insert k v m) ≡ lookup j m))
  insert-cases k j v m = elim (Bool-cases (e.beq k j)) [
    | inl same ↦ inl ((e.beq_iff k j).0 same, ground (arith, same, lookup-insert k j v m))
    | inr other ↦
        inr (λ h. ground (arith, e.beq_iff k j), ground (arith, other, lookup-insert k j v m))
  ]

  -- `HashMap::retain`
  unfoldable pub retain : (K → V → Bool) → Map K V → Map K V
  retain p [] = []
  retain p ((j, w) ∷ m) = if p j w then (j, w) ∷ retain p m else retain p m

  -- The entry that a read finds is found after `retain` too, if it passed.
  pub lookup-retain :
      (p : K → V → Bool) (k : K) (m : Map K V) {v : V}
      → lookup k m ≡ some v
      → p k v ≡ true
      → lookup k (retain p m) ≡ some v
  unfolding lookup retain
  lookup-retain p k [] q h = cc
  lookup-retain p k ((j, w) ∷ m) {v} q h = elim (Bool-cases (e.beq j k)) [
    | inl same ↦
        let eq = (e.beq_iff j k).0 same in
        let found : w ≡ v = ground (arith, same) in rw (eq, found, h) (ground (arith, beq_refl k))
    | inr other ↦
        let rest = lookup-retain p k m {v = v} (ground (arith, other)) h in
        elim (Bool-cases (p j w)) [
          | inl kept ↦ rw kept (ground (arith, other, rest))
          | inr gone ↦ rw gone rest
        ]
  ]

  -- `retain` by the key keeps what is read at the keys that pass.
  pub lookup-retain_key :
      (p : K → Bool) (k : K) (m : Map K V)
      → lookup k (retain (λ j _. p j) m) ≡ (if p k then lookup k m else none)
  unfolding lookup retain
  lookup-retain_key p k [] = ground arith
  lookup-retain_key p k ((j, w) ∷ m) = ground (arith, e.beq_iff j k, lookup-retain_key p k m)
