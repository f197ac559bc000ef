-- ===== src/LastRouteCache/Freshness.antt =====
-- What the cache of src/core/last_route_cache.rs gives after any calls.
use dex_arbitrage.Prelude.{
  ℕ, ◌+◌, ◌-◌, ◌%◌, ◌^◌, ◌<◌, ◌≤◌, ◌≡◌, ◌↔◌, refl, sym, subst, Option, none, some, Bool, true,
  false, if◌then◌else◌, ◌&&◌, ltb, leb, List, [], ◌∷◌, Option-cases, Bool-cases, inl, inr, arith,
}
use dex_arbitrage.LastRouteCache.{
  CachedRoute, Inner, inner_default, try_get, put, invalidate, ttl, anchor_tolerance,
}

pub data Call (Amount : Type 0) : Type 0 where
  tried : (current_anchor now : ℕ) → Call Amount
  stored : CachedRoute Amount → Call Amount
  dropped : Call Amount

module _ {Amount : Type 0} where
  unfoldable pub call : Inner Amount → Call Amount → Inner Amount
  call cache (tried current_anchor now) = (try_get cache current_anchor now).1
  call cache (stored route) = put cache route
  call cache dropped = invalidate cache

  -- The cache after the calls of a log, the latest first.
  unfoldable pub replay : List (Call Amount) → Inner Amount
  replay [] = inner_default
  replay (c ∷ log) = call (replay log) c

  -- The route stored last, unless it was dropped since.
  unfoldable pub standing : List (Call Amount) → Option (CachedRoute Amount)
  standing [] = none
  standing (tried current_anchor now ∷ log) = standing log
  standing (stored route ∷ log) = some route
  standing (dropped ∷ log) = none

  -- At most five blocks behind the anchor and less than thirty seconds old.
  abbrev pub Fresh : (current_anchor now : ℕ) → CachedRoute Amount → Type 0
  Fresh current_anchor now route =
      (current_anchor ≤ route.anchor_block + 5) × (now < route.computed_at + 30_000_000_000)

  abbrev is_fresh : (current_anchor now : ℕ) → CachedRoute Amount → Bool
  is_fresh current_anchor now route =
      leb (current_anchor - route.anchor_block) anchor_tolerance
      && ltb (now - route.computed_at) ttl

  is_fresh_iff :
      (current_anchor now : ℕ) (route : CachedRoute Amount)
      → (is_fresh current_anchor now route ≡ true) ↔ Fresh current_anchor now route
  is_fresh_iff current_anchor now route = ground arith

  same_route : {a b : CachedRoute Amount} → some a ≡ some b → a ≡ b
  same_route e = cc

  -- A read misses where no route stands or the one that stands is not fresh.
  unfoldable pub is_hit : Option (CachedRoute Amount) → (current_anchor now : ℕ) → Bool
  is_hit none current_anchor now = false
  is_hit (some route) current_anchor now =
      leb current_anchor (route.anchor_block + 5) && ltb now (route.computed_at + 30_000_000_000)

  -- The reads of the log that found a fresh route standing.
  unfoldable pub hit_reads : List (Call Amount) → ℕ
  hit_reads [] = 0
  hit_reads (tried current_anchor now ∷ log) =
      hit_reads log + (if is_hit (standing log) current_anchor now then 1 else 0)
  hit_reads (stored route ∷ log) = hit_reads log
  hit_reads (dropped ∷ log) = hit_reads log

  -- The other reads.
  unfoldable pub missed_reads : List (Call Amount) → ℕ
  missed_reads [] = 0
  missed_reads (tried current_anchor now ∷ log) =
      missed_reads log + (if is_hit (standing log) current_anchor now then 0 else 1)
  missed_reads (stored route ∷ log) = missed_reads log
  missed_reads (dropped ∷ log) = missed_reads log

  -- A read keeps the route and counts itself, as a hit or as a miss.
  try_get-counts :
      (cache : Inner Amount) (current_anchor now : ℕ)
      → (let after = (try_get cache current_anchor now).1 in
          let hit = is_hit cache.last current_anchor now in
          (after.last ≡ cache.last)
          × (after.hits ≡ (if hit then (cache.hits + 1) % 2 ^ 64 else cache.hits))
          × (after.misses ≡ (if hit then cache.misses else (cache.misses + 1) % 2 ^ 64)))
  unfolding try_get is_hit
  try_get-counts cache current_anchor now = elim (Option-cases cache.last) [
    | inl empty ↦ rw empty (refl, refl, refl)
    | inr (last, full) ↦
        elim (Bool-cases (
          leb (current_anchor - last.anchor_block) anchor_tolerance
          && ltb (now - last.computed_at) ttl)) [
            | inl fresh ↦ rw (full, fresh) (ground arith)
            | inr old ↦ rw (full, old) (ground arith)
          ]
  ]

  replay-standing : (log : List (Call Amount)) → (replay log).last ≡ standing log
  unfolding replay standing call put invalidate inner_default
  replay-standing [] = refl
  replay-standing (tried current_anchor now ∷ log) =
      let (kept, hits, misses) = try_get-counts (replay log) current_anchor now in
      let ih = replay-standing log in cc
  replay-standing (stored route ∷ log) = refl
  replay-standing (dropped ∷ log) = refl

  replay-counts :
      (log : List (Call Amount))
      → ((replay log).hits ≡ hit_reads log % 2 ^ 64)
        × ((replay log).misses ≡ missed_reads log % 2 ^ 64)
  unfolding replay hit_reads missed_reads call put invalidate inner_default
  replay-counts [] = (refl, refl)
  replay-counts (tried current_anchor now ∷ log) =
      let (kept, hits, misses) = try_get-counts (replay log) current_anchor now in
      let (ih_hits, ih_misses) = replay-counts log in
      let counted =
        subst
          (λ o.
            ((replay (tried current_anchor now ∷ log)).hits ≡ (
              if is_hit o current_anchor now
              then ((replay log).hits + 1) % 2 ^ 64
              else (replay log).hits))
            × ((replay (tried current_anchor now ∷ log)).misses ≡ (
                if is_hit o current_anchor now
                then (replay log).misses
                else ((replay log).misses + 1) % 2 ^ 64)))
          (replay-standing log) (hits, misses) in
      grind (arith, counted.0, counted.1)
  replay-counts (stored route ∷ log) = replay-counts log
  replay-counts (dropped ∷ log) = replay-counts log

  try_get_iff :
      (cache : Inner Amount) (current_anchor now : ℕ) (route : CachedRoute Amount)
      → ((try_get cache current_anchor now).0 ≡ some route)
        ↔ ((cache.last ≡ some route) × Fresh current_anchor now route)
  unfolding try_get
  try_get_iff cache current_anchor now route = elim (Option-cases cache.last) [
    | inl empty ↦ rw empty (λ e. cc, λ h. h.0)
    | inr (last, full) ↦ elim (Bool-cases (is_fresh current_anchor now last)) [
      | inl fresh ↦
          rw (full, fresh)
            (
              λ e. (
                e,
                subst (Fresh current_anchor now) (same_route e)
                    ((is_fresh_iff current_anchor now last).0 fresh),
              ),
              λ h. h.0,
            )
      | inr old ↦
          rw (full, old)
            (
              λ e. cc,
              λ h.
                  let fresh = (is_fresh_iff current_anchor now route).1 h.1 in
                  let still =
                    subst (λ r. is_fresh current_anchor now r ≡ true) (sym (same_route h.0))
                      fresh in
                  cc,
            )
    ]
  ]

  -- After any calls, a read gives a route exactly where it is the one stored last and not dropped
  -- since, at most five blocks behind the anchor and less than thirty seconds old; and the two
  -- counters are, modulo 2^64, the numbers of reads that found such a route and of those that did
  -- not.
  pub try_get-replay :
      (log : List (Call Amount)) (current_anchor now : ℕ) (route : CachedRoute Amount)
      → (((try_get (replay log) current_anchor now).0 ≡ some route)
          ↔ ((standing log ≡ some route) × Fresh current_anchor now route))
        × ((replay log).hits ≡ hit_reads log % 2 ^ 64)
        × ((replay log).misses ≡ missed_reads log % 2 ^ 64)
  try_get-replay log current_anchor now route = (
    subst
        (λ o.
          ((try_get (replay log) current_anchor now).0 ≡ some route)
          ↔ ((o ≡ some route) × Fresh current_anchor now route))
        (replay-standing log) (try_get_iff (replay log) current_anchor now route),
    (replay-counts log).0,
    (replay-counts log).1,
  )
