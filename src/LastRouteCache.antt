-- ===== src/LastRouteCache.antt =====
-- src/core/last_route_cache.rs: the last route that was economically positive, with the counts of
-- hits and misses. The amounts in f64 are only carried along; times are nanoseconds; the counters are u64, which wrap in a release build.
pub mod Freshness
mod Tests
use Prim.Native.String.{String}
use dex_arbitrage.Prelude.{
  ℕ, ◌+◌, ◌-◌, ◌%◌, ◌^◌, Option, none, some, Bool, true, false, ◌&&◌, if◌then◌else◌, ltb, leb,
}

pub record CachedRoute (Amount : Type 0) : Type 0 where
  pub anchor_block : ℕ
  pub computed_at : ℕ
  pub cycle_rate : Amount
  pub gross_usd : Amount
  pub net_usd : Amount
  pub venues : String
  pub path : String
  pub trade_size_usd : Amount

-- 30 seconds
abbrev pub ttl : ℕ
ttl = 30_000_000_000

abbrev pub anchor_tolerance : ℕ
anchor_tolerance = 5

pub record Inner (Amount : Type 0) : Type 0 where
  pub last : Option (CachedRoute Amount)
  pub hits : ℕ
  pub misses : ℕ

module _ {Amount : Type 0} where
  unfoldable pub inner_default : Inner Amount
  inner_default = record { last = none; hits = 0; misses = 0 }

  unfoldable pub try_get :
      Inner Amount → (current_anchor now : ℕ) → Option (CachedRoute Amount) × Inner Amount
  try_get cache current_anchor now = elim cache.last [
    | none ↦ (none, record cache { misses = (cache.misses + 1) % 2 ^ 64 })
    | some last ↦
        let anchor_delta = current_anchor - last.anchor_block in
        let age = now - last.computed_at in
        if leb anchor_delta anchor_tolerance && ltb age ttl
        then (some last, record cache { hits = (cache.hits + 1) % 2 ^ 64 })
        else (none, record cache { misses = (cache.misses + 1) % 2 ^ 64 })
  ]

  unfoldable pub put : Inner Amount → CachedRoute Amount → Inner Amount
  put cache route = record cache { last = some route }

  unfoldable pub invalidate : Inner Amount → Inner Amount
  invalidate cache = record cache { last = none }

  pub stats : Inner Amount → (now : ℕ) → ℕ × ℕ × Option ℕ
  stats cache now = (
    cache.hits,
    cache.misses,
    elim cache.last [ none ↦ none | some route ↦ some (now - route.computed_at) ],
  )
