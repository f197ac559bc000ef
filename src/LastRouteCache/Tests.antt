-- ===== src/LastRouteCache/Tests.antt =====
-- Reads of src/core/last_route_cache.rs, and the theorem at one.
use dex_arbitrage.Prelude.{ℕ, ◌%◌, ◌^◌, ◌≡◌, ◌↔◌, refl, some, none, List, [], ◌∷◌}
use dex_arbitrage.LastRouteCache.{CachedRoute, inner_default, try_get, put, invalidate}
use dex_arbitrage.LastRouteCache.Freshness.{
  Call, tried, stored, dropped, call, replay, standing, hit_reads, missed_reads, is_hit, Fresh,
  try_get-replay,
}

abbrev route : ℕ → CachedRoute ℕ
route anchor_block = record {
  anchor_block = anchor_block;
  computed_at = 1_000_000_000;
  cycle_rate = 1;
  gross_usd = 1;
  net_usd = 1;
  venues = "A/B";
  path = "X-Y-X";
  trade_size_usd = 100;
}

-- A read before there is a route, then two routes.
abbrev log : List (Call ℕ)
log = stored (route 100) ∷ stored (route 90) ∷ tried 100 0 ∷ []

hit_when_fresh : (try_get (replay log) 105 30_999_999_999).0 ≡ some (route 100)
unfolding try_get replay call put inner_default
hit_when_fresh = refl

miss_when_anchor_too_far : (try_get (replay log) 106 2_000_000_000).0 ≡ none
unfolding try_get replay call put inner_default
miss_when_anchor_too_far = refl

miss_when_old : (try_get (replay log) 105 31_000_000_000).0 ≡ none
unfolding try_get replay call put inner_default
miss_when_old = refl

miss_when_dropped : (try_get (replay (dropped ∷ log)) 100 2_000_000_000).0 ≡ none
unfolding try_get replay call put invalidate inner_default
miss_when_dropped = refl

counted_reads :
    (hit_reads (tried 100 2_000_000_000 ∷ log) ≡ 1) × (missed_reads (tried 200 0 ∷ log) ≡ 2)
unfolding hit_reads missed_reads standing is_hit
counted_reads = (refl, refl)

try_get-replay_example :
    (((try_get (replay log) 105 2_000_000_000).0 ≡ some (route 100))
      ↔ ((standing log ≡ some (route 100)) × Fresh 105 2_000_000_000 (route 100)))
    × ((replay log).hits ≡ hit_reads log % 2 ^ 64)
    × ((replay log).misses ≡ missed_reads log % 2 ^ 64)
try_get-replay_example = try_get-replay log 105 2_000_000_000 (route 100)
