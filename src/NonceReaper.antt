-- ===== src/NonceReaper.antt =====
-- `NonceReaper` of src/core/nonce_reaper.rs: which nonce is stuck, and when broadcasting stops.
-- An `Instant` is a number of nanoseconds; `duration_since` a later instant is 0.
pub mod Replay
mod Tests
use dex_arbitrage.Prelude.{
  ℕ, ◌+◌, ◌-◌, ◌/◌, ◌^◌, Option, none, some, Bool, true, false, not, ◌&&◌, List, [], ◌∷◌, ltb, leb,
  ◌==◌, if◌then◌else◌, nat_eq, length,
}
use dex_arbitrage.Prelude.Map.{Map, lookup, insert, remove, retain}

abbrev pub reaper_kill_switch_threshold : ℕ
reaper_kill_switch_threshold = 3

abbrev pub u32_max : ℕ
u32_max = 2 ^ 32 - 1

pub data ReapVerdict : Type 0 where
  no_gap : ReapVerdict
  gap_stalling : (lowest elapsed_secs : ℕ) → ReapVerdict
  reap : (lowest : ℕ) → ReapVerdict

pub record NonceReaper : Type 0 where
  pub in_flight : Map ℕ ℕ
  pub consecutive_failures : ℕ
  pub kill_switch : Bool

pub new : NonceReaper
new = record { in_flight = []; consecutive_failures = 0; kill_switch = false }

pub note_broadcast : NonceReaper → ℕ → ℕ → NonceReaper
note_broadcast r nonce now = record r { in_flight = insert nonce now r.in_flight }

pub prune_included : NonceReaper → ℕ → NonceReaper
prune_included r on_chain_pending = record r {
  in_flight = retain (λ n _. leb on_chain_pending n) r.in_flight;
}

-- The whole seconds since the lowest nonce was broadcast, and 0 for a nonce that is not known.
elapsed_since : Option ℕ → ℕ → ℕ
elapsed_since none now = 0
elapsed_since (some t) now = (now - t) / 1_000_000_000

pub verdict : NonceReaper → ℕ → ℕ → ℕ → ℕ → ReapVerdict
verdict r pending_local on_chain_pending now nonce_stall_secs =
    if leb pending_local on_chain_pending
    then no_gap
    else let lowest = on_chain_pending in
      let elapsed = elapsed_since (lookup lowest r.in_flight) now in
      if leb nonce_stall_secs elapsed then reap lowest else gap_stalling lowest elapsed

saturating_inc : ℕ → ℕ
saturating_inc n = if leb u32_max n then u32_max else n + 1

-- Whether the kill switch tripped in this call, and the reaper after it.
pub record_failure : NonceReaper → Bool × NonceReaper
record_failure r =
    let failures = saturating_inc r.consecutive_failures in
    if leb reaper_kill_switch_threshold failures && not r.kill_switch
    then (true, record r { consecutive_failures = failures; kill_switch = true })
    else (false, record r { consecutive_failures = failures })

pub record_success : NonceReaper → NonceReaper
record_success r = record r { consecutive_failures = 0; kill_switch = false }

pub note_canceled : NonceReaper → ℕ → NonceReaper
note_canceled r nonce = record r { in_flight = remove nonce r.in_flight }

pub in_flight_count : NonceReaper → ℕ
in_flight_count r = length r.in_flight
