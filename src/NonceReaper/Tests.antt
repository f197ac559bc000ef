-- ===== src/NonceReaper/Tests.antt =====
-- Runs of src/core/nonce_reaper.rs, and the theorems at such logs.
use dex_arbitrage.Prelude.{
  ℕ, ◌-◌, ◌/◌, ◌<◌, ◌≤◌, ◌≡◌, ◌↔◌, refl, some, List, [], ◌∷◌, arith, leb, min,
}
use dex_arbitrage.Prelude.Map.{lookup, insert, retain}
use dex_arbitrage.NonceReaper.{
  elapsed_since, note_broadcast, prune_included, new, no_gap, gap_stalling, reap, verdict, u32_max,
  reaper_kill_switch_threshold, in_flight_count,
}
use dex_arbitrage.NonceReaper.Replay.{
  apply, Call, broadcasts, prunes, cancels, fails, replay, in_flight_since, failures_in_a_row,
  verdict-replay, kill_switch-replay,
}

-- Nonces 6 to 8 are broadcast in three seconds, then the chain takes 6 in.
abbrev three_broadcasts : List Call
three_broadcasts =
    prunes 7
    ∷ broadcasts 8 3_000_000_000
    ∷ broadcasts 7 2_000_000_000
    ∷ broadcasts 6 1_000_000_000
    ∷ []

abbrev at_47_secs : ℕ
at_47_secs = 47_000_000_000

still_waiting : verdict (replay three_broadcasts) 9 7 at_47_secs 46 ≡ gap_stalling 7 45
unfolding verdict replay apply elapsed_since note_broadcast prune_included new in_flight_count
    lookup insert retain
still_waiting = refl

nothing_pending : verdict (replay three_broadcasts) 7 7 at_47_secs 45 ≡ no_gap
unfolding verdict replay apply elapsed_since note_broadcast prune_included new in_flight_count
    lookup insert retain
nothing_pending = refl

two_in_flight : in_flight_count (replay three_broadcasts) ≡ 2
unfolding verdict replay apply elapsed_since note_broadcast prune_included new in_flight_count
    lookup insert retain
two_in_flight = refl

verdict-replay_example : (verdict (replay three_broadcasts) 9 7 at_47_secs 45 ≡ reap 7) ↔ (
    (7 < 9)
    × (◌≡◌ {A = ℕ} 7 7)
    × ((t : ℕ) × (in_flight_since three_broadcasts 7 ≡ some t)
        × (45 ≤ (at_47_secs - t) / 1_000_000_000)))
verdict-replay_example = verdict-replay three_broadcasts 9 7 at_47_secs 45 7 (omega arith)

abbrev three_failures : List Call
three_failures = fails ∷ cancels 7 ∷ fails ∷ fails ∷ three_broadcasts

kill_switch-replay_example :
    ((replay three_failures).kill_switch
      ≡ leb reaper_kill_switch_threshold (failures_in_a_row three_failures))
    × ((replay three_failures).consecutive_failures
        ≡ min u32_max (failures_in_a_row three_failures))
kill_switch-replay_example = kill_switch-replay three_failures
