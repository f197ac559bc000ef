-- ===== src/NonceReaper/Replay.antt =====
-- The reaper of src/core/nonce_reaper.rs against the log of the calls made on it.
use dex_arbitrage.Prelude.{
  ℕ, ◌+◌, ◌-◌, ◌/◌, ◌≤◌, ◌<◌, ◌≡◌, ◌↔◌, refl, ap, ◌∙◌, Option, none, some, List, [], ◌∷◌, leb, ◌==◌,
  if◌then◌else◌, nat_eq, arith, min,
}
use dex_arbitrage.Prelude.Map.{lookup, lookup-insert, lookup-remove, lookup-retain_key}
use dex_arbitrage.NonceReaper.{
  NonceReaper, reap, new, note_broadcast, prune_included, elapsed_since, verdict, saturating_inc,
  record_failure, record_success, note_canceled, u32_max, reaper_kill_switch_threshold,
}

pub data Call : Type 0 where
  broadcasts : (nonce now : ℕ) → Call
  prunes : (on_chain_pending : ℕ) → Call
  cancels : (nonce : ℕ) → Call
  fails : Call
  succeeds : Call

unfoldable pub apply : NonceReaper → Call → NonceReaper
apply r (broadcasts nonce now) = note_broadcast r nonce now
apply r (prunes on_chain_pending) = prune_included r on_chain_pending
apply r (cancels nonce) = note_canceled r nonce
apply r fails = (record_failure r).1
apply r succeeds = record_success r

-- The reaper after the calls of a log, the latest call first.
unfoldable pub replay : List Call → NonceReaper
replay [] = new
replay (call ∷ log) = apply (replay log) call

-- When a nonce was last broadcast, unless it was canceled or included since.
unfoldable pub in_flight_since : List Call → ℕ → Option ℕ
in_flight_since [] n = none
in_flight_since (broadcasts m t ∷ log) n = if m == n then some t else in_flight_since log n
in_flight_since (prunes p ∷ log) n = if leb p n then in_flight_since log n else none
in_flight_since (cancels m ∷ log) n = if m == n then none else in_flight_since log n
in_flight_since (fails ∷ log) n = in_flight_since log n
in_flight_since (succeeds ∷ log) n = in_flight_since log n

-- The failures since the last success.
unfoldable pub failures_in_a_row : List Call → ℕ
failures_in_a_row [] = 0
failures_in_a_row (fails ∷ log) = failures_in_a_row log + 1
failures_in_a_row (succeeds ∷ log) = 0
failures_in_a_row (broadcasts m t ∷ log) = failures_in_a_row log
failures_in_a_row (prunes p ∷ log) = failures_in_a_row log
failures_in_a_row (cancels m ∷ log) = failures_in_a_row log

record_failure-in_flight : (r : NonceReaper) → (record_failure r).1.in_flight ≡ r.in_flight
unfolding record_failure
record_failure-in_flight r = ground arith

record_failure-kill_switch :
    (r : NonceReaper) (n : ℕ)
    → r.kill_switch ≡ leb reaper_kill_switch_threshold n
    → r.consecutive_failures ≡ min u32_max n
    → ((record_failure r).1.kill_switch ≡ leb reaper_kill_switch_threshold (n + 1))
      × ((record_failure r).1.consecutive_failures ≡ min u32_max (n + 1))
unfolding record_failure saturating_inc
record_failure-kill_switch r n k c = ground arith

lookup-replay : (log : List Call) (n : ℕ) → lookup n (replay log).in_flight ≡ in_flight_since log n
unfolding replay in_flight_since apply new note_broadcast prune_included record_success
    note_canceled lookup
lookup-replay [] n = refl
lookup-replay (broadcasts m t ∷ log) n =
    ground (arith, lookup-insert m n t (replay log).in_flight, lookup-replay log n)
lookup-replay (prunes p ∷ log) n =
    ground (arith, lookup-retain_key (leb p) n (replay log).in_flight, lookup-replay log n)
lookup-replay (cancels m ∷ log) n =
    ground (arith, lookup-remove m n (replay log).in_flight, lookup-replay log n)
lookup-replay (fails ∷ log) n =
    ap (lookup n) (record_failure-in_flight (replay log)) ∙ lookup-replay log n
lookup-replay (succeeds ∷ log) n = lookup-replay log n

-- When the verdict is to cancel, by the time that is known of the lowest nonce.
verdict-reap :
    (r : NonceReaper) (pending_local on_chain_pending now stall n : ℕ) (since : Option ℕ)
    → lookup on_chain_pending r.in_flight ≡ since
    → (verdict r pending_local on_chain_pending now stall ≡ reap n) ↔ (
        (on_chain_pending < pending_local)
        × (n ≡ on_chain_pending)
        × (stall ≤ elapsed_since since now))
unfolding verdict
verdict-reap r pending_local on_chain_pending now stall n since e = ground arith

elapsed_since-some :
    (since : Option ℕ) (now stall : ℕ)
    → 0 < stall
    → (stall ≤ elapsed_since since now)
      ↔ ((t : ℕ) × (since ≡ some t) × (stall ≤ (now - t) / 1_000_000_000))
unfolding elapsed_since
elapsed_since-some none now stall pos = (λ le. absurd (omega (arith, le, pos)), λ h. cc)
elapsed_since-some (some t) now stall pos = (λ le. (t, refl, le), λ h. grind (arith, h))

-- After any calls the reaper cancels a nonce exactly when it is the next one that the chain
-- expects, a later one was reserved, and the last broadcast of it that was neither canceled
-- nor pruned since is `nonce_stall_secs` whole seconds old or older; the wait is not 0.
pub verdict-replay :
    (log : List Call) (pending_local on_chain_pending now nonce_stall_secs n : ℕ)
    → 0 < nonce_stall_secs
    → (verdict (replay log) pending_local on_chain_pending now nonce_stall_secs ≡ reap n) ↔ (
        (on_chain_pending < pending_local)
        × (n ≡ on_chain_pending)
        × ((t : ℕ) × (in_flight_since log on_chain_pending ≡ some t)
            × (nonce_stall_secs ≤ (now - t) / 1_000_000_000)))
verdict-replay log pending_local on_chain_pending now stall n pos =
    let found = lookup-replay log on_chain_pending in
    let on_verdict =
      verdict-reap (replay log) pending_local on_chain_pending now stall n
        (in_flight_since log on_chain_pending) found in
    let on_time = elapsed_since-some (in_flight_since log on_chain_pending) now stall pos in
    (
      λ e. let (gap, lowest, le) = on_verdict.0 e in (gap, lowest, on_time.0 le),
      λ h. let (gap, lowest, since) = h in on_verdict.1 (gap, lowest, on_time.1 since),
    )

-- The kill switch is on exactly while there were three failures or more since the last success,
-- and the count of them is exact up to the largest u32.
pub kill_switch-replay :
    (log : List Call)
    → ((replay log).kill_switch ≡ leb reaper_kill_switch_threshold (failures_in_a_row log))
      × ((replay log).consecutive_failures ≡ min u32_max (failures_in_a_row log))
unfolding replay apply new note_broadcast prune_included record_success note_canceled
    failures_in_a_row
kill_switch-replay [] = (refl, refl)
kill_switch-replay (broadcasts m t ∷ log) = kill_switch-replay log
kill_switch-replay (prunes p ∷ log) = kill_switch-replay log
kill_switch-replay (cancels m ∷ log) = kill_switch-replay log
kill_switch-replay (fails ∷ log) =
    let (k, c) = kill_switch-replay log in record_failure-kill_switch (replay log) _ k c
kill_switch-replay (succeeds ∷ log) = (refl, refl)
