-- ===== src/Stability/Window.antt =====
-- The windows of `StableOpportunityAggregator` (src/core/stability.rs) against the log of rounds.
use dex_arbitrage.Prelude.{
  ◌≡◌, refl, sym, ap, ◌∙◌, inl, inr, List, [], ◌∷◌, ◌++◌, if◌then◌else◌, arith, Bool-cases,
}
use dex_arbitrage.Prelude.Map.{lookup, lookup-insert}
use dex_arbitrage.Stability.{
  RoundEvidence, StabilityKey, from_evidence, same_key, same_key_iff, stability_key_eq,
  StableOpportunityAggregator, new, keep_three, or_default, three_if_stable, push,
}

-- The aggregator after the rounds of a log, the latest first.
unfoldable pub replay : List RoundEvidence → StableOpportunityAggregator
replay [] = new
replay (entry ∷ log) = (push (replay log) entry).1

-- The rounds of a log with the identity `key`.
unfoldable pub with_key : StabilityKey → List RoundEvidence → List RoundEvidence
with_key key [] = []
with_key key (entry ∷ log) =
    let rest = with_key key log in if same_key (from_evidence entry) key then entry ∷ rest else rest

-- The three latest rounds of a log or all of them where there are fewer, the oldest first.
unfoldable pub latest : List RoundEvidence → List RoundEvidence
latest [] = []
latest (a ∷ []) = a ∷ []
latest (a ∷ b ∷ []) = b ∷ a ∷ []
latest (a ∷ b ∷ c ∷ log) = c ∷ b ∷ a ∷ []

keep_three-latest :
    (entry : RoundEvidence) (log : List RoundEvidence)
    → keep_three (latest log ++ entry ∷ []) ≡ latest (entry ∷ log)
unfolding keep_three latest
keep_three-latest entry [] = refl
keep_three-latest entry (a ∷ []) = refl
keep_three-latest entry (a ∷ b ∷ []) = refl
keep_three-latest entry (a ∷ b ∷ c ∷ log) = refl

with_key_self :
    (entry : RoundEvidence) (log : List RoundEvidence)
    → with_key (from_evidence entry) (entry ∷ log) ≡ entry ∷ with_key (from_evidence entry) log
unfolding with_key
with_key_self entry log =
    ground (arith, (same_key_iff (from_evidence entry) (from_evidence entry)).1 refl)

-- The window of the round that is pushed, where the windows are as the log tells.
pushed_window :
    (log : List RoundEvidence) (entry : RoundEvidence)
    → or_default (lookup (from_evidence entry) (replay log).windows)
      ≡ latest (with_key (from_evidence entry) log)
    → keep_three (or_default (lookup (from_evidence entry) (replay log).windows) ++ entry ∷ [])
      ≡ latest (with_key (from_evidence entry) (entry ∷ log))
pushed_window log entry h =
    ap (λ w. keep_three (w ++ entry ∷ [])) h
    ∙ keep_three-latest entry (with_key (from_evidence entry) log)
    ∙ ap latest (sym (with_key_self entry log))

-- After any rounds the window of an identity holds its three latest rounds, the oldest first.
pub lookup-replay :
    (log : List RoundEvidence) (key : StabilityKey)
    → or_default (lookup key (replay log).windows) ≡ latest (with_key key log)
unfolding replay new push lookup or_default latest with_key
lookup-replay [] key = refl
lookup-replay (entry ∷ log) key = elim (Bool-cases (same_key (from_evidence entry) key)) [
  | inl same ↦
      let q = (same_key_iff (from_evidence entry) key).0 same in
      let w =
        keep_three (or_default (lookup (from_evidence entry) (replay log).windows) ++ entry ∷ []) in
      rw (lookup-insert (from_evidence entry) key w (replay log).windows, same)
        (ap (λ w. keep_three (w ++ entry ∷ [])) (lookup-replay log (from_evidence entry))
          ∙ keep_three-latest entry (with_key (from_evidence entry) log)
          ∙ ap (λ k. latest (entry ∷ with_key k log)) q)
  | inr other ↦
      let w =
        keep_three (or_default (lookup (from_evidence entry) (replay log).windows) ++ entry ∷ []) in
      rw (lookup-insert (from_evidence entry) key w (replay log).windows, other)
        (lookup-replay log key)
]

-- A push gives the three latest rounds of the identity, the pushed one included, exactly when
-- there are three and they are stable; it does not matter what was pushed for other identities.
pub push-replay :
    (log : List RoundEvidence) (entry : RoundEvidence)
    → (push (replay log) entry).0
      ≡ three_if_stable (latest (with_key (from_evidence entry) (entry ∷ log)))
unfolding push
push-replay log entry =
    ap three_if_stable (pushed_window log entry (lookup-replay log (from_evidence entry)))
