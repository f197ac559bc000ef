-- ===== src/Stability/Evidence.antt =====
-- What three rounds that pass the gate of src/core/stability.rs have.
use dex_arbitrage.Prelude.{
  ℕ, ◌≡◌, ◌≢◌, refl, Option, none, some, Bool, true, false, not, ◌&&◌, ◌||◌, ◌==◌, [], ◌∷◌, length,
  if◌then◌else◌, arith, ℤ, is_positive,
}
use dex_arbitrage.C2bOrchestrator.{OrchestratorEvidence}
use dex_arbitrage.FreshEconomics.{RouteSimulationResult}
use dex_arbitrage.Stability.{
  RoundEvidence, requires_fork_evidence, set_insert, collect_set, is_some_and, complete_evidence,
  positive_economics, entry_passes, anchor_numbers, anchor_hashes, is_stable,
}

-- A set collected from three numbers has three elements only if they differ.
three_distinct :
    (a b c : ℕ) → length (collect_set (a ∷ b ∷ c ∷ [])) ≡ 3 → (a ≢ b) × (a ≢ c) × (b ≢ c)
unfolding collect_set set_insert
three_distinct a b c e = ground arith

-- A round that passes: a simulated net profit, a gross profit, and for a fork audit the whole
-- evidence of the orchestrator.
pub record Passes (entry : RoundEvidence) : Type 0 where
  pub simulation : RouteSimulationResult
  pub gross : ℤ
  pub simulated : entry.economics ≡ some simulation
  pub net_positive : is_positive simulation.net_pnl_atomic ≡ true
  pub measured : entry.gross_pnl_atomic ≡ some gross
  pub gross_positive : is_positive gross ≡ true
  pub audited :
      requires_fork_evidence entry.execution_profile ≡ true
      → (evidence : OrchestratorEvidence) × (entry.orchestrator_evidence ≡ some evidence)
        × (complete_evidence evidence ≡ true)

some_and :
    {A : Type 0} (o : Option A) (p : A → Bool)
    → is_some_and o p ≡ true
    → (a : A) × (o ≡ some a) × (p a ≡ true)
some_and none p e = cc
some_and (some a) p e = (a, refl, e)

split_passes :
    (economic forked complete : Bool)
    → (if not economic then false else if not forked then true else complete) ≡ true
    → (economic ≡ true) × (forked ≡ true → complete ≡ true)
split_passes economic forked complete e = ground arith

both_true : (p q : Bool) → (p && q) ≡ true → (p ≡ true) × (q ≡ true)
both_true p q e = ground arith

-- The tests of `is_stable` on three rounds.
is_stable_tests :
    (numbers hashes : ℕ) (r s t p q u : Bool)
    → (if not (numbers == 3) || (not (hashes == 3) || (r || (s || (t || false))))
        then false
        else (p && (q && (u && true))))
      ≡ true
    → (numbers ≡ 3)
      × (hashes ≡ 3)
      × (r ≡ false)
      × (s ≡ false)
      × (t ≡ false)
      × (p ≡ true)
      × (q ≡ true)
      × (u ≡ true)
is_stable_tests numbers hashes r s t p q u e = ground arith

-- Complete evidence has passed the stages of the fork audit.
pub complete_evidence-stages :
    (evidence : OrchestratorEvidence)
    → complete_evidence evidence ≡ true
    → (evidence.readonly_pass ≡ true)
      × (evidence.preflight_pass ≡ true)
      × (evidence.trace_validated ≡ true)
unfolding complete_evidence
complete_evidence-stages evidence e = ground arith

entry_passes-Passes : (entry : RoundEvidence) → entry_passes entry ≡ true → Passes entry
unfolding entry_passes positive_economics
entry_passes-Passes entry e =
    let (economic, fork) =
      split_passes (positive_economics entry) (requires_fork_evidence entry.execution_profile)
        (is_some_and entry.orchestrator_evidence complete_evidence) e in
    let (has_net, has_gross) = both_true _ _ economic in
    let (simulation, simulated, net) = some_and entry.economics _ has_net in
    let (gross, measured, gross_positive) = some_and entry.gross_pnl_atomic _ has_gross in
    record {
      simulation = simulation;
      gross = gross;
      simulated = simulated;
      net_positive = net;
      measured = measured;
      gross_positive = gross_positive;
      audited = λ r. some_and entry.orchestrator_evidence complete_evidence (fork r);
    }

-- Three rounds are stable only at three different anchors, with different numbers and different
-- hashes, none of them a hit in the registry of rejected routes, and with every round passing.
pub is_stable_three :
    (a b c : RoundEvidence)
    → is_stable (a ∷ b ∷ c ∷ []) ≡ true
    → ((a.anchor.number ≢ b.anchor.number)
        × (a.anchor.number ≢ c.anchor.number)
        × (b.anchor.number ≢ c.anchor.number))
      × ((a.anchor.hash ≢ b.anchor.hash)
          × (a.anchor.hash ≢ c.anchor.hash)
          × (b.anchor.hash ≢ c.anchor.hash))
      × ((a.rejected_registry_hit ≡ false)
          × (b.rejected_registry_hit ≡ false)
          × (c.rejected_registry_hit ≡ false))
      × (Passes a × Passes b × Passes c)
unfolding is_stable anchor_numbers anchor_hashes
is_stable_three a b c e =
    let (numbers, hashes, a_new, b_new, c_new, a_passes, b_passes, c_passes) =
      is_stable_tests _ _ _ _ _ _ _ _ e in
    (
      three_distinct _ _ _ numbers,
      three_distinct _ _ _ hashes,
      (a_new, b_new, c_new),
      (
        entry_passes-Passes a a_passes,
        entry_passes-Passes b b_passes,
        entry_passes-Passes c c_passes,
      ),
    )
