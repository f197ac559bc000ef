-- ===== src/C2bOrchestrator/Tests.antt =====
-- Routes through fixed stages, for src/core/c2b_orchestrator.rs.
use dex_arbitrage.Prelude.{ℕ, ◌+◌, ◌≡◌, refl, Bool, true, false, [], ◌∷◌, ok, err}
use dex_arbitrage.C2bOrchestrator.{
  OrchestratorStages, rejected_registry_hit, stage, and_then, guard, evidence, execute_route,
  build_and_call, preflight_and_trace,
}
use dex_arbitrage.C2bOrchestrator.Evidence.{PassedCall, execute_route_ok}
use dex_arbitrage.C2bOrchestrator.Order.{
  economics, build, readonly, preflight, all_stages, is_ok, follows, noted, recording,
  execute_route-order,
}

-- Stages that count their calls and return what is read and what the balance gains.
abbrev fixed_stages : ℕ → ℕ → OrchestratorStages ℕ
fixed_stages output gain = record {
  stateful_economics = λ n key. (ok true, n + 1);
  build_executable_call = λ n key amount. (ok amount, n + 1);
  readonly_eth_call = λ n key amount. (ok output, n + 1);
  anvil_preflight = λ n key amount. (ok (gain, true), n + 1);
  validate_trace = λ n key. (ok true, n + 1);
}

goes_through :
    execute_route (fixed_stages 105 5) 0 "a-b-a" false 100
    ≡ (ok (evidence "a-b-a" true 5 true true), 5)
unfolding execute_route build_and_call preflight_and_trace and_then guard
goes_through = refl

stops_at_the_fork : execute_route (recording (fixed_stages 105 0)) (0, []) "a-b-a" false 100 ≡ (
  err (stage "balance_delta_or_propagation"),
  (
    4,
    (record { name = economics; passed = true })
        ∷ (record { name = build; passed = true })
        ∷ (record { name = readonly; passed = true })
        ∷ (record { name = preflight; passed = false })
        ∷ [],
  ),
)
unfolding execute_route build_and_call preflight_and_trace and_then guard recording noted
stops_at_the_fork = refl

execute_route_ok_example :
    (◌≡◌ {A = Bool} false false)
    × ((priced : ℕ) × (delta : ℕ) × ((fixed_stages 105 5).stateful_economics 0 "a-b-a"
          ≡ (ok true, priced))
        × PassedCall (fixed_stages 105 5) priced "a-b-a" 100 5 delta
        × (evidence "a-b-a" true 5 true true ≡ evidence "a-b-a" true delta true true))
execute_route_ok_example =
    execute_route_ok (fixed_stages 105 5) 0 "a-b-a" false 100 (evidence "a-b-a" true 5 true true) 5
      goes_through

execute_route-order_example :
    (let out = execute_route (recording (fixed_stages 105 0)) (0, []) "a-b-a" false 100 in
      (false ≡ true → out ≡ (err rejected_registry_hit, (0, [])))
      × (◌≡◌ {A = Bool} false false → follows all_stages out.1.1 (is_ok out.0) ≡ true))
execute_route-order_example = execute_route-order (fixed_stages 105 0) 0 "a-b-a" false 100
