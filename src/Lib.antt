-- ===== src/Lib.antt =====
-- A verification library for the decision engine of the DEX arbitrage bot (the Rust crate in src/).
--
-- The engine prices routes over exchange pools in exact integers, simulates their swaps in
-- sequence, finds closed cycles of executable quotes, classifies each route and size over several
-- rounds, takes the routes that remain through a fixed order of stages, and only then may
-- execute, behind cooldowns, breakers and a watch on stuck nonces; a ledger follows the profit of
-- what was included until it is final. The parts meet in that order: LegQuotes says whether the
-- quotes of a route belong together, PriceEdge and PriceGraph give the routes, RouteArtifact
-- reads routes back from their keys, Materializer the plan of a route, FreshEconomics what the
-- route earns, FixedUsd gives the amounts and costs, PoolSim the outputs of legs that share a
-- pool, RouteEconomics the verdict on a route and size, ExecutionViability which routes may go on
-- at all, C2bOrchestrator the evidence for a route, ForkTrace and ForkPreflight whether its trace
-- is clean, ForkBalance and ForkComparison what it gained on a fork, Stability the verdict over
-- three rounds of such evidence, Opportunity and RiskGate what is made of stable rounds and
-- whether it is approved, Cooldown and DexCircuitBreaker the permission to act, NonceReaper and
-- ProfitLedger what happens after a broadcast. BfGraph is a search of its own over f64 rates;
-- DexRateLimiter, SmartRetry and LastRouteCache stand around the calls of the network.
--
--   FixedUsd          src/core/fixed_usd.rs: UsdE8, usd_e8_to_token_raw_ceil,
--                     token_raw_to_usd_e8_floor, flashloan_fee_usd_e8, net_profit_usd_e8.
--   PoolSim           src/core/pool_state_sim.rs: constant_product_amount_out, PoolReuseTracker
--                     with touch and record_first_touch. `reuse` is the match of touch.
--   LegQuotes         src/core/canonical_adapters.rs: assemble_route_leg_quotes; `check_quotes` is
--                     the loop of validate_leg_quote_sequence.
--   PriceEdge         src/core/executable_price_edge.rs: ExecutablePriceEdge.from_quote.
--   PriceGraph        src/core/executable_price_graph.rs: the graph of edges, the search
--                     find_structural_cycles with dfs, build_route and verify_leg_parity.
--   BfGraph           src/core/bf_graph.rs: from_price_map and find_arbitrage_cycles; `find_start`
--                     and `walk_back` are the loops along the predecessors, `detect` the last
--                     round over the edges, `report` what it makes of one of them.
--   RouteArtifact     src/core/route_artifact.rs: the records of a structural route,
--                     pool_identity and detect_pool_reuse; parse_legs, validate_route and
--                     load_structural_routes from the cycles of the file on.
--   FreshEconomics    src/core/fresh_economics.rs: StatefulRouteEvaluator.evaluate; `settle` is
--                     its end, after the loop over the legs.
--   Materializer      src/core/executable_route_materializer.rs: materialize_canonical and
--                     materialize; `typed_leg` and `text_leg` are one round of their loops.
--   Opportunity       src/core/executable_opportunity.rs: from_stable_rounds.
--   RiskGate          src/core/risk.rs: assess_executable_opportunity.
--   RouteEconomics    src/core/sequential_route_economics.rs: aggregate_final_classification,
--                     is_fork_candidate, capacity_boundary.
--   ExecutionViability src/core/execution_viability.rs: is_fork_candidate_eligible and the
--                     RejectedRouteRegistry.
--   C2bOrchestrator   src/core/c2b_orchestrator.rs: execute_route over any OrchestratorStages;
--                     build_and_call and preflight_and_trace are its later statements.
--   Stability         src/core/stability.rs: is_stable and StableOpportunityAggregator.push, with
--                     RoundEvidence of src/core/c2b_round.rs and ExecutionProfile of
--                     src/core/execution_profile.rs.
--   ForkBalance       src/core/fork_balance_accounting.rs: signed_delta, net_pnl_atomic.
--   ForkTrace         src/core/fork_trace_validation.rs: walk and validate_trace; `check_frame`
--                     is what walk does on one frame.
--   ForkPreflight     src/core/fork_preflight.rs: actual_output, propagate_output,
--                     classify_trace.
--   ForkComparison    src/core/fork_economics_comparison.rs: classify_delta.
--   Cooldown          the CooldownManager of src/config/mod.rs and src/core/cooldown_service.rs:
--                     can_execute, record_execution, record_revert, cleanup_old_data.
--   LastRouteCache    src/core/last_route_cache.rs: try_get, put, invalidate, stats.
--   DexRateLimiter    src/dex/rate_limiter.rs: UltraRateLimiter; `first_lock` and `forced_lock`
--                     are what acquire does under its locks.
--   DexCircuitBreaker src/dex/circuit_breaker.rs: should_skip, record_failure, record_success.
--   NonceReaper       src/core/nonce_reaper.rs: verdict, record_failure, the nonces in flight.
--   ProfitLedger      src/core/profit_ledger.rs: record_included, promote, revert, detect_reorg.
--   SmartRetry        src/core/smart_retry.rs: exec; `exec_from` is its loop from an attempt on.
--   Prelude           tests, results, lists measured by native numbers, association lists.
--   U256, Float       what the code takes from ethers' U256 and from f64, as interfaces.
--
-- A struct is a record with the fields of the source and an enum a data type with its variants;
-- a method with `&mut self` returns the new state, and an async method under its lock is one
-- step. `Result` and `Option` are values; a panic of U256 arithmetic is an error of its own.
-- Time is an argument in nanoseconds instead of a clock. A HashMap is an association list; where
-- the source visits one in no stated order, the order is an argument. Machine integers are
-- natural numbers with their bounds, wraps and saturations written out; U256 is an interface of
-- checked and saturating operations with their documented laws, and an instance of it over
-- numbers below 2^256 shows that the laws can hold and lets the tests run. f64 is an interface
-- without laws. Every function is by structural recursion but the two loops of BfGraph along
-- the predecessors, whose fuel is the number of tokens and one: the first loop visits no token
-- twice, and the second ends where the first found a repeated token or the end of a path.
--
-- Left out are log and display strings, RPC, contracts, files, the consoles, and the parts of
-- the engine over f64 prices: the combinatorial search and the cost model in f64. Also
-- left out so far are the older risk manager over f64 scores and the caches of metadata and of
-- pool state.
pub mod Prelude
pub mod U256
pub mod FixedUsd
pub mod PoolSim
pub mod RouteEconomics
pub mod ExecutionViability
pub mod PriceEdge
pub mod RouteArtifact
pub mod PriceGraph
pub mod Float
pub mod ProfitLedger
pub mod Cooldown
pub mod NonceReaper
pub mod DexCircuitBreaker
pub mod C2bOrchestrator
pub mod SmartRetry
pub mod Stability
pub mod ForkBalance
pub mod ForkComparison
pub mod ForkPreflight
pub mod ForkTrace
pub mod FreshEconomics
pub mod LegQuotes
pub mod Materializer
pub mod Opportunity
pub mod RiskGate
pub mod DexRateLimiter
pub mod LastRouteCache
pub mod BfGraph
