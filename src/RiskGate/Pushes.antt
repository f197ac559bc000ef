-- ===== src/RiskGate/Pushes.antt =====
-- Which rejections the checks of `assess_executable_opportunity` (src/core/risk.rs) push.
use dex_arbitrage.Prelude.{
  ℕ, ◌≡◌, inl, inr, Bool, true, false, not, ◌&&◌, ◌||◌, ◌==◌, List, [], ◌∷◌, any, arith, Bool-cases,
}
use dex_arbitrage.Stability.{requires_fork_evidence}
use dex_arbitrage.Opportunity.{ExecutableOpportunity}
use dex_arbitrage.RiskGate.{
  CanonicalRiskRejection, stale_anchor, invalid_context_hash, unstable_route, non_positive_net_pnl,
  gas_exceeds_limit, slippage_exceeds_limit, eth_call_failed, preflight_failed, trace_failed,
  incomplete_quotes, route_discontinuity, rejected_registry_hit, push_if, push_fork_checks,
}

-- To compare rejections.
abbrev pub tag : CanonicalRiskRejection → ℕ
tag stale_anchor = 0
tag invalid_context_hash = 1
tag unstable_route = 2
tag non_positive_net_pnl = 3
tag gas_exceeds_limit = 4
tag slippage_exceeds_limit = 5
tag eth_call_failed = 6
tag preflight_failed = 7
tag trace_failed = 8
tag incomplete_quotes = 9
tag route_discontinuity = 10
tag rejected_registry_hit = 11

-- The rejection is in the list.
abbrev pub rejects : CanonicalRiskRejection → List CanonicalRiskRejection → Bool
rejects r rejections = any (λ x. tag r == tag x) rejections

-- A push adds just its rejection.
rejects-push_if :
    (r x : CanonicalRiskRejection) (test : Bool) (rejections : List CanonicalRiskRejection)
    → rejects r (push_if test x rejections) ≡ (rejects r rejections || (test && (tag r == tag x)))
unfolding push_if
rejects-push_if r x false rejections = ground arith
rejects-push_if r x true [] = ground arith
rejects-push_if r x true (y ∷ rejections) =
    let ih = rejects-push_if r x true rejections in ground arith

rejects-push_fork_checks :
    (r : CanonicalRiskRejection) (o : ExecutableOpportunity)
    (rejections : List CanonicalRiskRejection)
    → rejects r (push_fork_checks o rejections) ≡ (
        rejects r rejections
        || (requires_fork_evidence o.execution_profile
            && ((not o.evidence.eth_call_pass && (tag r == tag eth_call_failed))
                || ((not o.evidence.preflight_pass && (tag r == tag preflight_failed))
                    || (not o.evidence.trace_validated && (tag r == tag trace_failed))))))
unfolding push_fork_checks
rejects-push_fork_checks r o rejections =
    elim (Bool-cases (requires_fork_evidence o.execution_profile)) [
      | inl forked ↦
          rw
            (
              forked,
              rejects-push_if r trace_failed (not o.evidence.trace_validated) (
                  push_if (not o.evidence.preflight_pass) preflight_failed
                    (push_if (not o.evidence.eth_call_pass) eth_call_failed rejections)),
              rejects-push_if r preflight_failed (not o.evidence.preflight_pass)
                  (push_if (not o.evidence.eth_call_pass) eth_call_failed rejections),
              rejects-push_if r eth_call_failed (not o.evidence.eth_call_pass) rejections,
            )
            (or_three (rejects r rejections)
              (not o.evidence.eth_call_pass && (tag r == tag eth_call_failed))
              (not o.evidence.preflight_pass && (tag r == tag preflight_failed))
              (not o.evidence.trace_validated && (tag r == tag trace_failed)))
      | inr free ↦ rw free (ground arith)
    ]
  where
    or_three : (a b c d : Bool) → (((a || b) || c) || d) ≡ (a || (b || (c || d)))
    or_three a b c d = ground arith

-- The rejection is pushed by one of the checks.
abbrev pub pushed_by :
    CanonicalRiskRejection
    → (stale hashes anchors profit gas legs registry forked call preflight trace : Bool) → Bool
pushed_by stale_anchor stale hashes anchors profit gas legs registry forked call preflight trace =
    stale
pushed_by invalid_context_hash stale hashes anchors profit gas legs registry forked call preflight
      trace =
    hashes
pushed_by unstable_route stale hashes anchors profit gas legs registry forked call preflight trace =
    anchors
pushed_by non_positive_net_pnl stale hashes anchors profit gas legs registry forked call preflight
      trace =
    profit
pushed_by gas_exceeds_limit stale hashes anchors profit gas legs registry forked call preflight
      trace =
    gas
pushed_by eth_call_failed stale hashes anchors profit gas legs registry forked call preflight
      trace =
    forked && not call
pushed_by preflight_failed stale hashes anchors profit gas legs registry forked call preflight
      trace =
    forked && not preflight
pushed_by trace_failed stale hashes anchors profit gas legs registry forked call preflight trace =
    forked && not trace
pushed_by route_discontinuity stale hashes anchors profit gas legs registry forked call preflight
      trace =
    legs
pushed_by rejected_registry_hit stale hashes anchors profit gas legs registry forked call preflight
      trace =
    registry
pushed_by _ stale hashes anchors profit gas legs registry forked call preflight trace = false

pub rejects-chain :
    (r : CanonicalRiskRejection) (o : ExecutableOpportunity)
    (stale hashes anchors profit gas legs registry : Bool)
    → rejects r (
        push_if registry rejected_registry_hit (
          push_if legs route_discontinuity (
            push_fork_checks o (
              push_if gas gas_exceeds_limit (
                push_if profit non_positive_net_pnl (
                  push_if anchors unstable_route
                    (push_if hashes invalid_context_hash (push_if stale stale_anchor []))))))))
      ≡ pushed_by r stale hashes anchors profit gas legs registry
          (requires_fork_evidence o.execution_profile)
          o.evidence.eth_call_pass
          o.evidence.preflight_pass
          o.evidence.trace_validated
rejects-chain r o stale hashes anchors profit gas legs registry =
    let x1 = push_if stale stale_anchor [] in
    let x2 = push_if hashes invalid_context_hash x1 in
    let x3 = push_if anchors unstable_route x2 in
    let x4 = push_if profit non_positive_net_pnl x3 in
    let x5 = push_if gas gas_exceeds_limit x4 in
    let x6 = push_fork_checks o x5 in
    let x7 = push_if legs route_discontinuity x6 in
    rw
      (
        rejects-push_if r rejected_registry_hit registry x7,
        rejects-push_if r route_discontinuity legs x6,
        rejects-push_fork_checks r o x5,
        rejects-push_if r gas_exceeds_limit gas x4,
        rejects-push_if r non_positive_net_pnl profit x3,
        rejects-push_if r unstable_route anchors x2,
        rejects-push_if r invalid_context_hash hashes x1,
        rejects-push_if r stale_anchor stale [],
      )
      (by_tag r stale hashes anchors profit gas legs registry
        (requires_fork_evidence o.execution_profile) o.evidence.eth_call_pass
        o.evidence.preflight_pass o.evidence.trace_validated)
  where
    by_tag :
        (r : CanonicalRiskRejection)
        (stale hashes anchors profit gas legs registry forked call preflight trace : Bool)
        → ((((((((false || (stale && (tag r == 0))) || (hashes && (tag r == 1)))
                      || (anchors && (tag r == 2)))
                    || (profit && (tag r == 3)))
                  || (gas && (tag r == 4)))
                || (forked
                    && ((not call && (tag r == 6))
                        || ((not preflight && (tag r == 7)) || (not trace && (tag r == 8))))))
              || (legs && (tag r == 10)))
            || (registry && (tag r == 11)))
          ≡ pushed_by r stale hashes anchors profit gas legs registry forked call preflight trace
    by_tag stale_anchor a b c d e f g h i j k = ground arith
    by_tag invalid_context_hash a b c d e f g h i j k = ground arith
    by_tag unstable_route a b c d e f g h i j k = ground arith
    by_tag non_positive_net_pnl a b c d e f g h i j k = ground arith
    by_tag gas_exceeds_limit a b c d e f g h i j k = ground arith
    by_tag slippage_exceeds_limit a b c d e f g h i j k = ground arith
    by_tag eth_call_failed a b c d e f g h i j k = ground arith
    by_tag preflight_failed a b c d e f g h i j k = ground arith
    by_tag trace_failed a b c d e f g h i j k = ground arith
    by_tag incomplete_quotes a b c d e f g h i j k = ground arith
    by_tag route_discontinuity a b c d e f g h i j k = ground arith
    by_tag rejected_registry_hit a b c d e f g h i j k = ground arith
