-- ===== src/ForkTrace/Paths.antt =====
-- Where the anomalies of src/core/fork_trace_validation.rs stand: the path of each leads to the
-- frame that shows it.
use dex_arbitrage.Prelude.{
  ℕ, ◌+◌, ◌≡◌, refl, ap, Option, Bool, true, false, ◌&&◌, ◌||◌, List, [], ◌∷◌, ◌++◌, any, arith,
}
use Prim.Native.String.{String}
use mathlib.Core.List.{append_assoc, append-nil}
use dex_arbitrage.ForkTrace.{
  AnomalyKind, self_destruct, unexpected_native_value_transfer, internal_revert, TraceAnomaly,
  FrameFields, CallFrame, CallFrames, frame, no_calls, call, text_or, push_anomaly, stray_kind,
  is_stray, is_self_destruct, moves_value, has_error, check_frame, walk, walk_calls, validate_trace,
}

-- Whether some frame of the tree passes a test that is given its path too.
unfoldable mutual
  pub some_at : (List ℕ → FrameFields → Bool) → CallFrame → Bool
  some_at p (frame fields calls) = p [] fields || some_in p 0 calls

  pub some_in : (List ℕ → FrameFields → Bool) → (i : ℕ) → CallFrames → Bool
  some_in p i no_calls = false
  some_in p i (call child calls) = some_at (λ rest. p (i ∷ rest)) child || some_in p (i + 1) calls

mutual
  unfolding some_at some_in

  some_at_same :
      (p q : List ℕ → FrameFields → Bool)
      → ((rest : List ℕ) (fields : FrameFields) → p rest fields ≡ q rest fields)
      → (t : CallFrame) → some_at p t ≡ some_at q t
  some_at_same p q h (frame fields calls) = ground (arith, h [] fields, some_in_same p q h 0 calls)

  some_in_same :
      (p q : List ℕ → FrameFields → Bool)
      → ((rest : List ℕ) (fields : FrameFields) → p rest fields ≡ q rest fields)
      → (i : ℕ) (calls : CallFrames) → some_in p i calls ≡ some_in q i calls
  some_in_same p q h i no_calls = refl
  some_in_same p q h i (call child calls) = ground (
    arith,
    some_at_same (λ rest. p (i ∷ rest)) (λ rest. q (i ∷ rest)) (λ rest. h (i ∷ rest)) child,
    some_in_same p q h (i + 1) calls,
  )

pub any-append {ℓ} :
    {A : Type ℓ} (p : A → Bool) (xs ys : List A) → any p (xs ++ ys) ≡ (any p xs || any p ys)
any-append p [] ys = refl
any-append p (x ∷ xs) ys = ground (arith, any-append p xs ys)

module _ (passes : TraceAnomaly → Bool) where
  any-push_anomaly :
      (test : Bool) (path : List ℕ) (kind : AnomalyKind) (anomalies : List TraceAnomaly)
      → any passes (push_anomaly test path kind anomalies)
        ≡ (any passes anomalies || (test && passes (record { path = path; kind = kind })))
  unfolding push_anomaly
  any-push_anomaly true path kind anomalies =
      ground (arith, any-append passes anomalies (record { path = path; kind = kind } ∷ []))
  any-push_anomaly false path kind anomalies = ground arith

  -- The four tests of a frame, in their order.
  any-four_pushes :
      (destroyed moved stray failed : Bool) (kind : AnomalyKind) (path : List ℕ)
      (anomalies : List TraceAnomaly)
      → (let a = push_anomaly destroyed path self_destruct anomalies in
          let b = push_anomaly moved path unexpected_native_value_transfer a in
          let c = push_anomaly stray path kind b in
          any passes (push_anomaly failed path internal_revert c) ≡ (
            any passes anomalies
            || ((destroyed && passes (record { path = path; kind = self_destruct }))
                || ((moved
                      && passes (record { path = path; kind = unexpected_native_value_transfer }))
                    || ((stray && passes (record { path = path; kind = kind }))
                        || (failed && passes (record { path = path; kind = internal_revert })))))))
  any-four_pushes destroyed moved stray failed kind path anomalies =
      let a = push_anomaly destroyed path self_destruct anomalies in
      let b = push_anomaly moved path unexpected_native_value_transfer a in
      let c = push_anomaly stray path kind b in
      ground (
        arith,
        any-push_anomaly destroyed path self_destruct anomalies,
        any-push_anomaly moved path unexpected_native_value_transfer a,
        any-push_anomaly stray path kind b,
        any-push_anomaly failed path internal_revert c,
      )

module _ (parse_address : String → Option ℕ) (allowlist known_callback_selectors : List ℕ) where
  -- Whether a frame shows an anomaly of such a kind.
  abbrev pub shows : (AnomalyKind → Bool) → FrameFields → Bool
  shows q fields =
      (is_self_destruct fields && q self_destruct)
      || ((moves_value fields && q unexpected_native_value_transfer)
          || ((is_stray parse_address allowlist known_callback_selectors fields
                && q (stray_kind (text_or "" fields.call_type)))
              || (has_error fields && q internal_revert)))

  module _ (passes : TraceAnomaly → Bool) where
    -- Whether a frame, at its path, shows an anomaly that passes.
    abbrev pub shows_at : List ℕ → FrameFields → Bool
    shows_at path = shows (λ kind. passes (record { path = path; kind = kind }))

    any-check_frame :
        (fields : FrameFields) (path : List ℕ) (anomalies : List TraceAnomaly)
        → any passes
            (check_frame parse_address allowlist known_callback_selectors fields path anomalies)
          ≡ (any passes anomalies || shows_at path fields)
    unfolding check_frame
    any-check_frame fields path anomalies =
        any-four_pushes passes (is_self_destruct fields) (moves_value fields)
          (is_stray parse_address allowlist known_callback_selectors fields) (has_error fields)
          (stray_kind (text_or "" fields.call_type)) path anomalies

    mutual
      unfolding walk walk_calls some_at some_in

      any-walk :
          (t : CallFrame) (path : List ℕ) (anomalies : List TraceAnomaly)
          → any passes (walk parse_address allowlist known_callback_selectors t path anomalies)
            ≡ (any passes anomalies || some_at (λ rest. shows_at (path ++ rest)) t)
      any-walk (frame fields calls) path anomalies =
          let checked =
            check_frame parse_address allowlist known_callback_selectors fields path anomalies in
          rw (append-nil path) (
            ground
              (arith, any-walk_calls calls path 0 checked, any-check_frame fields path anomalies))

      any-walk_calls :
          (calls : CallFrames) (path : List ℕ) (i : ℕ) (anomalies : List TraceAnomaly)
          → any passes
              (walk_calls parse_address allowlist known_callback_selectors calls path i anomalies)
            ≡ (any passes anomalies || some_in (λ rest. shows_at (path ++ rest)) i calls)
      any-walk_calls no_calls path i anomalies = ground arith
      any-walk_calls (call child calls) path i anomalies =
          let below = path ++ i ∷ [] in
          let walked =
            walk parse_address allowlist known_callback_selectors child below anomalies in
          let same =
            some_at_same (λ rest. shows_at (below ++ rest)) (λ rest. shows_at (path ++ i ∷ rest))
              (λ rest fields. ap (λ p. shows_at p fields) (append_assoc path (i ∷ []) rest))
              child in
          ground
            (arith, any-walk_calls calls path (i + 1) walked, any-walk child below anomalies, same)

    -- The anomalies found are exactly those that the frames of the tree show, each at the path of
    -- its frame: whatever is asked of an anomaly, one that was found passes where one that some
    -- frame shows at its path does.
    pub any-validate_trace :
        (t : CallFrame)
        → any passes (validate_trace parse_address allowlist known_callback_selectors t)
          ≡ some_at (λ rest. shows_at (0 ∷ rest)) t
    unfolding validate_trace
    any-validate_trace t = any-walk t (0 ∷ []) []
