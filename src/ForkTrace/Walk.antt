-- ===== src/ForkTrace/Walk.antt =====
-- What src/core/fork_trace_validation.rs finds in a call tree, wherever it stands.
use Prim.Native.String.{String}
use dex_arbitrage.Prelude.{ℕ, ◌+◌, ◌≡◌, ◌∙◌, refl, Option, Bool, false, ◌||◌, List, any, arith}
use dex_arbitrage.ForkTrace.Paths.{some_at, some_in, shows, any-validate_trace}
use dex_arbitrage.ForkTrace.{
  AnomalyKind, TraceAnomaly, FrameFields, CallFrame, CallFrames, frame, no_calls, call,
  validate_trace,
}

-- Whether some frame of the tree passes the test.
mutual
  pub some_frame : (FrameFields → Bool) → CallFrame → Bool
  some_frame p (frame fields calls) = p fields || some_frames p calls

  pub some_frames : (FrameFields → Bool) → CallFrames → Bool
  some_frames p no_calls = false
  some_frames p (call child calls) = some_frame p child || some_frames p calls

mutual
  unfolding some_frame some_frames

  pub some_frame_same :
      (p q : FrameFields → Bool)
      → ((fields : FrameFields) → p fields ≡ q fields)
      → (t : CallFrame) → some_frame p t ≡ some_frame q t
  some_frame_same p q h (frame fields calls) =
      ground (arith, h fields, some_frames_same p q h calls)

  some_frames_same :
      (p q : FrameFields → Bool)
      → ((fields : FrameFields) → p fields ≡ q fields)
      → (calls : CallFrames) → some_frames p calls ≡ some_frames q calls
  some_frames_same p q h no_calls = refl
  some_frames_same p q h (call child calls) =
      ground (arith, some_frame_same p q h child, some_frames_same p q h calls)

-- Whether an anomaly of such a kind was found.
abbrev pub found : (AnomalyKind → Bool) → List TraceAnomaly → Bool
found q = any (λ anomaly. q anomaly.kind)

mutual
  unfolding some_frame some_frames some_at some_in

  some_at-some_frame :
      (p : FrameFields → Bool) (t : CallFrame) → some_at (λ rest. p) t ≡ some_frame p t
  some_at-some_frame p (frame fields calls) = ground (arith, some_in-some_frames p 0 calls)

  some_in-some_frames :
      (p : FrameFields → Bool) (i : ℕ) (calls : CallFrames)
      → some_in (λ rest. p) i calls ≡ some_frames p calls
  some_in-some_frames p i no_calls = refl
  some_in-some_frames p i (call child calls) =
      ground (arith, some_at-some_frame p child, some_in-some_frames p (i + 1) calls)

-- An anomaly of such a kind was found exactly where some frame shows one.
pub found-validate_trace :
    (parse_address : String → Option ℕ) (allowlist known_callback_selectors : List ℕ)
    (q : AnomalyKind → Bool) (t : CallFrame)
    → any
        (λ anomaly. q anomaly.kind)
        (validate_trace parse_address allowlist known_callback_selectors t)
      ≡ some_frame (shows parse_address allowlist known_callback_selectors q) t
found-validate_trace parse_address allowlist known_callback_selectors q t =
    any-validate_trace parse_address allowlist known_callback_selectors (λ anomaly. q anomaly.kind)
      t
    ∙ some_at-some_frame (shows parse_address allowlist known_callback_selectors q) t
