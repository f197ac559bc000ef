-- ===== src/SmartRetry/Attempts.antt =====
-- What src/core/smart_retry.rs returns, after how many calls and pauses.
use dex_arbitrage.Prelude.{
  ℕ, zero, suc, ◌+◌, ◌-◌, ◌*◌, ◌^◌, ◌≤◌, ◌<◌, ◌≡◌, refl, sym, ap, ◌∙◌, subst, inl, inr, ◌||◌, ◌==◌,
  Bool, true, false, ltb, Result, ok, err, Result-cases, List, [], ◌∷◌, arith,
}
use native.Mathlib.Nat.{pow-succ', mul_assoc, one-le-pow}
use dex_arbitrage.Prelude.Div.{mul_mono}
use dex_arbitrage.Float.{F64Delay}
use dex_arbitrage.SmartRetry.{
  duration_limit, SmartRetryManager, returned, Run, pause_ms, one_more, exec_from, exec,
}

-- A delay is at most what it is doubled to.
mul_pow : (delay count : ℕ) → delay * 2 ≤ delay * 2 * 2 ^ count
mul_pow delay count =
    let grown =
      mul_mono (delay * 2) 1 (delay * 2) (2 ^ count) (omega arith)
        (one-le-pow count 2 (omega arith)) in
    omega (arith, grown)

module _ (f : F64Delay) where
  open f use {Carrier}

  module _ {T E : Type 0} (m : SmartRetryManager Carrier) (random : ℕ → Carrier → Carrier)
      (operation : ℕ → Result T E) where
    -- The pauses from an attempt on, each of twice the delay of the one before.
    abbrev pub pauses : (count attempt delay : ℕ) → List ℕ
    pauses zero attempt delay = []
    pauses (suc count) attempt delay =
        pause_ms f m (random attempt) delay ∷ pauses count (attempt + 1) (delay * 2)

    abbrev pub AllFail : (count attempt : ℕ) → Type 0
    AllFail zero attempt = Unit
    AllFail (suc count) attempt =
        ((e : E) × (operation attempt ≡ err e)) × AllFail count (attempt + 1)

    -- The run of so many failures and one last call.
    abbrev pub run_of : (count attempt delay : ℕ) → Result T E → Run T E
    run_of count attempt delay result = record {
      calls = count + 1;
      sleeps = pauses count attempt delay;
      ending = returned result;
    }

    exec_from-ok :
        (left attempt delay : ℕ) {v : T}
        → operation attempt ≡ ok v
        → exec_from f m random operation left attempt delay ≡ run_of 0 attempt delay (ok v)
    unfolding exec_from
    exec_from-ok zero attempt delay h = rw h refl
    exec_from-ok (suc left) attempt delay h = rw (h, exec_from) refl

    exec_from-err :
        (left attempt delay : ℕ) {e : E}
        → operation attempt ≡ err e
        → delay * 2 < duration_limit
        → exec_from f m random operation (suc left) attempt delay
          ≡ one_more f m random operation
              (pause_ms f m (random attempt) delay)
              (exec_from f m random operation left (attempt + 1) (delay * 2))
    unfolding exec_from
    exec_from-err left attempt delay h fits =
        let below : ltb (delay * 2) duration_limit ≡ true = ground arith in
        rw (h, below, exec_from) refl

    -- After failures that are followed by a run of one call, the pauses come first.
    exec_from-AllFail :
        (count left attempt delay : ℕ) (result : Result T E)
        → AllFail count attempt
        → delay * 2 ^ count < duration_limit
        → ((d : ℕ)
            → exec_from f m random operation left (attempt + count) d
              ≡ run_of 0 (attempt + count) d result)
        → exec_from f m random operation (count + left) attempt delay
          ≡ run_of count attempt delay result
    unfolding one_more
    exec_from-AllFail zero left attempt delay result fail fits last =
        let start : attempt + 0 ≡ attempt = omega arith in
        let all : left ≡ 0 + left = omega arith in
        subst (λ n. exec_from f m random operation n attempt delay ≡ run_of 0 attempt delay result)
          all
          (subst (λ a. exec_from f m random operation left a delay ≡ run_of 0 a delay result) start
            (last delay))
    exec_from-AllFail (suc count) left attempt delay result ((e, failed), later) fits last =
        let next : attempt + suc count ≡ attempt + 1 + count = omega arith in
        let all : suc (count + left) ≡ suc count + left = omega arith in
        let doubled : delay * 2 ^ suc count ≡ delay * 2 * 2 ^ count =
          ap (λ p. delay * p) (pow-succ' 2 count) ∙ sym (mul_assoc delay 2 (2 ^ count)) in
        let ih =
          exec_from-AllFail count left (attempt + 1) (delay * 2) result later
            (omega (arith, doubled, fits))
            (λ d.
              subst (λ a. exec_from f m random operation left a d ≡ run_of 0 a d result) next
                (last d)) in
        let so_far : ℕ → Run T E = λ c. record {
          calls = c;
          sleeps = pauses (suc count) attempt delay;
          ending = returned result;
        } in
        let counted : count + 1 + 1 ≡ suc count + 1 = omega arith in
        let now =
          exec_from-err (count + left) attempt delay failed
            (omega (arith, mul_pow delay count, doubled, fits)) in
        subst
          (λ n.
            exec_from f m random operation n attempt delay
            ≡ run_of (suc count) attempt delay result)
          all
          (now
            ∙ ap (one_more f m random operation (pause_ms f m (random attempt) delay)) ih
            ∙ ap so_far counted)

    exec_from-last :
        (attempt delay : ℕ)
        → exec_from f m random operation zero attempt delay
          ≡ run_of 0 attempt delay (operation attempt)
    unfolding exec_from
    exec_from-last attempt delay = refl

    abbrev pub succeeds : ℕ → Bool
    succeeds attempt = elim (operation attempt) [ ok v ↦ true | err e ↦ false ]

    exec_from-stops :
        (left attempt delay : ℕ)
        → (succeeds attempt || left == 0) ≡ true
        → exec_from f m random operation left attempt delay
          ≡ run_of 0 attempt delay (operation attempt)
    exec_from-stops left attempt delay h = elim (Result-cases (operation attempt)) [
      | inl (v, fine) ↦
          exec_from-ok left attempt delay fine ∙ ap (run_of 0 attempt delay) (sym fine)
      | inr (e, failed) ↦
          let none_left : left ≡ 0 = ground arith in rw none_left (exec_from-last attempt delay)
    ]

    -- After failures only, the first call that succeeds ends the run, and without one the last that
    -- is allowed does: with the result of that call, whatever it is, one call more than there were
    -- failures, and between them pauses of twice the delay each time. The delay must stay a
    -- `Duration` for as many pauses.
    pub exec_first :
        (count : ℕ)
        → count ≤ m.max_retries
        → AllFail count 0
        → (succeeds count || count == m.max_retries) ≡ true
        → m.base_delay * 2 ^ count < duration_limit
        → exec f m random operation ≡ run_of count 0 m.base_delay (operation count)
    unfolding exec
    exec_first count within fail stops fits =
        let left = m.max_retries - count in
        let all : count + left ≡ m.max_retries = omega arith in
        let here : 0 + count ≡ count = omega arith in
        let ends : (succeeds count || left == 0) ≡ true = ground arith in
        subst
          (λ n.
            exec_from f m random operation n 0 m.base_delay
            ≡ run_of count 0 m.base_delay (operation count))
          all
          (exec_from-AllFail count left 0 m.base_delay (operation count) fail fits (λ d.
            subst (λ a. exec_from f m random operation left a d ≡ run_of 0 a d (operation count))
              (sym here) (exec_from-stops left count d ends)))
