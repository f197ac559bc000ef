-- ===== src/RouteEconomics/Classification.antt =====
-- What `aggregate_final_classification` and `is_fork_candidate` of
-- src/core/sequential_route_economics.rs decide.
use dex_arbitrage.Prelude.{
  ◌≤◌, ◌≡◌, ◌≢◌, ◌↔◌, refl, sym, ◌∙◌, true, false, not, List, [], ◌∷◌, arith, length,
}
use dex_arbitrage.RouteEconomics.{
  RoundOutcome, gross_positive_net_unavailable, gross_positive_net_negative, net_positive,
  sequentially_net_positive_stable, sequentially_gross_positive_gas_negative, outcome_tag, contains,
  all_are, none_is, is_empty, aggregate_final_classification, is_fork_candidate, is,
}

all_are_excludes :
    (rounds : List RoundOutcome) (a b : RoundOutcome)
    → outcome_tag a ≢ outcome_tag b
    → all_are rounds a ≡ true
    → contains rounds b ≡ false
all_are_excludes [] a b h e = refl
all_are_excludes (r ∷ rounds) a b h e = ground (arith, all_are_excludes rounds a b h)

all_are_unique :
    (rounds : List RoundOutcome) (a b : RoundOutcome)
    → outcome_tag a ≢ outcome_tag b
    → rounds ≢ []
    → all_are rounds a ≡ true
    → all_are rounds b ≡ false
all_are_unique [] a b h n e = absurd (n refl)
all_are_unique (r ∷ rounds) a b h n e = ground arith

is_empty_iff : (rounds : List RoundOutcome) → rounds ≢ [] → is_empty rounds ≡ false
is_empty_iff [] n = absurd (n refl)
is_empty_iff (r ∷ rounds) n = refl

-- A (route, size) is classified as stably net positive exactly when it was observed at all and
-- every round was net positive.
pub aggregate_final_classification_stable :
    (rounds : List RoundOutcome)
    → (aggregate_final_classification rounds ≡ sequentially_net_positive_stable)
      ↔ ((rounds ≢ []) × (all_are rounds net_positive ≡ true))
unfolding aggregate_final_classification
aggregate_final_classification_stable [] = (λ e. cc, λ h. absurd (h.0 refl))
aggregate_final_classification_stable (r ∷ rounds) = (
  λ e. (λ x. cc, ground arith),
  λ h. ground (
    arith,
    all_are_excludes (r ∷ rounds) net_positive RoundOutcome.route_invalid (omega arith) h.1,
    all_are_excludes (r ∷ rounds) net_positive RoundOutcome.simulation_error (omega arith) h.1,
    all_are_excludes (r ∷ rounds) net_positive RoundOutcome.temporally_incoherent (omega arith) h.1,
    all_are_excludes (r ∷ rounds) net_positive RoundOutcome.unsupported_reused_pool (omega arith)
        h.1,
    all_are_unique (r ∷ rounds) net_positive RoundOutcome.gross_negative (omega arith) h.0 h.1,
  ),
)

-- So a fork candidate is a route and size with at least three rounds, all net positive.
pub is_fork_candidate_iff :
    (rounds : List RoundOutcome)
    → (is_fork_candidate (aggregate_final_classification rounds) rounds ≡ true)
      ↔ ((3 ≤ length rounds) × (all_are rounds net_positive ≡ true))
unfolding is_fork_candidate
is_fork_candidate_iff [] = (λ e. ground arith, λ h. absurd (omega arith))
is_fork_candidate_iff (r ∷ rounds) = (
  λ e. ground arith,
  λ h. ground (arith, (aggregate_final_classification_stable (r ∷ rounds)).1 ((λ x. cc), h.1)),
)

-- The same outcomes occur, whatever their order and number.
abbrev pub SameOutcomes : List RoundOutcome → List RoundOutcome → Type 0
SameOutcomes xs ys = (o : RoundOutcome) → contains xs o ≡ contains ys o

is_refl : (o : RoundOutcome) → is o o ≡ true
is_refl o = ground arith

all_are_of_excludes :
    (rounds : List RoundOutcome) (a : RoundOutcome)
    → ((b : RoundOutcome) → outcome_tag a ≢ outcome_tag b → contains rounds b ≡ false)
    → all_are rounds a ≡ true
all_are_of_excludes [] a h = refl
all_are_of_excludes (r ∷ rounds) a h =
    ground (arith, h r, is_refl r, all_are_of_excludes rounds a (λ b n. ground (arith, h b n)))

all_are-SameOutcomes :
    (xs ys : List RoundOutcome) (a : RoundOutcome)
    → SameOutcomes xs ys
    → all_are xs a ≡ true
    → all_are ys a ≡ true
all_are-SameOutcomes xs ys a s e =
    all_are_of_excludes ys a (λ b n. sym (s b) ∙ all_are_excludes xs a b n e)

all_are_eq :
    (xs ys : List RoundOutcome) (a : RoundOutcome)
    → SameOutcomes xs ys
    → all_are xs a ≡ all_are ys a
all_are_eq xs ys a s =
    ground (arith, all_are-SameOutcomes xs ys a s, all_are-SameOutcomes ys xs a (λ o. sym (s o)))

none_is-not :
    (rounds : List RoundOutcome) (a : RoundOutcome) → none_is rounds a ≡ not (contains rounds a)
none_is-not [] a = refl
none_is-not (r ∷ rounds) a = ground (arith, none_is-not rounds a)

is_empty_eq : (xs ys : List RoundOutcome) → SameOutcomes xs ys → is_empty xs ≡ is_empty ys
is_empty_eq [] [] s = refl
is_empty_eq [] (y ∷ ys) s = ground (arith, s y, is_refl y)
is_empty_eq (x ∷ xs) [] s = ground (arith, s x, is_refl x)
is_empty_eq (x ∷ xs) (y ∷ ys) s = refl

-- The classification depends on which outcomes occurred, not on the order of the rounds nor on how
-- often each outcome was seen.
pub aggregate_final_classification-SameOutcomes :
    (xs ys : List RoundOutcome)
    → SameOutcomes xs ys
    → aggregate_final_classification xs ≡ aggregate_final_classification ys
unfolding aggregate_final_classification
aggregate_final_classification-SameOutcomes xs ys s = rw (
  none_is-not xs net_positive,
  none_is-not ys net_positive,
  none_is-not xs gross_positive_net_negative,
  none_is-not ys gross_positive_net_negative,
  is_empty_eq xs ys s,
  s RoundOutcome.route_invalid,
  s RoundOutcome.simulation_error,
  s RoundOutcome.temporally_incoherent,
  s RoundOutcome.unsupported_reused_pool,
  s RoundOutcome.gross_negative,
  s net_positive,
  s gross_positive_net_negative,
  all_are_eq xs ys RoundOutcome.gross_negative s,
  all_are_eq xs ys net_positive s,
  all_are_eq xs ys gross_positive_net_unavailable s,
)

-- The classification "gross positive, gas negative" is given exactly to the routes that were
-- observed and whose net result could not be computed in any round.
pub aggregate_final_classification_gas_negative :
    (rounds : List RoundOutcome)
    → (aggregate_final_classification rounds ≡ sequentially_gross_positive_gas_negative)
      ↔ ((rounds ≢ []) × (all_are rounds gross_positive_net_unavailable ≡ true))
unfolding aggregate_final_classification
aggregate_final_classification_gas_negative [] = (λ e. cc, λ h. absurd (h.0 refl))
aggregate_final_classification_gas_negative (r ∷ rounds) = (
  λ e. (λ x. cc, ground arith),
  λ h.
      let excludes = λ (b : RoundOutcome) (n : 5 ≢ outcome_tag b).
        all_are_excludes (r ∷ rounds) gross_positive_net_unavailable b n h.1 in
      ground (
        arith,
        excludes RoundOutcome.route_invalid (omega arith),
        excludes RoundOutcome.simulation_error (omega arith),
        excludes RoundOutcome.temporally_incoherent (omega arith),
        excludes RoundOutcome.unsupported_reused_pool (omega arith),
        excludes RoundOutcome.gross_negative (omega arith),
        all_are_unique (r ∷ rounds) gross_positive_net_unavailable RoundOutcome.gross_negative
            (omega arith) h.0 h.1,
        all_are_unique (r ∷ rounds) gross_positive_net_unavailable net_positive (omega arith) h.0
            h.1,
      ),
)
