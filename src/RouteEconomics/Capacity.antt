-- ===== src/RouteEconomics/Capacity.antt =====
-- The capacity boundary of src/core/sequential_route_economics.rs against the sizes of the grid.
use dex_arbitrage.Prelude.{
  ◌≡◌, refl, ◌∙◌, Bool, not, ◌&&◌, Option, none, some, List, [], ◌∷◌, arith, if◌then◌else◌, all,
}
use dex_arbitrage.RouteEconomics.{
  RoundPnl, CapacityBoundary, is_some, is_some_true, is_empty, unset, note_gross, note_net, scan,
  last_gross_positive, capacity_boundary,
}

module _ {ℓ} {Size : Type ℓ} where
  -- The size of the first, and of the last, entry that passes a test.
  abbrev pub first_size : (RoundPnl Size → Bool) → List (RoundPnl Size) → Option Size
  first_size p [] = none
  first_size p (x ∷ xs) = if p x then some x.size_human else first_size p xs

  abbrev pub last_size : (RoundPnl Size → Bool) → List (RoundPnl Size) → Option Size
  last_size p [] = none
  last_size p (x ∷ xs) = elim (last_size p xs) [
    | some s ↦ some s
    | none ↦ if p x then some x.size_human else none
  ]

  abbrev pub is_gross : RoundPnl Size → Bool
  is_gross x = x.gross_positive

  abbrev pub is_net : RoundPnl Size → Bool
  is_net x = is_some_true x.net_positive

  abbrev pub is_negative : RoundPnl Size → Bool
  is_negative x = not x.gross_positive

  -- `a` unless it is absent, then `b`.
  abbrev or_else : Option Size → Option Size → Option Size
  or_else none b = b
  or_else (some a) b = some a

  scan_lem :
      (b : CapacityBoundary Size) (xs : List (RoundPnl Size))
      → scan b xs ≡ record {
        largest_gross_positive_size = or_else (last_size is_gross xs) b.largest_gross_positive_size;
        largest_net_positive_size = or_else (last_size is_net xs) b.largest_net_positive_size;
        first_negative_size = or_else b.first_negative_size (first_size is_negative xs);
        capacity_upper_bound_unknown = b.capacity_upper_bound_unknown;
      }
  unfolding scan note_gross note_net
  scan_lem b [] = ground arith
  scan_lem b (x ∷ xs) = scan_lem (note_net (note_gross b x) x) xs ∙ ground arith

  no_negative :
      (xs : List (RoundPnl Size)) → is_some (first_size is_negative xs) ≡ not (all is_gross xs)
  no_negative [] = refl
  no_negative (x ∷ xs) = ground (arith, no_negative xs)

  last_of_all :
      (xs : List (RoundPnl Size))
      → (last_gross_positive xs && all is_gross xs) ≡ (not (is_empty xs) && all is_gross xs)
  last_of_all [] = refl
  last_of_all (x ∷ []) = ground arith
  last_of_all (x ∷ y ∷ xs) = ground (arith, last_of_all (y ∷ xs))

  -- One pass over the grid finds the last gross-positive size, the last net-positive size and the
  -- first size that is not gross positive, and reports the upper bound as unknown exactly when the
  -- grid is not empty and every size in it is gross positive.
  pub capacity_boundary_lem :
      (xs : List (RoundPnl Size))
      → capacity_boundary xs ≡ record {
        largest_gross_positive_size = last_size is_gross xs;
        largest_net_positive_size = last_size is_net xs;
        first_negative_size = first_size is_negative xs;
        capacity_upper_bound_unknown = not (is_empty xs) && all is_gross xs;
      }
  unfolding capacity_boundary unset
  capacity_boundary_lem xs = rw (scan_lem unset xs) (ground (arith, no_negative xs, last_of_all xs))
