-- ===== src/Tests/Comparison.antt =====
-- Runs of algorithm/compare.go.
use gb_522_l7o.Prelude.{ℕ, ◌≡◌, refl, none, some, ◌⊎◌, List, [], ◌∷◌, length}
use gb_522_l7o.Prelude.Sort.{sort_slice, insert_sorted, IsSorted}
use gb_522_l7o.Prelude.Int.{◌-ℤ◌, ◌+ℤ◌}
use gb_522_l7o.Errors.{Result, ok, err}
use gb_522_l7o.Float.Fixed.{Fixed, fixed, fixed_float, Fixed-IsFloat}
use gb_522_l7o.Algorithm.Compare.{
  ComparableEvent, Difference, difference_less, compare_baseline, match_all, nearest_from,
  unused_from,
}
use gb_522_l7o.Algorithm.Compare.Nearest.{NoneNearer, IsNearest, nearest_from-IsNearest}
use gb_522_l7o.Algorithm.Compare.Accounts.{IsAccounted, compare_baseline-accounts}
use gb_522_l7o.Algorithm.Compare.Order.{compare_baseline-IsSorted}

abbrev event : ℕ → Fixed → Fixed → ComparableEvent Fixed
event id distance loss = record {
  id = id;
  distance_m = distance;
  insertion_loss_db = loss;
  confidence = fixed 9 1;
}

-- The first is still there, with more loss; the second is gone.
abbrev baseline : List (ComparableEvent Fixed)
baseline = event 1 (fixed 100 0) (fixed 2 1) ∷ event 2 (fixed 900 0) (fixed 3 1) ∷ []

-- The second is new.
abbrev current : List (ComparableEvent Fixed)
current = event 3 (fixed 105 0) (fixed 14 1) ∷ event 4 (fixed 400 0) (fixed 5 1) ∷ []

abbrev tolerance : Fixed
tolerance = fixed 25 0

abbrev loss_increase : Fixed
loss_increase = fixed 5 1

abbrev differences_of : Result (List (Difference Fixed)) → List (Difference Fixed)
differences_of (ok l) = l
differences_of (err e) = []

abbrev differences : List (Difference Fixed)
differences = differences_of (compare_baseline baseline current tolerance loss_increase)

compared : compare_baseline baseline current tolerance loss_increase ≡ ok differences
unfolding compare_baseline match_all nearest_from unused_from sort_slice insert_sorted ◌-ℤ◌ ◌+ℤ◌
compared = refl

three_differences : length differences ≡ 3
unfolding compare_baseline match_all nearest_from unused_from sort_slice insert_sorted ◌-ℤ◌ ◌+ℤ◌
three_differences = refl

compare_baseline-accounts_example : IsAccounted baseline current differences
compare_baseline-accounts_example =
    compare_baseline-accounts Fixed-IsFloat baseline current tolerance loss_increase compared

compare_baseline-IsSorted_example : IsSorted difference_less differences
compare_baseline-IsSorted_example =
    compare_baseline-IsSorted Fixed-IsFloat baseline current tolerance loss_increase
      (refl, (refl, tt)) (refl, (refl, tt)) compared

nearest_from-IsNearest_example :
    let base = event 1 (fixed 100 0) (fixed 2 1) in
    let found = nearest_from base tolerance [] 0 current none fixed_float.max_float in
    ((found ≡ none) × NoneNearer base tolerance [] 0 current fixed_float.max_float)
    ⊎ ((j : ℕ) × (found ≡ some j) × IsNearest base tolerance [] 0 current fixed_float.max_float j)
nearest_from-IsNearest_example =
    nearest_from-IsNearest (event 1 (fixed 100 0) (fixed 2 1)) tolerance [] Fixed-IsFloat current
