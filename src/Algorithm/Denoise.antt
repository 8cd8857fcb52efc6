-- ===== src/Algorithm/Denoise.antt =====
-- backend/internal/algorithm/denoise.go.
pub mod Median
use gb_522_l7o.Prelude.{
  ℕ, zero, suc, ◌+◌, ◌-◌, ◌/◌, ◌%◌, Bool, ◌||◌, List, [], ◌∷◌, ◌++◌, if◌then◌else◌, ltb, leb, ◌==◌,
  length, get_or, slice,
}
use gb_522_l7o.Prelude.Int.{ℤ, pos, pos_part, ltb_ℤ}
use gb_522_l7o.Prelude.Sort.{sort_slice}
use gb_522_l7o.Errors.{Error, text, Result, ok, err}
use gb_522_l7o.Float.{Float, float_less}

module _ {F : Type 0} ⦃f : Float F⦄ where
  open f use {lit, of_ℕ, add, sub, div}

  -- The middle of a sorted list, or the mean of its two middles: lines 31 to 36 of
  -- `MovingMedian`, and the end of `EstimateNoiseFloor`, on a sorted copy.
  unfoldable pub middle_of : List F → F
  middle_of bucket =
      let middle = length bucket / 2 in
      if length bucket % 2 == 0
      then div (add (get_or bucket (middle - 1) (lit 0 0)) (get_or bucket middle (lit 0 0)))
          (lit 2 0)
      else get_or bucket middle (lit 0 0)

  -- The samples around `i` that a filter of the given half width looks at.
  unfoldable pub bucket_at : List F → ℕ → ℕ → List F
  bucket_at points half i =
      let start = i - half in
      let end = if ltb (length points) (i + half + 1) then length points else i + half + 1 in
      slice points start end

  -- The loop of `MovingMedian` from `i` on, with `left` samples to go.
  unfoldable pub medians_from : List F → ℕ → ℕ → ℕ → List F
  unfolding bucket_at middle_of sort_slice
  medians_from points half i zero = []
  medians_from points half i (suc left) =
      middle_of (sort_slice float_less (bucket_at points half i))
      ∷ medians_from points half (i + 1) left

  unfoldable pub moving_median : List F → ℤ → Result (List F)
  unfolding medians_from
  moving_median points window =
      if ltb (length points) 3
      then err (text "at least three samples are required")
      else if ltb_ℤ window (pos 1) || ltb_ℤ (pos 31) window
      then err (text "window must be between 1 and 31")
      else let given = pos_part window in
        let odd = if given % 2 == 0 then given + 1 else given in
        ok (medians_from points (odd / 2) 0 (length points))

  -- The loop of `MovingAverage` from sample `i` on, over the samples from there.
  unfoldable pub averages_from : List F → ℕ → ℕ → F → List F → List F
  averages_from points window i sum [] = []
  averages_from points window i sum (point ∷ rest) =
      let grown = add sum point in
      let kept = if leb window i then sub grown (get_or points (i - window) (lit 0 0)) else grown in
      let count = if ltb window (i + 1) then window else i + 1 in
      div kept (of_ℕ count) ∷ averages_from points window (i + 1) kept rest

  unfoldable pub moving_average : List F → ℤ → Result (List F)
  unfolding averages_from
  moving_average points window =
      if length points == 0
      then err (text "samples are empty")
      else if ltb_ℤ window (pos 1) || ltb_ℤ (pos (length points)) window
      then err (text "invalid average window")
      else ok (averages_from points (pos_part window) 0 (lit 0 0) points)
