-- ===== src/Algorithm/Distance.antt =====
-- backend/internal/algorithm/distance.go, and `round` of detect.go.
use gb_522_l7o.Prelude.{Bool, not, ◌&&◌, ◌||◌, if◌then◌else◌}
use gb_522_l7o.Prelude.Int.{ℤ, pos, pos_part, ltb_ℤ}
use gb_522_l7o.Errors.{text, Result, ok, err, ◌>>=◌}
use gb_522_l7o.Float.{Float}

module _ {F : Type 0} ⦃f : Float F⦄ where
  open f use {lit, of_ℕ, mul, div, nearest, lt, le, is_nan, is_inf}

  abbrev pub vacuum_speed_m_per_second : F
  vacuum_speed_m_per_second = lit 299792458 0

  -- `round` of detect.go: to three decimals.
  unfoldable pub round : F → F
  round value = div (nearest (mul value (lit 1000 0))) (lit 1000 0)

  unfoldable pub sample_distance : ℤ → F → F → Result F
  sample_distance index sample_interval_ns refractive_index =
      if ltb_ℤ index (pos 0)
      then err (text "sample index cannot be negative")
      else if le sample_interval_ns (lit 0 0)
      then err (text "sample interval must be positive")
      else if lt refractive_index (lit 13 1) || lt (lit 17 1) refractive_index
      then err (text "refractive index outside 1.3-1.7")
      else let round_trip_seconds =
          mul (mul (of_ℕ (pos_part index)) sample_interval_ns) (lit 1 9) in
        let distance =
          div (mul vacuum_speed_m_per_second round_trip_seconds) (mul (lit 2 0) refractive_index) in
        ok (div (nearest (mul distance (lit 100 0))) (lit 100 0))

  unfoldable pub valid_route_distance : F → F → Bool
  valid_route_distance distance route_length =
      not (is_nan distance)
      && not (is_inf distance)
      && le (lit 0 0) distance
      && le distance route_length

  unfoldable pub distance_uncertainty : F → F → ℤ → Result F
  unfolding sample_distance
  distance_uncertainty sample_interval_ns refractive_index merge_window =
      if ltb_ℤ merge_window (pos 1) then err (text "merge window must be positive") else do
        one_sample ← sample_distance (pos 1) sample_interval_ns refractive_index
        ok (
            div (nearest (mul (mul one_sample (of_ℕ (pos_part merge_window))) (lit 100 0)))
              (lit 100 0))
