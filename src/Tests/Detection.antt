-- ===== src/Tests/Detection.antt =====
-- Runs of algorithm/denoise.go and algorithm/detect.go.
use gb_522_l7o.Prelude.{
  ℕ, zero, suc, ◌+◌, ◌<◌, ◌≡◌, refl, true, some, List, [], ◌∷◌, map, length, filter_if, All,
  get_elem?,
}
use gb_522_l7o.Prelude.Sort.{sort_slice, insert_sorted}
use gb_522_l7o.Prelude.Int.{pos, ◌+ℤ◌, ◌-ℤ◌}
use gb_522_l7o.Errors.{Result, ok, err}
use gb_522_l7o.Float.Fixed.{Fixed, fixed, fixed_float, Fixed-IsFloat}
use gb_522_l7o.Algorithm.Distance.{sample_distance, valid_route_distance}
use gb_522_l7o.Algorithm.Denoise.{moving_median, medians_from}
use gb_522_l7o.Algorithm.Denoise.Median.{IsFiltered, moving_median-IsFiltered}
use gb_522_l7o.Algorithm.Detect.{
  Peak, DetectedEvent, estimate_noise_floor, derivative_peaks, peaks_from, merge_peaks, merge_from,
  detect, detect_loop, type_of_peak, classify_peak,
}
use gb_522_l7o.Algorithm.Detect.Peaks.{IsSpaced, peak_at, step_peak, derivative_peaks-exact}
use gb_522_l7o.Algorithm.Detect.Pipeline.{
  IsEvent, EventsSpaced, is_on_route, event_at, detect-accounts, detect-IsEvent,
}

-- Ten samples at 20 dB and ten at 10 dB.
abbrev samples : ℕ → Fixed → List Fixed → List Fixed
samples zero x rest = rest
samples (suc n) x rest = x ∷ samples n x rest

abbrev pub trace : List Fixed
trace = samples 10 (fixed 20 0) (samples 10 (fixed 10 0) [])

abbrev threshold : Fixed
threshold = fixed 8 1

abbrev interval : Fixed
interval = fixed 10 0

abbrev index_of_refraction : Fixed
index_of_refraction = fixed 1468 3

abbrev route_length : Fixed
route_length = fixed 5000 0

-- The step between the two halves.
abbrev step : Peak Fixed
step = record { index = 10; magnitude = fixed 10 0; direction = fixed_float.neg (fixed 1 0) }

peaks_found : derivative_peaks trace threshold ≡ ok (step ∷ [])
unfolding derivative_peaks peaks_from ◌-ℤ◌
peaks_found = refl

derivative_peaks-exact_example :
    IsSpaced 1 1 (step ∷ [])
    × All
        (λ p. (p.index < length trace) × (fixed_float.le threshold p.magnitude ≡ true))
        (step ∷ [])
    × ((i : ℕ) (a b : Fixed)
        → get_elem? trace i ≡ some a
        → get_elem? trace (suc i) ≡ some b
        → peak_at (suc i) (step ∷ []) ≡ step_peak threshold (suc i) a b)
derivative_peaks-exact_example = derivative_peaks-exact trace threshold peaks_found

-- Three peaks, of which the first two lie within the window.
abbrev near : Peak Fixed
near = record { index = 11; magnitude = fixed 3 0; direction = fixed 1 0 }

abbrev far : Peak Fixed
far = record { index = 17; magnitude = fixed 2 0; direction = fixed 1 0 }

abbrev three_peaks : List (Peak Fixed)
three_peaks = step ∷ near ∷ far ∷ []

merged_peaks : merge_peaks three_peaks (pos 3) ≡ ok (step ∷ far ∷ [])
unfolding merge_peaks merge_from
merged_peaks = refl

abbrev events_of : Result (List (DetectedEvent Fixed) × ℕ) → List (DetectedEvent Fixed)
events_of (ok (events, rejected)) = events
events_of (err e) = []

abbrev run : Result (List (DetectedEvent Fixed) × ℕ)
run = detect trace threshold (pos 3) interval index_of_refraction route_length

run_done : run ≡ ok (events_of run, 0)
unfolding detect detect_loop estimate_noise_floor sort_slice insert_sorted derivative_peaks
    peaks_from merge_peaks merge_from sample_distance valid_route_distance type_of_peak
    classify_peak ◌-ℤ◌ ◌+ℤ◌
run_done = refl

detect-accounts_example :
    (noise : Fixed) × (peaks : List (Peak Fixed)) × (merged : List (Peak Fixed))
    × (estimate_noise_floor trace ≡ ok noise)
    × (derivative_peaks trace threshold ≡ ok peaks)
    × (merge_peaks peaks (pos 3) ≡ ok merged)
    × (events_of run
        ≡ map
            (event_at trace noise threshold interval index_of_refraction route_length)
            (filter_if (is_on_route interval index_of_refraction route_length) merged))
    × (length (events_of run) + 0 ≡ length merged)
detect-accounts_example =
    detect-accounts trace threshold (pos 3) interval index_of_refraction route_length run_done

detect-IsEvent_example :
    All (IsEvent trace interval index_of_refraction route_length) (events_of run)
    × EventsSpaced 4 1 (events_of run)
detect-IsEvent_example =
    detect-IsEvent trace threshold (pos 3) interval index_of_refraction route_length run_done

-- A spike, which the median of three takes out.
abbrev spike : List Fixed
spike = fixed 1 0 ∷ fixed 9 0 ∷ fixed 2 0 ∷ fixed 2 0 ∷ []

abbrev values_of : Result (List Fixed) → List Fixed
values_of (ok l) = l
values_of (err e) = []

filtered : moving_median spike (pos 3) ≡ ok (values_of (moving_median spike (pos 3)))
unfolding moving_median medians_from sort_slice insert_sorted
filtered = refl

moving_median-IsFiltered_example :
    (length (values_of (moving_median spike (pos 3))) ≡ 4)
    × ((i : ℕ) → i < 4 → IsFiltered spike 1 (values_of (moving_median spike (pos 3))) i)
moving_median-IsFiltered_example = moving_median-IsFiltered Fixed-IsFloat spike (pos 3) filtered
