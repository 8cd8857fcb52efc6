-- ===== src/Algorithm/Detect.antt =====
-- backend/internal/algorithm/detect.go.
pub mod Peaks
pub mod Merge
pub mod Pipeline
use gb_522_l7o.Prelude.{
  ℕ, suc, ◌+◌, ◌-◌, ◌*◌, ◌/◌, Bool, true, false, not, ◌&&◌, ◌||◌, List, [], ◌∷◌, ◌++◌,
  if◌then◌else◌, ltb, leb, length, get_or, drop,
}
use gb_522_l7o.Prelude.Int.{ℤ, pos, pos_part, ltb_ℤ}
use gb_522_l7o.Prelude.Sort.{sort_slice}
use gb_522_l7o.Errors.{Error, text, Result, ok, err, ◌>>=◌}
use gb_522_l7o.Constants.{EventType, connector, splice, bend, break, end}
use gb_522_l7o.Float.{Float, float_less}
use gb_522_l7o.Algorithm.Distance.{round, sample_distance, valid_route_distance}
use gb_522_l7o.Algorithm.Denoise.{middle_of}

pub record Peak (F : Type 0) : Type 0 where
  pub index : ℕ
  pub magnitude : F
  pub direction : F

pub record DetectedEvent (F : Type 0) : Type 0 where
  pub index : ℕ
  pub distance_m : F
  pub event_type : EventType
  pub insertion_loss_db : F
  pub reflectance_db : F
  pub confidence : F

-- The four results of `ClassifyPeak`.
pub record Classified (F : Type 0) : Type 0 where
  pub event_type : EventType
  pub loss : F
  pub reflectance : F
  pub confidence : F

module _ {F : Type 0} ⦃f : Float F⦄ where
  open f use {lit, add, sub, mul, div, abs, copysign, fmax, fmin, lt, le}

  unfoldable pub estimate_noise_floor : List F → Result F
  unfolding sort_slice middle_of
  estimate_noise_floor points =
      if ltb (length points) 16
      then err (text "at least 16 samples are required for noise estimation")
      else let start = length points * 4 / 5 in
        ok (middle_of (sort_slice float_less (drop start points)))

  -- The step from `before` to `after`, as a peak at `index`.
  abbrev pub peak_of : ℕ → F → F → Peak F
  peak_of index before after =
      let delta = sub after before in
      record { index = index; magnitude = abs delta; direction = copysign (lit 1 0) delta }

  -- The test that keeps a step.
  abbrev pub is_steep : F → F → F → Bool
  is_steep threshold before after = le threshold (abs (sub after before))

  -- The loop of `DerivativePeaks` at index `i`, behind the sample `before`.
  unfoldable pub peaks_from : F → ℕ → F → List F → List (Peak F)
  peaks_from threshold i before [] = []
  peaks_from threshold i before (after ∷ rest) =
      let later = peaks_from threshold (i + 1) after rest in
      if is_steep threshold before after then peak_of i before after ∷ later else later

  abbrev pub peaks_of : F → List F → List (Peak F)
  peaks_of threshold [] = []
  peaks_of threshold (first ∷ rest) = peaks_from threshold 1 first rest

  unfoldable pub derivative_peaks : List F → F → Result (List (Peak F))
  unfolding peaks_from
  derivative_peaks points threshold =
      if ltb (length points) 3
      then err (text "at least three samples are required")
      else if le threshold (lit 0 0)
      then err (text "threshold must be positive")
      else ok (peaks_of threshold points)

  -- The loop of `MergePeaks` with its `current`, and the last append.
  unfoldable pub merge_from : ℕ → Peak F → List (Peak F) → List (Peak F)
  merge_from window current [] = current ∷ []
  merge_from window current (peak ∷ peaks) =
      let joined =
        merge_from window (if lt current.magnitude peak.magnitude then peak else current) peaks in
      let apart = current ∷ merge_from window peak peaks in
      if leb peak.index (current.index + window) then joined else apart

  abbrev pub merge_all : ℕ → List (Peak F) → List (Peak F)
  merge_all window [] = []
  merge_all window (first ∷ rest) = merge_from window first rest

  unfoldable pub merge_peaks : List (Peak F) → ℤ → Result (List (Peak F))
  unfolding merge_from
  merge_peaks peaks window =
      if ltb_ℤ window (pos 1)
      then err (text "merge window must be positive")
      else ok (merge_all (pos_part window) peaks)

  -- The four assignments of the event type, each over what the ones before it left.
  unfoldable pub type_of_peak : Peak F → ℕ → F → EventType
  type_of_peak peak count threshold =
      let rising = lt (lit 0 0) peak.direction in
      let falling = lt peak.direction (lit 0 0) in
      let first =
        if rising && le (mul threshold (lit 15 1)) peak.magnitude then connector else splice in
      let second =
        if falling && le (mul threshold (lit 25 1)) peak.magnitude then break else first in
      let third =
        if falling && lt peak.magnitude (mul threshold (lit 15 1)) then bend else second in
      if leb count (peak.index + 3) then end else third

  unfoldable pub classify_peak : Peak F → List F → F → F → Classified F
  unfolding type_of_peak round
  classify_peak peak points noise_floor threshold =
      let before = get_or points (peak.index - 1) (lit 0 0) in
      let after = get_or points peak.index (lit 0 0) in
      record {
        event_type = type_of_peak peak (length points) threshold;
        loss = round (fmax (lit 0 0) (sub before after));
        reflectance = round (sub (fmin before after) noise_floor);
        confidence =
            round (fmin (lit 99 2) (add (lit 5 1) (div peak.magnitude (mul threshold (lit 10 0)))));
      }

  -- One accepted peak as an event.
  abbrev pub event_of : List F → F → F → Peak F → F → DetectedEvent F
  event_of points noise threshold peak distance =
      let c = classify_peak peak points noise threshold in
      record {
        index = peak.index;
        distance_m = distance;
        event_type = c.event_type;
        insertion_loss_db = c.loss;
        reflectance_db = c.reflectance;
        confidence = c.confidence;
      }

  module _ (points : List F) (noise threshold : F) (sample_interval_ns refractive_index : F)
      (route_length : F) where
    -- The loop of `Detect` over the merged peaks, with its events and its count of rejections.
    unfoldable pub detect_loop :
        List (Peak F) → List (DetectedEvent F) → ℕ → Result (List (DetectedEvent F) × ℕ)
    detect_loop [] events rejected = ok (events, rejected)
    detect_loop (peak ∷ peaks) events rejected =
        sample_distance (pos peak.index) sample_interval_ns refractive_index >>= λ distance.
        (elim (valid_route_distance distance route_length) [
          | false ↦ detect_loop peaks events (rejected + 1)
          | true ↦
              detect_loop peaks (events ++ (event_of points noise threshold peak distance ∷ []))
                rejected
        ])

  unfoldable pub detect : List F → F → ℤ → F → F → F → Result (List (DetectedEvent F) × ℕ)
  detect points threshold merge_window sample_interval_ns refractive_index route_length = do
    noise ← estimate_noise_floor points
    peaks ← derivative_peaks points threshold
    merged ← merge_peaks peaks merge_window
    detect_loop points noise threshold sample_interval_ns refractive_index route_length merged [] 0
