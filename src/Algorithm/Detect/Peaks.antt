-- ===== src/Algorithm/Detect/Peaks.antt =====
-- `DerivativePeaks` of algorithm/detect.go: which steps of the trace are peaks.
use gb_522_l7o.Prelude.{
  ℕ, zero, suc, ◌+◌, ◌≤◌, ◌<◌, ◌≡◌, refl, true, Option, none, some, List, [], ◌∷◌, if◌then◌else◌,
  ◌==◌, length, get_elem?, All, arith, Bool-cases, inl, inr,
}
use gb_522_l7o.Errors.{ok}
use gb_522_l7o.Float.{Float}
use gb_522_l7o.Algorithm.Detect.{Peak, peak_of, is_steep, peaks_from, peaks_of, derivative_peaks}

module _ {F : Type 0} where
  -- The indices grow, from `low` on, by at least `gap`.
  abbrev pub IsSpaced : ℕ → ℕ → List (Peak F) → Type 0
  IsSpaced gap low [] = Unit
  IsSpaced gap low (p ∷ ps) = (low ≤ p.index) × IsSpaced gap (p.index + gap) ps

  pub IsSpaced-weaken :
      (gap low low' : ℕ) (ps : List (Peak F))
      → low' ≤ low
      → IsSpaced gap low ps
      → IsSpaced gap low' ps
  IsSpaced-weaken gap low low' [] h s = tt
  IsSpaced-weaken gap low low' (p ∷ ps) h s = (omega arith, s.1)

  -- The peak at an index, if there is one.
  abbrev pub peak_at : ℕ → List (Peak F) → Option (Peak F)
  peak_at i [] = none
  peak_at i (p ∷ ps) = if p.index == i then some p else peak_at i ps

  peak_at-below :
      (i low : ℕ) (ps : List (Peak F)) → i < low → IsSpaced 1 low ps → peak_at i ps ≡ none
  peak_at-below i low [] h s = refl
  peak_at-below i low (p ∷ ps) h s = ground (arith, peak_at-below i (p.index + 1) ps)

module _ {F : Type 0} ⦃f : Float F⦄ where
  -- What stands at an index of the result, by the step into that sample.
  abbrev pub step_peak : F → ℕ → F → F → Option (Peak F)
  step_peak threshold i before after =
      if is_steep threshold before after then some (peak_of i before after) else none

  peaks_from-IsSpaced :
      (threshold : F) (i : ℕ) (before : F) (rest : List F)
      → IsSpaced 1 i (peaks_from threshold i before rest)
  unfolding peaks_from
  peaks_from-IsSpaced threshold i before [] = tt
  peaks_from-IsSpaced threshold i before (after ∷ rest) =
      let later = peaks_from-IsSpaced threshold (i + 1) after rest in
      elim (Bool-cases (is_steep threshold before after)) [
        | inl e ↦ rw e (omega arith, later)
        | inr e ↦ rw e (IsSpaced-weaken 1 (i + 1) i _ (omega arith) later)
      ]

  peaks_from-All {κ} :
      (P : Peak F → Type κ) (threshold : F) (i : ℕ) (before : F) (rest : List F)
      → ((j : ℕ) (a b : F)
          → j < i + length rest
          → is_steep threshold a b ≡ true
          → P (peak_of j a b))
      → All P (peaks_from threshold i before rest)
  unfolding peaks_from
  peaks_from-All P threshold i before [] h = tt
  peaks_from-All P threshold i before (after ∷ rest) h =
      let later =
        peaks_from-All P threshold (i + 1) after rest (λ j a b p q. h j a b (omega arith) q) in
      elim (Bool-cases (is_steep threshold before after)) [
        | inl e ↦ rw e (h i before after (omega arith) e, later)
        | inr e ↦ rw e later
      ]

  peak_at-peaks_from :
      (threshold : F) (i j k : ℕ) (before : F) (rest : List F) {a b : F}
      → j ≡ i + k
      → get_elem? (before ∷ rest) k ≡ some a
      → get_elem? rest k ≡ some b
      → peak_at j (peaks_from threshold i before rest) ≡ step_peak threshold j a b
  unfolding peaks_from
  peak_at-peaks_from threshold i j k before [] e p q = cc
  peak_at-peaks_from threshold i j zero before (after ∷ rest) e p q = ground (
    arith,
    peak_at-below j (i + 1) (peaks_from threshold (i + 1) after rest),
    peaks_from-IsSpaced threshold (i + 1) after rest,
  )
  peak_at-peaks_from threshold i j (suc k) before (after ∷ rest) {a} {b} e p q =
      ground (
        arith,
        peak_at-peaks_from threshold (i + 1) j k after rest {a = a} {b = b} (omega arith) p q,
      )

  pub derivative_peaks-eq :
      (points : List F) (threshold : F) {peaks : List (Peak F)}
      → derivative_peaks points threshold ≡ ok peaks
      → peaks_of threshold points ≡ peaks
  unfolding derivative_peaks
  derivative_peaks-eq points threshold h = ground arith

  peaks_of-exact :
      (points : List F) (threshold : F)
      → IsSpaced 1 1 (peaks_of threshold points)
        × All
            (λ p. (p.index < length points) × (f.le threshold p.magnitude ≡ true))
            (peaks_of threshold points)
        × ((i : ℕ) (a b : F)
            → get_elem? points i ≡ some a
            → get_elem? points (suc i) ≡ some b
            → peak_at (suc i) (peaks_of threshold points) ≡ step_peak threshold (suc i) a b)
  peaks_of-exact [] threshold = (tt, tt, λ i a b p q. cc)
  peaks_of-exact (first ∷ rest) threshold = (
    peaks_from-IsSpaced threshold 1 first rest,
    peaks_from-All (λ p. (p.index < length (first ∷ rest)) × (f.le threshold p.magnitude ≡ true))
        threshold 1 first rest (λ j a b p q. (omega arith, q)),
    λ i a b p q. peak_at-peaks_from threshold 1 (suc i) i first rest (omega arith) p q,
  )

  -- If `DerivativePeaks` succeeds, the peaks stand in the order of their indices, all of them
  -- between 1 and the last index, their magnitudes are at least the threshold, and at index `i + 1`
  -- there is a peak exactly if the step from sample `i` is at least the threshold: the one with
  -- that step's size and direction.
  pub derivative_peaks-exact :
      (points : List F) (threshold : F) {peaks : List (Peak F)}
      → derivative_peaks points threshold ≡ ok peaks
      → IsSpaced 1 1 peaks
        × All (λ p. (p.index < length points) × (f.le threshold p.magnitude ≡ true)) peaks
        × ((i : ℕ) (a b : F)
            → get_elem? points i ≡ some a
            → get_elem? points (suc i) ≡ some b
            → peak_at (suc i) peaks ≡ step_peak threshold (suc i) a b)
  derivative_peaks-exact points threshold h =
      rw (← derivative_peaks-eq points threshold h) (peaks_of-exact points threshold)
