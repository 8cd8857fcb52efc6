-- ===== src/Algorithm/Detect/Merge.antt =====
-- `MergePeaks` of algorithm/detect.go: what becomes of peaks that stand close.
use gb_522_l7o.Prelude.{
  ℕ, ◌+◌, ◌≤◌, ◌≡◌, subst, false, ◌⊎◌, List, [], ◌∷◌, if◌then◌else◌, leb, All, All-map_of, arith,
  Bool-cases, inl, inr,
}
use gb_522_l7o.Prelude.Int.{ℤ, pos_part}
use gb_522_l7o.Errors.{ok}
use gb_522_l7o.Float.{Float, IsFloat}
use gb_522_l7o.Algorithm.Detect.{Peak, merge_from, merge_all, merge_peaks}
use gb_522_l7o.Algorithm.Detect.Peaks.{IsSpaced, IsSpaced-weaken}

module _ {F : Type 0} ⦃f : Float F⦄ where
  -- Some peak of the list is at least as large as `p`.
  abbrev Dominates : Peak F → List (Peak F) → Type 0
  Dominates p [] = ⊥
  Dominates p (m ∷ ms) = (f.lt m.magnitude p.magnitude ≡ false) ⊎ Dominates p ms

  abbrev AllDominated : List (Peak F) → List (Peak F) → Type 0
  AllDominated given merged = All (λ p. Dominates p merged) given

  -- The magnitude is a number.
  abbrev pub IsMeasured : Peak F → Type 0
  IsMeasured p = f.is_nan p.magnitude ≡ false

  -- The larger of the current peak and the next, as the loop keeps it.
  abbrev larger : Peak F → Peak F → Peak F
  larger current peak = if f.lt current.magnitude peak.magnitude then peak else current

  merge_from-IsSpaced :
      (window low : ℕ) (current : Peak F) (peaks : List (Peak F))
      → low ≤ current.index
      → IsSpaced 1 (current.index + 1) peaks
      → IsSpaced (window + 1) low (merge_from window current peaks)
  unfolding merge_from
  merge_from-IsSpaced window low current [] h s = (h, tt)
  merge_from-IsSpaced window low current (peak ∷ peaks) h s =
      elim (Bool-cases (leb peak.index (current.index + window))) [
        | inl near ↦ rw near (elim (Bool-cases (f.lt current.magnitude peak.magnitude)) [
          | inl e ↦ rw e (merge_from-IsSpaced window low peak peaks (omega arith) s.1)
          | inr e ↦ rw e (
              merge_from-IsSpaced window low current peaks h
                (IsSpaced-weaken 1 (peak.index + 1) (current.index + 1) peaks (omega arith) s.1))
        ])
        | inr far ↦ rw far (
          h,
          merge_from-IsSpaced window (current.index + (window + 1)) peak peaks (ground arith) s.1,
        )
      ]

  merge_from-All {κ} :
      (P : Peak F → Type κ) (window : ℕ) (current : Peak F) (peaks : List (Peak F))
      → P current
      → All P peaks
      → All P (merge_from window current peaks)
  unfolding merge_from
  merge_from-All P window current [] h s = (h, tt)
  merge_from-All P window current (peak ∷ peaks) h s =
      elim (Bool-cases (leb peak.index (current.index + window))) [
        | inl near ↦ rw near (elim (Bool-cases (f.lt current.magnitude peak.magnitude)) [
          | inl e ↦ rw e (merge_from-All P window peak peaks s.0 s.1)
          | inr e ↦ rw e (merge_from-All P window current peaks h s.1)
        ])
        | inr far ↦ rw far (h, merge_from-All P window peak peaks s.0 s.1)
      ]

  module _ (laws : IsFloat F) where
    Dominates-trans :
        (p q : Peak F) (ms : List (Peak F))
        → IsMeasured p
        → IsMeasured q
        → f.lt q.magnitude p.magnitude ≡ false
        → Dominates q ms
        → Dominates p ms
    Dominates-trans p q [] hp hq e d = d
    Dominates-trans p q (m ∷ ms) hp hq e (inr d) = inr (Dominates-trans p q ms hp hq e d)
    Dominates-trans p q (m ∷ ms) hp hq e (inl d) = inl (
        ground (
          arith,
          laws.lt-le m.magnitude p.magnitude,
          laws.lt-le m.magnitude q.magnitude,
          laws.lt-le q.magnitude p.magnitude,
          laws.le_total q.magnitude p.magnitude,
          laws.le_total m.magnitude q.magnitude,
          laws.le_numbers m.magnitude p.magnitude,
          laws.le_trans p.magnitude q.magnitude m.magnitude,
        ))

    lt_irrefl : (x : F) → f.lt x x ≡ false
    lt_irrefl x = ground (arith, laws.lt-le x x)

    -- One round: the new current peak dominates the old one and the peak that was joined to it.
    merge_from-Dominates :
        (window : ℕ) (current : Peak F) (peaks : List (Peak F))
        → IsMeasured current
        → All IsMeasured peaks
        → AllDominated (current ∷ peaks) (merge_from window current peaks)
    unfolding merge_from
    merge_from-Dominates window current [] h s = (inl (lt_irrefl current.magnitude), tt)
    merge_from-Dominates window current (peak ∷ peaks) h s =
        let given : List (Peak F) = current ∷ peak ∷ peaks in
        elim (Bool-cases (leb peak.index (current.index + window))) [
          | inl near ↦ elim (Bool-cases (f.lt current.magnitude peak.magnitude)) [
            | inl e ↦
                let rest = merge_from-Dominates window peak peaks s.0 s.1 in
                let below : f.lt peak.magnitude current.magnitude ≡ false = ground (
                  arith,
                  laws.lt-le peak.magnitude current.magnitude,
                  laws.lt-le current.magnitude peak.magnitude,
                ) in
                subst (AllDominated given) {x = merge_from window peak peaks} (rw (near, e))
                  (Dominates-trans current peak _ h s.0 below rest.0, rest)
            | inr e ↦
                let rest = merge_from-Dominates window current peaks h s.1 in
                subst (AllDominated given) {x = merge_from window current peaks} (rw (near, e))
                  (rest.0, (Dominates-trans peak current _ s.0 h e rest.0, rest.1))
          ]
          | inr far ↦
              subst (AllDominated given) {x = current ∷ merge_from window peak peaks} (rw far) (
                inl (lt_irrefl current.magnitude),
                All-map_of (λ p. Dominates p (merge_from window peak peaks))
                    (λ p. Dominates p (current ∷ merge_from window peak peaks)) (peak ∷ peaks)
                    (λ p d. inr d) (merge_from-Dominates window peak peaks s.0 s.1),
              )
        ]

  pub merge_peaks-eq :
      (window : ℤ) (peaks : List (Peak F)) {merged : List (Peak F)}
      → merge_peaks peaks window ≡ ok merged
      → merge_all (pos_part window) peaks ≡ merged
  unfolding merge_peaks
  merge_peaks-eq window peaks h = ground arith

  -- If `MergePeaks` succeeds on peaks in the order of their indices, the results lie more than the
  -- window apart, and whatever holds of all the given peaks holds of the results.
  pub merge_peaks-IsSpaced {κ} :
      (P : Peak F → Type κ) (window : ℤ) (low : ℕ) (peaks : List (Peak F)) {merged : List (Peak F)}
      → merge_peaks peaks window ≡ ok merged
      → IsSpaced 1 low peaks
      → All P peaks
      → IsSpaced (pos_part window + 1) low merged × All P merged
  merge_peaks-IsSpaced P window low [] h s all = rw (← merge_peaks-eq window [] h) (tt, tt)
  merge_peaks-IsSpaced P window low (p ∷ ps) h s all = rw (← merge_peaks-eq window (p ∷ ps) h) (
    merge_from-IsSpaced (pos_part window) low p ps s.0 s.1,
    merge_from-All P (pos_part window) p ps all.0 all.1,
  )

  -- If `MergePeaks` succeeds on peaks whose magnitudes are numbers, then for every given peak
  -- there is a result that is at least as large.
  merge_peaks-Dominates :
      (laws : IsFloat F) (window : ℤ) (peaks : List (Peak F)) {merged : List (Peak F)}
      → merge_peaks peaks window ≡ ok merged
      → All IsMeasured peaks
      → All (λ p. Dominates p merged) peaks
  merge_peaks-Dominates laws window [] h s = tt
  merge_peaks-Dominates laws window (p ∷ ps) h s =
      subst (AllDominated (p ∷ ps)) (merge_peaks-eq window (p ∷ ps) h)
        (merge_from-Dominates laws (pos_part window) p ps s.0 s.1)
