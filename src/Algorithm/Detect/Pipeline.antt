-- ===== src/Algorithm/Detect/Pipeline.antt =====
-- `Detect` of algorithm/detect.go: its events and its rejections, against the merged peaks.
use gb_522_l7o.Prelude.{
  ℕ, ◌+◌, ◌≤◌, ◌<◌, ◌≡◌, refl, sym, ap, subst, Bool, true, false, not, ◌⊎◌, List, [], ◌∷◌, ◌++◌,
  map, length, count_if, filter_if, All, arith, Bool-cases, inl, inr,
}
use mathlib.Core.List.{append_assoc, append-nil}
use gb_522_l7o.Prelude.Int.{ℤ, pos, pos_part}
use gb_522_l7o.Errors.{Error, Result, ok, err, ◌>>=◌}
use gb_522_l7o.Float.{Float}
use gb_522_l7o.Algorithm.Distance.{sample_distance, valid_route_distance}
use gb_522_l7o.Algorithm.Detect.{
  Peak, DetectedEvent, estimate_noise_floor, derivative_peaks, merge_peaks, event_of, detect_loop,
  detect,
}
use gb_522_l7o.Algorithm.Detect.Peaks.{IsSpaced, IsSpaced-weaken, derivative_peaks-exact}
use gb_522_l7o.Algorithm.Detect.Merge.{merge_peaks-IsSpaced}

pub Result-cases {ℓ} :
    {A : Type ℓ} (r : Result A) → ((a : A) × (r ≡ ok a)) ⊎ ((e : Error) × (r ≡ err e))
Result-cases (ok a) = inl (a, refl)
Result-cases (err e) = inr (e, refl)

pub >>=-eq-ok {ℓ κ} :
    {A : Type ℓ} {B : Type κ} (m : Result A) (g : A → Result B) {b : B}
    → (m >>= g) ≡ ok b
    → (a : A) × (m ≡ ok a) × (g a ≡ ok b)
>>=-eq-ok (ok a) g h = (a, refl, h)
>>=-eq-ok (err e) g h = cc

module _ {A : Type 0} (test : A → Bool) where
  count_if-split :
      (l : List A) → length (filter_if test l) + count_if (λ x. not (test x)) l ≡ length l
  count_if-split [] = omega arith
  count_if-split (x ∷ l) = ground (arith, count_if-split l)

  filter_if-All {κ} :
      (P : A → Type κ) (l : List A) → All P l → All (λ x. P x × (test x ≡ true)) (filter_if test l)
  filter_if-All P [] h = tt
  filter_if-All P (x ∷ l) h = elim (Bool-cases (test x)) [
    | inl e ↦ rw e ((h.0, e), filter_if-All P l h.1)
    | inr e ↦ rw e (filter_if-All P l h.1)
  ]

module _ {A B : Type 0} where
  length-map : (l : List A) (g : A → B) → length (map g l) ≡ length l
  length-map [] g = refl
  length-map (x ∷ l) g = omega (arith, length-map l g)

  All-map {κ ν} :
      (P : A → Type κ) (Q : B → Type ν) (g : A → B) (l : List A)
      → ((x : A) → P x → Q (g x))
      → All P l
      → All Q (map g l)
  All-map P Q g [] h a = tt
  All-map P Q g (x ∷ l) h a = (h x a.0, All-map P Q g l h a.1)

module _ {F : Type 0} where
  -- The indices of the events grow, from `low` on, by at least `gap`.
  abbrev pub EventsSpaced : ℕ → ℕ → List (DetectedEvent F) → Type 0
  EventsSpaced gap low [] = Unit
  EventsSpaced gap low (e ∷ es) = (low ≤ e.index) × EventsSpaced gap (e.index + gap) es

  filter_if-IsSpaced :
      (test : Peak F → Bool) (gap low : ℕ) (ps : List (Peak F))
      → IsSpaced gap low ps
      → IsSpaced gap low (filter_if test ps)
  filter_if-IsSpaced test gap low [] s = tt
  filter_if-IsSpaced test gap low (p ∷ ps) s =
      let rest = filter_if-IsSpaced test gap (p.index + gap) ps s.1 in
      elim (Bool-cases (test p)) [
        | inl e ↦ rw e (s.0, rest)
        | inr e ↦ rw e (IsSpaced-weaken gap (p.index + gap) low _ (omega arith) rest)
      ]

  map-EventsSpaced :
      (g : Peak F → DetectedEvent F) (gap low : ℕ) (ps : List (Peak F))
      → ((p : Peak F) → (g p).index ≡ p.index)
      → IsSpaced gap low ps
      → EventsSpaced gap low (map g ps)
  map-EventsSpaced g gap low [] h s = tt
  map-EventsSpaced g gap low (p ∷ ps) h s =
      (rw (h p) s.0, rw (h p) (map-EventsSpaced g gap (p.index + gap) ps h s.1))

module _ {F : Type 0} ⦃f : Float F⦄ where
  -- The distance of a peak lies on the route.
  abbrev pub is_on_route : F → F → F → Peak F → Bool
  is_on_route sample_interval_ns refractive_index route_length p =
      elim (sample_distance (pos p.index) sample_interval_ns refractive_index) [
        | ok d ↦ valid_route_distance d route_length
        | err _ ↦ false
      ]

  -- What an event tells of the trace: its index is one of the trace's, its distance is that of
  -- the index, and the distance lies on the route.
  abbrev pub IsEvent : List F → F → F → F → DetectedEvent F → Type 0
  IsEvent points sample_interval_ns refractive_index route_length e =
      (e.index < length points)
      × (sample_distance (pos e.index) sample_interval_ns refractive_index ≡ ok e.distance_m)
      × (valid_route_distance e.distance_m route_length ≡ true)

  module _ (points : List F) (noise threshold : F) (sample_interval_ns refractive_index : F)
      (route_length : F) where
    abbrev on_route : Peak F → Bool
    on_route = is_on_route sample_interval_ns refractive_index route_length

    -- The event of a peak, at the distance of its index.
    abbrev pub event_at : Peak F → DetectedEvent F
    event_at p = elim (sample_distance (pos p.index) sample_interval_ns refractive_index) [
      | ok d ↦ event_of points noise threshold p d
      | err _ ↦ event_of points noise threshold p route_length
    ]

    abbrev loop : List (Peak F) → List (DetectedEvent F) → ℕ → Result (List (DetectedEvent F) × ℕ)
    loop = detect_loop points noise threshold sample_interval_ns refractive_index route_length

    loop_accepts :
        (p : Peak F) (peaks : List (Peak F)) (events : List (DetectedEvent F)) (rejected : ℕ)
        (d : F)
        → sample_distance (pos p.index) sample_interval_ns refractive_index ≡ ok d
        → valid_route_distance d route_length ≡ true
        → loop (p ∷ peaks) events rejected ≡ loop peaks (events ++ (event_at p ∷ [])) rejected
    unfolding detect_loop
    loop_accepts p peaks events rejected d e v = ground arith

    loop_rejects :
        (p : Peak F) (peaks : List (Peak F)) (events : List (DetectedEvent F)) (rejected : ℕ)
        (d : F)
        → sample_distance (pos p.index) sample_interval_ns refractive_index ≡ ok d
        → valid_route_distance d route_length ≡ false
        → loop (p ∷ peaks) events rejected ≡ loop peaks events (rejected + 1)
    unfolding detect_loop
    loop_rejects p peaks events rejected d e v = ground arith

    loop_fails :
        (p : Peak F) (peaks : List (Peak F)) (events : List (DetectedEvent F)) (rejected : ℕ)
        (e : Error)
        → sample_distance (pos p.index) sample_interval_ns refractive_index ≡ err e
        → loop (p ∷ peaks) events rejected ≡ err e
    unfolding detect_loop
    loop_fails p peaks events rejected e h = ground arith

    loop-eq :
        (peaks : List (Peak F)) (events : List (DetectedEvent F)) (rejected : ℕ)
        {out : List (DetectedEvent F)} {count : ℕ}
        → loop peaks events rejected ≡ ok (out, count)
        → (out ≡ events ++ map event_at (filter_if on_route peaks))
          × (count ≡ rejected + count_if (λ p. not (on_route p)) peaks)
    loop-eq [] events rejected h = unfold detect_loop in ground (arith, append-nil events)
    loop-eq (p ∷ peaks) events rejected {out} {count} h =
        elim (Result-cases (sample_distance (pos p.index) sample_interval_ns refractive_index)) [
          | inl (d, e) ↦ elim (Bool-cases (valid_route_distance d route_length)) [
            | inl v ↦
                let ih =
                  loop-eq peaks (events ++ (event_at p ∷ [])) rejected {out = out} {count = count}
                    (rw (loop_accepts p peaks events rejected d e v) at h) in
                ground (
                  arith,
                  ih,
                  append_assoc events (event_at p ∷ []) (map event_at (filter_if on_route peaks)),
                )
            | inr v ↦
                let ih =
                  loop-eq peaks events (rejected + 1) {out = out} {count = count}
                    (rw (loop_rejects p peaks events rejected d e v) at h) in
                ground (arith, ih)
          ]
          | inr (e, q) ↦ let h' = rw (loop_fails p peaks events rejected e q) at h in cc
        ]

    event_at-index : (p : Peak F) → (event_at p).index ≡ p.index
    event_at-index p = ground arith

    event_at-IsEvent :
        (p : Peak F)
        → p.index < length points
        → on_route p ≡ true
        → IsEvent points sample_interval_ns refractive_index route_length (event_at p)
    event_at-IsEvent p h v =
        elim (Result-cases (sample_distance (pos p.index) sample_interval_ns refractive_index)) [
          | inl (d, e) ↦ ground (arith, e)
          | inr (e, q) ↦ ground arith
        ]

module _ {F : Type 0} ⦃f : Float F⦄ (points : List F) (threshold : F) (merge_window : ℤ)
    (sample_interval_ns refractive_index route_length : F) {events : List (DetectedEvent F)}
    {rejected : ℕ}
    (done : detect points threshold merge_window sample_interval_ns refractive_index route_length
      ≡ ok (events, rejected)) where
  -- If `Detect` succeeds, then so do its steps; its events are those of the merged peaks whose
  -- distance lies on the route, in their order, and the events and the rejections together are as
  -- many as the merged peaks.
  pub detect-accounts :
      (noise : F) × (peaks : List (Peak F)) × (merged : List (Peak F)) × (estimate_noise_floor
          points
        ≡ ok noise)
      × (derivative_peaks points threshold ≡ ok peaks)
      × (merge_peaks peaks merge_window ≡ ok merged)
      × (events
          ≡ map
              (event_at points noise threshold sample_interval_ns refractive_index route_length)
              (filter_if (is_on_route sample_interval_ns refractive_index route_length) merged))
      × (length events + rejected ≡ length merged)
  unfolding detect
  detect-accounts =
      let (noise, noise_ok, h) = >>=-eq-ok (estimate_noise_floor points) _ done in
      let (peaks, peaks_ok, h') = >>=-eq-ok (derivative_peaks points threshold) _ h in
      let (merged, merged_ok, h'') = >>=-eq-ok (merge_peaks peaks merge_window) _ h' in
      let (same, count) =
        loop-eq points noise threshold sample_interval_ns refractive_index route_length merged [] 0
          h'' in
      let on_route = is_on_route sample_interval_ns refractive_index route_length in
      let at_event =
        event_at points noise threshold sample_interval_ns refractive_index route_length in
      (
        noise,
        peaks,
        merged,
        noise_ok,
        peaks_ok,
        merged_ok,
        same,
        omega (
          arith,
          count,
          count_if-split on_route merged,
          length-map (filter_if on_route merged) at_event,
          ap length same,
        ),
      )

  -- If `Detect` succeeds, each event has an index of the trace, its distance is that of the index
  -- and lies on the route; and the events follow one another by more than the merge window,
  -- from index 1 on.
  pub detect-IsEvent :
      All (IsEvent points sample_interval_ns refractive_index route_length) events
      × EventsSpaced (pos_part merge_window + 1) 1 events
  detect-IsEvent =
      let (noise, peaks, merged, _, peaks_ok, merged_ok, same, _) = detect-accounts in
      let (spaced, bounded, _) = derivative_peaks-exact points threshold peaks_ok in
      let (apart, kept) =
        merge_peaks-IsSpaced (λ p. (p.index < length points) × (f.le threshold p.magnitude ≡ true))
          merge_window 1 peaks merged_ok spaced bounded in
      let on_route = is_on_route sample_interval_ns refractive_index route_length in
      let at_event =
        event_at points noise threshold sample_interval_ns refractive_index route_length in
      let accepted = filter_if on_route merged in
      subst
        (λ es.
          All (IsEvent points sample_interval_ns refractive_index route_length) es
          × EventsSpaced (pos_part merge_window + 1) 1 es)
        {x = map at_event accepted} (sym same)
        (
          All-map
              (λ p.
                ((p.index < length points) × (f.le threshold p.magnitude ≡ true))
                × (on_route p ≡ true))
              (IsEvent points sample_interval_ns refractive_index route_length) at_event accepted
              (λ p h.
                event_at-IsEvent points noise threshold sample_interval_ns refractive_index
                  route_length p h.0.0 h.1)
              (filter_if-All on_route
                (λ p. (p.index < length points) × (f.le threshold p.magnitude ≡ true)) merged kept),
          map-EventsSpaced at_event (pos_part merge_window + 1) 1 accepted
              (event_at-index points noise threshold sample_interval_ns refractive_index
                route_length)
              (filter_if-IsSpaced on_route (pos_part merge_window + 1) 1 merged apart),
        )
