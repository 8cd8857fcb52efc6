-- ===== src/Algorithm/Denoise/Median.antt =====
-- `MovingMedian` of algorithm/denoise.go and `EstimateNoiseFloor` of algorithm/detect.go against a
-- description of the median: the middle of a sorted rearrangement.
use mathlib.Core.List.{Perm}
use gb_522_l7o.Prelude.{
  ℕ, zero, suc, ◌+◌, ◌-◌, ◌*◌, ◌/◌, ◌%◌, ◌≤◌, ◌<◌, ◌≡◌, refl, ap, ◌∙◌, subst, ◌⊎◌, inl, inr, some,
  List, [], ◌∷◌, if◌then◌else◌, ltb, ltb→lt, ◌==◌, length, get_elem?, get_or, slice, take, drop,
  length-drop, length-slice, get_elem?-get_or, All, arith, Bool-cases,
}
use gb_522_l7o.Prelude.Int.{ℤ, pos_part}
use gb_522_l7o.Prelude.Sort.{
  sort_slice, IsSorted, sort_slice-perm, sort_slice-IsSorted, length-sort_slice,
}
use gb_522_l7o.Errors.{Error, text, ok, err}
use gb_522_l7o.Float.{Float, IsFloat, float_less, float_less-IsOrder}
use gb_522_l7o.Algorithm.Detect.{estimate_noise_floor}
use gb_522_l7o.Algorithm.Denoise.{middle_of, bucket_at, medians_from, moving_median}

module _ {A : Type 0} where
  All-trivial : (l : List A) → All (λ x. Unit {0}) l
  All-trivial [] = tt
  All-trivial (x ∷ l) = (tt, All-trivial l)

  get_elem?-drop : (l : List A) (n k : ℕ) → get_elem? (drop n l) k ≡ get_elem? l (n + k)
  get_elem?-drop l zero k = ap (get_elem? l) {x = k} (omega arith)
  get_elem?-drop [] (suc n) k = refl
  get_elem?-drop (x ∷ l) (suc n) k =
      get_elem?-drop l n k ∙ ap (get_elem? (x ∷ l)) {x = suc (n + k)} (omega arith)

  get_elem?-take : (l : List A) (n k : ℕ) → k < n → get_elem? (take n l) k ≡ get_elem? l k
  get_elem?-take l zero k h = elim h [ ]
  get_elem?-take [] (suc n) k h = refl
  get_elem?-take (x ∷ l) (suc n) zero h = refl
  get_elem?-take (x ∷ l) (suc n) (suc k) h = get_elem?-take l n k (omega arith)

  get_elem?-slice :
      (l : List A) (start end k : ℕ)
      → k < end - start
      → get_elem? (slice l start end) k ≡ get_elem? l (start + k)
  get_elem?-slice l start end k h =
      get_elem?-take (drop start l) (end - start) k h ∙ get_elem?-drop l start k

-- An even window is widened by one, which does not change its half.
half_of_odd : (w : ℕ) → (if w % 2 == 0 then w + 1 else w) / 2 ≡ w / 2
half_of_odd w = ground arith

-- `b` holds the samples whose index is at most `half` away from `i`, in their order.
pub record IsWindow {F : Type 0} (points : List F) (half i : ℕ) (b : List F) : Type 0 where
  pub sized : (k : ℕ) → k < length b → (i - half + k < length points) × (i - half + k ≤ i + half)
  pub copied : (k : ℕ) → k < length b → get_elem? b k ≡ get_elem? points (i - half + k)
  pub complete : (j : ℕ) → j < length points → i ≤ j + half → j ≤ i + half → j < i - half + length b

module _ {F : Type 0} ⦃f : Float F⦄ where
  -- `m` is the middle of the sorted `s`, or the mean of the two middles.
  abbrev pub IsMiddle : List F → F → Type 0
  IsMiddle s m =
      ((length s % 2 ≡ 1) × (get_elem? s (length s / 2) ≡ some m))
      ⊎ ((x : F) × (y : F) × (length s % 2 ≡ 0)
          × (get_elem? s (length s / 2 - 1) ≡ some x)
          × (get_elem? s (length s / 2) ≡ some y)
          × (m ≡ f.div (f.add x y) (f.lit 2 0)))

  -- `m` is the median of `b`.
  pub record IsMedian (b : List F) (m : F) : Type 0 where
    pub sorted : List F
    pub rearranged : Perm sorted b
    pub ascending : IsSorted float_less sorted
    pub middle : IsMiddle sorted m

  middle_of-IsMiddle : (s : List F) → 0 < length s → IsMiddle s (middle_of s)
  unfolding middle_of
  middle_of-IsMiddle s h = elim (Bool-cases (length s % 2 == 0)) [
    | inl e ↦ inr (
      get_or s (length s / 2 - 1) (f.lit 0 0),
      get_or s (length s / 2) (f.lit 0 0),
      ground arith,
      get_elem?-get_or s _ _ (omega arith),
      get_elem?-get_or s _ _ (omega arith),
      rw e,
    )
    | inr e ↦ inl (ground arith, rw e (get_elem?-get_or s _ _ (omega arith)))
  ]

  -- Sample `i` of the filtered trace is the median of the samples around it.
  abbrev pub IsFiltered : List F → ℕ → List F → ℕ → Type 0
  IsFiltered points half out i =
      (b : List F) × (m : F) × IsWindow points half i b × IsMedian b m × (get_elem? out i ≡ some m)

  module _ (laws : IsFloat F) where
    pub middle_of-IsMedian :
        (b : List F) → 0 < length b → IsMedian b (middle_of (sort_slice float_less b))
    middle_of-IsMedian b h = record {
      sorted = sort_slice float_less b;
      rearranged = sort_slice-perm float_less b;
      ascending = sort_slice-IsSorted float_less (float_less-IsOrder laws) b (All-trivial b);
      middle =
          middle_of-IsMiddle (sort_slice float_less b)
            (omega (arith, length-sort_slice float_less b));
    }

    bucket_at-IsWindow :
        (points : List F) (half i : ℕ)
        → i < length points
        → IsWindow points half i (bucket_at points half i) × (0 < length (bucket_at points half i))
    unfolding bucket_at
    bucket_at-IsWindow points half i h =
        let end : ℕ = if ltb (length points) (i + half + 1) then length points else i + half + 1 in
        let fits : end ≤ length points = ground arith in
        let near : end ≤ i + half + 1 = ground arith in
        let past : i < end = ground arith in
        let far : (j : ℕ) → j < length points → j ≤ i + half → j < end = λ j p q. ground arith in
        let size = length-slice points (i - half) end fits in
        (
          record {
            sized = λ k p. omega (arith, size);
            copied = λ k p. get_elem?-slice points (i - half) end k (omega (arith, size));
            complete = λ j p q r. omega (arith, size, far j p r);
          },
          omega (arith, size),
        )

    medians_from-IsFiltered :
        (points : List F) (half i left : ℕ)
        → i + left ≤ length points
        → (k : ℕ) → k < left
        → (b : List F) × (m : F) × IsWindow points half (i + k) b
          × IsMedian b m
          × (get_elem? (medians_from points half i left) k ≡ some m)
    unfolding medians_from
    medians_from-IsFiltered points half i zero h k p = elim p [ ]
    medians_from-IsFiltered points half i (suc left) h zero p =
        let (window, nonempty) = bucket_at-IsWindow points half i (omega arith) in
        (
          bucket_at points half i,
          middle_of (sort_slice float_less (bucket_at points half i)),
          subst (λ j. IsWindow points half j (bucket_at points half i)) (omega arith) window,
          middle_of-IsMedian (bucket_at points half i) nonempty,
          refl,
        )
    medians_from-IsFiltered points half i (suc left) h (suc k) p =
        let (b, m, window, median, e) =
          medians_from-IsFiltered points half (i + 1) left (omega arith) k (omega arith) in
        (b, m, subst (λ j. IsWindow points half j b) (omega arith) window, median, e)

  pub length-medians_from :
      (points : List F) (half i left : ℕ) → length (medians_from points half i left) ≡ left
  unfolding medians_from
  length-medians_from points half i zero = refl
  length-medians_from points half i (suc left) =
      ap suc (length-medians_from points half (i + 1) left)

  pub moving_median-eq :
      (points : List F) (window : ℤ) {out : List F}
      → moving_median points window ≡ ok out
      → out ≡ medians_from points (pos_part window / 2) 0 (length points)
  unfolding moving_median
  moving_median-eq points window h = ground (arith, half_of_odd (pos_part window))

  module _ (laws : IsFloat F) where
    -- If `MovingMedian` succeeds, the result has a sample for each sample of the trace, and it is
    -- the median of those at most half a window (`window / 2`, rounded down) away.
    pub moving_median-IsFiltered :
        (points : List F) (window : ℤ) {out : List F}
        → moving_median points window ≡ ok out
        → (length out ≡ length points)
          × ((i : ℕ) → i < length points → IsFiltered points (pos_part window / 2) out i)
    moving_median-IsFiltered points window h =
        let half = pos_part window / 2 in
        let n = length points in
        rw (moving_median-eq points window h) (
          length-medians_from points half 0 n,
          λ i p.
              subst
                (λ j.
                  (b : List F) × (m : F) × IsWindow points half j b
                  × IsMedian b m
                  × (get_elem? (medians_from points half 0 n) i ≡ some m))
                {x = 0 + i} (omega arith)
                (medians_from-IsFiltered laws points half 0 n (omega arith) i p),
        )

    -- `EstimateNoiseFloor` fails exactly on fewer than 16 samples. Otherwise it gives the median
    -- of the last fifth of the trace, which is never empty.
    pub estimate_noise_floor-IsMedian :
        (points : List F)
        → ((length points < 16) × (e : Error) × (estimate_noise_floor points ≡ err e))
          ⊎ ((noise : F) × (estimate_noise_floor points ≡ ok noise)
              × (16 ≤ length points)
              × (0 < length (drop (length points * 4 / 5) points))
              × IsMedian (drop (length points * 4 / 5) points) noise)
    unfolding estimate_noise_floor
    estimate_noise_floor-IsMedian points = elim (Bool-cases (ltb (length points) 16)) [
      | inl short ↦
          inl (
            ltb→lt _ _ short,
            text "at least 16 samples are required for noise estimation",
            rw short,
          )
      | inr long ↦
          let tail = drop (length points * 4 / 5) points in
          let enough : 16 ≤ length points = ground arith in
          let some_left : 0 < length tail =
            omega (arith, length-drop (length points * 4 / 5) points) in
          inr (
            middle_of (sort_slice float_less tail),
            rw long,
            enough,
            some_left,
            middle_of-IsMedian laws tail some_left,
          )
    ]
