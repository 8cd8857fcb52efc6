-- ===== src/Algorithm/Compare/Order.antt =====
-- The order of the differences that `CompareBaseline` of algorithm/compare.go returns.
use gb_522_l7o.Prelude.{
  ℕ, zero, suc, ◌+◌, ◌<◌, ◌≡◌, subst, Bool, false, none, List, [], ◌∷◌, if◌then◌else◌, ltb, length,
  get_or, All, All-append, arith, Bool-cases, inl, inr,
}
use gb_522_l7o.Prelude.Sort.{IsSorted, IsOrder, sort_slice-IsSorted}
use gb_522_l7o.Errors.{ok}
use gb_522_l7o.Float.{Float, IsFloat}
use gb_522_l7o.Algorithm.Compare.{
  ComparableEvent, kind_rank, Difference, Matching, is_used, nearest_from, disappeared_of,
  matched_of, nowhere, visit, match_all, unused_from, difference_less, compare_baseline,
}
use gb_522_l7o.Algorithm.Compare.Nearest.{nearest_from-IsNearest}
use gb_522_l7o.Algorithm.Compare.Accounts.{start, unsorted, compare_baseline-eq, get_elem?-lt}

module _ {F : Type 0} ⦃f : Float F⦄ where
  -- The distance is a number.
  abbrev pub IsPlaced : ComparableEvent F → Type 0
  IsPlaced e = f.is_nan e.distance_m ≡ false

  abbrev IsPlacedDifference : Difference F → Type 0
  IsPlacedDifference d = f.is_nan d.distance_m ≡ false

  get_or-IsPlaced :
      (l : List (ComparableEvent F)) (i : ℕ)
      → i < length l
      → All IsPlaced l
      → IsPlaced (get_or l i nowhere)
  get_or-IsPlaced [] i h p = absurd (omega arith)
  get_or-IsPlaced (c ∷ cs) zero h p = p.0
  get_or-IsPlaced (c ∷ cs) (suc i) h p = get_or-IsPlaced cs i (omega arith) p.1

  matched_of-IsPlaced :
      (loss : F) (base candidate : ComparableEvent F)
      → IsPlaced candidate
      → All IsPlacedDifference (matched_of loss base candidate)
  matched_of-IsPlaced loss base candidate p = ground arith

  unused_from-IsPlaced :
      (used : List ℕ) (i : ℕ) (current : List (ComparableEvent F))
      → All IsPlaced current
      → All IsPlacedDifference (unused_from used i current)
  unfolding unused_from
  unused_from-IsPlaced used i [] p = tt
  unused_from-IsPlaced used i (c ∷ cs) p = elim (Bool-cases (is_used i used)) [
    | inl e ↦ rw e (unused_from-IsPlaced used (i + 1) cs p.1)
    | inr e ↦ rw e (p.0, unused_from-IsPlaced used (i + 1) cs p.1)
  ]

  match_all-IsPlaced :
      (laws : IsFloat F) (current : List (ComparableEvent F)) (tolerance loss : F)
      (baseline : List (ComparableEvent F)) (m : Matching F)
      → All IsPlaced current
      → All IsPlaced baseline
      → All IsPlacedDifference m.differences
      → All IsPlacedDifference (match_all current tolerance loss baseline m).differences
  unfolding match_all
  match_all-IsPlaced laws current tolerance loss [] m pc pb pd = pd
  match_all-IsPlaced laws current tolerance loss (base ∷ rest) m pc pb pd =
      match_all-IsPlaced laws current tolerance loss rest
        (visit current tolerance loss base m.used m.differences
          (nearest_from base tolerance m.used 0 current none f.max_float))
        pc pb.1
        (elim (nearest_from-IsNearest base tolerance m.used laws current) [
          | inl (e, _) ↦
              rw e (
                All-append IsPlacedDifference m.differences (disappeared_of base ∷ []) pd
                  (pb.0, tt))
          | inr (j, e, n) ↦ rw e (
              All-append IsPlacedDifference m.differences
                (matched_of loss base (get_or current j nowhere)) pd
                (matched_of-IsPlaced loss base (get_or current j nowhere) (
                  get_or-IsPlaced current j
                    (omega (arith, n.position, get_elem?-lt current n.offset n.present)) pc)))
        ])

  -- The comparison, on distances and ranks.
  abbrev rank_less : F → F → ℕ → ℕ → Bool
  rank_less x y j k = if f.eq x y then ltb j k else f.lt x y

  distance_trans :
      (laws : IsFloat F) (x y z : F) (i j k : ℕ)
      → f.is_nan x ≡ false
      → f.is_nan y ≡ false
      → f.is_nan z ≡ false
      → rank_less y x j i ≡ false
      → rank_less z y k j ≡ false
      → rank_less z x k i ≡ false
  distance_trans laws x y z i j k p q r h l = ground (
    arith,
    laws.eq-le y x,
    laws.eq-le z y,
    laws.eq-le z x,
    laws.lt-le y x,
    laws.lt-le z y,
    laws.lt-le z x,
    laws.le_total x y,
    laws.le_total y z,
    laws.le_trans x y z,
    laws.le_trans z y x,
    laws.le_trans y z x,
    laws.le_trans z x y,
  )

  difference_less-IsOrder : IsFloat F → IsOrder difference_less IsPlacedDifference
  difference_less-IsOrder laws = record {
    asym = λ a b p q h. ground (
      arith,
      laws.eq-le a.distance_m b.distance_m,
      laws.eq-le b.distance_m a.distance_m,
      laws.lt-le a.distance_m b.distance_m,
      laws.lt-le b.distance_m a.distance_m,
    );
    trans = λ a b c p q r h k.
        distance_trans laws a.distance_m b.distance_m c.distance_m (kind_rank a.kind)
          (kind_rank b.kind) (kind_rank c.kind) p q r h k;
  }

  -- If all events of both traces stand at distances that are numbers and `CompareBaseline`
  -- succeeds, the differences stand in the order of their distances, and at one distance in the
  -- order of their kinds.
  pub compare_baseline-IsSorted :
      (laws : IsFloat F) (baseline current : List (ComparableEvent F)) (tolerance loss : F)
      {differences : List (Difference F)}
      → All IsPlaced baseline
      → All IsPlaced current
      → compare_baseline baseline current tolerance loss ≡ ok differences
      → IsSorted difference_less differences
  compare_baseline-IsSorted laws baseline current tolerance loss pb pc h =
      let m = match_all current tolerance loss baseline start in
      subst (IsSorted difference_less) (compare_baseline-eq baseline current tolerance loss h) (
        sort_slice-IsSorted difference_less (difference_less-IsOrder laws)
          (unsorted baseline current tolerance loss)
          (All-append IsPlacedDifference m.differences (unused_from m.used 0 current)
            (match_all-IsPlaced laws current tolerance loss baseline start pc pb tt)
            (unused_from-IsPlaced m.used 0 current pc)))
