-- ===== src/Algorithm/Compare/Primary.antt =====
-- `PrimaryDifference` of algorithm/compare.go: which difference the case's estimate is taken from.
use gb_522_l7o.Prelude.{
  ℕ, zero, suc, ◌≡◌, ◌⊎◌, refl, false, none, some, List, [], ◌∷◌, get_elem?, drop, All, arith,
  Bool-cases, inl, inr,
}
use gb_522_l7o.Float.{Float}
use gb_522_l7o.Algorithm.Compare.{Difference, takes_over, primary_from, primary_difference}

module _ {F : Type 0} ⦃f : Float F⦄ where
  -- `best` stands at `position`, and nothing behind it takes over.
  pub record IsLast (differences : List (Difference F)) (best : Difference F) : Type 0 where
    pub position : ℕ
    pub present : get_elem? differences position ≡ some best
    pub unbeaten : All (λ d. takes_over best d ≡ false) (drop (suc position) differences)

  behind :
      (first : Difference F) {ds : List (Difference F)} {best : Difference F}
      → IsLast ds best
      → IsLast (first ∷ ds) best
  behind first l = record { position = suc l.position; present = l.present; unbeaten = l.unbeaten }

  -- A difference that does not take over may be put behind the first.
  beside :
      (first d : Difference F) {ds : List (Difference F)} {best : Difference F}
      → takes_over first d ≡ false
      → IsLast (first ∷ ds) best
      → IsLast (first ∷ d ∷ ds) best
  beside first d {ds} {best} e l = at_position l.position l.present l.unbeaten
    where
      at_position :
          (k : ℕ)
          → get_elem? (first ∷ ds) k ≡ some best
          → All (λ d. takes_over best d ≡ false) (drop (suc k) (first ∷ ds))
          → IsLast (first ∷ d ∷ ds) best
      at_position zero p u = record { position = 0; present = p; unbeaten = (ground arith, u) }
      at_position (suc k) p u = record { position = suc (suc k); present = p; unbeaten = u }

  primary_from-IsLast :
      (best : Difference F) (ds : List (Difference F)) → IsLast (best ∷ ds) (primary_from best ds)
  unfolding primary_from
  primary_from-IsLast best [] = record { position = 0; present = refl; unbeaten = tt }
  primary_from-IsLast best (d ∷ ds) = elim (Bool-cases (takes_over best d)) [
    | inl e ↦ rw e (behind best (primary_from-IsLast d ds))
    | inr e ↦ rw e (beside best d e (primary_from-IsLast best ds))
  ]

  -- `PrimaryDifference` finds nothing exactly if there is no difference. Otherwise the estimate is
  -- the distance of one of the differences, which no later one takes over: no later one has a
  -- greater confidence, and no later one is an increased loss unless it is one itself. The
  -- uncertainty is the larger of 1 and 20 times what the confidence falls short of 1.
  pub primary_difference-IsLast :
      (differences : List (Difference F))
      → ((differences ≡ []) × (primary_difference differences ≡ none))
        ⊎ ((best : Difference F) × IsLast differences best
            × (primary_difference differences
                ≡ some (
                  best.distance_m,
                  f.fmax (f.lit 1 0) (f.mul (f.lit 20 0) (f.sub (f.lit 1 0) best.confidence)),
                )))
  unfolding primary_difference
  primary_difference-IsLast [] = inl (refl, refl)
  primary_difference-IsLast (d ∷ ds) = inr (primary_from d ds, primary_from-IsLast d ds, refl)
