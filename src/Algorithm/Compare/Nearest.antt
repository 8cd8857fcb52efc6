-- ===== src/Algorithm/Compare/Nearest.antt =====
-- The inner loop of `CompareBaseline`, algorithm/compare.go: the match of a baseline event.
use gb_522_l7o.Prelude.{
  ℕ, suc, ◌+◌, ◌≡◌, refl, Bool, true, false, not, ◌&&◌, ◌⊎◌, inl, inr, Option, none, some, List, [],
  ◌∷◌, get_elem?, arith, Bool-cases,
}
use gb_522_l7o.Float.{Float, IsFloat}
use gb_522_l7o.Algorithm.Compare.{ComparableEvent, is_used, nearest_from}

module _ {F : Type 0} ⦃f : Float F⦄ where
  -- How far apart two events lie.
  abbrev pub gap : ComparableEvent F → ComparableEvent F → F
  gap base candidate = f.abs (f.sub base.distance_m candidate.distance_m)

module _ {F : Type 0} ⦃f : Float F⦄ (base : ComparableEvent F) (tolerance : F) (used : List ℕ) where
  -- The candidate of index `i` may be matched.
  abbrev pub is_eligible : ℕ → ComparableEvent F → Bool
  is_eligible i candidate = not (is_used i used) && f.le (gap base candidate) tolerance

  -- Of the candidates from index `i` on, no eligible one is nearer than `bound`.
  abbrev pub NoneNearer : ℕ → List (ComparableEvent F) → F → Type 0
  NoneNearer i [] bound = Unit
  NoneNearer i (c ∷ cs) bound =
      (is_eligible i c ≡ true → f.lt (gap base c) bound ≡ false) × NoneNearer (i + 1) cs bound

  -- `j` is the index of an eligible candidate that is nearer than `bound`, and none is nearer.
  pub record IsNearest (i : ℕ) (rest : List (ComparableEvent F)) (bound : F) (j : ℕ) : Type 0 where
    pub offset : ℕ
    pub candidate : ComparableEvent F
    pub position : j ≡ i + offset
    pub present : get_elem? rest offset ≡ some candidate
    pub eligible : is_eligible j candidate ≡ true
    pub nearer : f.lt (gap base candidate) bound ≡ true
    pub least : NoneNearer i rest (gap base candidate)

  module _ (laws : IsFloat F) where
    lt_irrefl : (x : F) → f.lt x x ≡ false
    lt_irrefl x = ground (arith, laws.lt-le x x)

    lt_asym : (x y : F) → f.lt x y ≡ true → f.lt y x ≡ false
    lt_asym x y h = ground (arith, laws.lt-le x y, laws.lt-le y x)

    lt_trans : (x y z : F) → f.lt x y ≡ true → f.lt y z ≡ true → f.lt x z ≡ true
    lt_trans x y z h k = ground (
      arith,
      laws.lt-le x y,
      laws.lt-le y z,
      laws.lt-le x z,
      laws.le_trans x y z,
      laws.le_trans y z x,
    )

    NoneNearer-weaken :
        (i : ℕ) (rest : List (ComparableEvent F)) (near far : F)
        → f.lt near far ≡ true
        → NoneNearer i rest far
        → NoneNearer i rest near
    NoneNearer-weaken i [] near far e h = tt
    NoneNearer-weaken i (c ∷ cs) near far e h = (
      λ p. ground (
        arith,
        h.0 p,
        laws.lt-le (gap base c) near,
        laws.lt-le (gap base c) far,
        laws.lt-le near far,
        laws.le_numbers near far,
        laws.le_numbers (gap base c) near,
        laws.le_trans (gap base c) near far,
        laws.le_total (gap base c) far,
        laws.le_trans far (gap base c) near,
      ),
      NoneNearer-weaken (i + 1) cs near far e h.1,
    )

    -- The outcome of the loop from index `i` on.
    abbrev Outcome : ℕ → List (ComparableEvent F) → Option ℕ → F → Option ℕ → Type 0
    Outcome i rest found best result =
        ((result ≡ found) × NoneNearer i rest best)
        ⊎ ((j : ℕ) × (result ≡ some j) × IsNearest i rest best j)

    taken :
        (i : ℕ) (c : ComparableEvent F) (cs : List (ComparableEvent F)) (found : Option ℕ)
        (best : F) {result : Option ℕ}
        → is_eligible i c ≡ true
        → f.lt (gap base c) best ≡ true
        → Outcome (i + 1) cs (some i) (gap base c) result
        → Outcome i (c ∷ cs) found best result
    taken i c cs found best p q (inl (same, none_nearer)) = inr (
      i,
      same,
      record {
        offset = 0;
        candidate = c;
        position = omega arith;
        present = refl;
        eligible = p;
        nearer = q;
        least = (λ _. lt_irrefl (gap base c), none_nearer);
      },
    )
    taken i c cs found best p q (inr (j, same, n)) = inr (
      j,
      same,
      record {
        offset = suc n.offset;
        candidate = n.candidate;
        position = omega (arith, n.position);
        present = n.present;
        eligible = n.eligible;
        nearer = lt_trans (gap base n.candidate) (gap base c) best n.nearer q;
        least = (λ _. lt_asym (gap base n.candidate) (gap base c) n.nearer, n.least);
      },
    )

    passed :
        (i : ℕ) (c : ComparableEvent F) (cs : List (ComparableEvent F)) (found : Option ℕ)
        (best : F) {result : Option ℕ}
        → (is_eligible i c ≡ true → f.lt (gap base c) best ≡ false)
        → Outcome (i + 1) cs found best result
        → Outcome i (c ∷ cs) found best result
    passed i c cs found best p (inl (same, none_nearer)) = inl (same, (p, none_nearer))
    passed i c cs found best p (inr (j, same, n)) = inr (
      j,
      same,
      record {
        offset = suc n.offset;
        candidate = n.candidate;
        position = omega (arith, n.position);
        present = n.present;
        eligible = n.eligible;
        nearer = n.nearer;
        least = (
          λ e. (NoneNearer-weaken i (c ∷ []) (gap base n.candidate) best n.nearer (p, tt)).0 e,
          n.least,
        );
      },
    )

    nearest_from-Outcome :
        (i : ℕ) (rest : List (ComparableEvent F)) (found : Option ℕ) (best : F)
        → Outcome i rest found best (nearest_from base tolerance used i rest found best)
    unfolding nearest_from
    nearest_from-Outcome i [] found best = inl (refl, tt)
    nearest_from-Outcome i (c ∷ cs) found best =
        elim (Bool-cases (is_eligible i c && f.lt (gap base c) best)) [
          | inl e ↦ rw e (
              taken i c cs found best (ground arith) (ground arith)
                (nearest_from-Outcome (i + 1) cs (some i) (gap base c)))
          | inr e ↦
              rw e (
                passed i c cs found best (ground arith)
                  (nearest_from-Outcome (i + 1) cs found best))
        ]

    -- The match of a base event is the index of an unused current event within the tolerance, and
    -- no such event is strictly nearer to the base. Without a match there is no such event that is
    -- nearer than the largest float.
    pub nearest_from-IsNearest :
        (current : List (ComparableEvent F))
        → let found = nearest_from base tolerance used 0 current none f.max_float in
          ((found ≡ none) × NoneNearer 0 current f.max_float)
          ⊎ ((j : ℕ) × (found ≡ some j) × IsNearest 0 current f.max_float j)
    nearest_from-IsNearest current = nearest_from-Outcome 0 current none f.max_float
