-- ===== src/Algorithm/Compare/Accounts.antt =====
-- `CompareBaseline` of algorithm/compare.go: how the differences account for the events of both
-- traces.
use gb_522_l7o.Prelude.{
  ℕ, zero, suc, ◌+◌, ◌≤◌, ◌<◌, ◌≡◌, refl, sym, ◌∙◌, subst, Bool, true, false, ◌&&◌, inl, inr,
  Option, none, some, List, [], ◌∷◌, ◌++◌, ◌==◌, length, get_elem?, get_or, count_if,
  count_if-append, arith,
}
use mathlib.Core.Option.{some-injective}
use gb_522_l7o.Prelude.Sort.{sort_slice, count_if-sort_slice}
use gb_522_l7o.Errors.{ok}
use gb_522_l7o.Float.{Float, IsFloat}
use gb_522_l7o.Algorithm.Compare.{
  ComparableEvent, Kind, disappeared, loss_increased, new_event, Difference, Matching, same_kind,
  is_used, nearest_from, disappeared_of, matched_of, nowhere, visit, match_all, unused_from, new_of,
  difference_less, compare_baseline,
}
use gb_522_l7o.Algorithm.Compare.Nearest.{nearest_from-IsNearest}

-- The indices are below `n`, and none stands twice.
abbrev pub IsDistinct : ℕ → List ℕ → Type 0
IsDistinct n [] = Unit
IsDistinct n (j ∷ used) = (is_used j used ≡ false) × (j < n) × IsDistinct n used

-- What is counted: the events of one id, or all of them.
abbrev pub chosen : Option ℕ → ℕ → Bool
chosen none id = true
chosen (some x) id = id == x

abbrev pub named : Option ℕ → Option ℕ → Bool
named none id = true
named (some x) none = false
named (some x) (some id) = id == x

count_if-cons :
    {A : Type 0} (p : A → Bool) (a : A) (rest : List A)
    → count_if p (a ∷ rest) ≡ count_if p (a ∷ []) + count_if p rest
count_if-cons p a rest = ground arith

module _ {F : Type 0} where
  abbrev pub is_event : Option ℕ → ComparableEvent F → Bool
  is_event x e = chosen x e.id

  -- The differences of a kind that name this event of the baseline and this current event.
  abbrev pub reports : Kind → Option ℕ → Option ℕ → Difference F → Bool
  reports k x y d =
      same_kind d.kind k && (named x d.baseline_event_id && named y d.current_event_id)

  abbrev pub is_pair : Option ℕ → Option ℕ → ComparableEvent F × ComparableEvent F → Bool
  is_pair x y (base, c) = is_event x base && is_event y c

  -- Every event of the baseline stands in one pair or is reported once as disappeared, every current
  -- event stands in one pair or is reported once as new, and each pair is reported at most once, as
  -- an increased loss: counted for each id, and in all.
  pub record IsAccounted (baseline current : List (ComparableEvent F))
      (differences : List (Difference F)) : Type 0 where
    pub pairs : List (ComparableEvent F × ComparableEvent F)
    pub baseline_once :
        (x : Option ℕ)
        → count_if (reports disappeared x none) differences + count_if (λ p. is_event x p.0) pairs
          ≡ count_if (is_event x) baseline
    pub current_once :
        (y : Option ℕ)
        → count_if (reports new_event none y) differences + count_if (λ p. is_event y p.1) pairs
          ≡ count_if (is_event y) current
    pub increased_once :
        (x y : Option ℕ)
        → count_if (reports loss_increased x y) differences ≤ count_if (is_pair x y) pairs

module _ {F : Type 0} ⦃f : Float F⦄ where
  -- One more index in use leaves out the event at it.
  unused_from-past :
      (y : Option ℕ) (j : ℕ) (used : List ℕ) (i : ℕ) (current : List (ComparableEvent F))
      → j < i
      → count_if (reports new_event none y) (unused_from (j ∷ used) i current)
        ≡ count_if (reports new_event none y) (unused_from used i current)
  unfolding unused_from
  unused_from-past y j used i [] h = refl
  unused_from-past y j used i (c ∷ cs) h =
      ground (arith, unused_from-past y j used (i + 1) cs (omega arith))

  new_of-counted :
      (y : Option ℕ) (c : ComparableEvent F) (later : List (Difference F))
      → count_if (reports new_event none y) (new_of c ∷ later)
        ≡ count_if (is_event y) (c ∷ []) + count_if (reports new_event none y) later
  new_of-counted none c later = ground arith
  new_of-counted (some y) c later = ground arith

  unused_from-at :
      (y : Option ℕ) (used : List ℕ) (i j k : ℕ) (current : List (ComparableEvent F))
      (c : ComparableEvent F)
      → j ≡ i + k
      → get_elem? current k ≡ some c
      → is_used j used ≡ false
      → count_if (reports new_event none y) (unused_from used i current)
        ≡ count_if (is_event y) (c ∷ [])
          + count_if (reports new_event none y) (unused_from (j ∷ used) i current)
  unfolding unused_from
  unused_from-at y used i j k [] c e p h = cc
  unused_from-at y used i j zero (d ∷ cs) c e p h =
      let same : d ≡ c = some-injective _ _ p in
      subst
        (λ z.
          count_if (reports new_event none y) (unused_from used i (z ∷ cs))
          ≡ count_if (is_event y) (c ∷ [])
            + count_if (reports new_event none y) (unused_from (j ∷ used) i (z ∷ cs)))
        {x = c} (sym same)
        (ground (
          arith,
          e,
          h,
          new_of-counted y c (unused_from used (i + 1) cs),
          unused_from-past y j used (i + 1) cs (omega arith),
        ))
  unused_from-at y used i j (suc k) (d ∷ cs) c e p h =
      let rest = unused_from-at y used (i + 1) j k cs c (omega arith) p h in
      ground (
        arith,
        e,
        rest,
        new_of-counted y d (unused_from used (i + 1) cs),
        new_of-counted y d (unused_from (j ∷ used) (i + 1) cs),
      )

  unused_from-none :
      (y : Option ℕ) (i : ℕ) (current : List (ComparableEvent F))
      → count_if (reports new_event none y) (unused_from [] i current)
        ≡ count_if (is_event y) current
  unfolding unused_from
  unused_from-none y i [] = refl
  unused_from-none y i (c ∷ cs) =
      ground (arith, unused_from-none y (i + 1) cs, new_of-counted y c (unused_from [] (i + 1) cs))

  get_elem?-or :
      (l : List (ComparableEvent F)) (j : ℕ)
      → j < length l
      → get_elem? l j ≡ some (get_or l j nowhere)
  get_elem?-or [] j h = absurd (omega arith)
  get_elem?-or (c ∷ l) zero h = refl
  get_elem?-or (c ∷ l) (suc j) h = get_elem?-or l j (omega arith)

  -- The new events and those at the indices in use are the current ones.
  unused_from-counted :
      (y : Option ℕ) (used : List ℕ) (current : List (ComparableEvent F))
      → IsDistinct (length current) used
      → count_if (reports new_event none y) (unused_from used 0 current)
          + count_if (λ j. is_event y (get_or current j nowhere)) used
        ≡ count_if (is_event y) current
  unused_from-counted y [] current h = omega (arith, unused_from-none y 0 current)
  unused_from-counted y (j ∷ used) current h =
      let rest = unused_from-counted y used current h.2 in
      let step =
        unused_from-at y used 0 j j current (get_or current j nowhere) (omega arith)
          (get_elem?-or current j h.1) h.0 in
      ground (arith, rest, step)

  pub get_elem?-lt :
      (l : List (ComparableEvent F)) (i : ℕ) {c : ComparableEvent F}
      → get_elem? l i ≡ some c
      → i < length l
  get_elem?-lt [] i e = cc
  get_elem?-lt (x ∷ l) zero e = omega arith
  get_elem?-lt (x ∷ l) (suc i) e = omega (arith, get_elem?-lt l i e)

  -- What holds of the loop's state, with the events visited and the pairs found.
  record IsMatching (current seen : List (ComparableEvent F)) (m : Matching F) : Type 0 where
    distinct : IsDistinct (length current) m.used
    pairs : List (ComparableEvent F × ComparableEvent F)
    in_use :
        (y : Option ℕ)
        → count_if (λ p. is_event y p.1) pairs
          ≡ count_if (λ j. is_event y (get_or current j nowhere)) m.used
    gone :
        (x : Option ℕ)
        → count_if (reports disappeared x none) m.differences + count_if (λ p. is_event x p.0) pairs
          ≡ count_if (is_event x) seen
    no_new : (y : Option ℕ) → count_if (reports new_event none y) m.differences ≡ 0
    increased :
        (x y : Option ℕ)
        → count_if (reports loss_increased x y) m.differences ≤ count_if (is_pair x y) pairs

  -- What each step adds, by kinds.
  disappeared_of-counted :
      (x y : Option ℕ) (base : ComparableEvent F)
      → (count_if (reports disappeared x none) (disappeared_of base ∷ [])
          ≡ count_if (is_event x) (base ∷ []))
        × (count_if (reports new_event none y) (disappeared_of base ∷ []) ≡ 0)
        × (count_if (reports loss_increased x y) (disappeared_of base ∷ []) ≡ 0)
  disappeared_of-counted none y base = (ground arith, ground arith, ground arith)
  disappeared_of-counted (some x) y base = (ground arith, ground arith, ground arith)

  matched_of-counted :
      (x y : Option ℕ) (loss : F) (base c : ComparableEvent F)
      → (count_if (reports disappeared x none) (matched_of loss base c) ≡ 0)
        × (count_if (reports new_event none y) (matched_of loss base c) ≡ 0)
        × (count_if (reports loss_increased x y) (matched_of loss base c)
            ≤ count_if (is_pair x y) ((base, c) ∷ []))
  matched_of-counted none none loss base c = (ground arith, ground arith, ground arith)
  matched_of-counted none (some y) loss base c = (ground arith, ground arith, ground arith)
  matched_of-counted (some x) none loss base c = (ground arith, ground arith, ground arith)
  matched_of-counted (some x) (some y) loss base c = (ground arith, ground arith, ground arith)

  module _ (laws : IsFloat F) (current : List (ComparableEvent F)) (tolerance loss : F) where
    visit-disappeared :
        (seen : List (ComparableEvent F)) (m : Matching F) (base : ComparableEvent F)
        → IsMatching current seen m
        → IsMatching current
            (base ∷ seen)
            (visit current tolerance loss base m.used m.differences none)
    visit-disappeared seen m base v =
        let extra =
          λ (q : Difference F → Bool). count_if-append q m.differences (disappeared_of base ∷ []) in
        record {
          distinct = v.distinct;
          pairs = v.pairs;
          in_use = v.in_use;
          gone = λ x. omega (
            arith,
            v.gone x,
            extra (reports disappeared x none),
            (disappeared_of-counted x none base).0,
            count_if-cons (is_event x) base seen,
          );
          no_new = λ y. omega (
            arith,
            v.no_new y,
            extra (reports new_event none y),
            (disappeared_of-counted none y base).1,
          );
          increased = λ x y. omega (
            arith,
            v.increased x y,
            extra (reports loss_increased x y),
            (disappeared_of-counted x y base).2,
          );
        }

    visit-matched :
        (seen : List (ComparableEvent F)) (m : Matching F) (base : ComparableEvent F) (j : ℕ)
        → IsMatching current seen m
        → is_used j m.used ≡ false
        → j < length current
        → IsMatching current
            (base ∷ seen)
            (visit current tolerance loss base m.used m.differences (some j))
    visit-matched seen m base j v fresh h =
        let c = get_or current j nowhere in
        let extra =
          λ (q : Difference F → Bool). count_if-append q m.differences (matched_of loss base c) in
        record {
          distinct = (fresh, h, v.distinct);
          pairs = (base, c) ∷ v.pairs;
          in_use = λ y. ground (arith, v.in_use y);
          gone = λ x. ground (
            arith,
            v.gone x,
            extra (reports disappeared x none),
            (matched_of-counted x none loss base c).0,
          );
          no_new = λ y. omega (
            arith,
            v.no_new y,
            extra (reports new_event none y),
            (matched_of-counted none y loss base c).1,
          );
          increased = λ x y. omega (
            arith,
            v.increased x y,
            extra (reports loss_increased x y),
            (matched_of-counted x y loss base c).2,
            count_if-cons (is_pair x y) (base, c) v.pairs,
          );
        }

    -- The events visited, the last one first.
    abbrev onto : List (ComparableEvent F) → List (ComparableEvent F) → List (ComparableEvent F)
    onto [] seen = seen
    onto (base ∷ rest) seen = onto rest (base ∷ seen)

    onto-counted :
        (p : ComparableEvent F → Bool) (rest seen : List (ComparableEvent F))
        → count_if p (onto rest seen) ≡ count_if p rest + count_if p seen
    onto-counted p [] seen = omega arith
    onto-counted p (base ∷ rest) seen = ground (arith, onto-counted p rest (base ∷ seen))

    match_all-IsMatching :
        (baseline seen : List (ComparableEvent F)) (m : Matching F)
        → IsMatching current seen m
        → IsMatching current (onto baseline seen) (match_all current tolerance loss baseline m)
    unfolding match_all
    match_all-IsMatching [] seen m v = v
    match_all-IsMatching (base ∷ rest) seen m v =
        match_all-IsMatching rest (base ∷ seen)
          (visit current tolerance loss base m.used m.differences
            (nearest_from base tolerance m.used 0 current none f.max_float))
          (elim (nearest_from-IsNearest base tolerance m.used laws current) [
            | inl (e, _) ↦ rw e (visit-disappeared seen m base v)
            | inr (j, e, n) ↦ rw e (
                visit-matched seen m base j v (ground (arith, n.eligible))
                  (omega (arith, n.position, get_elem?-lt current n.offset n.present)))
          ])

  -- The second loop reports new events alone.
  unused_from-new :
      (x y : Option ℕ) (used : List ℕ) (i : ℕ) (current : List (ComparableEvent F))
      → (count_if (reports disappeared x none) (unused_from used i current) ≡ 0)
        × (count_if (reports loss_increased x y) (unused_from used i current) ≡ 0)
  unfolding unused_from
  unused_from-new x y used i [] = (refl, refl)
  unused_from-new x y used i (c ∷ cs) = ground (arith, unused_from-new x y used (i + 1) cs)

  abbrev pub start : Matching F
  start = record { used = []; differences = [] }

  -- The differences before they are sorted.
  abbrev pub unsorted :
      List (ComparableEvent F) → List (ComparableEvent F) → F → F → List (Difference F)
  unsorted baseline current tolerance loss =
      let m = match_all current tolerance loss baseline start in
      m.differences ++ unused_from m.used 0 current

  pub compare_baseline-eq :
      (baseline current : List (ComparableEvent F)) (tolerance loss : F)
      {differences : List (Difference F)}
      → compare_baseline baseline current tolerance loss ≡ ok differences
      → sort_slice difference_less (unsorted baseline current tolerance loss) ≡ differences
  unfolding compare_baseline
  compare_baseline-eq baseline current tolerance loss h = ground arith

  -- If `CompareBaseline` succeeds, some events of the baseline are paired with current ones, and the
  -- differences account for all: each event of the baseline is in a pair or reported once, by its id, as
  -- disappeared, each current event is in a pair or reported once, by its id, as new, and each pair is
  -- reported at most once, by its ids, as an increased loss. Events of the same id are counted.
  pub compare_baseline-accounts :
      (laws : IsFloat F) (baseline current : List (ComparableEvent F)) (tolerance loss : F)
      {differences : List (Difference F)}
      → compare_baseline baseline current tolerance loss ≡ ok differences
      → IsAccounted baseline current differences
  compare_baseline-accounts laws baseline current tolerance loss {differences} h =
      let m = match_all current tolerance loss baseline start in
      let fresh = unused_from m.used 0 current in
      let v = match_all-IsMatching laws current tolerance loss baseline [] start (record {
        distinct = tt;
        pairs = [];
        in_use = λ y. refl;
        gone = λ x. refl;
        no_new = λ y. refl;
        increased = λ x y. omega arith;
      }) in
      let total : (q : Difference F → Bool)
          → count_if q differences ≡ count_if q m.differences + count_if q fresh =
        λ q. rw (← compare_baseline-eq baseline current tolerance loss h) (
          count_if-sort_slice difference_less q (unsorted baseline current tolerance loss)
          ∙ count_if-append q m.differences fresh) in
      record {
        pairs = v.pairs;
        baseline_once = λ x. omega (
          arith,
          v.gone x,
          total (reports disappeared x none),
          (unused_from-new x none m.used 0 current).0,
          onto-counted laws current tolerance loss (is_event x) baseline [],
        );
        current_once = λ y. omega (
          arith,
          v.no_new y,
          total (reports new_event none y),
          v.in_use y,
          unused_from-counted y m.used current v.distinct,
        );
        increased_once = λ x y. omega (
          arith,
          v.increased x y,
          total (reports loss_increased x y),
          (unused_from-new x y m.used 0 current).1,
        );
      }
