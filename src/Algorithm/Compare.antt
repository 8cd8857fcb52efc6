-- ===== src/Algorithm/Compare.antt =====
-- backend/internal/algorithm/compare.go.
pub mod Nearest
pub mod Accounts
pub mod Order
pub mod Primary
use gb_522_l7o.Prelude.{
  ℕ, zero, suc, ◌+◌, Bool, true, false, not, ◌&&◌, ◌||◌, Option, none, some, List, [], ◌∷◌, ◌++◌,
  if◌then◌else◌, ltb, ◌==◌, get_or,
}
use gb_522_l7o.Prelude.Sort.{sort_slice}
use gb_522_l7o.Errors.{Error, text, Result, ok, err}
use gb_522_l7o.Float.{Float}
use gb_522_l7o.Algorithm.Distance.{round}

pub record ComparableEvent (F : Type 0) : Type 0 where
  pub id : ℕ
  pub distance_m : F
  pub insertion_loss_db : F
  pub confidence : F

-- The three strings of the field `Kind`, in the order in which strings compare.
pub data Kind : Type 0 where
  disappeared loss_increased new_event : Kind

abbrev pub kind_rank : Kind → ℕ
kind_rank disappeared = 0
kind_rank loss_increased = 1
kind_rank new_event = 2

abbrev pub kind_less : Kind → Kind → Bool
kind_less j k = ltb (kind_rank j) (kind_rank k)

abbrev pub same_kind : Kind → Kind → Bool
same_kind j k = kind_rank j == kind_rank k

pub record Difference (F : Type 0) : Type 0 where
  pub kind : Kind
  pub baseline_event_id : Option ℕ
  pub current_event_id : Option ℕ
  pub distance_m : F
  pub loss_delta_db : F
  pub confidence : F

-- What the outer loop has so far: the map `used`, as the indices that it holds, and the differences.
pub record Matching (F : Type 0) : Type 0 where
  pub used : List ℕ
  pub differences : List (Difference F)

-- `used[i]`, for the map as the list of the indices that it holds.
abbrev pub is_used : ℕ → List ℕ → Bool
is_used i [] = false
is_used i (j ∷ used) = i == j || is_used i used

module _ {F : Type 0} ⦃f : Float F⦄ where
  open f use {lit, max_float, sub, mul, abs, fmax, fmin, eq, lt, le}

  abbrev pub nowhere : ComparableEvent F
  nowhere = record {
    id = 0;
    distance_m = lit 0 0;
    insertion_loss_db = lit 0 0;
    confidence = lit 0 0;
  }

  -- The inner loop: the unused candidate of index `i` or later that is nearest to `base`, within
  -- the tolerance. `none` is the -1 of `match`.
  unfoldable pub nearest_from :
      ComparableEvent F → F → List ℕ → ℕ → List (ComparableEvent F) → Option ℕ → F → Option ℕ
  nearest_from base tolerance used i [] found best = found
  nearest_from base tolerance used i (candidate ∷ rest) found best =
      let delta = abs (sub base.distance_m candidate.distance_m) in
      let better = not (is_used i used) && le delta tolerance && lt delta best in
      nearest_from base tolerance used (i + 1) rest (if better then some i else found)
        (if better then delta else best)

  abbrev pub disappeared_of : ComparableEvent F → Difference F
  disappeared_of base = record {
    kind = disappeared;
    baseline_event_id = some base.id;
    current_event_id = none;
    distance_m = base.distance_m;
    loss_delta_db = lit 0 0;
    confidence = round (mul base.confidence (lit 9 1));
  }

  abbrev pub increased_of : ComparableEvent F → ComparableEvent F → Difference F
  increased_of base candidate = record {
    kind = loss_increased;
    baseline_event_id = some base.id;
    current_event_id = some candidate.id;
    distance_m = candidate.distance_m;
    loss_delta_db = round (sub candidate.insertion_loss_db base.insertion_loss_db);
    confidence = round (fmin base.confidence candidate.confidence);
  }

  abbrev pub new_of : ComparableEvent F → Difference F
  new_of candidate = record {
    kind = new_event;
    baseline_event_id = none;
    current_event_id = some candidate.id;
    distance_m = candidate.distance_m;
    loss_delta_db = candidate.insertion_loss_db;
    confidence = round candidate.confidence;
  }

  -- What the outer loop adds for a base that found the candidate.
  abbrev pub matched_of : F → ComparableEvent F → ComparableEvent F → List (Difference F)
  matched_of loss_increase_db base candidate =
      if le loss_increase_db (sub candidate.insertion_loss_db base.insertion_loss_db)
      then increased_of base candidate ∷ []
      else []

  abbrev pub visit :
      List (ComparableEvent F)
      → F
      → F
      → ComparableEvent F
      → List ℕ
      → List (Difference F)
      → Option ℕ
      → Matching F
  visit current tolerance loss base used differences none = record {
    used = used;
    differences = differences ++ (disappeared_of base ∷ []);
  }
  visit current tolerance loss base used differences (some i) = record {
    used = i ∷ used;
    differences = differences ++ matched_of loss base (get_or current i nowhere);
  }

  unfoldable pub match_all :
      List (ComparableEvent F) → F → F → List (ComparableEvent F) → Matching F → Matching F
  match_all current tolerance loss [] m = m
  match_all current tolerance loss (base ∷ rest) m = match_all current tolerance loss rest (
      visit current tolerance loss base m.used m.differences
        (nearest_from base tolerance m.used 0 current none max_float))

  -- The second loop: what no base has used is new.
  unfoldable pub unused_from : List ℕ → ℕ → List (ComparableEvent F) → List (Difference F)
  unused_from used i [] = []
  unused_from used i (candidate ∷ rest) =
      let later = unused_from used (i + 1) rest in
      if is_used i used then later else new_of candidate ∷ later

  -- The comparison that `sort.Slice` is given.
  abbrev pub difference_less : Difference F → Difference F → Bool
  difference_less a b =
      if eq a.distance_m b.distance_m then kind_less a.kind b.kind else lt a.distance_m b.distance_m

  unfoldable pub compare_baseline :
      List (ComparableEvent F) → List (ComparableEvent F) → F → F → Result (List (Difference F))
  compare_baseline baseline current tolerance_m loss_increase_db =
      if le tolerance_m (lit 0 0)
      then err (text "distance tolerance must be positive")
      else if le loss_increase_db (lit 0 0)
      then err (text "loss increase threshold must be positive")
      else let m =
          match_all current tolerance_m loss_increase_db baseline
            (record { used = []; differences = [] }) in
        ok (sort_slice difference_less (m.differences ++ unused_from m.used 0 current))

  -- The test by which `PrimaryDifference` takes `d` over `best`.
  abbrev pub takes_over : Difference F → Difference F → Bool
  takes_over best d =
      lt best.confidence d.confidence
      || (same_kind d.kind loss_increased && not (same_kind best.kind loss_increased))

  unfoldable pub primary_from : Difference F → List (Difference F) → Difference F
  primary_from best [] = best
  primary_from best (d ∷ ds) = primary_from (if takes_over best d then d else best) ds

  -- `none` is the result with `ok` false; the pair is the distance and its uncertainty.
  unfoldable pub primary_difference : List (Difference F) → Option (F × F)
  primary_difference [] = none
  primary_difference (first ∷ rest) =
      let best = primary_from first rest in
      some (best.distance_m, fmax (lit 1 0) (mul (lit 20 0) (sub (lit 1 0) best.confidence)))
