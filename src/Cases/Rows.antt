-- ===== src/Cases/Rows.antt =====
-- How the rows of the table of cases may change: each along the transition table of
-- constants/case.go, its version growing by one at each step, and none vanishing.
use gb_522_l7o.Prelude.{
  ℕ, ◌+◌, ◌≤◌, ◌<◌, ◌≡◌, ◌≢◌, refl, ap, ◌∙◌, true, some, List, get_elem?, arith,
}
use gb_522_l7o.Constants.{closed, can_transition}
use gb_522_l7o.Model.{LocalizationCase}
use gb_522_l7o.Database.Extends.{Extends, Extends-refl, Extends-trans, Extends-at}

module _ {F : Type 0} where
  -- One step of a case: the status moves along the table, the version grows by one, and the case
  -- stays about the same route and traces.
  pub record RowStep (s t : LocalizationCase F) : Type 0 where
    pub legal : can_transition s.case_status t.case_status ≡ true
    pub bumped : t.version ≡ s.version + 1
    pub same_id : t.id ≡ s.id
    pub same_route : t.route_id ≡ s.route_id
    pub same_baseline : t.baseline_trace_id ≡ s.baseline_trace_id
    pub same_current : t.current_trace_id ≡ s.current_trace_id
    pub same_creator : t.created_by ≡ s.created_by

  pub data RowReach (s : LocalizationCase F) : LocalizationCase F → Type 0 where
    here : RowReach s s
    next : {t u : LocalizationCase F} → RowReach s t → RowStep t u → RowReach s u

  pub RowReach-trans : {s t u : LocalizationCase F} → RowReach s t → RowReach t u → RowReach s u
  RowReach-trans p here = p
  RowReach-trans p (next q e) = next (RowReach-trans p q) e

  -- Every row is still there, some steps further; behind them may stand new rows.
  abbrev pub RowsEvolve : List (LocalizationCase F) → List (LocalizationCase F) → Type 0
  RowsEvolve = Extends RowReach

  pub RowsEvolve-refl : (rows : List (LocalizationCase F)) → RowsEvolve rows rows
  RowsEvolve-refl = Extends-refl RowReach (λ r. here)

  pub RowsEvolve-trans :
      (a b c : List (LocalizationCase F)) → RowsEvolve a b → RowsEvolve b c → RowsEvolve a c
  RowsEvolve-trans = Extends-trans RowReach (λ r s t. RowReach-trans)

  -- A row with this key stands in the table, with a version above `version`.
  pub record HasNewer (id version : ℕ) (rows : List (LocalizationCase F)) : Type 0 where
    pub index : ℕ
    pub row : LocalizationCase F
    pub present : get_elem? rows index ≡ some row
    pub keyed : row.id ≡ id
    pub newer : version < row.version

  RowReach-version :
      {s t : LocalizationCase F} → RowReach s t → (t.id ≡ s.id) × (s.version ≤ t.version)
  RowReach-version here = (refl, omega arith)
  RowReach-version (next p e) =
      let (same, older) = RowReach-version p in (e.same_id ∙ same, omega (arith, e.bumped))

  -- The final status admits no step.
  RowStep-not_closed : {s t : LocalizationCase F} → RowStep s t → s.case_status ≢ closed
  unfolding can_transition
  RowStep-not_closed {s} {t} e h = ground (arith, e.legal)

  -- A closed case is what it was when it was closed.
  pub RowReach-closed : {s t : LocalizationCase F} → s.case_status ≡ closed → RowReach s t → t ≡ s
  RowReach-closed c here = refl
  RowReach-closed c (next p e) =
      let same = RowReach-closed c p in
      absurd (RowStep-not_closed e (ap (λ r. r.case_status) same ∙ c))

  pub evolved_at :
      (rows later : List (LocalizationCase F)) (i : ℕ) {r : LocalizationCase F}
      → RowsEvolve rows later
      → get_elem? rows i ≡ some r
      → (s : LocalizationCase F) × (get_elem? later i ≡ some s) × RowReach r s
  evolved_at = Extends-at RowReach

  pub HasNewer-evolves :
      (id version : ℕ) (rows later : List (LocalizationCase F))
      → RowsEvolve rows later
      → HasNewer id version rows
      → HasNewer id version later
  HasNewer-evolves id version rows later e n =
      let (s, there, path) = evolved_at rows later n.index e n.present in
      let (same, older) = RowReach-version path in
      record {
        index = n.index;
        row = s;
        present = there;
        keyed = same ∙ n.keyed;
        newer = omega (arith, n.newer, older);
      }
