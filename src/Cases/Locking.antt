-- ===== src/Cases/Locking.antt =====
-- The optimistic lock of `Transition`, repository/case_repository.go: the version of a case.
use mathlib.Core.Option.{some-injective}
use gb_522_l7o.Prelude.{
  ℕ, suc, ◌≡◌, ◌≢◌, refl, sym, ap, ◌∙◌, Bool, true, some, List, [], ◌∷◌, get_elem?, count_if, arith,
  Bool-cases, inl, inr,
}
use gb_522_l7o.Errors.{Error, ok}
use gb_522_l7o.Constants.{CaseStatus}
use gb_522_l7o.Model.{LocalizationCase}
use gb_522_l7o.Database.{World, Env, written}
use gb_522_l7o.Algorithm.Detect.Pipeline.{Result-cases}
use gb_522_l7o.Cases.Repository
use gb_522_l7o.Cases.Repository.{Columns, transition_where, advance}
use gb_522_l7o.Cases.Rows.{HasNewer, HasNewer-evolves, RowsEvolve}
use gb_522_l7o.Writes.{IsColumns}
use gb_522_l7o.Cases.Keeps.{IsCaseEnv, touch_case}

module _ {F : Type 0} where
  -- No two rows have the same primary key.
  abbrev pub IsKeyed : List (LocalizationCase F) → Type 0
  IsKeyed rows =
      (i j : ℕ) (r s : LocalizationCase F)
      → get_elem? rows i ≡ some r
      → get_elem? rows j ≡ some s
      → r.id ≡ s.id
      → i ≡ j

  written-found :
      (touch : Columns F) (p : LocalizationCase F → Bool) (g : Columns F)
      (rows : List (LocalizationCase F))
      → count_if p rows ≢ 0
      → (i : ℕ) × (r : LocalizationCase F) × (get_elem? (written touch p g rows) i
          ≡ some (touch (g r)))
        × (p r ≡ true)
  written-found touch p g [] h = absurd (h refl)
  written-found touch p g (r ∷ rows) h = elim (Bool-cases (p r)) [
    | inl e ↦ (0, r, rw e refl, e)
    | inr e ↦
        let (i, s, there, q) = written-found touch p g rows (rw e at h) in (suc i, s, there, q)
  ]

  count_if-none :
      (p : LocalizationCase F → Bool) (rows : List (LocalizationCase F))
      → ((i : ℕ) (r : LocalizationCase F) → get_elem? rows i ≡ some r → p r ≢ true)
      → count_if p rows ≡ 0
  count_if-none p [] h = refl
  count_if-none p (r ∷ rows) h = elim (Bool-cases (p r)) [
    | inl e ↦ absurd (h 0 r refl e)
    | inr e ↦ rw e (count_if-none p rows (λ i s. h (suc i) s))
  ]

  HasNewer-count :
      (id version : ℕ) (from : CaseStatus) (rows : List (LocalizationCase F))
      → IsKeyed rows
      → HasNewer id version rows
      → count_if (transition_where id version from) rows ≡ 0
  HasNewer-count id version from rows keyed n = count_if-none _ rows (λ i r e q.
      let i_is : i ≡ n.index = keyed i n.index r n.row e n.present (ground (arith, n.keyed)) in
      let same : r ≡ n.row = some-injective _ _ (sym e ∙ ap (get_elem? rows) i_is ∙ n.present) in
      let older : r.version ≡ n.row.version = ap (λ c. c.version) same in ground (arith, n.newer))

module _ {F : Type 0} (env : Env F) where
  pub update_one-ok :
      (missed : Error) (failed : Error → Error) (p : LocalizationCase F → Bool) (g : Columns F)
      (w : World F)
      → (Repository.update_one env missed failed p g w).0 ≡ ok tt
      → (n : ℕ) × (rows : List (LocalizationCase F)) × (env.cases.update w.clock p g w.cases
          ≡ ok (n, rows))
        × (n ≢ 0)
        × ((Repository.update_one env missed failed p g w).1.cases ≡ rows)
  update_one-ok missed failed p g w done =
      elim (Result-cases (env.cases.update w.clock p g w.cases)) [
        | inl ((n, rows), e) ↦ (n, rows, e, ground arith, ground arith)
        | inr (e, q) ↦ absurd (ground arith)
      ]

  update_one-missed :
      (missed : Error) (failed : Error → Error) (p : LocalizationCase F → Bool) (g : Columns F)
      (w : World F)
      → IsCaseEnv env
      → count_if p w.cases ≡ 0
      → (Repository.update_one env missed failed p g w).0 ≢ ok tt
  update_one-missed missed failed p g w laws none_there done =
      let (n, rows, e, some_there, _) = update_one-ok missed failed p g w done in
      some_there ((laws.cases.update_ok w.clock p g w.cases n rows e).0 ∙ none_there)

  transition-HasNewer :
      (id version : ℕ) (from to : CaseStatus) (g : Columns F) (w : World F)
      → IsCaseEnv env
      → IsColumns g
      → (Repository.transition env id version from to g w).0 ≡ ok tt
      → HasNewer id version (Repository.transition env id version from to g w).1.cases
  unfolding Repository.transition
  transition-HasNewer id version from to g w laws h done =
      let p = transition_where id version from in
      let (n, rows, e, hit, left) = update_one-ok _ _ p (advance to g) w done in
      let (counted, wrote) = laws.cases.update_ok w.clock p (advance to g) w.cases n rows e in
      let (i, r, there, q) =
        written-found (touch_case w.clock) p (advance to g) w.cases (λ z. hit (counted ∙ z)) in
      record {
        index = i;
        row = touch_case w.clock (advance to g r);
        present = ap (λ l. get_elem? l i) (left ∙ wrote) ∙ there;
        keyed = (h r).0 ∙ ground arith;
        newer = ground arith;
      }

  transition-missed :
      (id version : ℕ) (from to : CaseStatus) (g : Columns F) (w : World F)
      → IsCaseEnv env
      → count_if (transition_where id version from) w.cases ≡ 0
      → (Repository.transition env id version from to g w).0 ≢ ok tt
  unfolding Repository.transition
  transition-missed id version from to g w =
      update_one-missed _ _ (transition_where id version from) (advance to g) w

  -- Of two updates by `Transition` with the same case and the same version, the second fails: if the
  -- first succeeds, with columns that leave alone what the case is about, on a table of cases that
  -- does what it reports, then whatever other requests do in between, as long as they move the
  -- cases along the transition table, and as long as no two rows have the same primary key, the
  -- second does not succeed, whatever statuses and columns it is for.
  pub transition-locks :
      (id version : ℕ) (from to from2 to2 : CaseStatus) (g g2 : Columns F) (w w2 : World F)
      → IsCaseEnv env
      → IsColumns g
      → (Repository.transition env id version from to g w).0 ≡ ok tt
      → RowsEvolve (Repository.transition env id version from to g w).1.cases w2.cases
      → IsKeyed w2.cases
      → (Repository.transition env id version from2 to2 g2 w2).0 ≢ ok tt
  transition-locks id version from to from2 to2 g g2 w w2 laws h done between keyed =
      let now_newer =
        HasNewer-evolves id version _ w2.cases between
          (transition-HasNewer id version from to g w laws h done) in
      transition-missed id version from2 to2 g2 w2 laws
        (HasNewer-count id version from2 w2.cases keyed now_newer)
