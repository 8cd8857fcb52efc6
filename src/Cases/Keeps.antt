-- ===== src/Cases/Keeps.antt =====
-- The table of cases under the writes of backend/internal/repository.
use gb_522_l7o.Prelude.{
  ℕ, ◌≡◌, refl, sym, subst, Bool, true, ◌&&◌, List, ltb, ◌==◌, arith, inl, inr,
}
use gb_522_l7o.Errors.{Error, ok}
use gb_522_l7o.Constants.{CaseStatus, analyzing, draft, same_status, can_transition}
use gb_522_l7o.Float.{Float}
use gb_522_l7o.Model.{LocalizationCase, AuditLog}
use gb_522_l7o.Database.{IsTable, World, Env, M, yield_to_others}
use gb_522_l7o.Database.Preserves.{Guarantee, Preserves}
use gb_522_l7o.Writes.{Writes, IsColumns}
use gb_522_l7o.Writes.Frames.{framed_audits, framed_routes, framed_traces, framed_events}
use gb_522_l7o.Algorithm.Detect.Pipeline.{Result-cases}
use gb_522_l7o.Audit.{create_audit}
use gb_522_l7o.Database.Extends.{create-Extends, update-Extends}
use gb_522_l7o.Cases.Rows.{
  RowStep, RowReach, RowsEvolve, RowsEvolve-refl, RowsEvolve-trans, here, next,
}
use gb_522_l7o.Cases.Repository
use gb_522_l7o.Cases.Repository.{Columns, advance, expired}

pub same_status-eq : (s t : CaseStatus) → same_status s t ≡ true → s ≡ t
same_status-eq s t h = ground arith

module _ {F : Type 0} where
  -- What gorm fills in for a case: a key and the times, and the time of an update.
  abbrev pub stamp_case : ℕ → ℕ → LocalizationCase F → LocalizationCase F
  stamp_case n t c = record c { id = n; created_at = t; updated_at = t }

  abbrev pub touch_case : ℕ → LocalizationCase F → LocalizationCase F
  touch_case t c = record c { updated_at = t }

  -- The table of cases works, and the other requests, which run the same code, keep the cases.
  pub record IsCaseEnv (env : Env F) : Type 0 where
    pub cases : IsTable env.cases (λ c. c.id) stamp_case touch_case
    pub others : (w : World F) → RowsEvolve w.cases (env.others w).cases

  advance-RowStep :
      (t : ℕ) (to : CaseStatus) (g : Columns F) (c : LocalizationCase F)
      → IsColumns g
      → can_transition c.case_status to ≡ true
      → RowStep c (touch_case t (advance to g c))
  advance-RowStep t to g c h legal = record {
    legal = legal;
    bumped = refl;
    same_id = (h c).0;
    same_route = (h c).1;
    same_baseline = (h c).2;
    same_current = (h c).3;
    same_creator = (h c).4;
  }

-- The cases only move along the table.
abbrev pub case_guarantee : {F : Type 0} → Guarantee F
case_guarantee = record {
  Kept = λ v w. RowsEvolve v.cases w.cases;
  same = λ w. RowsEvolve-refl w.cases;
  chain = λ u v w. RowsEvolve-trans u.cases v.cases w.cases;
  later = λ w t. RowsEvolve-refl w.cases;
}

module _ {F A : Type 0} where
  abbrev Keeps : M F A → Type 0
  Keeps m = Preserves case_guarantee m

  -- What does not write the table keeps it.
  Keeps-same : (m : M F A) → ((w : World F) → (m w).1.cases ≡ w.cases) → Keeps m
  Keeps-same m h = record { keeps = λ w. rw (h w) (RowsEvolve-refl w.cases) }

module _ {F : Type 0} (env : Env F) where
  Keeps-yield : IsCaseEnv env → Keeps (yield_to_others env)
  unfolding yield_to_others
  Keeps-yield laws = record { keeps = λ w. laws.others w }

  Keeps-create_audit : ⦃f : Float F⦄ (entry : AuditLog F) → Keeps (create_audit env entry)
  Keeps-create_audit = framed_audits env case_guarantee (λ w rows. RowsEvolve-refl w.cases)

  module _ (laws : IsCaseEnv env) where
    Keeps-create : (item : LocalizationCase F) → Keeps (Repository.create env item)
    unfolding Repository.create
    Keeps-create item = record {
      keeps = λ w. elim (Result-cases (env.cases.create w.clock item w.cases)) [
        | inl ((item', rows), e) ↦
            subst (RowsEvolve w.cases) {x = rows} (ground arith)
              (create-Extends RowReach (λ r. here) laws.cases w.clock item item' w.cases rows e)
        | inr (e, h) ↦
            subst (RowsEvolve w.cases) {x = w.cases} (ground arith) (RowsEvolve-refl w.cases)
      ];
    }

    -- An update of the rows that `p` selects, each by a step of the table.
    updated-RowsEvolve :
        (t : ℕ) (p : LocalizationCase F → Bool) (to : CaseStatus) (g : Columns F)
        (rows later : List (LocalizationCase F)) (n : ℕ)
        → IsColumns g
        → ((c : LocalizationCase F) → p c ≡ true → can_transition c.case_status to ≡ true)
        → env.cases.update t p (advance to g) rows ≡ ok (n, later)
        → RowsEvolve rows later
    updated-RowsEvolve t p to g rows later n h legal e =
        update-Extends RowReach (λ r. here) laws.cases t n p (advance to g) rows later
          (λ c q. next here (advance-RowStep t to g c h (legal c q))) e

    Keeps-update_one :
        (missed : Error) (failed : Error → Error) (p : LocalizationCase F → Bool) (to : CaseStatus)
        (g : Columns F)
        → IsColumns g
        → ((c : LocalizationCase F) → p c ≡ true → can_transition c.case_status to ≡ true)
        → Keeps (Repository.update_one env missed failed p (advance to g))
    Keeps-update_one missed failed p to g h legal = record {
      keeps = λ w. elim (Result-cases (env.cases.update w.clock p (advance to g) w.cases)) [
        | inl ((n, rows), e) ↦
            subst (RowsEvolve w.cases) {x = rows} (ground arith)
              (updated-RowsEvolve w.clock p to g w.cases rows n h legal e)
        | inr (e, q) ↦
            subst (RowsEvolve w.cases) {x = w.cases} (ground arith) (RowsEvolve-refl w.cases)
      ];
    }

    Keeps-transition :
        (id version : ℕ) (from to : CaseStatus) (g : Columns F)
        → can_transition from to ≡ true
        → IsColumns g
        → Keeps (Repository.transition env id version from to g)
    unfolding Repository.transition
    Keeps-transition id version from to g legal h =
        Keeps-update_one _ _ (Repository.transition_where id version from) to g h (λ c q.
          subst (λ s. can_transition s to ≡ true) {x = from}
            (sym (same_status-eq c.case_status from (ground arith))) legal)

    Keeps-save_analysis :
        (id : ℕ) (status : CaseStatus) (g : Columns F)
        → can_transition analyzing status ≡ true
        → IsColumns g
        → Keeps (Repository.save_analysis env id status g)
    unfolding Repository.save_analysis
    Keeps-save_analysis id status g legal h =
        Keeps-update_one _ _ (λ c. c.id == id && same_status c.case_status analyzing) status g h
          (λ c q.
            subst (λ s. can_transition s status ≡ true) {x = analyzing}
              (sym (same_status-eq c.case_status analyzing (ground arith))) legal)

    Keeps-recover_stale_analysis :
        (id cutoff : ℕ) → Keeps (Repository.recover_stale_analysis env id cutoff)
    unfolding Repository.recover_stale_analysis can_transition
    Keeps-recover_stale_analysis id cutoff = record {
      keeps = λ w.
          let p : LocalizationCase F → Bool =
            λ c. c.id == id && same_status c.case_status analyzing && ltb c.updated_at cutoff in
          elim (Result-cases (env.cases.update w.clock p (advance draft expired) w.cases)) [
            | inl ((n, rows), e) ↦ subst (RowsEvolve w.cases) {x = rows} (ground arith) (
                updated-RowsEvolve w.clock p draft expired w.cases rows n
                  (λ c. (refl, refl, refl, refl, refl))
                  (λ c q.
                    subst (λ s. can_transition s draft ≡ true) {x = analyzing}
                      (sym (same_status-eq c.case_status analyzing (ground arith))) refl)
                  e)
            | inr (e, q) ↦
                subst (RowsEvolve w.cases) {x = w.cases} (ground arith) (RowsEvolve-refl w.cases)
          ];
    }

module _ {F : Type 0} ⦃f : Float F⦄ (env : Env F) where
  -- Every write of the program keeps the cases on their table.
  pub case-Writes : IsCaseEnv env → Writes env case_guarantee
  case-Writes laws = record {
    others = Keeps-yield env laws;
    create_audit = Keeps-create_audit env;
    cases = record {
      create = Keeps-create env laws;
      transition = Keeps-transition env laws;
      save_analysis = Keeps-save_analysis env laws;
      recover_stale_analysis = Keeps-recover_stale_analysis env laws;
    };
    routes =
        framed_routes env case_guarantee (λ w rows. RowsEvolve-refl w.cases) (Keeps-yield env laws)
          (Keeps-create_audit env);
    traces = framed_traces env case_guarantee (λ w rows. RowsEvolve-refl w.cases);
    events = framed_events env case_guarantee (λ w rows. RowsEvolve-refl w.cases);
  }
