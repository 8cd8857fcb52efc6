-- ===== src/Cases/Released.antt =====
-- That an analysis which was left does not hold its case for ever: `Analyze` of service/case_service.go.
use gb_522_l7o.Prelude.{
  ℕ, zero, suc, ◌-◌, ◌<◌, ◌≡◌, refl, sym, subst, ap, ◌∙◌, Bool, true, false, ◌&&◌, none, some, List,
  [], ◌∷◌, get_elem?, count_if, inl, inr, if◌then◌else◌, ltb, ◌==◌, arith,
}
use gb_522_l7o.Errors.{Error, Result, ok, internal}
use gb_522_l7o.Constants.{analyzing, draft, same_status}
use gb_522_l7o.Float.{Float}
use gb_522_l7o.Model.{LocalizationCase, AuditLog}
use gb_522_l7o.Database.{World, Env, M, written, ◌>>=◌, pure, on_error, now, transaction}
use gb_522_l7o.Audit.{Actor, audit, create_audit, is_blank}
use gb_522_l7o.Cases.Repository
use gb_522_l7o.Cases.Repository.{Columns, advance, expired}
use gb_522_l7o.Algorithm.Detect.Pipeline.{Result-cases}
use gb_522_l7o.Cases.Rows.{RowReach, RowReach-trans, evolved_at}
use gb_522_l7o.Database.Preserves.{Preserves, Preserves-on_error, >>=-ok, >>=-err}
use gb_522_l7o.Cases.Keeps.{IsCaseEnv, touch_case, case_guarantee, case-Writes}
use gb_522_l7o.Cases.Guarantee.{Preserves-reload, Preserves-analyze_case}
use gb_522_l7o.Cases.Service.{
  analysis_lease_timeout, AnalyzeCaseRequest, take_back, recover, reload, load_case, analyze,
}

module _ {F : Type 0} where
  -- The calls that a transaction makes at the time `t` do not fail, nor does its commit then.
  pub record IsWorking (env : Env F) (t : ℕ) : Type 0 where
    pub updates :
        (p : LocalizationCase F → Bool) (g : Columns F) (rows : List (LocalizationCase F))
        → (n : ℕ) × (later : List (LocalizationCase F)) × (env.cases.update t p g rows
            ≡ ok (n, later))
    pub logs :
        (entry : AuditLog F) (rows : List (AuditLog F))
        → (made : AuditLog F) × (later : List (AuditLog F)) × (env.audits.create t entry rows
            ≡ ok (made, later))
    pub commits : env.commit t ≡ none

  -- The row `i` is the case `id`, which is analyzing and was written more than ten minutes before `t`.
  pub record IsStale (id t i : ℕ) (c : LocalizationCase F) (rows : List (LocalizationCase F))
      : Type 0 where
    pub present : get_elem? rows i ≡ some c
    pub keyed : c.id ≡ id
    pub held : c.case_status ≡ analyzing
    pub left : c.updated_at < t - analysis_lease_timeout

  -- The row `i` has been `c`, and is as that or as others have moved it since.
  abbrev pub HasMoved : ℕ → LocalizationCase F → World F → Type 0
  HasMoved i c w = (row : LocalizationCase F) × (get_elem? w.cases i ≡ some row) × RowReach c row

  -- The condition of `RecoverStaleAnalysis`.
  abbrev stale_where : ℕ → ℕ → LocalizationCase F → Bool
  stale_where id cutoff c =
      c.id == id && same_status c.case_status analyzing && ltb c.updated_at cutoff

  IsStale-where :
      (id t i : ℕ) (c : LocalizationCase F) (rows : List (LocalizationCase F))
      → IsStale id t i c rows
      → stale_where id (t - analysis_lease_timeout) c ≡ true
  IsStale-where id t i c rows h =
      let keyed = h.keyed in let held = h.held in let left = h.left in ground arith

module _ {A : Type 0} where
  count_if-positive :
      (p : A → Bool) (rows : List A) (i : ℕ) (a : A)
      → get_elem? rows i ≡ some a
      → p a ≡ true
      → 0 < count_if p rows
  count_if-positive p [] i a h k = absurd (ground arith)
  count_if-positive p (x ∷ rows) zero a h k = ground arith
  count_if-positive p (x ∷ rows) (suc i) a h k = ground (arith, count_if-positive p rows i a h k)

  get_elem?-written :
      (touch : A → A) (p : A → Bool) (g : A → A) (rows : List A) (i : ℕ) (a : A)
      → get_elem? rows i ≡ some a
      → p a ≡ true
      → get_elem? (written touch p g rows) i ≡ some (touch (g a))
  get_elem?-written touch p g [] i a h k = absurd (ground arith)
  get_elem?-written touch p g (x ∷ rows) zero a h k =
      let same : x ≡ a = cc in
      subst (λ y. some (if p y then touch (g y) else y) ≡ some (touch (g a))) (sym same) (rw k refl)
  get_elem?-written touch p g (x ∷ rows) (suc i) a h k = get_elem?-written touch p g rows i a h k

module _ {F : Type 0} ⦃f : Float F⦄ (env : Env F) (laws : IsCaseEnv env) where
  >>=-step :
      {A B : Type 0} (P : Result B × World F → Type 0) (m : M F A) (g : A → M F B) (w : World F)
      (a : A)
      → (m w).0 ≡ ok a
      → P (g a (m w).1)
      → P ((m >>= g) w)
  >>=-step P m g w a e h = subst P (sym (>>=-ok m g w a e)) h

  create_audit-run :
      (entry : AuditLog F) (w : World F)
      → IsWorking env w.clock
      → is_blank entry.request_id ≡ false
      → ((create_audit env entry w).0 ≡ ok tt)
        × ((create_audit env entry w).1.cases ≡ w.cases)
        × ((create_audit env entry w).1.clock ≡ w.clock)
  unfolding create_audit
  create_audit-run entry w working named =
      let (made, later, q) = working.logs entry w.audits in
      (ground (arith, named, q), ground (arith, named, q), ground (arith, named, q))

  recover_stale_analysis-run :
      (id i : ℕ) (c : LocalizationCase F) (w : World F)
      → IsWorking env w.clock
      → IsStale id w.clock i c w.cases
      → let done = Repository.recover_stale_analysis env id (w.clock - analysis_lease_timeout) w in
        (done.0 ≡ ok true)
        × (get_elem? done.1.cases i ≡ some (touch_case w.clock (advance draft expired c)))
        × (done.1.clock ≡ w.clock)
  unfolding Repository.recover_stale_analysis
  recover_stale_analysis-run id i c w working stale =
      let p = stale_where id (w.clock - analysis_lease_timeout) in
      let meets = IsStale-where id w.clock i c w.cases stale in
      let (n, rows, e) = working.updates p (advance draft expired) w.cases in
      let (counted, wrote) =
        laws.cases.update_ok w.clock p (advance draft expired) w.cases n rows e in
      let one = count_if-positive p w.cases i c stale.present meets in
      let moved =
        get_elem?-written (touch_case w.clock) p (advance draft expired) w.cases i c stale.present
          meets in
      let positive : ltb 0 n ≡ true = ground (arith, counted, one) in
      (
        ground (arith, e, positive),
        subst (λ l. get_elem? l i ≡ some (touch_case w.clock (advance draft expired c))) {x = rows}
            (ground (arith, e)) (ap (λ l. get_elem? l i) wrote ∙ moved),
        ground (arith, e),
      )

  take_back-run :
      (id i : ℕ) (item c : LocalizationCase F) (actor : Actor) (w : World F)
      → IsWorking env w.clock
      → IsStale id w.clock i c w.cases
      → is_blank actor.request_id ≡ false
      → ((take_back env id item actor w).0 ≡ ok true)
        × (get_elem? (take_back env id item actor w).1.cases i
            ≡ some (touch_case w.clock (advance draft expired c)))
        × ((take_back env id item actor w).1.clock ≡ w.clock)
  unfolding take_back now audit pure
  take_back-run id i item c actor w working stale named =
      let (marked, moved, kept) = recover_stale_analysis-run id i c w working stale in
      let at = (Repository.recover_stale_analysis env id (w.clock - analysis_lease_timeout) w).1 in
      let logs = subst (IsWorking env) (sym kept) working in
      let P : Result Bool × World F → Type 0 = λ r.
        (r.0 ≡ ok true)
        × (get_elem? r.1.cases i ≡ some (touch_case w.clock (advance draft expired c)))
        × (r.1.clock ≡ w.clock) in
      >>=-step P now _ w w.clock refl (
        >>=-step P (Repository.recover_stale_analysis env id (w.clock - analysis_lease_timeout)) _ w
          true marked
          (let (ran, same, still) = create_audit-run _ at logs named in
            >>=-step P _ _ at tt ran (refl, ap (λ l. get_elem? l i) same ∙ moved, still ∙ kept)))

  -- A transaction whose body succeeds, when its commit does not fail.
  transaction-run :
      {A : Type 0} (failed : Error → Error) (m : M F A) (w : World F) (a : A)
      → (m (env.others w)).0 ≡ ok a
      → env.commit (m (env.others w)).1.clock ≡ none
      → ((on_error failed (transaction env m) w).0 ≡ ok a)
        × ((on_error failed (transaction env m) w).1.cases ≡ (m (env.others w)).1.cases)
  unfolding on_error transaction
  transaction-run failed m w a e commit = (ground (arith, e, commit), ground (arith, e, commit))

  recover-releases :
      (id i : ℕ) (item c : LocalizationCase F) (actor : Actor) (w : World F)
      → IsWorking env (env.others w).clock
      → IsStale id (env.others w).clock i c (env.others w).cases
      → is_blank actor.request_id ≡ false
      → HasMoved i
          (touch_case (env.others w).clock (advance draft expired c))
          (recover env id item actor w).1
  unfolding recover
  recover-releases id i item c actor w working stale named =
      let v = env.others w in
      let (taken, moved, kept_time) = take_back-run id i item c actor v working stale named in
      let failed = internal "recover interrupted analysis failed" in
      let (done, left) =
        transaction-run failed (take_back env id item actor) w true taken
          (ap (λ t. env.commit t) kept_time ∙ working.commits) in
      let at = (on_error failed (transaction env (take_back env id item actor)) w).1 in
      let again = on_error (internal "reload recovered case failed") (reload env id) in
      let kept =
        (Preserves-on_error case_guarantee _ (reload env id)
            (Preserves-reload env case_guarantee (case-Writes env laws) id)).keeps
          at in
      let there = ap (λ l. get_elem? l i) left ∙ moved in
      >>=-step (λ r. HasMoved i (touch_case v.clock (advance draft expired c)) r.1)
        (on_error failed (transaction env (take_back env id item actor))) _ w true done
        (evolved_at at.cases (again at).1.cases i kept there)

  -- What goes on after a step keeps the row, or moves it along.
  HasMoved-bind :
      {A B : Type 0} (i : ℕ) (c : LocalizationCase F) (m : M F A) (k : A → M F B) (w : World F)
      → ((a : A) → Preserves case_guarantee (k a))
      → HasMoved i c (m w).1
      → HasMoved i c ((m >>= k) w).1
  HasMoved-bind i c m k w keeps (row, there, path) =
      let P = λ (v : World F). HasMoved i c v in
      elim (Result-cases (m w).0) [
        | inr (e, q) ↦ subst P (ap (λ r. r.1) (sym (>>=-err m k w e q))) (row, there, path)
        | inl (a, q) ↦
            let at = (m w).1 in
            let (later, here, more) =
              evolved_at at.cases (k a at).1.cases i ((keeps a).keeps at) there in
            subst P (ap (λ r. r.1) (sym (>>=-ok m k w a q))) (later, here, RowReach-trans path more)
      ]

  -- A case whose analysis was left is released by the next `Analyze`: it reads the case as analyzing, and
  -- when its transaction begins the row has been analyzing for more than ten minutes. If the calls of
  -- that transaction do not fail, the request has an id, and the other requests move the cases along the
  -- transition table, then the case has gone back to draft, one version on, and when `Analyze` ends,
  -- well or with an error, the row is as it was put back or as it was moved since.
  pub analyze-releases :
      (id i : ℕ) (item c : LocalizationCase F) (request : AnalyzeCaseRequest F) (actor : Actor)
      (w : World F)
      → (load_case env id w).0 ≡ ok item
      → item.case_status ≡ analyzing
      → IsWorking env (env.others (load_case env id w).1).clock
      → (let v = env.others (load_case env id w).1 in IsStale id v.clock i c v.cases)
      → is_blank actor.request_id ≡ false
      → HasMoved i
          (touch_case (env.others (load_case env id w).1).clock (advance draft expired c))
          (analyze env id request actor w).1
  unfolding analyze
  analyze-releases id i item c request actor w loaded held working stale named =
      let at = (load_case env id w).1 in
      let put_back = touch_case (env.others at).clock (advance draft expired c) in
      let taken : same_status item.case_status analyzing ≡ true =
        ap (λ s. same_status s analyzing) held in
      >>=-step (λ r. HasMoved i put_back r.1) (load_case env id) _ w item loaded
        (HasMoved-bind i put_back _ _ at
          (λ current.
            Preserves-analyze_case env case_guarantee (case-Writes env laws) id current request
              actor)
          (subst
            (λ (b : Bool).
              HasMoved i put_back ((if b then recover env id item actor else pure item) at).1)
            (sym taken) (recover-releases id i item c actor at working stale named)))
