-- ===== src/Cases/Guarantee.antt =====
-- The methods of `CaseService`, service/case_service.go, under a relation of the tables before and after.
use gb_522_l7o.Prelude.{ℕ, ◌≡◌, refl, true, not, Option, none, some, List, [], ◌∷◌}
use gb_522_l7o.Errors.{Error, Result, ok, err, error_string}
use gb_522_l7o.Constants.{
  draft, analyzing, pending_review, confirmed, closed, same_status, can_transition,
}
use gb_522_l7o.Float.{Float}
use gb_522_l7o.Model.{LocalizationCase}
use gb_522_l7o.Database.{Env}
use gb_522_l7o.Audit.{Actor}
use gb_522_l7o.Algorithm.Compare.{Difference, primary_difference}
use gb_522_l7o.Cases.Documents.{CaseParameters}
use gb_522_l7o.Database.Preserves.{
  Guarantee, Preserves, Preserves-pure, Preserves-raise, Preserves-attempt, Preserves-now,
  Preserves-bind, Preserves-if, Preserves-on_error, Preserves-transaction,
}
use gb_522_l7o.Writes.{Writes, IsColumns, preserves}
use gb_522_l7o.Cases.Service.{
  CreateCaseRequest, AnalyzeCaseRequest, ConfirmCaseRequest, CloseCaseRequest, load_case, reload,
  check_traces, create, compare_events, take_back, recover, start_analysis, fail_analysis, analysed,
  with_estimate, finish_analysis, settle, run_analysis, analyze_case, analyze, concluded,
  confirm_case, confirm, close_case, close,
}

module _ {F : Type 0} ⦃f : Float F⦄ (env : Env F) (g : Guarantee F) (writes : Writes env g) where
  pub Preserves-load_case : (id : ℕ) → Preserves g (load_case env id)
  unfolding load_case
  Preserves-load_case id = search preserves

  pub Preserves-reload : (id : ℕ) → Preserves g (reload env id)
  Preserves-reload id = search preserves

  pub Preserves-check_traces :
      (ids : List ℕ) (route_id : ℕ) → Preserves g (check_traces env ids route_id)
  unfolding check_traces
  Preserves-check_traces [] route_id = search preserves
  Preserves-check_traces (id ∷ ids) route_id = Preserves-bind g _ _ (search preserves) (λ a.
      Preserves-bind g _ _ (search preserves)
        (λ b. Preserves-if g b _ _ (Preserves-check_traces ids route_id) (search preserves)))

  -- `Create` keeps them.
  pub create-Preserves :
      (request : CreateCaseRequest F) (actor : Actor) → Preserves g (create env request actor)
  unfolding create
  create-Preserves request actor = search (preserves, Preserves-check_traces) depth 9

  pub Preserves-compare_events :
      (item : LocalizationCase F) (tolerance loss : F)
      → Preserves g (compare_events env item tolerance loss)
  unfolding compare_events
  Preserves-compare_events item tolerance loss = search preserves depth 9

  pub Preserves-recover :
      (id : ℕ) (item : LocalizationCase F) (actor : Actor) → Preserves g (recover env id item actor)
  unfolding recover take_back
  Preserves-recover id item actor = search preserves depth 9

  draft-analyzing : can_transition draft analyzing ≡ true
  unfolding can_transition
  draft-analyzing = refl

  pub Preserves-start_analysis :
      (item : LocalizationCase F) (actor : Actor) → Preserves g (start_analysis env item actor)
  unfolding start_analysis
  Preserves-start_analysis item actor =
      let taken =
        writes.cases.transition item.id item.version draft analyzing
          (λ c. record c { analysis_error = "" }) draft-analyzing
          (λ c. (refl, refl, refl, refl, refl)) in
      Preserves-on_error g _ _ (
        Preserves-transaction g env _ writes.others
          (Preserves-bind g _ _ taken (λ a. search preserves)))

  analyzing-draft : can_transition analyzing draft ≡ true
  unfolding can_transition
  analyzing-draft = refl

  pub Preserves-fail_analysis :
      {A : Type 0} (item : LocalizationCase F) (e : Error) (actor : Actor)
      → Preserves g (fail_analysis env {A = A} item e actor)
  unfolding fail_analysis
  Preserves-fail_analysis item e actor =
      let saved =
        writes.cases.save_analysis item.id draft (λ c. record c { analysis_error = error_string e })
          analyzing-draft (λ c. (refl, refl, refl, refl, refl)) in
      Preserves-bind g _ _
        (Preserves-attempt g _ (
          Preserves-transaction g env _ writes.others
            (Preserves-bind g _ _ saved (λ a. search preserves))))
        (λ a. Preserves-raise g _)

  with_estimate-IsColumns :
      (estimate : Option (F × F)) (g : LocalizationCase F → LocalizationCase F)
      → IsColumns g
      → IsColumns (λ c. with_estimate env estimate (g c))
  with_estimate-IsColumns none g h c = h c
  with_estimate-IsColumns (some (distance, uncertainty)) g h c = h c

  analyzing-pending_review : can_transition analyzing pending_review ≡ true
  unfolding can_transition
  analyzing-pending_review = refl

  Preserves-finish_analysis :
      (id : ℕ) (item : LocalizationCase F) (differences : List (Difference F))
      (parameters : CaseParameters F) (actor : Actor)
      → Preserves g (finish_analysis env id item differences parameters actor)
  unfolding finish_analysis
  Preserves-finish_analysis id item differences parameters actor =
      let saved =
        writes.cases.save_analysis item.id pending_review (analysed env differences parameters)
          analyzing-pending_review
          (with_estimate-IsColumns (primary_difference differences) _
            (λ c. (refl, refl, refl, refl, refl))) in
      Preserves-bind g _ _
        (Preserves-on_error g _ _ (
          Preserves-transaction g env _ writes.others
            (Preserves-bind g _ _ saved (λ a. search preserves))))
        (λ a. Preserves-reload id)

  Preserves-settle :
      (id : ℕ) (item : LocalizationCase F) (parameters : CaseParameters F) (actor : Actor)
      (outcome : Result (List (Difference F)))
      → Preserves g (settle env id item parameters actor outcome)
  unfolding settle
  Preserves-settle id item parameters actor (ok differences) =
      Preserves-finish_analysis id item differences parameters actor
  Preserves-settle id item parameters actor (err e) = Preserves-fail_analysis item e actor

  Preserves-run_analysis :
      (id : ℕ) (item : LocalizationCase F) (request : AnalyzeCaseRequest F) (actor : Actor)
      → Preserves g (run_analysis env id item request actor)
  unfolding run_analysis
  Preserves-run_analysis id item request actor =
      Preserves-bind g _ _ (Preserves-attempt g _ (Preserves-compare_events item _ _))
        (λ outcome. Preserves-settle id item _ actor outcome)

  pub Preserves-analyze_case :
      (id : ℕ) (item : LocalizationCase F) (request : AnalyzeCaseRequest F) (actor : Actor)
      → Preserves g (analyze_case env id item request actor)
  unfolding analyze_case
  Preserves-analyze_case id item request actor =
      Preserves-if g (same_status item.case_status closed) _ _ (Preserves-raise g _) (
        Preserves-if g (not (can_transition item.case_status analyzing)) _ _ (Preserves-raise g _) (
          Preserves-bind g _ _ (Preserves-start_analysis item actor)
            (λ a. Preserves-run_analysis id _ request actor)))

  -- `Analyze` keeps them.
  pub analyze-Preserves :
      (id : ℕ) (request : AnalyzeCaseRequest F) (actor : Actor)
      → Preserves g (analyze env id request actor)
  unfolding analyze
  analyze-Preserves id request actor = Preserves-bind g _ _ (Preserves-load_case id) (λ item.
      Preserves-bind g _ _
        (Preserves-if g _ _ _ (Preserves-recover id item actor) (Preserves-pure g item))
        (λ current. Preserves-analyze_case id current request actor))

  pending_review-confirmed : can_transition pending_review confirmed ≡ true
  unfolding can_transition
  pending_review-confirmed = refl

  -- `Confirm` keeps them.
  pub confirm-Preserves :
      (id : ℕ) (request : ConfirmCaseRequest F) (actor : Actor)
      → Preserves g (confirm env id request actor)
  unfolding confirm confirm_case
  confirm-Preserves id request actor =
      let taken =
        writes.cases.transition id request.version pending_review confirmed
          (concluded env request actor) pending_review-confirmed
          (λ c. (refl, refl, refl, refl, refl)) in
      Preserves-if g _ _ _ (Preserves-raise g _) (
        Preserves-bind g _ _ (Preserves-load_case id) (λ item.
          Preserves-if g _ _ _ (Preserves-raise g _) (
            Preserves-bind g _ _
              (Preserves-on_error g _ _ (
                Preserves-transaction g env _ writes.others
                  (Preserves-bind g _ _ taken (λ a. search preserves))))
              (λ a. Preserves-reload id))))

  confirmed-closed : can_transition confirmed closed ≡ true
  unfolding can_transition
  confirmed-closed = refl

  -- `Close` keeps them.
  pub close-Preserves :
      (id : ℕ) (request : CloseCaseRequest) (actor : Actor)
      → Preserves g (close env id request actor)
  unfolding close close_case
  close-Preserves id request actor =
      let taken : (t : ℕ) → Preserves g _ = λ t.
        writes.cases.transition id request.version confirmed closed
          (λ c. record c { closed_at = some t }) confirmed-closed
          (λ c. (refl, refl, refl, refl, refl)) in
      Preserves-bind g _ _ (Preserves-load_case id) (λ item.
        Preserves-bind g _ _ (Preserves-now g) (λ t.
          Preserves-bind g _ _
            (Preserves-on_error g _ _ (
              Preserves-transaction g env _ writes.others
                (Preserves-bind g _ _ (taken t) (λ a. search preserves))))
            (λ a. Preserves-reload id)))
