-- ===== src/Cases/Service/Analysis.antt =====
-- `Analyze` of `CaseService`, backend/internal/service/case_service.go.
use gb_522_l7o.Prelude.{
  ℕ, ◌+◌, ◌-◌, ◌%◌, ◌^◌, Bool, true, false, not, ◌||◌, Option, none, some, List, map, if◌then◌else◌,
  length, ◌==◌,
}
use gb_522_l7o.Errors.{
  Error, nil, text, wrap, app, algorithm_input, Result, ok, err, conflict, internal, error_string,
}
use gb_522_l7o.Constants.{draft, analyzing, pending_review, closed, same_status, can_transition}
use gb_522_l7o.Float.{Float}
use gb_522_l7o.Json.{Json, str, arr, obj, done, field, nat}
use gb_522_l7o.Model.{LocalizationCase, EventMarker}
use gb_522_l7o.Database.{
  Env, M, ◌>>=◌, ◌>>◌, pure, raise, on_error, now, yield_to_others, transaction, attempt, lift,
}
use gb_522_l7o.Audit.{Actor}
use gb_522_l7o.Algorithm.Compare.{ComparableEvent, Difference, compare_baseline, primary_difference}
use gb_522_l7o.Cases.Documents.{
  CaseParameters, parameters_document, saved_parameters, difference_items, single, status_name,
}
use gb_522_l7o.Cases.Repository
use gb_522_l7o.Cases.Repository.{Columns}
use gb_522_l7o.Cases.Service.Base.{
  AnalyzeCaseRequest, analysis_lease_timeout, snapshot, empty_document, document, record_case,
  or_default, load_case, reload,
}

module _ {F : Type 0} ⦃f : Float F⦄ (env : Env F) where
  abbrev comparable : EventMarker F → ComparableEvent F
  comparable e = record {
    id = e.id;
    distance_m = e.distance_m;
    insertion_loss_db = e.insertion_loss_db;
    confidence = e.confidence;
  }

  unfoldable pub compare_events : LocalizationCase F → F → F → M F (List (Difference F))
  compare_events item tolerance loss = do
    yield_to_others env
    baseline ←
        on_error (wrap "load baseline events") (Repository.for_trace env item.baseline_trace_id)
    yield_to_others env
    current ← on_error (wrap "load current events") (Repository.for_trace env item.current_trace_id)
    if length baseline == 0 || length current == 0
        then raise (text "both traces require detected events")
        else lift
            (compare_baseline (map comparable baseline) (map comparable current) tolerance loss)

  -- `Analyze`, the function of the transaction that takes back a case whose analysis has been left for
  -- too long.
  unfoldable pub take_back : ℕ → LocalizationCase F → Actor → M F Bool
  take_back id item actor = do
    t ← now
    recovered ← Repository.recover_stale_analysis env id (t - analysis_lease_timeout)
    if recovered
        then (record_case env actor "case.analysis_recovered" id item.route_id
              (snapshot env (single "status" (str (status_name analyzing))))
              (snapshot env (
                obj (
                  field "reason" (str "worker_expired")
                    (field "status" (str (status_name draft)) done))))
            >> pure true)
        else pure false

  -- `Analyze`, that part.
  unfoldable pub recover : ℕ → LocalizationCase F → Actor → M F (LocalizationCase F)
  recover id item actor = do
    recovered ←
        on_error (internal "recover interrupted analysis failed")
          (transaction env (take_back id item actor))
    if recovered
        then on_error (internal "reload recovered case failed") (reload env id)
        else pure item

  -- `Analyze`, the transaction that takes the case.
  unfoldable pub start_analysis : LocalizationCase F → Actor → M F (Unit {0})
  start_analysis item actor = on_error (conflict "case changed while analysis was starting") (
      transaction env (
        Repository.transition env item.id item.version draft analyzing
          (λ c. record c { analysis_error = "" })
        >> record_case env actor "case.analysis_started" item.id item.route_id
            (snapshot env (single "status" (str (status_name item.case_status))))
            (snapshot env (single "status" (str (status_name analyzing))))))

  -- `Analyze`, the transaction that gives the case back with the error, and the error of the
  -- method. The outcome of that transaction is ignored.
  unfoldable pub fail_analysis : {A : Type 0} → LocalizationCase F → Error → Actor → M F A
  fail_analysis item e actor = do
    let message = error_string e
    attempt (
        transaction env (
          Repository.save_analysis env item.id draft (λ c. record c { analysis_error = message })
          >> record_case env actor "case.analysis_failed" item.id item.route_id empty_document
              (snapshot env (single "error" (str message)))))
    raise (app algorithm_input 422 "case analysis could not be completed" e)

  -- The estimate, where there is a difference.
  abbrev pub with_estimate : Option (F × F) → Columns F
  with_estimate none c = c
  with_estimate (some (distance, uncertainty)) c = record c {
    estimated_distance_m = some distance;
    uncertainty_m = some uncertainty;
  }

  -- The columns of a finished analysis.
  abbrev pub analysed : List (Difference F) → CaseParameters F → Columns F
  analysed differences parameters c = with_estimate (primary_difference differences) (record c {
    differences_json = arr (difference_items differences);
    parameters_json = parameters_document parameters;
    analysis_error = "";
  })

  -- `Analyze`, the transaction that saves the result.
  unfoldable pub finish_analysis :
      ℕ
      → LocalizationCase F
      → List (Difference F)
      → CaseParameters F
      → Actor
      → M F (LocalizationCase F)
  finish_analysis id item differences parameters actor = do
    on_error (conflict "case changed while analysis was saved") (
        transaction env (
          Repository.save_analysis env item.id pending_review (analysed differences parameters)
          >> record_case env actor "case.analysis_completed" item.id item.route_id empty_document (
              snapshot env (
                obj (
                  field "differences" (nat (length differences))
                    (field "parameters" (parameters_document parameters) done))))))
    reload env id

  -- The thresholds of the request, else those saved, else the defaults.
  abbrev pub chosen_parameters : AnalyzeCaseRequest F → Json F → CaseParameters F
  chosen_parameters request document =
      let saved = saved_parameters document in
      record {
        distance_tolerance_m =
            or_default (or_default request.distance_tolerance_m saved.distance_tolerance_m)
              (f.lit 25 0);
        loss_increase_db =
            or_default (or_default request.loss_increase_db saved.loss_increase_db) (f.lit 5 1);
      }

  -- `Analyze`, once the events are compared.
  unfoldable pub settle :
      ℕ
      → LocalizationCase F
      → CaseParameters F
      → Actor
      → Result (List (Difference F))
      → M F (LocalizationCase F)
  settle id item parameters actor (err e) = fail_analysis item e actor
  settle id item parameters actor (ok differences) =
      finish_analysis id item differences parameters actor

  -- `Analyze`, once the case is taken.
  unfoldable pub run_analysis :
      ℕ → LocalizationCase F → AnalyzeCaseRequest F → Actor → M F (LocalizationCase F)
  run_analysis id item request actor = do
    let parameters = chosen_parameters request item.parameters_json
    outcome ←
        attempt (compare_events item parameters.distance_tolerance_m parameters.loss_increase_db)
    settle id item parameters actor outcome

  -- `Analyze`, once the case is read and perhaps taken back.
  unfoldable pub analyze_case :
      ℕ → LocalizationCase F → AnalyzeCaseRequest F → Actor → M F (LocalizationCase F)
  analyze_case id item request actor =
      if same_status item.case_status closed
      then raise (conflict "closed cases cannot be analyzed" nil)
      else if not (can_transition item.case_status analyzing)
      then raise (conflict "case must be in draft before analysis" nil)
      else start_analysis item actor
        >> run_analysis id
            (record item { case_status = analyzing; version = (item.version + 1) % 2 ^ 64 }) request
            actor

  unfoldable pub analyze : ℕ → AnalyzeCaseRequest F → Actor → M F (LocalizationCase F)
  analyze id request actor = do
    item ← load_case env id
    current ← if same_status item.case_status analyzing then recover id item actor else pure item
    analyze_case id current request actor
