-- ===== src/Audit/Methods.antt =====
-- The entries that the methods of backend/internal/service leave in the audit log.
use Prim.Native.Char.{Char}
use gb_522_l7o.Prelude.{ℕ, List, arith}
use gb_522_l7o.Prelude.Int.{ℤ}
use gb_522_l7o.Errors.{Error, Result, ok, err}
use gb_522_l7o.Float.{Float}
use gb_522_l7o.Model.{FiberRoute, LocalizationCase}
use gb_522_l7o.Database.{Env}
use gb_522_l7o.Database.Preserves.{Preserves}
use gb_522_l7o.Constants.{CaseStatus}
use gb_522_l7o.Writes.{Writes, preserves}
use gb_522_l7o.Writes.Frames.{only_cases, only_routes, Preserves-get_by_code}
use gb_522_l7o.Audit.{Actor}
use gb_522_l7o.Audit.Appended.{Appended-refl, IsAuditEnv, audit_guarantee}
use gb_522_l7o.Audit.Logged.{Logs, logs}
use gb_522_l7o.Algorithm.Compare.{Difference}
use gb_522_l7o.Cases.Repository
use gb_522_l7o.Cases.Repository.{Columns}
use gb_522_l7o.Cases.Documents.{CaseParameters}
use gb_522_l7o.Cases.Guarantee.{
  Preserves-load_case, Preserves-reload, Preserves-check_traces, Preserves-compare_events,
  Preserves-recover, Preserves-start_analysis,
}
use gb_522_l7o.Cases.Service as CaseService
use gb_522_l7o.Cases.Service.{
  CreateCaseRequest, AnalyzeCaseRequest, ConfirmCaseRequest, CloseCaseRequest,
}
use gb_522_l7o.Routes.Repository as RouteRepository
use gb_522_l7o.Routes.Service as RouteService
use gb_522_l7o.Routes.Service.{CreateRouteRequest, UpdateRouteRequest}
use gb_522_l7o.Events.Service as EventService
use gb_522_l7o.Events.Service.{ReviewEventRequest}
use gb_522_l7o.Events.Detection as Detection
use gb_522_l7o.Events.Detection.{DetectEventsRequest}
use gb_522_l7o.Traces.Service as TraceService
use gb_522_l7o.Traces.Service.{ImportTraceRequest}
use gb_522_l7o.Http.Keeps.{Preserves-load_route, Preserves-load_trace, Preserves-compute}

module _ {F : Type 0} ⦃f : Float F⦄ (env : Env F) where
  transition-Appended :
      (id version : ℕ) (from to : CaseStatus) (columns : Columns F)
      → Preserves audit_guarantee (Repository.transition env id version from to columns)
  unfolding Repository.transition
  transition-Appended id version from to columns =
      only_cases env audit_guarantee (λ w rows. Appended-refl w.audits)
        (Repository.transition env id version from to columns) (λ w. ground arith)

  save_analysis-Appended :
      (id : ℕ) (status : CaseStatus) (columns : Columns F)
      → Preserves audit_guarantee (Repository.save_analysis env id status columns)
  unfolding Repository.save_analysis
  save_analysis-Appended id status columns =
      only_cases env audit_guarantee (λ w rows. Appended-refl w.audits)
        (Repository.save_analysis env id status columns) (λ w. ground arith)

  route_create-Appended :
      (route : FiberRoute F) → Preserves audit_guarantee (RouteRepository.create env route)
  unfolding RouteRepository.create
  route_create-Appended route =
      only_routes env audit_guarantee (λ w rows. Appended-refl w.audits)
        (RouteRepository.create env route) (λ w. ground arith)

module _ {F : Type 0} ⦃f : Float F⦄ (env : Env F) (laws : IsAuditEnv env)
    (writes : Writes env audit_guarantee) where
  pub create_case-Logs :
      (request : CreateCaseRequest F) (actor : Actor)
      → Logs actor "case.created" (CaseService.create env request actor)
  unfolding CaseService.create
  create_case-Logs request actor = search (logs, preserves, Preserves-check_traces) depth 14

  finish_analysis-Logs :
      (id : ℕ) (item : LocalizationCase F) (differences : List (Difference F))
      (parameters : CaseParameters F) (actor : Actor)
      → Logs actor "case.analysis_completed"
          (CaseService.finish_analysis env id item differences parameters actor)
  unfolding CaseService.finish_analysis
  finish_analysis-Logs id item differences parameters actor =
      search (logs, preserves, save_analysis-Appended, Preserves-reload) depth 14

  fail_analysis-Logs :
      {A : Type 0} (item : LocalizationCase F) (e : Error) (actor : Actor)
      → Logs actor "case.analysis_completed" (CaseService.fail_analysis env {A = A} item e actor)
  unfolding CaseService.fail_analysis
  fail_analysis-Logs item e actor = search (logs, preserves, save_analysis-Appended) depth 14

  settle-Logs :
      (id : ℕ) (item : LocalizationCase F) (parameters : CaseParameters F) (actor : Actor)
      (outcome : Result (List (Difference F)))
      → Logs actor "case.analysis_completed"
          (CaseService.settle env id item parameters actor outcome)
  unfolding CaseService.settle
  settle-Logs id item parameters actor (ok differences) =
      finish_analysis-Logs id item differences parameters actor
  settle-Logs id item parameters actor (err e) = fail_analysis-Logs item e actor

  pub analyze-Logs :
      (id : ℕ) (request : AnalyzeCaseRequest F) (actor : Actor)
      → Logs actor "case.analysis_completed" (CaseService.analyze env id request actor)
  unfolding CaseService.analyze CaseService.analyze_case CaseService.run_analysis
  analyze-Logs id request actor =
      search
        (
          logs, preserves, Preserves-load_case, Preserves-recover, Preserves-start_analysis,
          Preserves-compare_events, settle-Logs,
        )
        depth 16

  pub confirm-Logs :
      (id : ℕ) (request : ConfirmCaseRequest F) (actor : Actor)
      → Logs actor "case.confirmed" (CaseService.confirm env id request actor)
  unfolding CaseService.confirm CaseService.confirm_case
  confirm-Logs id request actor =
      search (logs, preserves, Preserves-load_case, Preserves-reload, transition-Appended) depth 16

  pub close-Logs :
      (id : ℕ) (request : CloseCaseRequest) (actor : Actor)
      → Logs actor "case.closed" (CaseService.close env id request actor)
  unfolding CaseService.close CaseService.close_case
  close-Logs id request actor =
      search (logs, preserves, Preserves-load_case, Preserves-reload, transition-Appended) depth 16

  store_route-Logs :
      (upper : Char → Char) (route : FiberRoute F) (actor : Actor) (found : Result (FiberRoute F))
      → Logs actor "route.created" (RouteService.store_route env upper route actor found)
  unfolding RouteService.store_route
  store_route-Logs upper route actor (ok taken) = search logs
  store_route-Logs upper route actor (err e) =
      search (logs, preserves, route_create-Appended) depth 12

  pub create_route-Logs :
      (upper : Char → Char) (request : CreateRouteRequest F) (actor : Actor)
      → Logs actor "route.created" (RouteService.create env upper request actor)
  unfolding RouteService.create
  create_route-Logs upper request actor =
      search (logs, preserves, Preserves-get_by_code, store_route-Logs) depth 12

  pub update_route-Logs :
      (upper : Char → Char) (id : ℕ) (request : UpdateRouteRequest F) (actor : Actor)
      → Logs actor "route.updated" (RouteService.update env upper id request actor)
  unfolding RouteService.update
  update_route-Logs upper id request actor = search (logs, preserves, Preserves-load_route) depth 14

  pub set_baseline-Logs :
      (upper : Char → Char) (id trace_id : ℕ) (actor : Actor)
      → Logs actor "route.baseline_changed" (RouteService.set_baseline env upper id trace_id actor)
  unfolding RouteService.set_baseline
  set_baseline-Logs upper id trace_id actor =
      search (logs, preserves, Preserves-load_route) depth 16

  pub import_trace-Logs :
      (max_points : ℤ) (request : ImportTraceRequest F) (actor : Actor)
      → Logs actor "trace.imported" (TraceService.import_trace env max_points request actor)
  unfolding TraceService.import_trace TraceService.load_import_route TraceService.prepare_trace
      TraceService.store_trace
  import_trace-Logs max_points request actor = search (logs, preserves) depth 16

  pub detect_events-Logs :
      (id : ℕ) (request : DetectEventsRequest F) (actor : Actor)
      → Logs actor "trace.events_detected" (Detection.detect_events env id request actor)
  unfolding Detection.detect_events Detection.load_trace_route Detection.save_detection
  detect_events-Logs id request actor =
      search (logs, preserves, Preserves-load_trace, Preserves-compute) depth 18

  pub review-Logs :
      (id : ℕ) (request : ReviewEventRequest F) (actor : Actor)
      → Logs actor "event.reviewed" (EventService.review env id request actor)
  unfolding EventService.review EventService.load_event EventService.load_event_route
      EventService.review_on EventService.save_review
  review-Logs id request actor = search (logs, preserves) depth 18
