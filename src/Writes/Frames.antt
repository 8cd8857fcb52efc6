-- ===== src/Writes/Frames.antt =====
-- The writes of one table under a relation that looks at others: backend/internal/repository.
use Prim.Native.Char.{Char}
use Prim.Native.String.{String}
use gb_522_l7o.Prelude.{◌≡◌, subst, List, arith}
use gb_522_l7o.Errors.{Result, ok, err}
use gb_522_l7o.Float.{Float}
use gb_522_l7o.Model.{FiberRoute, TraceCapture, EventMarker, LocalizationCase, AuditLog}
use gb_522_l7o.Database.{World, Env, M, yield_to_others}
use gb_522_l7o.Database.Preserves.{
  Guarantee, Preserves, Preserves-read, Preserves-pure, Preserves-raise, Preserves-bind,
  Preserves-if, Preserves-on_error, Preserves-attempt, Preserves-transaction,
}
use gb_522_l7o.Audit.{Actor, create_audit}
use gb_522_l7o.Cases.Repository as CaseRepository
use gb_522_l7o.Routes.Repository as RouteRepository
use gb_522_l7o.Routes.Service as RouteService
use gb_522_l7o.Routes.Service.{CreateRouteRequest}
use gb_522_l7o.Events.Repository as EventRepository
use gb_522_l7o.Traces.Service as TraceService
use gb_522_l7o.Writes.{CaseWrites, RouteWrites, TraceWrites, EventWrites}

-- The method that creates a route keeps what its insert keeps.
module _ {F : Type 0} ⦃f : Float F⦄ (env : Env F) (g : Guarantee F) where
  pub Preserves-get_by_code : (code : String) → Preserves g (RouteRepository.get_by_code env code)
  unfolding RouteRepository.get_by_code
  Preserves-get_by_code code =
      Preserves-read g (RouteRepository.get_by_code env code) (λ w. ground arith)

  module _ (others : Preserves g (yield_to_others env))
      (audited : (entry : AuditLog F) → Preserves g (create_audit env entry))
      (created : (route : FiberRoute F) → Preserves g (RouteRepository.create env route)) where
    Preserves-store_route :
        (upper : Char → Char) (route : FiberRoute F) (actor : Actor) (found : Result (FiberRoute F))
        → Preserves g (RouteService.store_route env upper route actor found)
    unfolding RouteService.store_route
    Preserves-store_route upper route actor (ok taken) = Preserves-raise g _
    Preserves-store_route upper route actor (err e) = Preserves-if g _ _ _ (Preserves-raise g e) (
        Preserves-bind g _ _ (created route)
          (λ made. Preserves-bind g _ _ (audited _) (λ _. Preserves-pure g made)))

    pub create_route-Preserves :
        (upper : Char → Char) (request : CreateRouteRequest F) (actor : Actor)
        → Preserves g (RouteService.create env upper request actor)
    unfolding RouteService.create
    create_route-Preserves upper request actor = Preserves-on_error g _ _ (
        Preserves-transaction g env _ others (
          Preserves-bind g _ _ (Preserves-attempt g _ (Preserves-get_by_code _))
            (λ found. Preserves-store_route upper _ actor found)))

module _ {F : Type 0} ⦃f : Float F⦄ (env : Env F) (g : Guarantee F) where
  pub framed_audits :
      ((w : World F) (rows : List (AuditLog F)) → g.Kept w (record w { audits = rows }))
      → (entry : AuditLog F) → Preserves g (create_audit env entry)
  unfolding create_audit
  framed_audits frame entry = record {
    keeps = λ w.
        let made = create_audit env entry w in
        subst (g.Kept w) {x = record w { audits = made.1.audits }} (ground arith)
          (frame w made.1.audits);
  }

  module _
      (frame : (w : World F) (rows : List (LocalizationCase F))
        → g.Kept w (record w { cases = rows })) where
    pub only_cases :
        {A : Type 0} (m : M F A)
        → ((w : World F) → record w { cases = (m w).1.cases } ≡ (m w).1)
        → Preserves g m
    only_cases m h = record { keeps = λ w. subst (g.Kept w) (h w) (frame w (m w).1.cases) }

    pub framed_cases : CaseWrites env g
    unfolding CaseRepository.create CaseRepository.transition CaseRepository.save_analysis
        CaseRepository.recover_stale_analysis
    framed_cases = record {
      create = λ item. only_cases (CaseRepository.create env item) (λ w. ground arith);
      transition = λ id version from to columns legal same.
          only_cases (CaseRepository.transition env id version from to columns) (λ w. ground arith);
      save_analysis = λ id status columns legal same.
          only_cases (CaseRepository.save_analysis env id status columns) (λ w. ground arith);
      recover_stale_analysis = λ id cutoff.
          only_cases (CaseRepository.recover_stale_analysis env id cutoff) (λ w. ground arith);
    }

  module _
      (frame : (w : World F) (rows : List (FiberRoute F))
        → g.Kept w (record w { routes = rows })) where
    pub only_routes :
        {A : Type 0} (m : M F A)
        → ((w : World F) → record w { routes = (m w).1.routes } ≡ (m w).1)
        → Preserves g m
    only_routes m h = record { keeps = λ w. subst (g.Kept w) (h w) (frame w (m w).1.routes) }

    pub framed_routes :
        Preserves g (yield_to_others env)
        → ((entry : AuditLog F) → Preserves g (create_audit env entry))
        → RouteWrites env g
    unfolding RouteRepository.create RouteRepository.update RouteRepository.set_baseline
    framed_routes others audited = record {
      create =
          create_route-Preserves env g others audited
            (λ route. only_routes (RouteRepository.create env route) (λ w. ground arith));
      update = λ route. only_routes (RouteRepository.update env route) (λ w. ground arith);
      set_baseline = λ id trace_id.
          only_routes (RouteRepository.set_baseline env id trace_id) (λ w. ground arith);
    }

  module _
      (frame : (w : World F) (rows : List (TraceCapture F))
        → g.Kept w (record w { traces = rows })) where
    only_traces :
        {A : Type 0} (m : M F A)
        → ((w : World F) → record w { traces = (m w).1.traces } ≡ (m w).1)
        → Preserves g m
    only_traces m h = record { keeps = λ w. subst (g.Kept w) (h w) (frame w (m w).1.traces) }

    pub framed_traces : TraceWrites env g
    unfolding TraceService.create_trace EventRepository.update_processing
    framed_traces = record {
      create = λ trace. only_traces (TraceService.create_trace env trace) (λ w. ground arith);
      update_processing = λ id processed noise window threshold merge.
          only_traces
            (EventRepository.update_processing env id processed noise window threshold merge)
            (λ w. ground arith);
    }

  module _
      (frame : (w : World F) (rows : List (EventMarker F))
        → g.Kept w (record w { events = rows })) where
    only_events :
        {A : Type 0} (m : M F A)
        → ((w : World F) → record w { events = (m w).1.events } ≡ (m w).1)
        → Preserves g m
    only_events m h = record { keeps = λ w. subst (g.Kept w) (h w) (frame w (m w).1.events) }

    pub framed_events : EventWrites env g
    unfolding EventRepository.replace_for_trace EventRepository.review
    framed_events = record {
      replace_for_trace = λ id events.
          only_events (EventRepository.replace_for_trace env id events) (λ w. ground arith);
      review = λ event. only_events (EventRepository.review env event) (λ w. ground arith);
    }
