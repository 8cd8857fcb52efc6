-- ===== src/Http/Handlers.antt =====
-- The handlers of backend/internal/handler.
use Prim.Native.String.{String}
use package.text.Mathlib.Text.{◌==◌ as str_eq}
use gb_522_l7o.Prelude.{ℕ, Option, none, some, List, [], ◌∷◌, if◌then◌else◌}
use gb_522_l7o.Prelude.Int.{ℤ, pos}
use gb_522_l7o.Strings.{is_empty, parse_bool}
use gb_522_l7o.Errors.{wrap, internal, ok, err}
use gb_522_l7o.Constants.{EventType, connector, splice, bend, break, end, unknown, other}
use gb_522_l7o.Float.{Float}
use gb_522_l7o.Model.{FiberRoute, TraceCapture, LocalizationCase}
use gb_522_l7o.Algorithm.Compare.{Difference}
use gb_522_l7o.Database.{M, ◌>>=◌, ◌>>◌, pure, on_error, lift, yield_to_others}
use gb_522_l7o.Auth
use gb_522_l7o.Listings.{list_rows}
use gb_522_l7o.Listings.Services.{route_page, trace_page, event_page, case_page, audit_page}
use gb_522_l7o.Listings.Filters.{trace_listing}
use gb_522_l7o.Routes.Service as RouteService
use gb_522_l7o.Traces.Service as TraceService
use gb_522_l7o.Events.Service as EventService
use gb_522_l7o.Events.Detection as Detection
use gb_522_l7o.Cases.Service as CaseService
use gb_522_l7o.Http.{
  Program, Context, Handler, session, route, routes, route_detail, trace, traces, trace_detail,
  event, events, summary, one_case, cases, case_detail, audits, report, answer_ok, reply, bind,
  id_param, actor, query_uint, query_int,
}

-- `constants.EventType` of a text.
unfoldable pub event_type_of : String → EventType
event_type_of s =
    if str_eq s "connector"
    then connector
    else if str_eq s "splice"
    then splice
    else if str_eq s "bend"
    then bend
    else if str_eq s "break"
    then break
    else if str_eq s "end"
    then end
    else if str_eq s "unknown"
    then unknown
    else other s

-- An optional parameter that counts only where it can be read.
abbrev if_given : {A : Type 0} → (String → Option A) → String → Option A
if_given read value = if is_empty value then none else read value

module _ {F : Type 0} ⦃f : Float F⦄ (p : Program F) where
  -- `RouteService.Get`.
  unfoldable pub get_route_detail : ℕ → M F (FiberRoute F × List (TraceCapture F))
  get_route_detail id = do
    found ← RouteService.load_route p.env p.upper_rune id
    yield_to_others p.env
    listed ← on_error (internal "list route traces failed") (
        list_rows p.env
          (trace_listing p.env (record { route_id = some id; from = none; to = none })) (pos 1)
          (pos 100))
    pure (found, listed.0)

  -- `CaseService.Get`. The stored column is never empty.
  unfoldable pub get_case_detail : ℕ → M F (LocalizationCase F × List (Difference F))
  get_case_detail id = do
    item ← CaseService.load_case p.env id
    differences ←
        on_error (internal "decode case differences failed")
          (lift (p.library.decode_differences item.differences_json))
    pure (item, differences)

  -- `Store.Ping`. That the pool cannot be obtained is one of its failures.
  unfoldable pub ping : M F (Unit {0})
  ping w = elim (p.env.ping w.clock) [
    | none ↦ (ok tt, w)
    | some e ↦ (err (wrap "database readiness ping" e), w)
  ]

  -- The page of a request, with the size it has by default.
  abbrev page_query : Context → ℕ → ℤ × ℤ
  page_query c size = (query_int c "page" (pos 1), query_int c "page_size" (pos size))

  abbrev time_query : Context → String → Option ℕ
  time_query c key = if_given p.library.parse_time (c.query key)

  unfoldable pub login : Handler F
  login = bind p.library.login (λ request c.
      reply (Auth.login p.crypto p.auth p.env request) (λ r. answer_ok c 200 (session r) none) c)

  unfoldable pub list_routes : Handler F
  list_routes c =
      reply
        (route_page p.env (record { keyword = c.query "keyword"; status = c.query "status" })
          (page_query c 20))
        (λ r. answer_ok c 200 (routes r.0) (some r.1)) c

  unfoldable pub create_route : Handler F
  create_route = bind p.library.create_route (λ request c.
      reply (RouteService.create p.env p.upper_rune request (actor c))
        (λ r. answer_ok c 201 (route r) none) c)

  unfoldable pub get_route : Handler F
  get_route =
      id_param
        (λ id c. reply (get_route_detail id) (λ r. answer_ok c 200 (route_detail r.0 r.1) none) c)

  unfoldable pub update_route : Handler F
  update_route = id_param (λ id. bind p.library.update_route (λ request c.
      reply (RouteService.update p.env p.upper_rune id request (actor c))
        (λ r. answer_ok c 200 (route r) none) c))

  unfoldable pub set_baseline : Handler F
  set_baseline = id_param (λ id. bind p.library.set_baseline (λ request c.
      reply (RouteService.set_baseline p.env p.upper_rune id request.trace_id (actor c))
        (λ r. answer_ok c 200 (route r) none) c))

  unfoldable pub list_traces : Handler F
  list_traces c =
      reply
        (trace_page p.env
          (record {
            route_id = query_uint c "route_id";
            from = time_query c "from";
            to = time_query c "to";
          })
          (page_query c 20))
        (λ r. answer_ok c 200 (traces r.0) (some r.1)) c

  unfoldable pub import_trace : Handler F
  import_trace = bind p.library.import_trace (λ request c.
      reply (TraceService.import_trace p.env p.max_points request (actor c))
        (λ r. answer_ok c 201 (trace r) none) c)

  unfoldable pub get_trace : Handler F
  get_trace = id_param (λ id c.
      reply (TraceService.get_detail p.env id) (λ r. answer_ok c 200 (trace_detail r.0 r.1) none) c)

  unfoldable pub list_events : Handler F
  list_events c =
      reply
        (event_page p.env
          (record {
            trace_id = query_uint c "trace_id";
            route_id = query_uint c "route_id";
            event_type = event_type_of (c.query "event_type");
            reviewed = if_given parse_bool (c.query "reviewed");
          })
          (page_query c 50))
        (λ r. answer_ok c 200 (events r.0) (some r.1)) c

  unfoldable pub detect_events : Handler F
  detect_events = id_param (λ id. bind p.library.detect_events (λ request c.
      reply (Detection.detect_events p.env id request (actor c))
        (λ r. answer_ok c 200 (summary r) none) c))

  unfoldable pub review_event : Handler F
  review_event = id_param (λ id. bind p.library.review_event (λ request c.
      reply (EventService.review p.env id request (actor c)) (λ r. answer_ok c 200 (event r) none)
        c))

  unfoldable pub list_cases : Handler F
  list_cases c =
      reply
        (case_page p.env (record { route_id = query_uint c "route_id"; status = c.query "status" })
          (page_query c 20))
        (λ r. answer_ok c 200 (cases r.0) (some r.1)) c

  unfoldable pub create_case : Handler F
  create_case = bind p.library.create_case (λ request c.
      reply (CaseService.create p.env request (actor c)) (λ r. answer_ok c 201 (one_case r) none) c)

  unfoldable pub get_case : Handler F
  get_case =
      id_param
        (λ id c. reply (get_case_detail id) (λ r. answer_ok c 200 (case_detail r.0 r.1) none) c)

  unfoldable pub analyze_case : Handler F
  analyze_case = id_param (λ id. bind p.library.analyze_case (λ request c.
      reply (CaseService.analyze p.env id request (actor c))
        (λ r. answer_ok c 200 (one_case r) none) c))

  unfoldable pub confirm_case : Handler F
  confirm_case = id_param (λ id. bind p.library.confirm_case (λ request c.
      reply (CaseService.confirm p.env id request (actor c))
        (λ r. answer_ok c 200 (one_case r) none) c))

  unfoldable pub close_case : Handler F
  close_case = id_param (λ id. bind p.library.close_case (λ request c.
      reply (CaseService.close p.env id request (actor c)) (λ r. answer_ok c 200 (one_case r) none)
        c))

  unfoldable pub list_audits : Handler F
  list_audits c =
      reply
        (audit_page p.env
          (record {
            route_id = query_uint c "route_id";
            actor_name = c.query "actor";
            action = c.query "action";
            from = time_query c "from";
            to = time_query c "to";
          })
          (page_query c 50))
        (λ r. answer_ok c 200 (audits r.0) (some r.1)) c

  unfoldable pub health : Handler F
  health c s = (
    record {
      status = 200;
      headers = [];
      body = report (("status", "ok") ∷ ("service", "fiber-otdr-fault-localization") ∷ []);
    },
    s,
  )

  unfoldable pub ready : Handler F
  ready c s =
      let (r, w) = ping s.world in
      (
        elim r [
          | err e ↦ record {
            status = 503;
            headers = [];
            body = report (("status", "not_ready") ∷ []);
          }
          | ok u ↦ record { status = 200; headers = []; body = report (("status", "ready") ∷ []) }
        ],
        record s { world = w },
      )
