-- ===== src/Http/Router.antt =====
-- The routes of backend/internal/router with their chains, and the chain that stands before all of
-- them in backend/cmd/server/main.go.
use Prim.Native.String.{String}
use gb_522_l7o.Prelude.{List, [], ◌∷◌}
use gb_522_l7o.Constants.{role_analyst, role_reviewer, role_admin}
use gb_522_l7o.Float.{Float}
use gb_522_l7o.Http.{Program, Handler}
use gb_522_l7o.Http.Middleware.{request_id, authenticate, permit, rate_limit, access_log, cors}
use gb_522_l7o.Http.Handlers

-- The routes that gin selects by the method and the path, with the `:id` in it. Those of
-- `registerFiberRoutes`, below `/api/v1/routes`: `GET`, `GET /:id`, `POST`, `PATCH /:id` and
-- `POST /:id/baseline`.
pub data FiberRouteEndpoint : Type 0 where
  list_routes get_route create_route update_route set_baseline : FiberRouteEndpoint

-- `registerTraceRoutes`, below `/api/v1/traces`: `GET`, `GET /:id`, `POST /import` and
-- `POST /:id/detect`.
pub data TraceEndpoint : Type 0 where
  list_traces get_trace import_trace detect_events : TraceEndpoint

-- `registerEventRoutes`, below `/api/v1/events`: `GET` and `PATCH /:id/review`.
pub data EventEndpoint : Type 0 where
  list_events review_event : EventEndpoint

-- `registerCaseAuditRoutes`, below `/api/v1/cases`: `GET`, `GET /:id`, `POST`, `POST /:id/analyze`,
-- `POST /:id/confirm` and `POST /:id/close`; and `GET /api/v1/audit`.
pub data CaseAuditEndpoint : Type 0 where
  list_cases get_case create_case analyze_case confirm_case close_case list_audits :
      CaseAuditEndpoint

-- `Register`: `GET /healthz`, `GET /readyz`, `POST /api/v1/auth/login`, and the others.
pub data Endpoint : Type 0 where
  health ready login : Endpoint
  fiber_routes : FiberRouteEndpoint → Endpoint
  trace_routes : TraceEndpoint → Endpoint
  event_routes : EventEndpoint → Endpoint
  case_audit_routes : CaseAuditEndpoint → Endpoint

abbrev pub analysts : List String
analysts = role_analyst ∷ role_admin ∷ []

abbrev pub reviewers : List String
reviewers = role_reviewer ∷ role_admin ∷ []

module _ {F : Type 0} ⦃f : Float F⦄ (p : Program F) where
  abbrev limit_login : Handler F → Handler F
  limit_login = rate_limit p (λ s. s.login_limiter) (λ l s. record s { login_limiter = l }) "login"

  abbrev limit_import : Handler F → Handler F
  limit_import =
      rate_limit p (λ s. s.import_limiter) (λ l s. record s { import_limiter = l }) "trace_import"

  abbrev limit_analyze : String → Handler F → Handler F
  limit_analyze = rate_limit p (λ s. s.analyze_limiter) (λ l s. record s { analyze_limiter = l })

  unfoldable pub register_fiber_routes : FiberRouteEndpoint → Handler F
  register_fiber_routes list_routes = Handlers.list_routes p
  register_fiber_routes get_route = Handlers.get_route p
  register_fiber_routes create_route = permit p analysts (Handlers.create_route p)
  register_fiber_routes update_route = permit p analysts (Handlers.update_route p)
  register_fiber_routes set_baseline = permit p reviewers (Handlers.set_baseline p)

  unfoldable pub register_trace_routes : TraceEndpoint → Handler F
  register_trace_routes list_traces = Handlers.list_traces p
  register_trace_routes get_trace = Handlers.get_trace p
  register_trace_routes import_trace = limit_import (permit p analysts (Handlers.import_trace p))
  register_trace_routes detect_events =
      limit_analyze "event_detection" (permit p analysts (Handlers.detect_events p))

  unfoldable pub register_event_routes : EventEndpoint → Handler F
  register_event_routes list_events = Handlers.list_events p
  register_event_routes review_event = permit p reviewers (Handlers.review_event p)

  unfoldable pub register_case_audit_routes : CaseAuditEndpoint → Handler F
  register_case_audit_routes list_cases = Handlers.list_cases p
  register_case_audit_routes get_case = Handlers.get_case p
  register_case_audit_routes create_case = permit p analysts (Handlers.create_case p)
  register_case_audit_routes analyze_case =
      limit_analyze "case_analysis" (permit p analysts (Handlers.analyze_case p))
  register_case_audit_routes confirm_case = permit p reviewers (Handlers.confirm_case p)
  register_case_audit_routes close_case = permit p reviewers (Handlers.close_case p)
  register_case_audit_routes list_audits = permit p reviewers (Handlers.list_audits p)

  -- The chain of a route, behind the middleware of its group.
  unfoldable pub chain : Endpoint → Handler F
  chain health = Handlers.health p
  chain ready = Handlers.ready p
  chain login = limit_login (Handlers.login p)
  chain (fiber_routes endpoint) = register_fiber_routes endpoint
  chain (trace_routes endpoint) = register_trace_routes endpoint
  chain (event_routes endpoint) = register_event_routes endpoint
  chain (case_audit_routes endpoint) = register_case_audit_routes endpoint

  -- `Register`: `AuthMiddleware` stands before the routes of the protected group.
  unfoldable pub register : Endpoint → Handler F
  register health = chain health
  register ready = chain ready
  register login = chain login
  register endpoint = authenticate p (chain endpoint)

  -- The middleware of the engine, and a route.
  unfoldable pub serve : Endpoint → Handler F
  serve endpoint = request_id p (access_log p (cors p (register endpoint)))
