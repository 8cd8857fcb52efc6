-- ===== src/Http/Safe.antt =====
-- What a request does to the tables: the handlers and the chains of backend/internal/router.
pub mod Steps
use Steps.{
  Safe, reply-Safe, bind-Safe, id_param-Safe, permit-Safe, rate_limit-Safe, authenticate-Safe,
  request_id-Safe, access_log-Safe, cors-Safe,
}
use Prim.Native.String.{String, ◌++◌}
use package.text.Mathlib.Text.{◌==◌ as str_eq}
use gb_522_l7o.Prelude.{
  ℕ, ◌≡◌, refl, sym, subst, Bool-cases, Option-cases, List, ◌==◌, arith, inl, inr,
}
use gb_522_l7o.Float.{Float}
use gb_522_l7o.Algorithm.Detect.Pipeline.{Result-cases}
use gb_522_l7o.Strings.{trim_space, parse_uint}
use gb_522_l7o.Database.{M}
use gb_522_l7o.Auth.{parse}
use gb_522_l7o.Database.Preserves.{Guarantee, Preserves, Preserves-read}
use gb_522_l7o.Writes.{Writes, preserves}
use gb_522_l7o.Cases.Guarantee.{
  Preserves-load_case, create-Preserves, analyze-Preserves, confirm-Preserves, close-Preserves,
}
use gb_522_l7o.Middleware.RateLimiter.{RateLimiter, allow}
use gb_522_l7o.Http.{Binding, Program, Server, Context, Answer, Handler, reply, bind, id_param}
use gb_522_l7o.Http.Middleware.{
  request_id, bearer, signed_in, authenticate, permit, rate_limit, cors, has_text,
}
use gb_522_l7o.Http.Handlers
use gb_522_l7o.Http.Router.{
  fiber_routes, trace_routes, event_routes, case_audit_routes, register_fiber_routes,
  register_trace_routes, register_event_routes, register_case_audit_routes, Endpoint, health, ready,
  login, list_routes, get_route, create_route, update_route, set_baseline, list_traces, get_trace,
  import_trace, detect_events, list_events, review_event, list_cases, get_case, create_case,
  analyze_case, confirm_case, close_case, list_audits, chain, register, serve,
}
use gb_522_l7o.Http.Keeps.{
  list_rows-Preserves, list_page-Preserves, Preserves-load_route, update_route-Preserves,
  set_baseline-Preserves, detect_events-Preserves, review-Preserves, import_trace-Preserves,
  get_detail-Preserves, parse-Preserves, login-Preserves,
}

module _ {F : Type 0} ⦃f : Float F⦄ (p : Program F) (g : Guarantee F)
    (writes : Writes p.env g) where
  Preserves-get_route_detail : (id : ℕ) → Preserves g (Handlers.get_route_detail p id)
  unfolding Handlers.get_route_detail
  Preserves-get_route_detail id =
      search (preserves, Preserves-load_route, list_rows-Preserves) depth 9

  Preserves-get_case_detail : (id : ℕ) → Preserves g (Handlers.get_case_detail p id)
  unfolding Handlers.get_case_detail
  Preserves-get_case_detail id = search (preserves, Preserves-load_case) depth 9

  Preserves-ping : Preserves g (Handlers.ping p)
  unfolding Handlers.ping
  Preserves-ping = Preserves-read g (Handlers.ping p) (λ w. ground arith)

  chain-Safe : (endpoint : Endpoint) → Safe g (chain p endpoint)
  unfolding chain register_fiber_routes register_trace_routes register_event_routes
      register_case_audit_routes Handlers.health Handlers.ready Handlers.login Handlers.list_routes
      Handlers.get_route Handlers.create_route Handlers.update_route Handlers.set_baseline
      Handlers.list_traces Handlers.get_trace Handlers.import_trace Handlers.detect_events
      Handlers.list_events Handlers.review_event Handlers.list_cases Handlers.get_case
      Handlers.create_case Handlers.analyze_case Handlers.confirm_case Handlers.close_case
      Handlers.list_audits
  chain-Safe health = record { safe = λ c s. g.same s.world }
  chain-Safe ready = record { safe = λ c s. Preserves-ping.keeps s.world }
  chain-Safe login =
      rate_limit-Safe p g _ _ _ _ (λ l s. refl)
        (bind-Safe g _ _ (λ request.
          reply-Safe g _ _ (λ c. login-Preserves p.crypto p.auth p.env g writes request)))
  chain-Safe (fiber_routes list_routes) =
      reply-Safe g _ _ (λ c. list_page-Preserves p.env g writes _ _ _)
  chain-Safe (trace_routes list_traces) =
      reply-Safe g _ _ (λ c. list_page-Preserves p.env g writes _ _ _)
  chain-Safe (event_routes list_events) =
      reply-Safe g _ _ (λ c. list_page-Preserves p.env g writes _ _ _)
  chain-Safe (case_audit_routes list_cases) =
      reply-Safe g _ _ (λ c. list_page-Preserves p.env g writes _ _ _)
  chain-Safe (case_audit_routes list_audits) =
      permit-Safe p g _ _ (reply-Safe g _ _ (λ c. list_page-Preserves p.env g writes _ _ _))
  chain-Safe (fiber_routes get_route) =
      id_param-Safe g _ (λ id. reply-Safe g _ _ (λ c. Preserves-get_route_detail id))
  chain-Safe (case_audit_routes get_case) =
      id_param-Safe g _ (λ id. reply-Safe g _ _ (λ c. Preserves-get_case_detail id))
  chain-Safe (trace_routes get_trace) =
      id_param-Safe g _ (λ id. reply-Safe g _ _ (λ c. get_detail-Preserves p.env g writes id))
  chain-Safe (fiber_routes create_route) = permit-Safe p g _ _ (
      bind-Safe g _ _
        (λ request. reply-Safe g _ _ (λ c. writes.routes.create p.upper_rune request _)))
  chain-Safe (fiber_routes update_route) = permit-Safe p g _ _ (
      id_param-Safe g _ (λ id. bind-Safe g _ _ (λ request.
        reply-Safe g _ _ (λ c. update_route-Preserves p.env g writes p.upper_rune id request _))))
  chain-Safe (fiber_routes set_baseline) = permit-Safe p g _ _ (
      id_param-Safe g _ (λ id. bind-Safe g _ _ (λ request.
        reply-Safe g _ _
          (λ c. set_baseline-Preserves p.env g writes p.upper_rune id request.trace_id _))))
  chain-Safe (trace_routes import_trace) =
      rate_limit-Safe p g _ _ _ _ (λ l s. refl)
        (permit-Safe p g _ _ (
          bind-Safe g _ _ (λ request.
            reply-Safe g _ _ (λ c. import_trace-Preserves p.env g writes p.max_points request _))))
  chain-Safe (trace_routes detect_events) =
      rate_limit-Safe p g _ _ _ _ (λ l s. refl)
        (permit-Safe p g _ _ (
          id_param-Safe g _ (λ id. bind-Safe g _ _ (λ request.
            reply-Safe g _ _ (λ c. detect_events-Preserves p.env g writes id request _)))))
  chain-Safe (event_routes review_event) = permit-Safe p g _ _ (
      id_param-Safe g _ (λ id.
        bind-Safe g _ _
          (λ request. reply-Safe g _ _ (λ c. review-Preserves p.env g writes id request _))))
  chain-Safe (case_audit_routes create_case) = permit-Safe p g _ _ (
      bind-Safe g _ _
        (λ request. reply-Safe g _ _ (λ c. create-Preserves p.env g writes request _)))
  chain-Safe (case_audit_routes analyze_case) =
      rate_limit-Safe p g _ _ _ _ (λ l s. refl)
        (permit-Safe p g _ _ (
          id_param-Safe g _ (λ id.
            bind-Safe g _ _
              (λ request. reply-Safe g _ _ (λ c. analyze-Preserves p.env g writes id request _)))))
  chain-Safe (case_audit_routes confirm_case) = permit-Safe p g _ _ (
      id_param-Safe g _ (λ id.
        bind-Safe g _ _
          (λ request. reply-Safe g _ _ (λ c. confirm-Preserves p.env g writes id request _))))
  chain-Safe (case_audit_routes close_case) = permit-Safe p g _ _ (
      id_param-Safe g _ (λ id.
        bind-Safe g _ _
          (λ request. reply-Safe g _ _ (λ c. close-Preserves p.env g writes id request _))))

  register-Safe : (endpoint : Endpoint) → Safe g (register p endpoint)
  unfolding register
  register-Safe health = chain-Safe health
  register-Safe ready = chain-Safe ready
  register-Safe login = chain-Safe login
  register-Safe endpoint = authenticate-Safe p g _ writes (chain-Safe endpoint)

  pub serve-Safe : (endpoint : Endpoint) → Safe g (serve p endpoint)
  unfolding serve
  serve-Safe endpoint =
      request_id-Safe p g _ (access_log-Safe p g _ (cors-Safe p g _ (register-Safe endpoint)))
