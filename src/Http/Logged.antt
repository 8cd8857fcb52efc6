-- ===== src/Http/Logged.antt =====
-- The access log of backend/internal/middleware/middleware.go, over the routes of
-- backend/internal/router.
use Prim.Native.String.{String, ◌++◌}
use package.text.Mathlib.Text.{◌==◌ as str_eq}
use gb_522_l7o.Prelude.{
  ℕ, ◌≡◌, refl, ap, Bool-cases, Option-cases, List, [], ◌∷◌, ◌++◌ as append, ◌==◌, arith, inl, inr,
}
use gb_522_l7o.Float.{Float}
use gb_522_l7o.Algorithm.Detect.Pipeline.{Result-cases}
use gb_522_l7o.Strings.{trim_space, parse_uint}
use gb_522_l7o.Database.{M}
use gb_522_l7o.Auth.{parse}
use gb_522_l7o.Middleware.RateLimiter.{RateLimiter, allow}
use gb_522_l7o.Http.{
  Binding, Program, Server, Context, Answer, AccessLine, Handler, reply, bind, id_param,
}
use gb_522_l7o.Http.Middleware.{
  request_id, choose_request_id, access_line, access_log, bearer, signed_in, authenticate, permit,
  rate_limit, cors, has_text,
}
use gb_522_l7o.Http.Handlers
use gb_522_l7o.Http.Router.{
  fiber_routes, trace_routes, event_routes, case_audit_routes, register_fiber_routes,
  register_trace_routes, register_event_routes, register_case_audit_routes, Endpoint, health, ready,
  login, list_routes, get_route, create_route, update_route, set_baseline, list_traces, get_trace,
  import_trace, detect_events, list_events, review_event, list_cases, get_case, create_case,
  analyze_case, confirm_case, close_case, list_audits, chain, register, serve,
}

module _ {F : Type 0} where
  -- A handler that writes no line of the access log.
  record Quiet (h : Handler F) : Type 0 where
    pub quiet : (c : Context) (s : Server F) → (h c s).1.access_lines ≡ s.access_lines

  reply-Quiet :
      {A : Type 0} (m : Context → M F A) (k : Context → A → Answer F)
      → Quiet (λ c. reply (m c) (k c) c)
  unfolding reply
  reply-Quiet m k = record { quiet = λ c s. refl }

  bind-Quiet :
      {A : Type 0} (b : Binding A) (h : A → Handler F) → ((a : A) → Quiet (h a)) → Quiet (bind b h)
  unfolding bind
  bind-Quiet b h q = record {
    quiet = λ c s. elim (Result-cases (b.decode c.body)) [
      | inr (e, d) ↦ ground (arith, d)
      | inl (a, d) ↦ elim (Option-cases (b.validate a)) [
        | inr (e, v) ↦ ground (arith, d, v)
        | inl v ↦ ground (arith, d, v, (q a).quiet c s)
      ]
    ];
  }

  id_param-Quiet : (h : ℕ → Handler F) → ((id : ℕ) → Quiet (h id)) → Quiet (id_param h)
  unfolding id_param
  id_param-Quiet h q = record {
    quiet = λ c s. elim (Option-cases (parse_uint c.id)) [
      | inl d ↦ ground (arith, d)
      | inr (n, d) ↦ elim (Bool-cases (n == 0)) [
        | inl z ↦ ground (arith, d, z)
        | inr z ↦ ground (arith, d, z, (q n).quiet c s)
      ]
    ];
  }

module _ {F : Type 0} ⦃f : Float F⦄ (p : Program F) where
  permit-Quiet : (roles : List String) (h : Handler F) → Quiet h → Quiet (permit p roles h)
  unfolding permit
  permit-Quiet roles h q = record {
    quiet = λ c s. elim (Option-cases c.role) [
      | inl d ↦ ground (arith, d)
      | inr (role, d) ↦ elim (Bool-cases (has_text roles role)) [
        | inl v ↦ ground (arith, d, v, q.quiet c s)
        | inr v ↦ ground (arith, d, v)
      ]
    ];
  }

  rate_limit-Quiet :
      (limiter : Server F → RateLimiter) (put : RateLimiter → Server F → Server F) (scope : String)
      (h : Handler F)
      → ((l : RateLimiter) (s : Server F) → (put l s).access_lines ≡ s.access_lines)
      → Quiet h
      → Quiet (rate_limit p limiter put scope h)
  unfolding rate_limit
  rate_limit-Quiet limiter put scope h same q = record {
    quiet = λ c s.
        let outcome = allow (scope ++ ":" ++ c.client_ip) s.world.clock (limiter s) in
        elim (Bool-cases outcome.0) [
          | inl v ↦ ground (arith, v, same outcome.1 s, q.quiet c (put outcome.1 s))
          | inr v ↦ ground (arith, v, same outcome.1 s)
        ];
  }

  authenticate-Quiet : (h : Handler F) → Quiet h → Quiet (authenticate p h)
  unfolding authenticate
  authenticate-Quiet h q = record {
    quiet = λ c s. elim (Option-cases (bearer p (c.header "Authorization"))) [
      | inl d ↦ ground (arith, d)
      | inr (token, d) ↦
          let read = parse p.crypto p.auth p.env (trim_space token) s.world in
          elim (Result-cases read.0) [
            | inr (e, v) ↦ ground (arith, d, v)
            | inl (claims, v) ↦
                ground (arith, d, v, q.quiet (signed_in p claims c) (record s { world = read.1 }))
          ]
    ];
  }

  cors-Quiet : (h : Handler F) → Quiet h → Quiet (cors p h)
  unfolding cors
  cors-Quiet h q = record {
    quiet = λ c s. elim (Bool-cases (str_eq c.method "OPTIONS")) [
      | inl d ↦ ground (arith, d)
      | inr d ↦ ground (arith, d, q.quiet c s)
    ];
  }

  chain-Quiet : (endpoint : Endpoint) → Quiet (chain p endpoint)
  unfolding chain register_fiber_routes register_trace_routes register_event_routes
      register_case_audit_routes Handlers.health Handlers.ready Handlers.login Handlers.list_routes
      Handlers.get_route Handlers.create_route Handlers.update_route Handlers.set_baseline
      Handlers.list_traces Handlers.get_trace Handlers.import_trace Handlers.detect_events
      Handlers.list_events Handlers.review_event Handlers.list_cases Handlers.get_case
      Handlers.create_case Handlers.analyze_case Handlers.confirm_case Handlers.close_case
      Handlers.list_audits
  chain-Quiet health = record { quiet = λ c s. refl }
  chain-Quiet ready = record { quiet = λ c s. refl }
  chain-Quiet login =
      rate_limit-Quiet _ _ _ _ (λ l s. refl) (bind-Quiet _ _ (λ request. reply-Quiet _ _))
  chain-Quiet (fiber_routes list_routes) = reply-Quiet _ _
  chain-Quiet (fiber_routes get_route) = id_param-Quiet _ (λ id. reply-Quiet _ _)
  chain-Quiet (fiber_routes create_route) =
      permit-Quiet _ _ (bind-Quiet _ _ (λ request. reply-Quiet _ _))
  chain-Quiet (fiber_routes update_route) =
      permit-Quiet _ _ (id_param-Quiet _ (λ id. bind-Quiet _ _ (λ request. reply-Quiet _ _)))
  chain-Quiet (fiber_routes set_baseline) =
      permit-Quiet _ _ (id_param-Quiet _ (λ id. bind-Quiet _ _ (λ request. reply-Quiet _ _)))
  chain-Quiet (trace_routes list_traces) = reply-Quiet _ _
  chain-Quiet (trace_routes get_trace) = id_param-Quiet _ (λ id. reply-Quiet _ _)
  chain-Quiet (trace_routes import_trace) =
      rate_limit-Quiet _ _ _ _ (λ l s. refl)
        (permit-Quiet _ _ (bind-Quiet _ _ (λ request. reply-Quiet _ _)))
  chain-Quiet (trace_routes detect_events) =
      rate_limit-Quiet _ _ _ _ (λ l s. refl)
        (permit-Quiet _ _ (id_param-Quiet _ (λ id. bind-Quiet _ _ (λ request. reply-Quiet _ _))))
  chain-Quiet (event_routes list_events) = reply-Quiet _ _
  chain-Quiet (event_routes review_event) =
      permit-Quiet _ _ (id_param-Quiet _ (λ id. bind-Quiet _ _ (λ request. reply-Quiet _ _)))
  chain-Quiet (case_audit_routes list_cases) = reply-Quiet _ _
  chain-Quiet (case_audit_routes get_case) = id_param-Quiet _ (λ id. reply-Quiet _ _)
  chain-Quiet (case_audit_routes create_case) =
      permit-Quiet _ _ (bind-Quiet _ _ (λ request. reply-Quiet _ _))
  chain-Quiet (case_audit_routes analyze_case) =
      rate_limit-Quiet _ _ _ _ (λ l s. refl)
        (permit-Quiet _ _ (id_param-Quiet _ (λ id. bind-Quiet _ _ (λ request. reply-Quiet _ _))))
  chain-Quiet (case_audit_routes confirm_case) =
      permit-Quiet _ _ (id_param-Quiet _ (λ id. bind-Quiet _ _ (λ request. reply-Quiet _ _)))
  chain-Quiet (case_audit_routes close_case) =
      permit-Quiet _ _ (id_param-Quiet _ (λ id. bind-Quiet _ _ (λ request. reply-Quiet _ _)))
  chain-Quiet (case_audit_routes list_audits) = permit-Quiet _ _ (reply-Quiet _ _)

  register-Quiet : (endpoint : Endpoint) → Quiet (register p endpoint)
  unfolding register
  register-Quiet health = chain-Quiet health
  register-Quiet ready = chain-Quiet ready
  register-Quiet login = chain-Quiet login
  register-Quiet endpoint = authenticate-Quiet _ (chain-Quiet endpoint)

module _ {F : Type 0} where
  -- The one line that a request adds to the access log.
  pub record IsLogged (c : Context) (s : Server F) (answer : Answer F) (after : Server F)
      : Type 0 where
    pub line : AccessLine
    pub written : after.access_lines ≡ append s.access_lines (line ∷ [])
    pub same_request :
        (line.method ≡ c.method) × (line.path ≡ c.path) × (line.client_ip ≡ c.client_ip)
    pub same_status : line.status ≡ answer.status
    pub other_headers : List (String × String)
    pub same_id : answer.headers ≡ ("X-Request-ID", line.request_id) ∷ other_headers

module _ {F : Type 0} ⦃f : Float F⦄ (p : Program F) where
  -- Every request, refused and failing ones and preflights included, adds exactly one line to the
  -- access log, behind those there were: with its method, its path and its client, with the status of
  -- its answer, and with the id that the answer gives in its header `X-Request-ID`.
  pub serve-IsLogged :
      (endpoint : Endpoint) (c : Context) (s : Server F)
      → IsLogged c s (serve p endpoint c s).0 (serve p endpoint c s).1
  unfolding serve request_id access_log
  serve-IsLogged endpoint c s =
      let id = choose_request_id p (c.header "X-Request-ID") s.world.clock in
      let c' = record c { request_id = id } in
      let next = cors p (register p endpoint) in
      let (answer, s') = next c' s in
      let line = access_line p c' answer s.world.clock s'.world.clock in
      let kept = (cors-Quiet p _ (register-Quiet p endpoint)).quiet c' s in
      record {
        line = line;
        written = ap (λ lines. append lines (line ∷ [])) kept;
        same_request = (refl, refl, refl);
        same_status = refl;
        other_headers = answer.headers;
        same_id = refl;
      }
