-- ===== src/Http/Access.antt =====
-- Who gets an answer of the routes behind `AuthMiddleware`, backend/internal/router.
use Prim.Native.String.{String, ◌++◌}
use package.text.Mathlib.Text.{◌==◌ as str_eq}
use gb_522_l7o.Prelude.{
  ◌≡◌, refl, sym, subst, ap, ◌∙◌, Bool, true, false, ◌||◌, Bool-cases, some, Option-cases, List,
  ltb, arith, inl, inr,
}
use gb_522_l7o.Errors.{ok}
use gb_522_l7o.Constants.{role_analyst, role_reviewer, role_admin}
use gb_522_l7o.Float.{Float}
use gb_522_l7o.Algorithm.Detect.Pipeline.{Result-cases}
use gb_522_l7o.Strings.{trim_space}
use gb_522_l7o.Auth.{Claims, IsJwt, parse}
use gb_522_l7o.Auth.Session.{IsUserEnv, IsAccepted, parse-IsAccepted}
use gb_522_l7o.Middleware.RateLimiter.{RateLimiter, allow}
use gb_522_l7o.Http.{Program, Server, Context, Answer, Handler}
use gb_522_l7o.Http.Middleware.{
  request_id, choose_request_id, access_log, bearer, signed_in, authenticate, permit, rate_limit,
  cors, has_text,
}
use gb_522_l7o.Http.Router.{
  fiber_routes, trace_routes, event_routes, case_audit_routes, register_fiber_routes,
  register_trace_routes, register_event_routes, register_case_audit_routes, Endpoint, health, ready,
  login, list_routes, get_route, create_route, update_route, set_baseline, list_traces, get_trace,
  import_trace, detect_events, list_events, review_event, list_cases, get_case, create_case,
  analyze_case, confirm_case, close_case, list_audits, analysts, reviewers, chain, register, serve,
}

-- The roles, by what they may do: everyone signed in reads; analysts enter and analyse; reviewers set
-- baselines, review, confirm, close and audit; administrators do all of it.
pub data Duty : Type 0 where
  anonymous reading analysis reviewing : Duty

abbrev pub duty : Endpoint → Duty
duty health = anonymous
duty ready = anonymous
duty login = anonymous
duty (fiber_routes create_route) = analysis
duty (fiber_routes update_route) = analysis
duty (trace_routes import_trace) = analysis
duty (trace_routes detect_events) = analysis
duty (case_audit_routes create_case) = analysis
duty (case_audit_routes analyze_case) = analysis
duty (fiber_routes set_baseline) = reviewing
duty (event_routes review_event) = reviewing
duty (case_audit_routes confirm_case) = reviewing
duty (case_audit_routes close_case) = reviewing
duty (case_audit_routes list_audits) = reviewing
duty _ = reading

abbrev pub may_do : Duty → String → Bool
may_do anonymous role = true
may_do reading role = true
may_do analysis role = str_eq role_analyst role || str_eq role_admin role
may_do reviewing role = str_eq role_reviewer role || str_eq role_admin role

abbrev pub is_anonymous : Duty → Bool
is_anonymous anonymous = true
is_anonymous _ = false

abbrev pub succeeds : {F : Type 0} → Answer F → Bool
succeeds answer = ltb answer.status 300

module _ {F : Type 0} (p : Program F) where
  -- The context of a request, with its id.
  abbrev pub identified : Context → Server F → Context
  identified c s = record c {
    request_id = choose_request_id p (c.header "X-Request-ID") s.world.clock;
  }

  authenticate-inv :
      (next : Handler F) (c : Context) (s : Server F)
      → succeeds (authenticate p next c s).0 ≡ true
      → (token : String) × (claims : Claims) × (bearer p (c.header "Authorization") ≡ some token)
        × ((parse p.crypto p.auth p.env (trim_space token) s.world).0 ≡ ok claims)
        × (authenticate p next c s
            ≡ next
                (signed_in p claims c)
                (record s { world = (parse p.crypto p.auth p.env (trim_space token) s.world).1 }))
  unfolding authenticate
  authenticate-inv next c s h = elim (Option-cases (bearer p (c.header "Authorization"))) [
    | inl absent ↦ absurd (ground arith)
    | inr (token, given) ↦
        elim (Result-cases (parse p.crypto p.auth p.env (trim_space token) s.world).0) [
          | inl (claims, e) ↦ (token, claims, given, e, ground (arith, given, e))
          | inr (e, q) ↦ absurd (ground arith)
        ]
  ]

  permit-inv :
      (roles : List String) (role : String) (next : Handler F) (c : Context) (s : Server F)
      → c.role ≡ some role
      → succeeds (permit p roles next c s).0 ≡ true
      → has_text roles role ≡ true
  unfolding permit
  permit-inv roles role next c s e h = ground arith

  rate_limit-inv :
      (limiter : Server F → RateLimiter) (put : RateLimiter → Server F → Server F) (scope : String)
      (next : Handler F) (c : Context) (s : Server F)
      → succeeds (rate_limit p limiter put scope next c s).0 ≡ true
      → (s' : Server F) × (succeeds (next c s').0 ≡ true)
  unfolding rate_limit
  rate_limit-inv limiter put scope next c s h =
      let outcome = allow (scope ++ ":" ++ c.client_ip) s.world.clock (limiter s) in
      (
        put outcome.1 s,
        elim (Bool-cases outcome.0) [
          | inl passed ↦ ground (arith, passed)
          | inr refused ↦ absurd (ground arith)
        ],
      )

module _ {F : Type 0} ⦃f : Float F⦄ (p : Program F) where
  analysts-may_do : (role : String) → has_text analysts role ≡ true → may_do analysis role ≡ true
  analysts-may_do role h = ground arith

  reviewers-may_do : (role : String) → has_text reviewers role ≡ true → may_do reviewing role ≡ true
  reviewers-may_do role h = ground arith

  pub register-authenticate :
      (endpoint : Endpoint) (c : Context) (s : Server F)
      → is_anonymous (duty endpoint) ≡ false
      → register p endpoint c s ≡ authenticate p (chain p endpoint) c s
  unfolding register
  register-authenticate health c s h = absurd (ground arith)
  register-authenticate ready c s h = absurd (ground arith)
  register-authenticate login c s h = absurd (ground arith)
  register-authenticate endpoint c s h = refl

  chain-may_do :
      (endpoint : Endpoint) (role : String) (c : Context) (s : Server F)
      → c.role ≡ some role
      → succeeds (chain p endpoint c s).0 ≡ true
      → may_do (duty endpoint) role ≡ true
  unfolding chain register_fiber_routes register_trace_routes register_event_routes
      register_case_audit_routes
  chain-may_do (fiber_routes create_route) role c s e h =
      analysts-may_do role (permit-inv p analysts role _ c s e h)
  chain-may_do (fiber_routes update_route) role c s e h =
      analysts-may_do role (permit-inv p analysts role _ c s e h)
  chain-may_do (case_audit_routes create_case) role c s e h =
      analysts-may_do role (permit-inv p analysts role _ c s e h)
  chain-may_do (trace_routes import_trace) role c s e h =
      let (s', passed) = rate_limit-inv p _ _ _ _ c s h in
      analysts-may_do role (permit-inv p analysts role _ c s' e passed)
  chain-may_do (trace_routes detect_events) role c s e h =
      let (s', passed) = rate_limit-inv p _ _ _ _ c s h in
      analysts-may_do role (permit-inv p analysts role _ c s' e passed)
  chain-may_do (case_audit_routes analyze_case) role c s e h =
      let (s', passed) = rate_limit-inv p _ _ _ _ c s h in
      analysts-may_do role (permit-inv p analysts role _ c s' e passed)
  chain-may_do (fiber_routes set_baseline) role c s e h =
      reviewers-may_do role (permit-inv p reviewers role _ c s e h)
  chain-may_do (event_routes review_event) role c s e h =
      reviewers-may_do role (permit-inv p reviewers role _ c s e h)
  chain-may_do (case_audit_routes confirm_case) role c s e h =
      reviewers-may_do role (permit-inv p reviewers role _ c s e h)
  chain-may_do (case_audit_routes close_case) role c s e h =
      reviewers-may_do role (permit-inv p reviewers role _ c s e h)
  chain-may_do (case_audit_routes list_audits) role c s e h =
      reviewers-may_do role (permit-inv p reviewers role _ c s e h)
  chain-may_do health role c s e h = refl
  chain-may_do ready role c s e h = refl
  chain-may_do login role c s e h = refl
  chain-may_do (fiber_routes list_routes) role c s e h = refl
  chain-may_do (fiber_routes get_route) role c s e h = refl
  chain-may_do (trace_routes list_traces) role c s e h = refl
  chain-may_do (trace_routes get_trace) role c s e h = refl
  chain-may_do (event_routes list_events) role c s e h = refl
  chain-may_do (case_audit_routes list_cases) role c s e h = refl
  chain-may_do (case_audit_routes get_case) role c s e h = refl

  -- A request that has been let through: its token, which is good, and the account's role, which may.
  pub record IsAuthorized (endpoint : Endpoint) (c : Context) (s : Server F) : Type 0 where
    pub token : String
    pub given : bearer p (c.header "Authorization") ≡ some token
    pub claims : Claims
    pub accepted : IsAccepted p.crypto p.auth p.env (trim_space token) s.world claims
    pub permitted : may_do (duty endpoint) claims.role ≡ true

  register-IsAuthorized :
      (endpoint : Endpoint) (c : Context) (s : Server F)
      → is_anonymous (duty endpoint) ≡ false
      → IsJwt p.crypto
      → IsUserEnv p.env
      → succeeds (register p endpoint c s).0 ≡ true
      → IsAuthorized endpoint c s
  register-IsAuthorized endpoint c s behind jwt laws h =
      let (token, claims, given, parsed, left) =
        authenticate-inv p (chain p endpoint) c s
          (subst (λ r. succeeds r.0 ≡ true) (register-authenticate endpoint c s behind) h) in
      let c' = signed_in p claims c in
      let s' = record s { world = (parse p.crypto p.auth p.env (trim_space token) s.world).1 } in
      record {
        token = token;
        given = given;
        claims = claims;
        accepted =
            parse-IsAccepted p.crypto p.auth p.env (trim_space token) s.world claims jwt laws
              parsed;
        permitted =
            chain-may_do endpoint claims.role c' s' refl (
              subst (λ r. succeeds r.0 ≡ true) (register-authenticate endpoint c s behind ∙ left)
                h);
      }

  pub serve-status :
      (endpoint : Endpoint) (c : Context) (s : Server F)
      → str_eq c.method "OPTIONS" ≡ false
      → (c' : Context) × (c'.header ≡ c.header)
        × ((serve p endpoint c s).0.status ≡ (register p endpoint c' s).0.status)
        × ((serve p endpoint c s).1.world ≡ (register p endpoint c' s).1.world)
  unfolding serve request_id access_log cors
  serve-status endpoint c s e = (
    record c { request_id = choose_request_id p (c.header "X-Request-ID") s.world.clock },
    refl,
    ground arith,
    ground arith,
  )

  -- A route behind `AuthMiddleware` answers with success only if the request carries a bearer token
  -- that is signed by HS256 with the secret and within its times, for the account of an active user
  -- whose role, as the row has it then, may do what the route does: analysts and administrators
  -- create, update, import, detect and analyse; reviewers and administrators set baselines, review,
  -- confirm, close and read the audit log; everyone may read the rest. The method is not `OPTIONS`.
  pub serve-IsAuthorized :
      (endpoint : Endpoint) (c : Context) (s : Server F)
      → str_eq c.method "OPTIONS" ≡ false
      → is_anonymous (duty endpoint) ≡ false
      → IsJwt p.crypto
      → IsUserEnv p.env
      → succeeds (serve p endpoint c s).0 ≡ true
      → IsAuthorized endpoint c s
  serve-IsAuthorized endpoint c s method behind jwt laws h =
      let (c', same, status, _) = serve-status endpoint c s method in
      let inside =
        register-IsAuthorized endpoint c' s behind jwt laws
          (subst (λ n. ltb n 300 ≡ true) status h) in
      record {
        token = inside.token;
        given = ap (λ g. bearer p (g "Authorization")) (sym same) ∙ inside.given;
        claims = inside.claims;
        accepted = inside.accepted;
        permitted = inside.permitted;
      }
