-- ===== src/Http/Audited.antt =====
-- The entries that requests leave in the audit log: backend/internal/router.
pub mod Steps
use Steps.{
  Audited, carries_data, reply-Audited, bind-Audited, id_param-Audited, permit-Audited,
  rate_limit-Audited, HasAudit,
}
use Prim.Native.String.{String, ◌++◌}
use package.text.Mathlib.Text.{◌==◌ as str_eq}
use gb_522_l7o.Prelude.{
  ℕ, ◌≡◌, refl, sym, subst, ap, ◌∙◌, Bool, true, false, Bool-cases, Option, none, some,
  Option-cases, List, ◌==◌, arith, inl, inr,
}
use mathlib.Core.Option.{some-injective}
use gb_522_l7o.Errors.{
  Error, nil, text, wrap, not_found, record_not_found, invalid_transaction, external, app, ok, err,
}
use gb_522_l7o.Float.{Float}
use gb_522_l7o.Strings.{trim_space, parse_uint}
use gb_522_l7o.Algorithm.Detect.Pipeline.{Result-cases}
use gb_522_l7o.Database.{M}
use gb_522_l7o.Writes.{Writes}
use gb_522_l7o.Audit.Appended.{IsAuditEnv, audit_guarantee, audit-Writes}
use gb_522_l7o.Audit.Logged.{HasEntry, HasEntry-before, Logs}
use gb_522_l7o.Audit.Methods.{
  create_case-Logs, analyze-Logs, confirm-Logs, close-Logs, create_route-Logs, update_route-Logs,
  set_baseline-Logs, import_trace-Logs, detect_events-Logs, review-Logs,
}
use gb_522_l7o.Auth.{Claims, parse}
use gb_522_l7o.Middleware.RateLimiter.{RateLimiter, allow}
use gb_522_l7o.Http.{
  Binding, Program, Server, Context, Body, Answer, Handler, content, fail, reply, bind, id_param,
  actor,
}
use gb_522_l7o.Http.Keeps.{parse-Preserves}
use gb_522_l7o.Http.Middleware.{
  request_id, choose_request_id, access_log, bearer, signed_in, authenticate, permit, rate_limit,
  cors, has_text,
}
use gb_522_l7o.Http.Access.{identified}
use gb_522_l7o.Http.Handlers
use gb_522_l7o.Http.Router.{
  fiber_routes, trace_routes, event_routes, case_audit_routes, register_fiber_routes,
  register_trace_routes, register_event_routes, register_case_audit_routes, Endpoint, health, ready,
  login, create_route, update_route, set_baseline, import_trace, detect_events, review_event,
  create_case, analyze_case, confirm_case, close_case, chain, register, serve,
}

-- The action that a route is logged as, for the routes that change something.
abbrev pub action_of : Endpoint → Option String
action_of (fiber_routes create_route) = some "route.created"
action_of (fiber_routes update_route) = some "route.updated"
action_of (fiber_routes set_baseline) = some "route.baseline_changed"
action_of (trace_routes import_trace) = some "trace.imported"
action_of (trace_routes detect_events) = some "trace.events_detected"
action_of (event_routes review_event) = some "event.reviewed"
action_of (case_audit_routes create_case) = some "case.created"
action_of (case_audit_routes analyze_case) = some "case.analysis_completed"
action_of (case_audit_routes confirm_case) = some "case.confirmed"
action_of (case_audit_routes close_case) = some "case.closed"
action_of _ = none

module _ {F : Type 0} ⦃f : Float F⦄ (p : Program F) (laws : IsAuditEnv p.env) where
  -- A handler that changes something is audited.
  abbrev LoggedAs : Option String → Handler F → Type 0
  LoggedAs none h = Unit
  LoggedAs (some action) h = Audited action h

  chain-LoggedAs : (endpoint : Endpoint) → LoggedAs (action_of endpoint) (chain p endpoint)
  unfolding chain register_fiber_routes register_trace_routes register_event_routes
      register_case_audit_routes Handlers.create_route Handlers.update_route Handlers.set_baseline
      Handlers.import_trace Handlers.detect_events Handlers.review_event Handlers.create_case
      Handlers.analyze_case Handlers.confirm_case Handlers.close_case
  chain-LoggedAs (fiber_routes create_route) = permit-Audited p _ _ _ (
      bind-Audited _ _ _ (λ request.
        reply-Audited _ _ _
          (λ c. create_route-Logs p.env laws (audit-Writes p.env laws) p.upper_rune request _)))
  chain-LoggedAs (fiber_routes update_route) = permit-Audited p _ _ _ (
      id_param-Audited _ _ (λ id. bind-Audited _ _ _ (λ request.
        reply-Audited _ _ _
          (λ c. update_route-Logs p.env laws (audit-Writes p.env laws) p.upper_rune id request _))))
  chain-LoggedAs (fiber_routes set_baseline) = permit-Audited p _ _ _ (
      id_param-Audited _ _ (λ id. bind-Audited _ _ _ (λ request. reply-Audited _ _ _ (λ c.
        set_baseline-Logs p.env laws (audit-Writes p.env laws) p.upper_rune id request.trace_id
          _))))
  chain-LoggedAs (trace_routes import_trace) =
      rate_limit-Audited p _ _ _ _ _ (λ l s. refl)
        (permit-Audited p _ _ _ (
          bind-Audited _ _ _ (λ request.
            reply-Audited _ _ _ (λ c.
              import_trace-Logs p.env laws (audit-Writes p.env laws) p.max_points request _))))
  chain-LoggedAs (trace_routes detect_events) =
      rate_limit-Audited p _ _ _ _ _ (λ l s. refl)
        (permit-Audited p _ _ _ (
          id_param-Audited _ _ (λ id. bind-Audited _ _ _ (λ request.
            reply-Audited _ _ _
              (λ c. detect_events-Logs p.env laws (audit-Writes p.env laws) id request _)))))
  chain-LoggedAs (event_routes review_event) = permit-Audited p _ _ _ (
      id_param-Audited _ _ (λ id. bind-Audited _ _ _ (λ request.
        reply-Audited _ _ _ (λ c. review-Logs p.env laws (audit-Writes p.env laws) id request _))))
  chain-LoggedAs (case_audit_routes create_case) = permit-Audited p _ _ _ (
      bind-Audited _ _ _ (λ request.
        reply-Audited _ _ _ (λ c. create_case-Logs p.env laws (audit-Writes p.env laws) request _)))
  chain-LoggedAs (case_audit_routes analyze_case) =
      rate_limit-Audited p _ _ _ _ _ (λ l s. refl)
        (permit-Audited p _ _ _ (
          id_param-Audited _ _ (λ id. bind-Audited _ _ _ (λ request.
            reply-Audited _ _ _
              (λ c. analyze-Logs p.env laws (audit-Writes p.env laws) id request _)))))
  chain-LoggedAs (case_audit_routes confirm_case) = permit-Audited p _ _ _ (
      id_param-Audited _ _ (λ id. bind-Audited _ _ _ (λ request.
        reply-Audited _ _ _ (λ c. confirm-Logs p.env laws (audit-Writes p.env laws) id request _))))
  chain-LoggedAs (case_audit_routes close_case) = permit-Audited p _ _ _ (
      id_param-Audited _ _ (λ id. bind-Audited _ _ _ (λ request.
        reply-Audited _ _ _ (λ c. close-Logs p.env laws (audit-Writes p.env laws) id request _))))
  chain-LoggedAs _ = tt

  register-authenticated :
      (endpoint : Endpoint) (action : String) (c : Context) (s : Server F)
      → action_of endpoint ≡ some action
      → register p endpoint c s ≡ authenticate p (chain p endpoint) c s
  unfolding register
  register-authenticated health action c s e = cc
  register-authenticated ready action c s e = cc
  register-authenticated login action c s e = cc
  register-authenticated endpoint action c s e = refl

  authenticate-HasAudit :
      (action : String) (h : Handler F) (c : Context) (s : Server F)
      → Audited action h
      → carries_data (authenticate p h c s).0 ≡ true
      → (token : String) × (claims : Claims) × (bearer p (c.header "Authorization") ≡ some token)
        × ((parse p.crypto p.auth p.env (trim_space token) s.world).0 ≡ ok claims)
        × HasEntry
            (actor (signed_in p claims c))
            action
            s.world.audits
            (authenticate p h c s).1.world.audits
  unfolding authenticate
  authenticate-HasAudit action h c s audited done =
      elim (Option-cases (bearer p (c.header "Authorization"))) [
        | inl absent ↦ absurd (ground (arith, absent, done))
        | inr (token, given) ↦
            let read = parse p.crypto p.auth p.env (trim_space token) s.world in
            let s' = record s { world = read.1 } in
            elim (Result-cases read.0) [
              | inr (e, q) ↦ absurd (ground (arith, given, q, done))
              | inl (claims, q) ↦
                  let c' = signed_in p claims c in
                  let first =
                    (parse-Preserves p.crypto p.auth p.env audit_guarantee (audit-Writes p.env laws)
                        (trim_space token)).keeps
                      s.world in
                  (
                    token,
                    claims,
                    given,
                    q,
                    subst (HasEntry (actor c') action s.world.audits) {x = (h c' s').1.world.audits}
                        (ground (arith, given, q))
                        (HasEntry-before (actor c') action s.world.audits read.1.audits
                          (h c' s').1.world.audits first
                          (audited.audited c' s' (ground (arith, given, q, done)))),
                  )
            ]
      ]

  serve-data :
      (endpoint : Endpoint) (c : Context) (s : Server F)
      → carries_data (serve p endpoint c s).0 ≡ true
      → (carries_data (register p endpoint (identified p c s) s).0 ≡ true)
        × ((serve p endpoint c s).1.world ≡ (register p endpoint (identified p c s) s).1.world)
  unfolding serve request_id access_log cors
  serve-data endpoint c s h = elim (Bool-cases (str_eq c.method "OPTIONS")) [
    | inl q ↦ absurd (ground (arith, q, h))
    | inr q ↦ (ground (arith, q, h), ground (arith, q))
  ]

  logged_as :
      (o : Option String) (action : String) (h : Handler F)
      → o ≡ some action
      → LoggedAs o h
      → Audited action h
  logged_as none action h e l = cc
  logged_as (some a) action h e l = subst (λ x. Audited x h) (some-injective _ _ e) l

  -- A success is on record: a route that creates, updates, imports, detects, reviews, analyses, confirms
  -- or closes answers with data only if behind the entries of the audit log there stands a new one of
  -- that action, with the account of the request's token and with the request's id. The table of the
  -- log does what it reports, and the other requests append to it alone.
  pub serve-HasAudit :
      (endpoint : Endpoint) (action : String) (c : Context) (s : Server F)
      → action_of endpoint ≡ some action
      → carries_data (serve p endpoint c s).0 ≡ true
      → HasAudit p action c s (serve p endpoint c s).1
  unfolding actor
  serve-HasAudit endpoint action c s e h =
      let c' = identified p c s in
      let (data_, after) = serve-data endpoint c s h in
      let same = register-authenticated endpoint action c' s e in
      let audited =
        logged_as (action_of endpoint) action (chain p endpoint) e (chain-LoggedAs endpoint) in
      let (token, claims, given, accepted, logged) =
        authenticate-HasAudit action (chain p endpoint) c' s audited
          (subst (λ r. carries_data r.0 ≡ true) same data_) in
      record {
        token = token;
        given = given;
        claims = claims;
        accepted = accepted;
        logged =
            subst (λ v. HasEntry (actor (signed_in p claims c')) action s.world.audits v.audits)
              (sym (after ∙ ap (λ r. r.1.world) same)) logged;
      }
