-- ===== src/Http/Admitted.antt =====
-- What becomes of a request that may do what its route does, backend/internal/router.
pub mod Chain
use Chain.{is_limited, handler_of, chain-Reaches}
use Prim.Native.String.{String, ◌++◌}
use package.text.Mathlib.Text.{◌==◌ as str_eq}
use gb_522_l7o.Prelude.{
  ◌≡◌, refl, sym, subst, ap, ◌∙◌, Bool, true, false, Bool-cases, some, Option-cases, List, ◌⊎◌,
  arith, inl, inr,
}
use gb_522_l7o.Errors.{ok}
use gb_522_l7o.Float.{Float}
use gb_522_l7o.Algorithm.Detect.Pipeline.{Result-cases}
use gb_522_l7o.Strings.{trim_space}
use gb_522_l7o.Auth.{Claims, parse}
use gb_522_l7o.Middleware.RateLimiter.{RateLimiter, allow}
use gb_522_l7o.Http.{Program, Server, Context, Body, Answer, AccessLine, Handler}
use gb_522_l7o.Http.Middleware.{
  request_id, choose_request_id, access_log, bearer, signed_in, authenticate, permit, rate_limit,
  cors, has_text,
}
use gb_522_l7o.Http.Handlers
use gb_522_l7o.Http.Router.{
  fiber_routes, trace_routes, event_routes, case_audit_routes, register_fiber_routes,
  register_trace_routes, register_event_routes, register_case_audit_routes, Endpoint, health, ready,
  login, list_routes, get_route, create_route, update_route, set_baseline, list_traces, get_trace,
  import_trace, detect_events, list_events, review_event, list_cases, get_case, create_case,
  analyze_case, confirm_case, close_case, list_audits, analysts, reviewers, chain, register, serve,
}
use gb_522_l7o.Http.Access.{
  Duty, anonymous, reading, duty, may_do, analysis, reviewing, is_anonymous, register-authenticate,
  identified,
}
use gb_522_l7o.Http.Refused.{may_enter}

module _ {F : Type 0} where
  -- A server with another access log.
  abbrev with_lines : List AccessLine → Server F → Server F
  with_lines lines s = record s { access_lines = lines }

  with_lines_self : (after s : Server F) → after ≡ s → after ≡ with_lines after.access_lines s
  with_lines_self after s e = ap (with_lines after.access_lines) e

module _ {F : Type 0} ⦃f : Float F⦄ (p : Program F) where
  -- What has become of a request: the account of its token, and the run of the handler for it, on the
  -- tables that reading the account has left.
  pub record IsHandled (endpoint : Endpoint) (c : Context) (s : Server F) (answer : Answer F)
      (after : Server F) : Type 0 where
    pub token : String
    pub given : bearer p (c.header "Authorization") ≡ some token
    pub claims : Claims
    pub accepted : (parse p.crypto p.auth p.env (trim_space token) s.world).0 ≡ ok claims
    pub reached : Server F
    pub same_world : reached.world ≡ (parse p.crypto p.auth p.env (trim_space token) s.world).1
    pub same_answer :
        (answer.status ≡ (handler_of p endpoint (signed_in p claims c) reached).0.status)
        × (answer.body ≡ (handler_of p endpoint (signed_in p claims c) reached).0.body)
    pub same_server : after ≡ record (handler_of p endpoint (signed_in p claims c) reached).1 {
      access_lines = after.access_lines;
    }

  authenticate-Reaches :
      (endpoint : Endpoint) (c : Context) (s : Server F)
      → is_anonymous (duty endpoint) ≡ false
      → may_enter p endpoint c s ≡ true
      → let r = authenticate p (chain p endpoint) c s in
        IsHandled endpoint c s r.0 r.1 ⊎ ((is_limited endpoint ≡ true) × (r.0.status ≡ 429))
  unfolding authenticate
  authenticate-Reaches endpoint c s behind may =
      elim (Option-cases (bearer p (c.header "Authorization"))) [
        | inl absent ↦ absurd (ground (arith, absent, may))
        | inr (token, given) ↦
            let read = parse p.crypto p.auth p.env (trim_space token) s.world in
            elim (Result-cases read.0) [
              | inr (e, q) ↦ absurd (ground (arith, given, q, may))
              | inl (claims, q) ↦
                  let c' = signed_in p claims c in
                  let s' = record s { world = read.1 } in
                  let next : authenticate p (chain p endpoint) c s ≡ chain p endpoint c' s' =
                    ground (arith, given, q) in
                  elim (chain-Reaches p endpoint claims.role c' s' behind refl
                    (ground (arith, given, q, may))) [
                      | inl (reached, kept, step) ↦
                          let same = next ∙ step in
                          inl (record {
                            token = token;
                            given = given;
                            claims = claims;
                            accepted = q;
                            reached = reached;
                            same_world = kept;
                            same_answer = (ap (λ r. r.0.status) same, ap (λ r. r.0.body) same);
                            same_server = with_lines_self _ _ (ap (λ r. r.1) same);
                          })
                      | inr (limited, counted) ↦ inr (limited, ap (λ r. r.0.status) next ∙ counted)
                    ]
            ]
      ]

  serve-register :
      (endpoint : Endpoint) (c : Context) (s : Server F)
      → str_eq c.method "OPTIONS" ≡ false
      → let r = register p endpoint (identified p c s) s in
        ((serve p endpoint c s).0.status ≡ r.0.status)
        × ((serve p endpoint c s).0.body ≡ r.0.body)
        × ((serve p endpoint c s).1
            ≡ record r.1 { access_lines = (serve p endpoint c s).1.access_lines })
  unfolding serve request_id access_log cors
  serve-register endpoint c s method = (ground arith, ground arith, ground arith)

  -- A request with an accepted token of an account whose role may do what the route does reaches the
  -- handler of the route: the status and the body of the answer, and all that is left behind but the access log, are those of
  -- the handler, called with the account and the id of the request, on the tables as reading the account
  -- has left them. The one exception is a route that counts its calls, which may answer 429. The method
  -- is not `OPTIONS`.
  pub serve-IsHandled :
      (endpoint : Endpoint) (c : Context) (s : Server F)
      → str_eq c.method "OPTIONS" ≡ false
      → is_anonymous (duty endpoint) ≡ false
      → may_enter p endpoint c s ≡ true
      → IsHandled endpoint (identified p c s) s (serve p endpoint c s).0 (serve p endpoint c s).1
        ⊎ ((is_limited endpoint ≡ true) × ((serve p endpoint c s).0.status ≡ 429))
  serve-IsHandled endpoint c s method behind may =
      let c' = identified p c s in
      let (status, body, left) = serve-register endpoint c s method in
      let step = register-authenticate p endpoint c' s behind in
      let lines = (serve p endpoint c s).1.access_lines in
      elim (authenticate-Reaches endpoint c' s behind may) [
        | inr (limited, counted) ↦ inr (limited, status ∙ ap (λ r. r.0.status) step ∙ counted)
        | inl done ↦ inl (record {
          token = done.token;
          given = done.given;
          claims = done.claims;
          accepted = done.accepted;
          reached = done.reached;
          same_world = done.same_world;
          same_answer = (
            status ∙ ap (λ r. r.0.status) step ∙ done.same_answer.0,
            body ∙ ap (λ r. r.0.body) step ∙ done.same_answer.1,
          );
          same_server = left ∙ ap (with_lines lines) (ap (λ r. r.1) step ∙ done.same_server);
        })
      ]
