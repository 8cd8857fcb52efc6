-- ===== src/Http/Refused.antt =====
-- What a request leaves behind that is not let through, backend/internal/router.
use Prim.Native.String.{String, ◌++◌}
use package.text.Mathlib.Text.{◌==◌ as str_eq}
use gb_522_l7o.Prelude.{
  ◌≡◌, refl, sym, subst, ap, ◌∙◌, Bool, true, false, Bool-cases, none, some, Option-cases, List,
  if◌then◌else◌, ◌==◌, ◌||◌, arith, inl, inr,
}
use gb_522_l7o.Errors.{ok, err}
use gb_522_l7o.Float.{Float}
use gb_522_l7o.Algorithm.Detect.Pipeline.{Result-cases}
use gb_522_l7o.Strings.{trim_space}
use gb_522_l7o.Database.{World, Env, ◌>>=◌, pure, on_error, yield_to_others}
use gb_522_l7o.Auth.{Crypto, AuthService, has_id, key_of, find_by_id, token_claims, parse}
use gb_522_l7o.Middleware.RateLimiter.{RateLimiter, allow}
use gb_522_l7o.Http.{Program, Server, Context, Answer, Handler}
use gb_522_l7o.Http.Middleware.{bearer, signed_in, authenticate, permit, rate_limit, has_text}
use gb_522_l7o.Http.Router.{
  fiber_routes, trace_routes, event_routes, case_audit_routes, register_fiber_routes,
  register_trace_routes, register_event_routes, register_case_audit_routes, Endpoint, health, ready,
  login, list_routes, get_route, create_route, update_route, set_baseline, list_traces, get_trace,
  import_trace, detect_events, list_events, review_event, list_cases, get_case, create_case,
  analyze_case, confirm_case, close_case, list_audits, analysts, reviewers, chain, serve,
}
use gb_522_l7o.Http.Access.{
  duty, may_do, analysis, reviewing, is_anonymous, register-authenticate, serve-status,
}

-- One of the three ways to be turned away: 401, 403 and 429.
abbrev pub turns_away : {F : Type 0} → Answer F → Bool
turns_away answer = answer.status == 401 || answer.status == 403 || answer.status == 429

module _ {F : Type 0} (crypto : Crypto) (auth : AuthService) (env : Env F) where
  -- `Parse` writes nothing.
  parse-world :
      (token : String) (w : World F)
      → (waited : Bool) × ((parse crypto auth env token w).1 ≡ (if waited then env.others w else w))
  unfolding parse token_claims find_by_id yield_to_others ◌>>=◌ pure on_error
  parse-world token w = elim (Result-cases (crypto.parse w.clock token (key_of auth))) [
    | inr (e, q) ↦ (false, ground arith)
    | inl ((valid, claims), e) ↦ elim (Bool-cases valid) [
      | inr bad ↦ (false, ground (arith, e, bad))
      | inl good ↦
          elim (Result-cases
            ((env.users.first (env.others w).clock (has_id claims.user_id) (env.others w).users))) [
              | inl (user, q) ↦ (true, ground (arith, e, good, q))
              | inr (e2, q) ↦ (true, ground (arith, e, good, q))
            ]
    ]
  ]

module _ {F : Type 0} (p : Program F) where
  -- Whether a request carries a token of an account whose role may do what the route does.
  abbrev pub may_enter : Endpoint → Context → Server F → Bool
  may_enter endpoint c s = elim (bearer p (c.header "Authorization")) [
    | none ↦ false
    | some token ↦ elim (parse p.crypto p.auth p.env (trim_space token) s.world).0 [
      | err e ↦ false
      | ok claims ↦ may_do (duty endpoint) claims.role
    ]
  ]

  -- The tables are as they were, or as the others have left them.
  abbrev IsUntouched : Server F → Server F → Type 0
  IsUntouched s s' =
      (waited : Bool) × (s'.world ≡ (if waited then p.env.others s.world else s.world))

  permit-refuses :
      (roles : List String) (role : String) (next : Handler F) (c : Context) (s : Server F)
      → c.role ≡ some role
      → has_text roles role ≡ false
      → (turns_away (permit p roles next c s).0 ≡ true)
        × ((permit p roles next c s).1.world ≡ s.world)
  unfolding permit
  permit-refuses roles role next c s e h = ground arith

  rate_limit-refuses :
      (limiter : Server F → RateLimiter) (put : RateLimiter → Server F → Server F) (scope : String)
      (next : Handler F) (c : Context) (s : Server F)
      → ((l : RateLimiter) → (put l s).world ≡ s.world)
      → ((l : RateLimiter)
          → (turns_away (next c (put l s)).0 ≡ true)
            × ((next c (put l s)).1.world ≡ (put l s).world))
      → let r = rate_limit p limiter put scope next c s in
        (turns_away r.0 ≡ true) × (r.1.world ≡ s.world)
  unfolding rate_limit
  rate_limit-refuses limiter put scope next c s same h =
      let outcome = allow (scope ++ ":" ++ c.client_ip) s.world.clock (limiter s) in
      ground (arith, same outcome.1, h outcome.1)

module _ {F : Type 0} ⦃f : Float F⦄ (p : Program F) where
  analysts-may_not : (role : String) → may_do analysis role ≡ false → has_text analysts role ≡ false
  analysts-may_not role h = ground arith

  reviewers-may_not :
      (role : String) → may_do reviewing role ≡ false → has_text reviewers role ≡ false
  reviewers-may_not role h = ground arith

  chain-refuses :
      (endpoint : Endpoint) (role : String) (c : Context) (s : Server F)
      → c.role ≡ some role
      → may_do (duty endpoint) role ≡ false
      → (turns_away (chain p endpoint c s).0 ≡ true) × ((chain p endpoint c s).1.world ≡ s.world)
  unfolding chain register_fiber_routes register_trace_routes register_event_routes
      register_case_audit_routes
  chain-refuses (fiber_routes create_route) role c s e h =
      permit-refuses p analysts role _ c s e (analysts-may_not role h)
  chain-refuses (fiber_routes update_route) role c s e h =
      permit-refuses p analysts role _ c s e (analysts-may_not role h)
  chain-refuses (case_audit_routes create_case) role c s e h =
      permit-refuses p analysts role _ c s e (analysts-may_not role h)
  chain-refuses (trace_routes import_trace) role c s e h =
      rate_limit-refuses p _ _ _ _ c s (λ l. refl)
        (λ l. permit-refuses p analysts role _ c _ e (analysts-may_not role h))
  chain-refuses (trace_routes detect_events) role c s e h =
      rate_limit-refuses p _ _ _ _ c s (λ l. refl)
        (λ l. permit-refuses p analysts role _ c _ e (analysts-may_not role h))
  chain-refuses (case_audit_routes analyze_case) role c s e h =
      rate_limit-refuses p _ _ _ _ c s (λ l. refl)
        (λ l. permit-refuses p analysts role _ c _ e (analysts-may_not role h))
  chain-refuses (fiber_routes set_baseline) role c s e h =
      permit-refuses p reviewers role _ c s e (reviewers-may_not role h)
  chain-refuses (event_routes review_event) role c s e h =
      permit-refuses p reviewers role _ c s e (reviewers-may_not role h)
  chain-refuses (case_audit_routes confirm_case) role c s e h =
      permit-refuses p reviewers role _ c s e (reviewers-may_not role h)
  chain-refuses (case_audit_routes close_case) role c s e h =
      permit-refuses p reviewers role _ c s e (reviewers-may_not role h)
  chain-refuses (case_audit_routes list_audits) role c s e h =
      permit-refuses p reviewers role _ c s e (reviewers-may_not role h)
  chain-refuses health role c s e h = absurd (ground arith)
  chain-refuses ready role c s e h = absurd (ground arith)
  chain-refuses login role c s e h = absurd (ground arith)
  chain-refuses (fiber_routes list_routes) role c s e h = absurd (ground arith)
  chain-refuses (fiber_routes get_route) role c s e h = absurd (ground arith)
  chain-refuses (trace_routes list_traces) role c s e h = absurd (ground arith)
  chain-refuses (trace_routes get_trace) role c s e h = absurd (ground arith)
  chain-refuses (event_routes list_events) role c s e h = absurd (ground arith)
  chain-refuses (case_audit_routes list_cases) role c s e h = absurd (ground arith)
  chain-refuses (case_audit_routes get_case) role c s e h = absurd (ground arith)

  authenticate-refuses :
      (endpoint : Endpoint) (c : Context) (s : Server F)
      → may_enter p endpoint c s ≡ false
      → (turns_away (authenticate p (chain p endpoint) c s).0 ≡ true)
        × IsUntouched p s (authenticate p (chain p endpoint) c s).1
  unfolding authenticate
  authenticate-refuses endpoint c s h = elim (Option-cases (bearer p (c.header "Authorization"))) [
    | inl absent ↦ (ground (arith, absent), (false, ground (arith, absent)))
    | inr (token, given) ↦
        let (waited, left) = parse-world p.crypto p.auth p.env (trim_space token) s.world in
        elim (Result-cases (parse p.crypto p.auth p.env (trim_space token) s.world).0) [
          | inr (e, q) ↦ (ground (arith, given, q), (waited, ground (arith, given, q, left)))
          | inl (claims, e) ↦
              let s' = record s {
                world = (parse p.crypto p.auth p.env (trim_space token) s.world).1;
              } in
              let (turned, kept) =
                chain-refuses endpoint claims.role (signed_in p claims c) s' refl
                  (ground (arith, given, e)) in
              (ground (arith, given, e, turned), (waited, ground (arith, given, e, kept, left)))
        ]
  ]

  -- A request that has no token, or one that `Parse` does not accept, or one of an account whose role
  -- may not do what the route does, is answered 401, 403 or 429 by a route behind `AuthMiddleware`, and
  -- it has written nothing: the tables are as they were or as the other requests have left them. The
  -- method is not `OPTIONS`.
  pub serve-refuses :
      (endpoint : Endpoint) (c : Context) (s : Server F)
      → str_eq c.method "OPTIONS" ≡ false
      → is_anonymous (duty endpoint) ≡ false
      → may_enter p endpoint c s ≡ false
      → (turns_away (serve p endpoint c s).0 ≡ true) × IsUntouched p s (serve p endpoint c s).1
  serve-refuses endpoint c s method behind h =
      let (c', same, status, left) = serve-status p endpoint c s method in
      let (turned, (waited, world)) =
        authenticate-refuses endpoint c' s
          (subst (λ g. may_enter p endpoint (record c { header = g }) s ≡ false) (sym same) h) in
      let step = register-authenticate p endpoint c' s behind in
      (
        subst (λ n. (n == 401 || n == 403 || n == 429) ≡ true)
            (ap (λ r. r.0.status) (sym step) ∙ sym status) turned,
        (waited, left ∙ ap (λ r. r.1.world) step ∙ world),
      )
