-- ===== src/Http/Admitted/Chain.antt =====
-- The chain of a route, backend/internal/router, for a role that may do what the route does.
use Prim.Native.String.{String, ◌++◌}
use gb_522_l7o.Prelude.{
  ◌≡◌, refl, ◌∙◌, Bool, true, false, Bool-cases, some, List, ◌⊎◌, arith, inl, inr,
}
use gb_522_l7o.Float.{Float}
use gb_522_l7o.Middleware.RateLimiter.{RateLimiter, allow}
use gb_522_l7o.Http.{Program, Server, Context, Handler}
use gb_522_l7o.Http.Middleware.{permit, rate_limit, has_text}
use gb_522_l7o.Http.Handlers
use gb_522_l7o.Http.Router.{
  fiber_routes, trace_routes, event_routes, case_audit_routes, register_fiber_routes,
  register_trace_routes, register_event_routes, register_case_audit_routes, Endpoint, health, ready,
  login, list_routes, get_route, create_route, update_route, set_baseline, list_traces, get_trace,
  import_trace, detect_events, list_events, review_event, list_cases, get_case, create_case,
  analyze_case, confirm_case, close_case, list_audits, analysts, reviewers, chain,
}
use gb_522_l7o.Http.Access.{duty, may_do, analysis, reviewing, is_anonymous}

-- The routes whose calls are counted, behind `AuthMiddleware`.
abbrev pub is_limited : Endpoint → Bool
is_limited (trace_routes import_trace) = true
is_limited (trace_routes detect_events) = true
is_limited (case_audit_routes analyze_case) = true
is_limited _ = false

module _ {F : Type 0} ⦃f : Float F⦄ (p : Program F) where
  -- The handlers of the routes, without the middleware.
  abbrev pub handler_of : Endpoint → Handler F
  handler_of health = Handlers.health p
  handler_of ready = Handlers.ready p
  handler_of login = Handlers.login p
  handler_of (fiber_routes list_routes) = Handlers.list_routes p
  handler_of (fiber_routes get_route) = Handlers.get_route p
  handler_of (fiber_routes create_route) = Handlers.create_route p
  handler_of (fiber_routes update_route) = Handlers.update_route p
  handler_of (fiber_routes set_baseline) = Handlers.set_baseline p
  handler_of (trace_routes list_traces) = Handlers.list_traces p
  handler_of (trace_routes get_trace) = Handlers.get_trace p
  handler_of (trace_routes import_trace) = Handlers.import_trace p
  handler_of (trace_routes detect_events) = Handlers.detect_events p
  handler_of (event_routes list_events) = Handlers.list_events p
  handler_of (event_routes review_event) = Handlers.review_event p
  handler_of (case_audit_routes list_cases) = Handlers.list_cases p
  handler_of (case_audit_routes get_case) = Handlers.get_case p
  handler_of (case_audit_routes create_case) = Handlers.create_case p
  handler_of (case_audit_routes analyze_case) = Handlers.analyze_case p
  handler_of (case_audit_routes confirm_case) = Handlers.confirm_case p
  handler_of (case_audit_routes close_case) = Handlers.close_case p
  handler_of (case_audit_routes list_audits) = Handlers.list_audits p

  permit-admits :
      (roles : List String) (role : String) (next : Handler F) (c : Context) (s : Server F)
      → c.role ≡ some role
      → has_text roles role ≡ true
      → permit p roles next c s ≡ next c s
  unfolding permit
  permit-admits roles role next c s e h = ground arith

  rate_limit-admits :
      (limiter : Server F → RateLimiter) (put : RateLimiter → Server F → Server F) (scope : String)
      (next : Handler F) (c : Context) (s : Server F)
      → ((l : RateLimiter) → (put l s).world ≡ s.world)
      → ((s' : Server F) × (s'.world ≡ s.world)
          × (rate_limit p limiter put scope next c s ≡ next c s'))
        ⊎ ((rate_limit p limiter put scope next c s).0.status ≡ 429)
  unfolding rate_limit
  rate_limit-admits limiter put scope next c s same =
      let outcome = allow (scope ++ ":" ++ c.client_ip) s.world.clock (limiter s) in
      elim (Bool-cases outcome.0) [
        | inl passed ↦ inl (put outcome.1 s, same outcome.1, ground (arith, passed))
        | inr counted ↦ inr (ground (arith, counted))
      ]

  -- The rest of the chain, or the answer of a limiter.
  abbrev pub Reaches : Endpoint → Context → Server F → Type 0
  Reaches endpoint c s =
      ((s' : Server F) × (s'.world ≡ s.world) × (chain p endpoint c s ≡ handler_of endpoint c s'))
      ⊎ ((is_limited endpoint ≡ true) × ((chain p endpoint c s).0.status ≡ 429))

  analysts-let_in : (role : String) → may_do analysis role ≡ true → has_text analysts role ≡ true
  analysts-let_in role h = ground arith

  reviewers-let_in : (role : String) → may_do reviewing role ≡ true → has_text reviewers role ≡ true
  reviewers-let_in role h = ground arith

  limited-Reaches :
      (limiter : Server F → RateLimiter) (put : RateLimiter → Server F → Server F) (scope : String)
      (role : String) (h : Handler F) (endpoint : Endpoint) (c : Context) (s : Server F)
      → ((l : RateLimiter) (s : Server F) → (put l s).world ≡ s.world)
      → is_limited endpoint ≡ true
      → c.role ≡ some role
      → may_do analysis role ≡ true
      → ((s' : Server F) × (s'.world ≡ s.world)
          × (rate_limit p limiter put scope (permit p analysts h) c s ≡ h c s'))
        ⊎ ((is_limited endpoint ≡ true)
            × ((rate_limit p limiter put scope (permit p analysts h) c s).0.status ≡ 429))
  limited-Reaches limiter put scope role h endpoint c s same limited e may =
      elim (rate_limit-admits limiter put scope (permit p analysts h) c s (λ l. same l s)) [
        | inl (s', kept, step) ↦
            inl (s', kept, step ∙ permit-admits analysts role h c s' e (analysts-let_in role may))
        | inr counted ↦ inr (limited, counted)
      ]

  pub chain-Reaches :
      (endpoint : Endpoint) (role : String) (c : Context) (s : Server F)
      → is_anonymous (duty endpoint) ≡ false
      → c.role ≡ some role
      → may_do (duty endpoint) role ≡ true
      → Reaches endpoint c s
  unfolding chain register_fiber_routes register_trace_routes register_event_routes
      register_case_audit_routes
  chain-Reaches health role c s b e h = absurd (ground arith)
  chain-Reaches ready role c s b e h = absurd (ground arith)
  chain-Reaches login role c s b e h = absurd (ground arith)
  chain-Reaches (fiber_routes list_routes) role c s b e h = inl (s, refl, refl)
  chain-Reaches (fiber_routes get_route) role c s b e h = inl (s, refl, refl)
  chain-Reaches (trace_routes list_traces) role c s b e h = inl (s, refl, refl)
  chain-Reaches (trace_routes get_trace) role c s b e h = inl (s, refl, refl)
  chain-Reaches (event_routes list_events) role c s b e h = inl (s, refl, refl)
  chain-Reaches (case_audit_routes list_cases) role c s b e h = inl (s, refl, refl)
  chain-Reaches (case_audit_routes get_case) role c s b e h = inl (s, refl, refl)
  chain-Reaches (fiber_routes create_route) role c s b e h =
      inl (s, refl, permit-admits analysts role _ c s e (analysts-let_in role h))
  chain-Reaches (fiber_routes update_route) role c s b e h =
      inl (s, refl, permit-admits analysts role _ c s e (analysts-let_in role h))
  chain-Reaches (case_audit_routes create_case) role c s b e h =
      inl (s, refl, permit-admits analysts role _ c s e (analysts-let_in role h))
  chain-Reaches (fiber_routes set_baseline) role c s b e h =
      inl (s, refl, permit-admits reviewers role _ c s e (reviewers-let_in role h))
  chain-Reaches (event_routes review_event) role c s b e h =
      inl (s, refl, permit-admits reviewers role _ c s e (reviewers-let_in role h))
  chain-Reaches (case_audit_routes confirm_case) role c s b e h =
      inl (s, refl, permit-admits reviewers role _ c s e (reviewers-let_in role h))
  chain-Reaches (case_audit_routes close_case) role c s b e h =
      inl (s, refl, permit-admits reviewers role _ c s e (reviewers-let_in role h))
  chain-Reaches (case_audit_routes list_audits) role c s b e h =
      inl (s, refl, permit-admits reviewers role _ c s e (reviewers-let_in role h))
  chain-Reaches (trace_routes import_trace) role c s b e h =
      limited-Reaches _ _ _ role _ (trace_routes import_trace) c s (λ l s. refl) refl e h
  chain-Reaches (trace_routes detect_events) role c s b e h =
      limited-Reaches _ _ _ role _ (trace_routes detect_events) c s (λ l s. refl) refl e h
  chain-Reaches (case_audit_routes analyze_case) role c s b e h =
      limited-Reaches _ _ _ role _ (case_audit_routes analyze_case) c s (λ l s. refl) refl e h
