-- ===== src/Http/Audited/Steps.antt =====
-- The steps of a request, backend/internal/handler and middleware, and the audit log.
use Prim.Native.String.{String, ◌++◌}
use gb_522_l7o.Prelude.{
  ℕ, ◌≡◌, subst, Bool, true, false, Bool-cases, some, Option-cases, List, ◌==◌, arith, inl, inr,
}
use gb_522_l7o.Errors.{
  Error, nil, text, wrap, not_found, record_not_found, invalid_transaction, external, app, ok,
}
use gb_522_l7o.Strings.{trim_space, parse_uint}
use gb_522_l7o.Algorithm.Detect.Pipeline.{Result-cases}
use gb_522_l7o.Database.{M}
use gb_522_l7o.Audit.Logged.{HasEntry, Logs}
use gb_522_l7o.Auth.{Claims, parse}
use gb_522_l7o.Middleware.RateLimiter.{RateLimiter, allow}
use gb_522_l7o.Http.{
  Binding, Program, Server, Context, Body, Answer, Handler, content, fail, reply, bind, id_param,
  actor,
}
use gb_522_l7o.Http.Middleware.{choose_request_id, bearer, permit, rate_limit, has_text}

-- The answer has a value under `data`.
abbrev pub is_content : {F : Type 0} → Body F → Bool
is_content (content value page request) = true
is_content _ = false

abbrev pub carries_data : {F : Type 0} → Answer F → Bool
carries_data answer = is_content answer.body

module _ {F : Type 0} where
  -- A handler that answers with data only with such an entry of its actor.
  pub record Audited (action : String) (h : Handler F) : Type 0 where
    pub audited :
        (c : Context) (s : Server F)
        → carries_data (h c s).0 ≡ true
        → HasEntry (actor c) action s.world.audits (h c s).1.world.audits

refused : (F : Type 0) (c : Context) (e : Error) → ¬ (carries_data (fail {F = F} c e) ≡ true)
unfolding fail
refused F c (app code status message e) h = cc
refused F c (wrap message e) h = refused F c e h
refused F c nil h = cc
refused F c (text message) h = cc
refused F c not_found h = cc
refused F c record_not_found h = cc
refused F c invalid_transaction h = cc
refused F c (external message) h = cc

module _ {F : Type 0} (action : String) where
  pub reply-Audited :
      {A : Type 0} (m : Context → M F A) (k : Context → A → Answer F)
      → ((c : Context) → Logs (actor c) action (m c))
      → Audited action (λ c. reply (m c) (k c) c)
  unfolding reply
  reply-Audited m k h = record {
    audited = λ c s done. elim (Result-cases (m c s.world).0) [
      | inl (a, e) ↦ (h c).logs s.world a e
      | inr (e, q) ↦ absurd (refused F c e (rw q at done))
    ];
  }

  pub bind-Audited :
      {A : Type 0} (b : Binding A) (h : A → Handler F)
      → ((a : A) → Audited action (h a))
      → Audited action (bind b h)
  unfolding bind
  bind-Audited b h audited = record {
    audited = λ c s done. elim (Result-cases (b.decode c.body)) [
      | inr (e, q) ↦ absurd (refused F c _ (rw (q, bind) at done))
      | inl (a, q) ↦ elim (Option-cases (b.validate a)) [
        | inr (e, r) ↦ absurd (refused F c _ (rw (q, r, bind) at done))
        | inl r ↦
            subst (HasEntry (actor c) action s.world.audits) {x = (h a c s).1.world.audits}
              (ground (arith, q, r)) ((audited a).audited c s (ground (arith, q, r, done)))
      ]
    ];
  }

  pub id_param-Audited :
      (h : ℕ → Handler F) → ((id : ℕ) → Audited action (h id)) → Audited action (id_param h)
  unfolding id_param
  id_param-Audited h audited = record {
    audited = λ c s done. elim (Option-cases (parse_uint c.id)) [
      | inl q ↦ absurd (refused F c _ (rw (q, id_param) at done))
      | inr (n, q) ↦ elim (Bool-cases (n == 0)) [
        | inl r ↦ absurd (refused F c _ (rw (q, r, id_param) at done))
        | inr r ↦
            subst (HasEntry (actor c) action s.world.audits) {x = (h n c s).1.world.audits}
              (ground (arith, q, r)) ((audited n).audited c s (ground (arith, q, r, done)))
      ]
    ];
  }

module _ {F : Type 0} (p : Program F) (action : String) where
  pub permit-Audited :
      (roles : List String) (h : Handler F) → Audited action h → Audited action (permit p roles h)
  unfolding permit
  permit-Audited roles h audited = record {
    audited = λ c s done. elim (Option-cases c.role) [
      | inl q ↦ absurd (ground (arith, q, done))
      | inr (role, q) ↦ elim (Bool-cases (has_text roles role)) [
        | inl r ↦
            subst (HasEntry (actor c) action s.world.audits) {x = (h c s).1.world.audits}
              (ground (arith, q, r)) (audited.audited c s (ground (arith, q, r, done)))
        | inr r ↦ absurd (ground (arith, q, r, done))
      ]
    ];
  }

  pub rate_limit-Audited :
      (limiter : Server F → RateLimiter) (put : RateLimiter → Server F → Server F) (scope : String)
      (h : Handler F)
      → ((l : RateLimiter) (s : Server F) → (put l s).world ≡ s.world)
      → Audited action h
      → Audited action (rate_limit p limiter put scope h)
  unfolding rate_limit
  rate_limit-Audited limiter put scope h same audited = record {
    audited = λ c s done.
        let outcome = allow (scope ++ ":" ++ c.client_ip) s.world.clock (limiter s) in
        let s' = put outcome.1 s in
        elim (Bool-cases outcome.0) [
          | inl q ↦
              subst (HasEntry (actor c) action s.world.audits) {x = (h c s').1.world.audits}
                (ground (arith, q))
                (subst (λ v. HasEntry (actor c) action v.audits (h c s').1.world.audits)
                  (same outcome.1 s) (audited.audited c s' (ground (arith, q, done))))
          | inr q ↦ absurd (ground (arith, q, done))
        ];
  }

module _ {F : Type 0} (p : Program F) where
  -- The account that a request is made for, and the entry it has left.
  pub record HasAudit (action : String) (c : Context) (before after : Server F) : Type 0 where
    pub token : String
    pub given : bearer p (c.header "Authorization") ≡ some token
    pub claims : Claims
    pub accepted : (parse p.crypto p.auth p.env (trim_space token) before.world).0 ≡ ok claims
    pub logged :
        HasEntry
          (record {
            id = claims.user_id;
            username = claims.username;
            role = claims.role;
            request_id = choose_request_id p (c.header "X-Request-ID") before.world.clock;
          })
          action
          before.world.audits
          after.world.audits
