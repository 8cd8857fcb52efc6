-- ===== src/Http/Safe/Steps.antt =====
-- What the steps of a request, backend/internal/handler and middleware, do to the tables.
use Prim.Native.String.{String, ◌++◌}
use package.text.Mathlib.Text.{◌==◌ as str_eq}
use gb_522_l7o.Prelude.{ℕ, ◌≡◌, sym, subst, Bool-cases, Option-cases, List, ◌==◌, arith, inl, inr}
use gb_522_l7o.Float.{Float}
use gb_522_l7o.Algorithm.Detect.Pipeline.{Result-cases}
use gb_522_l7o.Strings.{trim_space, parse_uint}
use gb_522_l7o.Database.{M}
use gb_522_l7o.Auth.{parse}
use gb_522_l7o.Database.Preserves.{Guarantee, Preserves}
use gb_522_l7o.Writes.{Writes}
use gb_522_l7o.Middleware.RateLimiter.{RateLimiter, allow}
use gb_522_l7o.Http.{Binding, Program, Server, Context, Answer, Handler, reply, bind, id_param}
use gb_522_l7o.Http.Middleware.{
  request_id, access_log, bearer, signed_in, authenticate, permit, rate_limit, cors, has_text,
}
use gb_522_l7o.Http.Keeps.{parse-Preserves}

module _ {F : Type 0} where
  -- A handler that keeps the guarantee.
  pub record Safe (g : Guarantee F) (h : Handler F) : Type 0 where
    pub safe : (c : Context) (s : Server F) → g.Kept s.world (h c s).1.world

module _ {F : Type 0} (g : Guarantee F) where
  pub reply-Safe :
      {A : Type 0} (m : Context → M F A) (k : Context → A → Answer F)
      → ((c : Context) → Preserves g (m c))
      → Safe g (λ c. reply (m c) (k c) c)
  unfolding reply
  reply-Safe m k h = record { safe = λ c s. (h c).keeps s.world }

  pub bind-Safe :
      {A : Type 0} (b : Binding A) (h : A → Handler F)
      → ((a : A) → Safe g (h a))
      → Safe g (bind b h)
  unfolding bind
  bind-Safe b h safe = record {
    safe = λ c s. elim (Result-cases (b.decode c.body)) [
      | inr (e, q) ↦ subst (g.Kept s.world) {x = s.world} (ground (arith, q)) (g.same s.world)
      | inl (a, q) ↦ elim (Option-cases (b.validate a)) [
        | inr (e, r) ↦ subst (g.Kept s.world) {x = s.world} (ground (arith, q, r)) (g.same s.world)
        | inl r ↦
            subst (g.Kept s.world) {x = (h a c s).1.world} (ground (arith, q, r))
              ((safe a).safe c s)
      ]
    ];
  }

  pub id_param-Safe : (h : ℕ → Handler F) → ((id : ℕ) → Safe g (h id)) → Safe g (id_param h)
  unfolding id_param
  id_param-Safe h safe = record {
    safe = λ c s. elim (Option-cases (parse_uint c.id)) [
      | inl q ↦ subst (g.Kept s.world) {x = s.world} (ground (arith, q)) (g.same s.world)
      | inr (n, q) ↦ elim (Bool-cases (n == 0)) [
        | inl r ↦ subst (g.Kept s.world) {x = s.world} (ground (arith, q, r)) (g.same s.world)
        | inr r ↦
            subst (g.Kept s.world) {x = (h n c s).1.world} (ground (arith, q, r))
              ((safe n).safe c s)
      ]
    ];
  }

module _ {F : Type 0} ⦃f : Float F⦄ (p : Program F) (g : Guarantee F) where
  pub permit-Safe : (roles : List String) (h : Handler F) → Safe g h → Safe g (permit p roles h)
  unfolding permit
  permit-Safe roles h safe = record {
    safe = λ c s. elim (Option-cases c.role) [
      | inl q ↦ subst (g.Kept s.world) {x = s.world} (ground (arith, q)) (g.same s.world)
      | inr (role, q) ↦ elim (Bool-cases (has_text roles role)) [
        | inl r ↦
            subst (g.Kept s.world) {x = (h c s).1.world} (ground (arith, q, r)) (safe.safe c s)
        | inr r ↦ subst (g.Kept s.world) {x = s.world} (ground (arith, q, r)) (g.same s.world)
      ]
    ];
  }

  pub rate_limit-Safe :
      (limiter : Server F → RateLimiter) (put : RateLimiter → Server F → Server F) (scope : String)
      (h : Handler F)
      → ((l : RateLimiter) (s : Server F) → (put l s).world ≡ s.world)
      → Safe g h
      → Safe g (rate_limit p limiter put scope h)
  unfolding rate_limit
  rate_limit-Safe limiter put scope h same safe = record {
    safe = λ c s.
        let outcome = allow (scope ++ ":" ++ c.client_ip) s.world.clock (limiter s) in
        let s' = put outcome.1 s in
        let kept = same outcome.1 s in
        elim (Bool-cases outcome.0) [
          | inl q ↦
              subst (g.Kept s.world) {x = (h c s').1.world} (ground (arith, q))
                (subst (λ v. g.Kept v (h c s').1.world) kept (safe.safe c s'))
          | inr q ↦
              subst (g.Kept s.world) {x = s'.world} (ground (arith, q))
                (subst (g.Kept s.world) (sym kept) (g.same s.world))
        ];
  }

  pub authenticate-Safe : (h : Handler F) → Writes p.env g → Safe g h → Safe g (authenticate p h)
  unfolding authenticate
  authenticate-Safe h writes safe = record {
    safe = λ c s. elim (Option-cases (bearer p (c.header "Authorization"))) [
      | inl q ↦ subst (g.Kept s.world) {x = s.world} (ground (arith, q)) (g.same s.world)
      | inr (token, q) ↦
          let read = parse p.crypto p.auth p.env (trim_space token) s.world in
          let s' = record s { world = read.1 } in
          let first =
            (parse-Preserves p.crypto p.auth p.env g writes (trim_space token)).keeps s.world in
          elim (Result-cases read.0) [
            | inr (e, r) ↦ subst (g.Kept s.world) {x = read.1} (ground (arith, q, r)) first
            | inl (claims, r) ↦
                subst (g.Kept s.world) {x = (h (signed_in p claims c) s').1.world}
                  (ground (arith, q, r))
                  (g.chain s.world read.1 _ first (safe.safe (signed_in p claims c) s'))
          ]
    ];
  }

  pub request_id-Safe : (h : Handler F) → Safe g h → Safe g (request_id p h)
  unfolding request_id
  request_id-Safe h safe = record { safe = λ c s. safe.safe _ s }

  pub access_log-Safe : (h : Handler F) → Safe g h → Safe g (access_log p h)
  unfolding access_log
  access_log-Safe h safe = record { safe = λ c s. safe.safe c s }

  pub cors-Safe : (h : Handler F) → Safe g h → Safe g (cors p h)
  unfolding cors
  cors-Safe h safe = record {
    safe = λ c s. elim (Bool-cases (str_eq c.method "OPTIONS")) [
      | inl q ↦ subst (g.Kept s.world) {x = s.world} (ground (arith, q)) (g.same s.world)
      | inr q ↦ subst (g.Kept s.world) {x = (h c s).1.world} (ground (arith, q)) (safe.safe c s)
    ];
  }
