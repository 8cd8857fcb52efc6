-- ===== src/Routes/Lasting.antt =====
-- The codes of the routes under everything that writes: `Create`, `Update` and `SetBaseline` of
-- backend/internal/repository/fiber_route_repository.go.
use gb_522_l7o.Prelude.{
  ℕ, ◌≡◌, ◌≢◌, refl, sym, subst, ◌∙◌, Bool, some, List, [], ◌∷◌, All, ◌==◌, arith, Bool-cases, inl,
  inr,
}
use gb_522_l7o.Errors.{ok}
use gb_522_l7o.Float.{Float}
use gb_522_l7o.Model.{FiberRoute}
use gb_522_l7o.Database.{World, Env, yield_to_others, written}
use gb_522_l7o.Database.Preserves.{Guarantee, Preserves}
use gb_522_l7o.Writes.{Writes}
use gb_522_l7o.Writes.Frames.{framed_audits, framed_cases, framed_traces, framed_events}
use gb_522_l7o.Algorithm.Detect.Pipeline.{Result-cases}
use gb_522_l7o.Routes.Repository.{update, set_baseline, route_columns}
use gb_522_l7o.Routes.Codes.{IsRouteTable, HaveCodes, create-HaveCodes, touch_route}

module _ {F : Type 0} where
  -- An update that leaves the codes alone keeps them distinct.
  All-written :
      (touch : FiberRoute F → FiberRoute F) (p : FiberRoute F → Bool)
      (g : FiberRoute F → FiberRoute F) (r : FiberRoute F) (rows : List (FiberRoute F))
      → ((s : FiberRoute F) → (touch (g s)).route_code ≡ s.route_code)
      → All (λ s. s.route_code ≢ r.route_code) rows
      → All (λ s. s.route_code ≢ r.route_code) (written touch p g rows)
  All-written touch p g r [] same h = tt
  All-written touch p g r (s ∷ rows) same h =
      let rest = All-written touch p g r rows same h.1 in
      elim (Bool-cases (p s)) [
        | inl e ↦ rw e ((λ q. h.0 (sym (same s) ∙ q)), rest)
        | inr e ↦ rw e (h.0, rest)
      ]

  HaveCodes-written :
      (touch : FiberRoute F → FiberRoute F) (p : FiberRoute F → Bool)
      (g : FiberRoute F → FiberRoute F) (rows : List (FiberRoute F))
      → ((s : FiberRoute F) → (touch (g s)).route_code ≡ s.route_code)
      → HaveCodes rows
      → HaveCodes (written touch p g rows)
  HaveCodes-written touch p g [] same h = tt
  HaveCodes-written touch p g (r ∷ rows) same h =
      let rest = HaveCodes-written touch p g rows same h.1 in
      let apart = All-written touch p g r rows same h.0 in
      elim (Bool-cases (p r)) [
        | inl e ↦ rw e (
          subst (λ code. All (λ s. s.route_code ≢ code) (written touch p g rows)) (sym (same r))
              apart,
          rest,
        )
        | inr e ↦ rw e (apart, rest)
      ]

  abbrev pub code_guarantee : Guarantee F
  code_guarantee = record {
    Kept = λ v w. HaveCodes v.routes → HaveCodes w.routes;
    same = λ w h. h;
    chain = λ u v w p q h. q (p h);
    later = λ w t h. h;
  }

  -- The table of routes works, and the other requests, which run the same code, keep the codes distinct.
  pub record IsRouteEnv (env : Env F) : Type 0 where
    pub table : IsRouteTable env
    pub others : (w : World F) → HaveCodes w.routes → HaveCodes (env.others w).routes

module _ {F : Type 0} ⦃f : Float F⦄ (env : Env F) (laws : IsRouteEnv env) where
  update-HaveCodes :
      (t n id : ℕ) (g : FiberRoute F → FiberRoute F) (rows later : List (FiberRoute F))
      → ((s : FiberRoute F) → (touch_route t (g s)).route_code ≡ s.route_code)
      → env.routes.update t (λ r. r.id == id) g rows ≡ ok (n, later)
      → HaveCodes rows
      → HaveCodes later
  update-HaveCodes t n id g rows later same e h =
      subst HaveCodes (sym (laws.table.routes.update_ok t (λ r. r.id == id) g rows n later e).1)
        (HaveCodes-written (touch_route t) (λ r. r.id == id) g rows same h)

  update-codes :
      (route : FiberRoute F) (w : World F)
      → HaveCodes w.routes
      → HaveCodes (update env route w).1.routes
  unfolding update
  update-codes route w h =
      elim (Result-cases
        (env.routes.update w.clock (λ r. r.id == route.id) (route_columns route) w.routes)) [
          | inl ((n, rows), e) ↦ subst HaveCodes {x = rows} (ground arith) (
              update-HaveCodes w.clock n route.id (route_columns route) w.routes rows (λ s. refl) e
                h)
          | inr (e, q) ↦ subst HaveCodes {x = w.routes} (ground arith) h
        ]

  set_baseline-codes :
      (id trace_id : ℕ) (w : World F)
      → HaveCodes w.routes
      → HaveCodes (set_baseline env id trace_id w).1.routes
  unfolding set_baseline
  set_baseline-codes id trace_id w h =
      let columns : FiberRoute F → FiberRoute F =
        λ r. record r { baseline_trace_id = some trace_id } in
      elim (Result-cases (env.routes.update w.clock (λ r. r.id == id) columns w.routes)) [
        | inl ((n, rows), e) ↦
            subst HaveCodes {x = rows} (ground arith)
              (update-HaveCodes w.clock n id columns w.routes rows (λ s. refl) e h)
        | inr (e, q) ↦ subst HaveCodes {x = w.routes} (ground arith) h
      ]

  others-codes : Preserves code_guarantee (yield_to_others env)
  unfolding yield_to_others
  others-codes = record { keeps = λ w. laws.others w }

  -- Every write of the program keeps the codes distinct.
  pub code-Writes : Writes env code_guarantee
  code-Writes = record {
    others = others-codes;
    create_audit = framed_audits env code_guarantee (λ w rows h. h);
    cases = framed_cases env code_guarantee (λ w rows h. h);
    routes = record {
      create = λ upper_rune request actor. record {
        keeps = λ w h. create-HaveCodes env upper_rune request actor w laws.table (laws.others w h);
      };
      update = λ route. record { keeps = update-codes route };
      set_baseline = λ id trace_id. record { keeps = set_baseline-codes id trace_id };
    };
    traces = framed_traces env code_guarantee (λ w rows h. h);
    events = framed_events env code_guarantee (λ w rows h. h);
  }
