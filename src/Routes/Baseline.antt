-- ===== src/Routes/Baseline.antt =====
-- `SetBaseline` of service/route_service.go.
use Prim.Native.Char.{Char}
use gb_522_l7o.Prelude.{ℕ, ◌≡◌, sym, Bool, false, not, ◌&&◌, some, ◌==◌, arith, inl, inr}
use gb_522_l7o.Errors.{ok}
use gb_522_l7o.Float.{Float}
use gb_522_l7o.Model.{FiberRoute}
use gb_522_l7o.Database.{World, Env, yield_to_others}
use gb_522_l7o.Algorithm.Detect.Pipeline.{Result-cases}
use gb_522_l7o.Audit.{Actor}
use gb_522_l7o.Cases.Repository.{belongs_to_route}
use gb_522_l7o.Cases.Inversion.{>>=-inv, if_raise-inv, on_error-inv, pure-ok}
use gb_522_l7o.Routes.Service.{set_baseline, load_route}

module _ {F : Type 0} (env : Env F) where
  pub belongs-inv :
      (trace_id route_id : ℕ) (w : World F) (b : Bool)
      → (belongs_to_route env trace_id route_id w).0 ≡ ok b
      → not b ≡ false
      → env.traces.count w.clock (λ t. t.id == trace_id && t.route_id == route_id) w.traces ≡ ok 1
  unfolding belongs_to_route
  belongs-inv trace_id route_id w b h positive =
      elim (Result-cases
        (env.traces.count w.clock (λ t. t.id == trace_id && t.route_id == route_id) w.traces)) [
          | inl (n, e) ↦ ground arith
          | inr (e, q) ↦ absurd (ground arith)
        ]

module _ {F : Type 0} ⦃f : Float F⦄ (env : Env F) (upper_rune : Char → Char) where
  -- The world in which `SetBaseline` asks for the trace: the route has been read, and the other
  -- requests have gone on.
  abbrev pub asked_in : ℕ → World F → World F
  asked_in route_id w = (yield_to_others env (load_route env upper_rune route_id w).1).1

  -- `SetBaseline` succeeds only if the database counted one trace with that id on that route when it
  -- was asked, after the route had been read, and the route that it returns is the one it read, with
  -- the trace as its baseline.
  pub set_baseline-belongs :
      (route_id trace_id : ℕ) (actor : Actor) (w : World F) (route : FiberRoute F)
      → (set_baseline env upper_rune route_id trace_id actor w).0 ≡ ok route
      → (env.traces.count
            (asked_in route_id w).clock
            (λ t. t.id == trace_id && t.route_id == route_id)
            (asked_in route_id w).traces
          ≡ ok 1)
        × ((read : FiberRoute F) × ((load_route env upper_rune route_id w).0 ≡ ok read)
            × (route ≡ record read { baseline_trace_id = some trace_id }))
  unfolding set_baseline
  set_baseline-belongs route_id trace_id actor w route h =
      let (read, found, rest, _) = >>=-inv _ _ w route h in
      let w1 = (load_route env upper_rune route_id w).1 in
      let (u, _, rest2, _) = >>=-inv _ _ w1 route rest in
      let w2 = asked_in route_id w in
      let (b, asked, rest3, _) = >>=-inv _ _ w2 route rest2 in
      let (belongs, rest4) = if_raise-inv (not b) _ _ _ route rest3 in
      let (u2, _, last, _) = >>=-inv _ _ _ route rest4 in
      (
        belongs-inv env trace_id route_id w2 b (on_error-inv _ _ w2 b asked) belongs,
        (read, found, sym (pure-ok _ route _ last)),
      )
