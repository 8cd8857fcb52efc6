-- ===== src/Routes/Repository.antt =====
-- backend/internal/repository/fiber_route_repository.go, without the listing.
use Prim.Native.String.{String}
use package.text.Mathlib.Text.{◌==◌ as str_eq}
use gb_522_l7o.Prelude.{ℕ, Bool, some, if◌then◌else◌, ◌==◌}
use gb_522_l7o.Errors.{wrap, not_found, ok, err, is_record_not_found}
use gb_522_l7o.Model.{FiberRoute}
use gb_522_l7o.Database.{Env, M}

module _ {F : Type 0} where
  -- The columns that `Update` writes.
  abbrev pub route_columns : FiberRoute F → FiberRoute F → FiberRoute F
  route_columns route row = record row {
    name = route.name;
    length_m = route.length_m;
    refractive_index = route.refractive_index;
    launch_connector = route.launch_connector;
    route_status = route.route_status;
  }

module _ {F : Type 0} (env : Env F) where
  unfoldable pub create : FiberRoute F → M F (FiberRoute F)
  create route w = elim (env.routes.create w.clock route w.routes) [
    | err e ↦ (err (wrap "create fiber route" e), w)
    | ok (route', rows) ↦ (ok route', record w { routes = rows })
  ]

  -- `First` under a condition; `failed` wraps an error of the call.
  abbrev first_route : String → (FiberRoute F → Bool) → M F (FiberRoute F)
  first_route failed p w = elim (env.routes.first w.clock p w.routes) [
    | err e ↦ (err (if is_record_not_found e then not_found else wrap failed e), w)
    | ok route ↦ (ok route, w)
  ]

  unfoldable pub get : ℕ → M F (FiberRoute F)
  get id = first_route "get fiber route" (λ r. r.id == id)

  unfoldable pub get_by_code : String → M F (FiberRoute F)
  get_by_code route_code =
      first_route "get fiber route by code" (λ r. str_eq r.route_code route_code)

  -- An update of the row with this key.
  abbrev update_route : String → ℕ → (FiberRoute F → FiberRoute F) → M F (Unit {0})
  update_route failed id g w = elim (env.routes.update w.clock (λ r. r.id == id) g w.routes) [
    | err e ↦ (err (wrap failed e), w)
    | ok (n, rows) ↦ (if n == 0 then err not_found else ok tt, record w { routes = rows })
  ]

  unfoldable pub update : FiberRoute F → M F (Unit {0})
  update route = update_route "update fiber route" route.id (route_columns route)

  unfoldable pub set_baseline : ℕ → ℕ → M F (Unit {0})
  set_baseline route_id trace_id =
      update_route "set route baseline" route_id
        (λ r. record r { baseline_trace_id = some trace_id })
