-- ===== src/Routes/Service.antt =====
-- `RouteService` of backend/internal/service/route_service.go, without the listings.
use Prim.Native.Char.{Char}
use Prim.Native.String.{String}
use gb_522_l7o.Prelude.{ℕ, not, Option, none, some, if◌then◌else◌}
use gb_522_l7o.Errors.{
  nil, Result, ok, err, is_not_found, is_app_error, invalid, conflict, internal, resource_not_found,
}
use gb_522_l7o.Float.{Float}
use gb_522_l7o.Json.{Json, num, str, obj, done, field, optional, nat}
use gb_522_l7o.Model.{FiberRoute}
use gb_522_l7o.Snapshot.{scrub}
use gb_522_l7o.Database.{
  Env, M, ◌>>=◌, ◌>>◌, pure, raise, on_error, yield_to_others, transaction, attempt,
}
use gb_522_l7o.Audit.{Actor, audit, create_audit}
use gb_522_l7o.Strings.{is_empty, trim_space, to_upper}
use gb_522_l7o.Cases.Repository.{belongs_to_route}
use gb_522_l7o.Routes.Repository

-- The requests of backend/internal/dto/route.go, after binding and validation.
pub record CreateRouteRequest (F : Type 0) : Type 0 where
  pub route_code : String
  pub name : String
  pub length_m : F
  pub refractive_index : F
  pub launch_connector : String
  pub route_status : String

pub record UpdateRouteRequest (F : Type 0) : Type 0 where
  pub name : Option String
  pub length_m : Option F
  pub refractive_index : Option F
  pub launch_connector : Option String
  pub route_status : Option String

abbrev or_kept : {A : Type 0} → A → Option A → A
or_kept kept none = kept
or_kept kept (some x) = x

module _ {F : Type 0} ⦃f : Float F⦄ (env : Env F) (upper_rune : Char → Char) where
  -- `json.Marshal` of a route.
  abbrev route_document : FiberRoute F → Json F
  route_document r = obj (
      field "id" (nat r.id) (
        field "route_code" (str r.route_code) (
          field "name" (str r.name) (
            field "length_m" (num r.length_m) (
              field "refractive_index" (num r.refractive_index) (
                field "launch_connector" (str r.launch_connector) (
                  field "route_status" (str r.route_status) (
                    field "baseline_trace_id" (optional nat r.baseline_trace_id) (
                      field "created_at" (str (env.format_time r.created_at))
                        (field "updated_at" (str (env.format_time r.updated_at)) done))))))))))

  abbrev record_route : Actor → String → ℕ → Json F → Json F → M F (Unit {0})
  record_route actor action id before after = create_audit env (
      audit actor action "FiberRoute" id (some id) (scrub env.lower_rune before)
        (scrub env.lower_rune after))

  abbrev pub new_route : CreateRouteRequest F → FiberRoute F
  new_route request = record {
    id = 0;
    route_code = to_upper upper_rune (trim_space request.route_code);
    name = trim_space request.name;
    length_m = request.length_m;
    refractive_index = request.refractive_index;
    launch_connector = trim_space request.launch_connector;
    route_status = if is_empty request.route_status then "active" else request.route_status;
    baseline_trace_id = none;
    created_at = 0;
    updated_at = 0;
  }

  -- `Create`, once the code has been looked up.
  unfoldable pub store_route : FiberRoute F → Actor → Result (FiberRoute F) → M F (FiberRoute F)
  store_route route actor (ok taken) = raise (conflict "route code already exists" nil)
  store_route route actor (err e) = if not (is_not_found e) then raise e else do
    made ← Repository.create env route
    record_route actor "route.created" made.id (obj done) (route_document made)
    pure made

  unfoldable pub create : CreateRouteRequest F → Actor → M F (FiberRoute F)
  create request actor =
      let route = new_route request in
      on_error (λ e. if is_app_error e then e else internal "create route failed" e)
        (transaction env (do
          found ← attempt (Repository.get_by_code env route.route_code)
          store_route route actor found))

  -- The read of a route that the methods begin with, and its two errors.
  unfoldable pub load_route : ℕ → M F (FiberRoute F)
  load_route id =
      yield_to_others env
      >> on_error
          (λ e.
            if is_not_found e then resource_not_found "route" else internal "get route failed" e)
          (Repository.get env id)

  abbrev pub changed_route : UpdateRouteRequest F → FiberRoute F → FiberRoute F
  changed_route request before = record before {
    name = elim request.name [ none ↦ before.name | some x ↦ trim_space x ];
    length_m = or_kept before.length_m request.length_m;
    refractive_index = or_kept before.refractive_index request.refractive_index;
    launch_connector = elim request.launch_connector [
      | none ↦ before.launch_connector
      | some x ↦ trim_space x
    ];
    route_status = or_kept before.route_status request.route_status;
  }

  unfoldable pub update : ℕ → UpdateRouteRequest F → Actor → M F (FiberRoute F)
  update id request actor = do
    before ← load_route id
    let after = changed_route request before
    on_error (internal "update route failed") (
        transaction env (
          Repository.update env after
          >> record_route actor "route.updated" id (route_document before) (route_document after)))
    pure after

  abbrev baseline_document : Option ℕ → Json F
  baseline_document trace_id = obj (field "baseline_trace_id" (optional nat trace_id) done)

  unfoldable pub set_baseline : ℕ → ℕ → Actor → M F (FiberRoute F)
  set_baseline route_id trace_id actor = do
    route ← load_route route_id
    yield_to_others env
    belongs ←
        on_error (internal "validate baseline trace failed")
          (belongs_to_route env trace_id route_id)
    if not belongs then raise (invalid "baseline trace must belong to the route" nil) else do
      on_error (internal "set baseline failed") (
          transaction env (
            Repository.set_baseline env route_id trace_id
            >> record_route actor "route.baseline_changed" route_id
                (baseline_document route.baseline_trace_id) (baseline_document (some trace_id))))
      pure (record route { baseline_trace_id = some trace_id })
