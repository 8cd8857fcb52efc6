-- ===== src/Audit.antt =====
-- `audit` of backend/internal/service/route_service.go, the actor of service/auth_service.go, and
-- `AuditRepository.Create` of backend/internal/repository/audit_repository.go.
pub mod Appended
pub mod Logged
pub mod Methods
use Prim.Native.String.{String}
use gb_522_l7o.Prelude.{ℕ, Bool, true, ◌&&◌, Option, List, [], ◌∷◌, if◌then◌else◌}
use gb_522_l7o.Errors.{text, wrap, ok, err}
use gb_522_l7o.Json.{Json}
use gb_522_l7o.Model.{AuditLog}
use gb_522_l7o.Database.{Env, M}
use gb_522_l7o.Strings.{codes, is_space}

-- `Actor`.
pub record Actor : Type 0 where
  pub id : ℕ
  pub username : String
  pub role : String
  pub request_id : String

abbrev all_space : List ℕ → Bool
all_space [] = true
all_space (c ∷ cs) = is_space c && all_space cs

-- `strings.TrimSpace(s) == ""`.
unfoldable pub is_blank : String → Bool
is_blank s = all_space (codes s)

module _ {F : Type 0} where
  unfoldable pub audit : Actor → String → String → ℕ → Option ℕ → Json F → Json F → AuditLog F
  audit actor action resource resource_id route_id before after = record {
    id = 0;
    actor_id = actor.id;
    actor_name = actor.username;
    action = action;
    resource_type = resource;
    resource_id = resource_id;
    route_id = route_id;
    request_id = actor.request_id;
    before = before;
    after = after;
    created_at = 0;
  }

  unfoldable pub create_audit : Env F → AuditLog F → M F (Unit {0})
  create_audit env entry w =
      if is_blank entry.request_id
      then (err (text "audit request id is required"), w)
      else elim (env.audits.create w.clock entry w.audits) [
        | err e ↦ (err (wrap "create immutable audit entry" e), w)
        | ok (entry', rows) ↦ (ok tt, record w { audits = rows })
      ]
