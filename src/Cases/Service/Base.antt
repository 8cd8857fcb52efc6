-- ===== src/Cases/Service/Base.antt =====
-- What the methods of `CaseService`, backend/internal/service/case_service.go, share, and their requests,
-- backend/internal/dto/case.go.
use Prim.Native.String.{String}
use gb_522_l7o.Prelude.{ℕ, some, if◌then◌else◌}
use gb_522_l7o.Errors.{is_not_found, internal, resource_not_found}
use gb_522_l7o.Float.{Float}
use gb_522_l7o.Json.{Json, obj, done}
use gb_522_l7o.Model.{LocalizationCase}
use gb_522_l7o.Snapshot.{scrub}
use gb_522_l7o.Database.{Env, M, ◌>>◌, on_error, yield_to_others}
use gb_522_l7o.Audit.{Actor, audit, create_audit}
use gb_522_l7o.Cases.Documents.{case_document}
use gb_522_l7o.Cases.Repository
use gb_522_l7o.Cases.Repository.{Columns}

-- The requests of backend/internal/dto/case.go, after binding and validation.
pub record CreateCaseRequest (F : Type 0) : Type 0 where
  pub route_id : ℕ
  pub baseline_trace_id : ℕ
  pub current_trace_id : ℕ
  pub distance_tolerance_m : F
  pub loss_increase_db : F

pub record AnalyzeCaseRequest (F : Type 0) : Type 0 where
  pub distance_tolerance_m : F
  pub loss_increase_db : F

pub record ConfirmCaseRequest (F : Type 0) : Type 0 where
  pub conclusion : String
  pub estimated_distance_m : F
  pub uncertainty_m : F
  pub version : ℕ

pub record CloseCaseRequest : Type 0 where
  pub version : ℕ

-- `analysisLeaseTimeout`, ten minutes.
abbrev pub analysis_lease_timeout : ℕ
analysis_lease_timeout = 600_000_000_000

-- The `"{}"` of an entry with nothing before.
abbrev pub empty_document : {F : Type 0} → Json F
empty_document = obj done

module _ {F : Type 0} ⦃f : Float F⦄ where
  -- `x`, or `d` where `x` is zero.
  abbrev pub or_default : F → F → F
  or_default x d = if f.eq x (f.lit 0 0) then d else x

module _ {F : Type 0} ⦃f : Float F⦄ (env : Env F) where
  -- `snapshot`, of a value's document.
  abbrev pub snapshot : Json F → Json F
  snapshot = scrub env.lower_rune

  abbrev pub document : LocalizationCase F → Json F
  document = case_document env.format_time

  -- An entry about the case `id` of a route, written in the transaction that it stands in.
  abbrev pub record_case : Actor → String → ℕ → ℕ → Json F → Json F → M F (Unit {0})
  record_case actor action id route_id before after =
      create_audit env (audit actor action "LocalizationCase" id (some route_id) before after)

  -- The read of a case that the methods begin with, and its two errors.
  unfoldable pub load_case : ℕ → M F (LocalizationCase F)
  load_case id =
      yield_to_others env
      >> on_error
          (λ e. if is_not_found e then resource_not_found "case" else internal "get case failed" e)
          (Repository.get env id)

  -- The read that a method returns.
  abbrev pub reload : ℕ → M F (LocalizationCase F)
  reload id = yield_to_others env >> Repository.get env id
