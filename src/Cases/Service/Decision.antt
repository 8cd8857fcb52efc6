-- ===== src/Cases/Service/Decision.antt =====
-- `Confirm` and `Close` of `CaseService`, backend/internal/service/case_service.go.
use package.text.Mathlib.Text.{◌==◌ as str_eq}
use gb_522_l7o.Prelude.{ℕ, Bool, not, ◌||◌, some, if◌then◌else◌}
use gb_522_l7o.Errors.{nil, text, app, forbidden, conflict}
use gb_522_l7o.Constants.{pending_review, confirmed, closed, same_status, role_reviewer, role_admin}
use gb_522_l7o.Float.{Float}
use gb_522_l7o.Json.{Json, num, str, obj, done, field, nat}
use gb_522_l7o.Model.{LocalizationCase}
use gb_522_l7o.Database.{Env, M, ◌>>=◌, ◌>>◌, raise, on_error, now, transaction}
use gb_522_l7o.Audit.{Actor}
use gb_522_l7o.Cases.Documents.{status_name}
use gb_522_l7o.Cases.Repository
use gb_522_l7o.Cases.Repository.{Columns}
use gb_522_l7o.Cases.Service.Base.{
  ConfirmCaseRequest, CloseCaseRequest, snapshot, document, record_case, load_case, reload,
}

module _ {F : Type 0} ⦃f : Float F⦄ (env : Env F) where
  abbrev confirm_document : ConfirmCaseRequest F → Json F
  confirm_document request = obj (
      field "conclusion" (str request.conclusion) (
        field "estimated_distance_m" (num request.estimated_distance_m) (
          field "uncertainty_m" (num request.uncertainty_m)
            (field "version" (nat request.version) done))))

  -- The columns of a confirmation.
  abbrev pub concluded : ConfirmCaseRequest F → Actor → Columns F
  concluded request actor c = record c {
    conclusion = request.conclusion;
    estimated_distance_m = some request.estimated_distance_m;
    uncertainty_m = some request.uncertainty_m;
    reviewer_id = some actor.id;
  }

  abbrev pub may_confirm : Actor → Bool
  may_confirm actor = str_eq actor.role role_reviewer || str_eq actor.role role_admin

  -- `Confirm`, once the case is read.
  unfoldable pub confirm_case :
      LocalizationCase F → ℕ → ConfirmCaseRequest F → Actor → M F (LocalizationCase F)
  confirm_case item id request actor =
      if same_status item.case_status closed
      then raise (conflict "closed cases cannot be modified" nil)
      else do
        on_error (conflict "case is not pending review or its version changed") (
            transaction env (
              Repository.transition env id request.version pending_review confirmed
                (concluded request actor)
              >> record_case env actor "case.confirmed" id item.route_id
                  (snapshot env (document env item)) (snapshot env (confirm_document request))))
        reload env id

  unfoldable pub confirm : ℕ → ConfirmCaseRequest F → Actor → M F (LocalizationCase F)
  confirm id request actor =
      if not (may_confirm actor)
      then raise (app forbidden 403 "reviewer role is required to confirm a case" nil)
      else do item ← load_case env id; confirm_case item id request actor

  -- `Close`, once the case is read, at the time `t`.
  unfoldable pub close_case :
      LocalizationCase F → ℕ → ℕ → CloseCaseRequest → Actor → M F (LocalizationCase F)
  close_case item id t request actor = do
    on_error (conflict "only a confirmed case with the current version can be closed") (
        transaction env (
          Repository.transition env id request.version confirmed closed
            (λ c. record c { closed_at = some t })
          >> record_case env actor "case.closed" id item.route_id (snapshot env (document env item))
              (snapshot env (
                obj (
                  field "closed_at" (str (env.format_time t))
                    (field "status" (str (status_name closed)) done))))))
    reload env id

  unfoldable pub close : ℕ → CloseCaseRequest → Actor → M F (LocalizationCase F)
  close id request actor = do item ← load_case env id; t ← now; close_case item id t request actor
