-- ===== src/Cases/Service/Creation.antt =====
-- `Create` of `CaseService`, backend/internal/service/case_service.go.
use gb_522_l7o.Prelude.{ℕ, none, List, [], ◌∷◌, if◌then◌else◌, ◌==◌}
use gb_522_l7o.Errors.{nil, invalid, internal}
use gb_522_l7o.Constants.{draft}
use gb_522_l7o.Float.{Float}
use gb_522_l7o.Json.{arr}
use gb_522_l7o.Model.{LocalizationCase}
use gb_522_l7o.Database.{Env, M, ◌>>=◌, ◌>>◌, pure, raise, on_error, yield_to_others, transaction}
use gb_522_l7o.Audit.{Actor}
use gb_522_l7o.Cases.Documents.{parameters_document, difference_items}
use gb_522_l7o.Cases.Repository
use gb_522_l7o.Cases.Repository.{Columns}
use gb_522_l7o.Cases.Service.Base.{
  CreateCaseRequest, snapshot, empty_document, document, record_case, or_default,
}

module _ {F : Type 0} ⦃f : Float F⦄ (env : Env F) where
  -- The loop over the two traces in `Create`.
  unfoldable pub check_traces : List ℕ → ℕ → M F (Unit {0})
  check_traces [] route_id = pure tt
  check_traces (trace_id ∷ rest) route_id = do
    yield_to_others env
    belongs ←
        on_error (internal "validate case traces failed")
          (Repository.belongs_to_route env trace_id route_id)
    if belongs
        then check_traces rest route_id
        else raise (invalid "both traces must belong to the selected route" nil)

  abbrev pub new_case : CreateCaseRequest F → Actor → LocalizationCase F
  new_case request actor = record {
    id = 0;
    route_id = request.route_id;
    baseline_trace_id = request.baseline_trace_id;
    current_trace_id = request.current_trace_id;
    case_status = draft;
    estimated_distance_m = none;
    uncertainty_m = none;
    conclusion = "";
    reviewer_id = none;
    closed_at = none;
    analysis_error = "";
    parameters_json = parameters_document (record {
      distance_tolerance_m = or_default request.distance_tolerance_m (f.lit 25 0);
      loss_increase_db = or_default request.loss_increase_db (f.lit 5 1);
    });
    differences_json = arr (difference_items []);
    version = 1;
    created_by = actor.id;
    created_at = 0;
    updated_at = 0;
  }

  unfoldable pub create : CreateCaseRequest F → Actor → M F (LocalizationCase F)
  create request actor =
      if request.baseline_trace_id == request.current_trace_id
      then raise (invalid "baseline and current traces must differ" nil)
      else do
        check_traces (request.baseline_trace_id ∷ request.current_trace_id ∷ []) request.route_id
        on_error (internal "create case failed") (
            transaction env (do
              item ← Repository.create env (new_case request actor)
              record_case env actor "case.created" item.id item.route_id empty_document
                  (snapshot env (document env item))
              pure item))
