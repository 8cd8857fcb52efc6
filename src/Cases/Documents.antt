-- ===== src/Cases/Documents.antt =====
-- The documents of the case service, backend/internal/service/case_service.go: the columns
-- `parameters_json` and `differences_json`, and the before and after of its audit entries.
use Prim.Native.String.{String}
use gb_522_l7o.Prelude.{ℕ, Option, none, some, List, [], ◌∷◌, if◌then◌else◌}
use text.Mathlib.Text.{◌==◌ as str_eq}
use gb_522_l7o.Constants.{CaseStatus, draft, analyzing, pending_review, confirmed, closed}
use gb_522_l7o.Float.{Float}
use gb_522_l7o.Json.{Json, num, str, obj, Items, nil, item, Fields, done, field, optional, nat}
use gb_522_l7o.Model.{LocalizationCase}
use gb_522_l7o.Algorithm.Compare.{Kind, disappeared, loss_increased, new_event, Difference}

-- `dto.CaseParameters`.
pub record CaseParameters (F : Type 0) : Type 0 where
  pub distance_tolerance_m : F
  pub loss_increase_db : F

abbrev pub status_name : CaseStatus → String
status_name draft = "draft"
status_name analyzing = "analyzing"
status_name pending_review = "pending_review"
status_name confirmed = "confirmed"
status_name closed = "closed"

abbrev pub kind_name : Kind → String
kind_name disappeared = "disappeared"
kind_name loss_increased = "loss_increased"
kind_name new_event = "new"

module _ {F : Type 0} where
  -- A document with one field.
  abbrev pub single : String → Json F → Json F
  single key value = obj (field key value done)

  abbrev number_of : String → Fields F → Option F
  number_of key done = none
  number_of key (field k (num x) fs) = if str_eq k key then some x else number_of key fs
  number_of key (field k child fs) = number_of key fs

  abbrev number_in : String → Json F → Option F
  number_in key (obj fs) = number_of key fs
  number_in key _ = none

module _ {F : Type 0} ⦃f : Float F⦄ where
  unfoldable pub parameters_document : CaseParameters F → Json F
  parameters_document p = obj (
      field "distance_tolerance_m" (num p.distance_tolerance_m)
        (field "loss_increase_db" (num p.loss_increase_db) done))

  abbrev or_zero : Option F → F
  or_zero none = f.lit 0 0
  or_zero (some x) = x

  -- `_ = json.Unmarshal(item.ParametersJSON, &saved)`: what is missing stays zero.
  unfoldable pub saved_parameters : Json F → CaseParameters F
  saved_parameters j = record {
    distance_tolerance_m = or_zero (number_in "distance_tolerance_m" j);
    loss_increase_db = or_zero (number_in "loss_increase_db" j);
  }

  -- A field with `omitempty`.
  abbrev unless_nil : String → Option ℕ → Fields F → Fields F
  unless_nil key none fs = fs
  unless_nil key (some n) fs = field key (nat n) fs

  unfoldable pub difference_document : Difference F → Json F
  difference_document d = obj (
      field "kind" (str (kind_name d.kind)) (
        unless_nil "baseline_event_id" d.baseline_event_id (
          unless_nil "current_event_id" d.current_event_id (
            field "distance_m" (num d.distance_m) (
              field "loss_delta_db" (num d.loss_delta_db)
                (field "confidence" (num d.confidence) done))))))

  unfoldable pub difference_items : List (Difference F) → Items F
  unfolding difference_document
  difference_items [] = nil
  difference_items (d ∷ ds) = item (difference_document d) (difference_items ds)

  module _ (format_time : ℕ → String) where
    abbrev time : ℕ → Json F
    time t = str (format_time t)

    -- A case as its JSON tags say.
    unfoldable pub case_document : LocalizationCase F → Json F
    case_document c = obj (
        field "id" (nat c.id) (
          field "route_id" (nat c.route_id) (
            field "baseline_trace_id" (nat c.baseline_trace_id) (
              field "current_trace_id" (nat c.current_trace_id) (
                field "case_status" (str (status_name c.case_status)) (
                  field "estimated_distance_m" (optional num c.estimated_distance_m) (
                    field "uncertainty_m" (optional num c.uncertainty_m) (
                      field "conclusion" (str c.conclusion) (
                        field "reviewer_id" (optional nat c.reviewer_id) (
                          field "closed_at" (optional time c.closed_at) (
                            field "analysis_error" (str c.analysis_error) (
                              field "parameters_json" c.parameters_json (
                                field "differences_json" c.differences_json (
                                  field "version" (nat c.version) (
                                    field "created_by" (nat c.created_by) (
                                      field "created_at" (time c.created_at) (
                                        field "updated_at" (time c.updated_at) done)))))))))))))))))
