-- ===== src/Model.antt =====
-- The rows of the database, backend/internal/model. A time is a number of nanoseconds; a column of
-- type `datatypes.JSON` is the document that its text stands for.
use Prim.Native.String.{String}
use gb_522_l7o.Prelude.{ℕ, Bool, Option}
use gb_522_l7o.Prelude.Int.{ℤ}
use gb_522_l7o.Constants.{EventType, CaseStatus}
use gb_522_l7o.Json.{Json}

pub record User : Type 0 where
  pub id : ℕ
  pub username : String
  pub password_hash : String
  pub display_name : String
  pub role : String
  pub active : Bool
  pub created_at : ℕ

pub record FiberRoute (F : Type 0) : Type 0 where
  pub id : ℕ
  pub route_code : String
  pub name : String
  pub length_m : F
  pub refractive_index : F
  pub launch_connector : String
  pub route_status : String
  pub baseline_trace_id : Option ℕ
  pub created_at : ℕ
  pub updated_at : ℕ

pub record TraceCapture (F : Type 0) : Type 0 where
  pub id : ℕ
  pub route_id : ℕ
  pub wavelength_nm : ℤ
  pub pulse_width_ns : F
  pub sample_interval_ns : F
  pub raw_points_json : Json F
  pub processed_json : Json F
  pub noise_floor_db : F
  pub denoise_window : ℤ
  pub peak_threshold_db : F
  pub merge_window : ℤ
  pub captured_at : ℕ
  pub uploaded_by : ℕ
  pub created_at : ℕ

pub record EventMarker (F : Type 0) : Type 0 where
  pub id : ℕ
  pub trace_id : ℕ
  pub distance_m : F
  pub event_type : EventType
  pub insertion_loss_db : F
  pub reflectance_db : F
  pub confidence : F
  pub algorithm_event_type : EventType
  pub algorithm_distance_m : F
  pub algorithm_insertion_loss_db : F
  pub reviewed : Bool
  pub review_note : String
  pub reviewed_by : Option ℕ
  pub reviewed_at : Option ℕ
  pub created_at : ℕ
  pub updated_at : ℕ

pub record LocalizationCase (F : Type 0) : Type 0 where
  pub id : ℕ
  pub route_id : ℕ
  pub baseline_trace_id : ℕ
  pub current_trace_id : ℕ
  pub case_status : CaseStatus
  pub estimated_distance_m : Option F
  pub uncertainty_m : Option F
  pub conclusion : String
  pub reviewer_id : Option ℕ
  pub closed_at : Option ℕ
  pub analysis_error : String
  pub parameters_json : Json F
  pub differences_json : Json F
  pub version : ℕ
  pub created_by : ℕ
  pub created_at : ℕ
  pub updated_at : ℕ

pub record AuditLog (F : Type 0) : Type 0 where
  pub id : ℕ
  pub actor_id : ℕ
  pub actor_name : String
  pub action : String
  pub resource_type : String
  pub resource_id : ℕ
  pub route_id : Option ℕ
  pub request_id : String
  pub before : Json F
  pub after : Json F
  pub created_at : ℕ
