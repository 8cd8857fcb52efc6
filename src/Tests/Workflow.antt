-- ===== src/Tests/Workflow.antt =====
-- Runs of the case service and the route service on the database in memory.
use gb_522_l7o.Prelude.{ℕ, ◌≡◌, ◌≢◌, refl, none, [], ◌∷◌}
use gb_522_l7o.Prelude.Int.{pos}
use gb_522_l7o.Errors.{Result, ok, err}
use gb_522_l7o.Constants.{CaseStatus, draft, pending_review, confirmed}
use gb_522_l7o.Float.Fixed.{Fixed, fixed, fixed_float}
use gb_522_l7o.Json.{obj, done}
use gb_522_l7o.Model.{FiberRoute, TraceCapture, LocalizationCase}
use gb_522_l7o.Database.{World, ◌>>=◌, pure, on_error, yield_to_others, transaction}
use gb_522_l7o.Audit.{Actor, audit, create_audit, is_blank}
use gb_522_l7o.Cases.Repository
use gb_522_l7o.Cases.Repository.{belongs_to_route}
use gb_522_l7o.Cases.Service
use gb_522_l7o.Cases.Service.{
  CreateCaseRequest, AnalyzeCaseRequest, ConfirmCaseRequest, CloseCaseRequest, new_case,
  check_traces, confirm, close,
}
use gb_522_l7o.Cases.Created.{WasCounted, IsStored, draft_of, create-IsStored}
use gb_522_l7o.Tests.Store.{store, store-IsCaseEnv}

abbrev pub reviewer : Actor
reviewer = record { id = 7; username = "rita"; role = "reviewer"; request_id = "r-1" }

abbrev pub route : FiberRoute Fixed
route = record {
  id = 1;
  route_code = "R1";
  name = "Ring";
  length_m = fixed 5000 0;
  refractive_index = fixed 1468 3;
  launch_connector = "LC";
  route_status = "active";
  baseline_trace_id = none;
  created_at = 0;
  updated_at = 0;
}

abbrev pub capture : ℕ → TraceCapture Fixed
capture id = record {
  id = id;
  route_id = 1;
  wavelength_nm = pos 1550;
  pulse_width_ns = fixed 10 0;
  sample_interval_ns = fixed 10 0;
  raw_points_json = obj done;
  processed_json = obj done;
  noise_floor_db = fixed 0 0;
  denoise_window = pos 5;
  peak_threshold_db = fixed 8 1;
  merge_window = pos 3;
  captured_at = 0;
  uploaded_by = 7;
  created_at = 0;
}

-- A case in a status, at a version.
abbrev pub case_in : CaseStatus → ℕ → LocalizationCase Fixed
case_in status version = record {
  id = 5;
  route_id = 1;
  baseline_trace_id = 1;
  current_trace_id = 2;
  case_status = status;
  estimated_distance_m = none;
  uncertainty_m = none;
  conclusion = "";
  reviewer_id = none;
  closed_at = none;
  analysis_error = "";
  parameters_json = obj done;
  differences_json = obj done;
  version = version;
  created_by = 7;
  created_at = 0;
  updated_at = 0;
}

abbrev pub world_with : LocalizationCase Fixed → World Fixed
world_with c = record {
  users = [];
  routes = route ∷ [];
  traces = capture 1 ∷ capture 2 ∷ [];
  events = [];
  cases = c ∷ [];
  audits = [];
  clock = 100;
}

abbrev pub create_request : CreateCaseRequest Fixed
create_request = record {
  route_id = 1;
  baseline_trace_id = 1;
  current_trace_id = 2;
  distance_tolerance_m = fixed 0 0;
  loss_increase_db = fixed 0 0;
}

abbrev pub confirm_request : ConfirmCaseRequest Fixed
confirm_request = record {
  conclusion = "break";
  estimated_distance_m = fixed 900 0;
  uncertainty_m = fixed 3 0;
  version = 3;
}

abbrev pub close_request : CloseCaseRequest
close_request = record { version = 4 }

abbrev pub pending : World Fixed
pending = world_with (case_in pending_review 3)

abbrev pub item_of : {A : Type 0} → A → Result A → A
item_of d (ok a) = a
item_of d (err e) = d

abbrev pub created : Result (LocalizationCase Fixed)
created = (Service.create store create_request reviewer pending).0

create_done : created ≡ ok (item_of (case_in draft 0) created)
unfolding Service.create check_traces ◌>>=◌ pure on_error yield_to_others transaction
    Repository.create belongs_to_route create_audit audit is_blank
create_done = refl

create-IsStored_example :
    (create_request.baseline_trace_id ≢ create_request.current_trace_id)
    × WasCounted store create_request.baseline_trace_id create_request.route_id pending
    × WasCounted store create_request.current_trace_id create_request.route_id pending
    × IsStored store
        (draft_of store create_request reviewer)
        (item_of (case_in draft 0) created)
        (Service.create store create_request reviewer pending).1.cases
create-IsStored_example =
    create-IsStored store create_request reviewer pending (item_of (case_in draft 0) created)
      store-IsCaseEnv create_done

abbrev pub confirmation : Result (LocalizationCase Fixed)
confirmation = (confirm store 5 confirm_request reviewer pending).0

abbrev pub settled : World Fixed
settled = world_with (case_in confirmed 4)

abbrev pub closing_result : Result (LocalizationCase Fixed)
closing_result = (close store 5 close_request reviewer settled).0
