-- ===== src/Tests/Events.antt =====
-- Runs of the event service on the database in memory.
use Prim.Native.String.{String}
use gb_522_l7o.Prelude.{◌≡◌, refl, true, false, none, some, List, [], ◌∷◌}
use gb_522_l7o.Prelude.Sort.{sort_slice, insert_sorted}
use gb_522_l7o.Prelude.Int.{pos, ◌+ℤ◌, ◌-ℤ◌}
use gb_522_l7o.Errors.{Result, ok}
use gb_522_l7o.Constants.{break, bend}
use gb_522_l7o.Float.Fixed.{Fixed, fixed, fixed_float}
use gb_522_l7o.Json.{num, arr, Items, nil, item}
use gb_522_l7o.Model.{EventMarker}
use gb_522_l7o.Algorithm.Distance.{sample_distance, valid_route_distance}
use gb_522_l7o.Algorithm.Denoise.{moving_median, medians_from}
use gb_522_l7o.Algorithm.Detect.{
  estimate_noise_floor, derivative_peaks, peaks_from, merge_peaks, merge_from, detect, detect_loop,
  type_of_peak, classify_peak,
}
use gb_522_l7o.Database.{World, ◌>>=◌, pure, on_error, lift, yield_to_others, transaction}
use gb_522_l7o.Audit.{audit, create_audit, is_blank}
use gb_522_l7o.Routes.Repository as RouteRepository
use gb_522_l7o.Events.Repository
use gb_522_l7o.Events.Service.{ReviewEventRequest, review}
use gb_522_l7o.Events.Detection.{
  DetectEventsRequest, DetectionSummary, decode_points, compute, load_trace, load_trace_route,
  save_detection, detect_events,
}
use gb_522_l7o.Events.Detected.{IsDetected, detect_events-IsDetected}
use gb_522_l7o.Tests.Detection.{trace}
use gb_522_l7o.Events.Replaced.{Replaced, replace_for_trace-Replaced}
use gb_522_l7o.Tests.Store.{store, store-IsReplacing}
use gb_522_l7o.Tests.Workflow.{reviewer, capture, pending, item_of}

abbrev pub points : List Fixed → Items Fixed
points [] = nil
points (x ∷ xs) = item (num x) (points xs)

abbrev pub found_event : EventMarker Fixed
found_event = record {
  id = 9;
  trace_id = 1;
  distance_m = fixed 900 0;
  event_type = bend;
  insertion_loss_db = fixed 3 1;
  reflectance_db = fixed 1 0;
  confidence = fixed 9 1;
  algorithm_event_type = bend;
  algorithm_distance_m = fixed 900 0;
  algorithm_insertion_loss_db = fixed 3 1;
  reviewed = false;
  review_note = "";
  reviewed_by = none;
  reviewed_at = none;
  created_at = 0;
  updated_at = 0;
}

abbrev pub world : World Fixed
world = record pending {
  traces = record (capture 1) { raw_points_json = arr (points trace) } ∷ [];
  events = found_event ∷ [];
}

abbrev pub review_request : ReviewEventRequest Fixed
review_request = record {
  event_type = break;
  distance_m = some (fixed 910 0);
  review_note = "seen on site";
}

abbrev reviewed : Result (EventMarker Fixed)
reviewed = (review store 9 review_request reviewer world).0

abbrev pub detect_request : DetectEventsRequest Fixed
detect_request = record {
  denoise_window = pos 3;
  peak_threshold_db = fixed 0 0;
  merge_window = pos 0;
}

abbrev no_summary : DetectionSummary Fixed
no_summary = record {
  trace_id = 0;
  detected_count = 0;
  noise_floor_db = fixed 0 0;
  threshold_db = fixed 0 0;
  rejected_count = 0;
}

abbrev detection : Result (DetectionSummary Fixed)
detection = (detect_events store 1 detect_request reviewer world).0

detection_done : detection ≡ ok (item_of no_summary detection)
unfolding detect_events load_trace load_trace_route decode_points compute save_detection ◌>>=◌ pure
    on_error lift yield_to_others transaction Repository.get_trace Repository.update_processing
    Repository.replace_for_trace RouteRepository.get create_audit audit is_blank moving_median
    medians_from estimate_noise_floor sort_slice insert_sorted detect detect_loop derivative_peaks
    peaks_from merge_peaks merge_from sample_distance valid_route_distance type_of_peak
    classify_peak ◌-ℤ◌ ◌+ℤ◌
detection_done = refl

detect_events-IsDetected_example :
    IsDetected store 1 detect_request world (item_of no_summary detection)
detect_events-IsDetected_example =
    detect_events-IsDetected store 1 detect_request reviewer world (item_of no_summary detection)
      detection_done

-- One reviewed event and one that nobody has reviewed.
abbrev two_events : World Fixed
two_events = record world {
  events = record found_event { id = 8; reviewed = true } ∷ found_event ∷ [];
}

abbrev replaced : Result (Unit {0}) × World Fixed
replaced = Repository.replace_for_trace store 1 (found_event ∷ []) two_events

replaced_done : replaced.0 ≡ ok tt
unfolding Repository.replace_for_trace
replaced_done = refl

replace_for_trace-Replaced_example :
    Replaced 1 two_events.clock (found_event ∷ []) two_events.events replaced.1.events
replace_for_trace-Replaced_example =
    replace_for_trace-Replaced store 1 (found_event ∷ []) two_events store-IsReplacing replaced_done
