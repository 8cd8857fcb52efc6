-- ===== src/Tests/Traces.antt =====
-- Runs of the import of a trace, of its reading, and of a listing, on the database in memory.
use gb_522_l7o.Prelude.{◌≡◌, refl, none, some, List, [], arith}
use gb_522_l7o.Prelude.Sort.{sort_slice, insert_sorted, IsOrder}
use gb_522_l7o.Prelude.Int.{pos, ◌+ℤ◌, ◌-ℤ◌, ◌*ℤ◌}
use gb_522_l7o.Errors.{Result, ok}
use gb_522_l7o.Float.Fixed.{Fixed, fixed, fixed_float}
use gb_522_l7o.Model.{TraceCapture, EventMarker}
use gb_522_l7o.Algorithm.Distance.{sample_distance}
use gb_522_l7o.Algorithm.Denoise.{moving_median, medians_from}
use gb_522_l7o.Algorithm.Detect.{estimate_noise_floor}
use gb_522_l7o.Database.{World, ◌>>=◌, pure, on_error, lift, yield_to_others, transaction}
use gb_522_l7o.Audit.{audit, create_audit, is_blank}
use gb_522_l7o.Cases.Repository.{for_trace}
use gb_522_l7o.Routes.Repository as RouteRepository
use gb_522_l7o.Events.Repository as EventRepository
use gb_522_l7o.Events.Detection.{load_trace}
use gb_522_l7o.Traces.Service.{
  ImportTraceRequest, TraceDetail, first_outside, check_points, create_trace, load_import_route,
  prepare_trace, store_trace, import_trace, get_detail,
}
use gb_522_l7o.Traces.Imported.{IsImported, stamp_trace, import_trace-IsImported}
use gb_522_l7o.Traces.Stored.{IsReadBack, import_trace-get_detail}
use gb_522_l7o.Pages.{normalize_page}
use gb_522_l7o.Listings.{Pagination, count_rows, find_rows, list_rows, list_page}
use gb_522_l7o.Listings.Filters.{TraceQuery, trace_listing, trace_matches}
use gb_522_l7o.Listings.Bounds.{IsListed, list_page-IsListed}
use gb_522_l7o.Tests.Detection.{trace}
use gb_522_l7o.Tests.Store.{store, store-IsTraceEnv, memory-IsPaging}
use gb_522_l7o.Tests.Workflow.{reviewer, pending, capture, item_of}

abbrev pub import_request : ImportTraceRequest Fixed
import_request = record {
  route_id = 1;
  wavelength_nm = pos 1550;
  pulse_width_ns = fixed 10 0;
  sample_interval_ns = fixed 1000 0;
  points = trace;
  captured_at = 50;
  denoise_window = pos 3;
  peak_threshold_db = fixed 0 0;
  merge_window = pos 0;
}

abbrev pub imported : Result (TraceCapture Fixed) × World Fixed
imported = import_trace store (pos 20000) import_request reviewer pending

abbrev pub stored : TraceCapture Fixed
stored = item_of (capture 0) imported.0

pub import_done : imported.0 ≡ ok stored
unfolding import_trace check_points first_outside load_import_route prepare_trace store_trace
    create_trace ◌>>=◌ pure on_error lift yield_to_others transaction RouteRepository.get
    create_audit audit is_blank moving_median medians_from estimate_noise_floor sort_slice
    insert_sorted sample_distance ◌-ℤ◌ ◌+ℤ◌
import_done = refl

import_trace-IsImported_example :
    IsImported store (pos 20000) import_request reviewer pending stored
import_trace-IsImported_example =
    import_trace-IsImported store (pos 20000) import_request reviewer pending stored
      store-IsTraceEnv import_done

load_done : (load_trace store stored.id imported.1).0 ≡ ok stored
unfolding import_trace check_points first_outside load_import_route prepare_trace store_trace
    create_trace ◌>>=◌ pure on_error lift yield_to_others transaction RouteRepository.get
    create_audit audit is_blank moving_median medians_from estimate_noise_floor sort_slice
    insert_sorted sample_distance ◌-ℤ◌ ◌+ℤ◌ load_trace EventRepository.get_trace
load_done = refl

abbrev no_events : List (EventMarker Fixed)
no_events = []

events_done :
    (for_trace store stored.id (store.others (load_trace store stored.id imported.1).1)).0
    ≡ ok no_events
unfolding import_trace check_points first_outside load_import_route prepare_trace store_trace
    create_trace ◌>>=◌ pure on_error lift yield_to_others transaction RouteRepository.get
    create_audit audit is_blank moving_median medians_from estimate_noise_floor sort_slice
    insert_sorted sample_distance ◌-ℤ◌ ◌+ℤ◌ load_trace EventRepository.get_trace for_trace
events_done = refl

import_trace-get_detail_example :
    (detail : TraceDetail Fixed) × ((get_detail store stored.id imported.1).0
      ≡ ok (detail, no_events))
    × IsReadBack import_request reviewer stored detail
import_trace-get_detail_example =
    import_trace-get_detail store (pos 20000) import_request reviewer pending imported.1 stored
      no_events store-IsTraceEnv import_done load_done events_done

abbrev trace_query : TraceQuery
trace_query = record { route_id = some 1; from = none; to = none }

abbrev listed : Result (List (TraceCapture Fixed) × Pagination) × World Fixed
listed =
    list_page store (trace_listing store trace_query) "list traces failed" (pos 1, pos 1) pending

abbrev page_found : List (TraceCapture Fixed) × Pagination
page_found = item_of ([], record { page = pos 0; page_size = pos 0; total = 0 }) listed.0

list_done : listed.0 ≡ ok (page_found.0, page_found.1)
unfolding list_page list_rows count_rows find_rows trace_matches ◌>>=◌ pure on_error yield_to_others
    normalize_page sort_slice insert_sorted ◌-ℤ◌ ◌+ℤ◌ ◌*ℤ◌
list_done = refl

by_capture : IsOrder (trace_listing store trace_query).order (λ r. Unit {0})
by_capture = record { asym = λ a b p q e. ground arith; trans = λ a b c p q r e h. ground arith }

list_page-IsListed_example :
    IsListed store
      (trace_listing store trace_query)
      (pos 1, pos 1)
      pending
      page_found.0
      page_found.1
list_page-IsListed_example =
    list_page-IsListed store (trace_listing store trace_query) "list traces failed" (pos 1, pos 1)
      pending page_found.0 page_found.1
      (memory-IsPaging (λ r. r.id) stamp_trace (λ t r. r) _ by_capture) refl list_done
