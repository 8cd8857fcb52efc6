-- ===== src/Tests/Histories.antt =====
-- A history of requests on the database in memory: an administrator reviews an event, detects the
-- events of its trace anew, and creates the same route twice.
use gb_522_l7o.Prelude.{ℕ, ◌≡◌, refl, true, none, some, List, [], ◌∷◌, get_elem?}
use gb_522_l7o.Errors.{ok}
use gb_522_l7o.Float.Fixed.{Fixed, fixed_float}
use gb_522_l7o.Model.{TraceCapture, EventMarker}
use gb_522_l7o.Audit.Appended.{Appended}
use gb_522_l7o.Traces.Lasting.{measured}
use gb_522_l7o.Events.Lasting.{Lasts}
use gb_522_l7o.Routes.Codes.{HaveCodes}
use gb_522_l7o.Http.{Binding, Program, Server}
use gb_522_l7o.Http.Router as Router
use gb_522_l7o.Http.Router.{Endpoint}
use gb_522_l7o.Http.Requests.{Request, serve_requests}
use gb_522_l7o.Http.History.{
  serve_requests-Appended, serve_requests-measured, serve_requests-reviewed,
  serve_requests-HaveCodes,
}
use gb_522_l7o.Tests.Store.{store-IsAuditEnv, store-IsTracesEnv, store-IsEventEnv, store-IsRouteEnv}
use gb_522_l7o.Tests.Tokens.{rita}
use gb_522_l7o.Tests.Detection.{trace}
use gb_522_l7o.Tests.Workflow.{capture}
use gb_522_l7o.Json.{arr}
use Prim.Native.String.{String}
use gb_522_l7o.Tests.Events.{points, world, found_event, review_request, detect_request}
use gb_522_l7o.Tests.Sequences.{route_request}
use gb_522_l7o.Tests.Access.{library, program, server, closing}

abbrev reads : {A : Type 0} → A → Binding A
reads a = record { decode = λ s. ok a; validate = λ b. none }

abbrev serving : Program Fixed
serving = record program {
  library = record library {
    create_route = reads route_request;
    detect_events = reads detect_request;
    review_event = reads review_request;
  };
}

abbrev sent_to : Endpoint → String → Request Fixed
sent_to endpoint id = record {
  program = serving;
  endpoint = endpoint;
  context = record closing { id = id };
}

abbrev history : List (Request Fixed)
history =
    sent_to (Router.event_routes Router.review_event) "9"
    ∷ sent_to (Router.trace_routes Router.detect_events) "1"
    ∷ sent_to (Router.fiber_routes Router.create_route) ""
    ∷ sent_to (Router.fiber_routes Router.create_route) ""
    ∷ []

abbrev seen : EventMarker Fixed
seen = record found_event { reviewed = true }

abbrev begun : Server Fixed
begun = record server {
  world = record world { users = record rita { role = "admin" } ∷ []; events = seen ∷ [] };
}

abbrev after : Server Fixed
after = serve_requests history begun

serve_requests-Appended_example : Appended begun.world.audits after.world.audits
serve_requests-Appended_example =
    serve_requests-Appended history begun
      (store-IsAuditEnv, (store-IsAuditEnv, (store-IsAuditEnv, (store-IsAuditEnv, tt))))

abbrev handed_in : TraceCapture Fixed
handed_in = record (capture 1) { raw_points_json = arr (points trace) }

serve_requests-measured_example :
    (t : TraceCapture Fixed) × (get_elem? after.world.traces 0 ≡ some t)
    × (measured t ≡ measured handed_in)
serve_requests-measured_example =
    serve_requests-measured history begun 0 handed_in
      (store-IsTracesEnv, (store-IsTracesEnv, (store-IsTracesEnv, (store-IsTracesEnv, tt)))) refl

serve_requests-HaveCodes_example : HaveCodes after.world.routes
serve_requests-HaveCodes_example =
    serve_requests-HaveCodes history begun
      (store-IsRouteEnv, (store-IsRouteEnv, (store-IsRouteEnv, (store-IsRouteEnv, tt)))) (tt, tt)

serve_requests-reviewed_example :
    (j : ℕ) × (t : EventMarker Fixed) × (get_elem? after.world.events j ≡ some t) × Lasts seen t
serve_requests-reviewed_example =
    serve_requests-reviewed history begun 0 seen
      (store-IsEventEnv, (store-IsEventEnv, (store-IsEventEnv, (store-IsEventEnv, tt)))) refl refl
