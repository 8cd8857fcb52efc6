-- ===== src/Http/Keeps.antt =====
-- The services of routes, traces, events, accounts and listings, backend/internal/service, under a relation
-- of the tables before and after.
use Prim.Native.Char.{Char}
use Prim.Native.String.{String}
use gb_522_l7o.Prelude.{ℕ, Option, none, some, List, arith}
use gb_522_l7o.Prelude.Int.{ℤ}
use gb_522_l7o.Errors.{Error}
use gb_522_l7o.Float.{Float}
use gb_522_l7o.Model.{FiberRoute, TraceCapture}
use gb_522_l7o.Database.{Env, M}
use gb_522_l7o.Audit.{Actor}
use gb_522_l7o.Database.Preserves.{Guarantee, Preserves, Preserves-read, Preserves-raise}
use gb_522_l7o.Writes.{Writes, preserves}
use gb_522_l7o.Routes.Service as RouteService
use gb_522_l7o.Routes.Service.{CreateRouteRequest, UpdateRouteRequest}
use gb_522_l7o.Events.Service as EventService
use gb_522_l7o.Events.Service.{ReviewEventRequest}
use gb_522_l7o.Events.Detection as Detection
use gb_522_l7o.Events.Detection.{DetectEventsRequest, Tuning, Computed}
use gb_522_l7o.Traces.Service as TraceService
use gb_522_l7o.Traces.Service.{ImportTraceRequest}
use gb_522_l7o.Auth.{Crypto, AuthService, LoginRequest}
use gb_522_l7o.Auth
use gb_522_l7o.Listings.{Listing, count_rows, find_rows, list_rows, list_page}

module _ {F : Type 0} (env : Env F) (g : Guarantee F) where
  Preserves-find_by_username : (name : String) → Preserves g (Auth.find_by_username env name)
  unfolding Auth.find_by_username
  Preserves-find_by_username name =
      Preserves-read g (Auth.find_by_username env name) (λ w. ground arith)

  Preserves-find_by_id : (id : ℕ) → Preserves g (Auth.find_by_id env id)
  unfolding Auth.find_by_id
  Preserves-find_by_id id = Preserves-read g (Auth.find_by_id env id) (λ w. ground arith)

module _ {F R : Type 0} ⦃f : Float F⦄ (env : Env F) (g : Guarantee F) (writes : Writes env g)
    (l : Listing F R) where
  Preserves-count_rows : Preserves g (count_rows env l)
  unfolding count_rows
  Preserves-count_rows = Preserves-read g (count_rows env l) (λ w. ground arith)

  Preserves-find_rows : (page page_size : ℤ) → Preserves g (find_rows env l page page_size)
  unfolding find_rows
  Preserves-find_rows page page_size =
      Preserves-read g (find_rows env l page page_size) (λ w. ground arith)

  pub list_rows-Preserves : (page page_size : ℤ) → Preserves g (list_rows env l page page_size)
  unfolding list_rows
  list_rows-Preserves page page_size = search (preserves, Preserves-count_rows, Preserves-find_rows)

  pub list_page-Preserves :
      (failed : String) (query : ℤ × ℤ) → Preserves g (list_page env l failed query)
  unfolding list_page
  list_page-Preserves failed query = search (preserves, list_rows-Preserves) depth 8

module _ {F : Type 0} ⦃f : Float F⦄ (env : Env F) (g : Guarantee F) (writes : Writes env g) where
  pub Preserves-load_route :
      (upper : Char → Char) (id : ℕ) → Preserves g (RouteService.load_route env upper id)
  unfolding RouteService.load_route
  Preserves-load_route upper id = search (preserves)

  pub update_route-Preserves :
      (upper : Char → Char) (id : ℕ) (request : UpdateRouteRequest F) (actor : Actor)
      → Preserves g (RouteService.update env upper id request actor)
  unfolding RouteService.update
  update_route-Preserves upper id request actor = search (preserves, Preserves-load_route) depth 9

  pub set_baseline-Preserves :
      (upper : Char → Char) (id trace_id : ℕ) (actor : Actor)
      → Preserves g (RouteService.set_baseline env upper id trace_id actor)
  unfolding RouteService.set_baseline
  set_baseline-Preserves upper id trace_id actor = search (preserves, Preserves-load_route) depth 10

  pub Preserves-load_trace : (id : ℕ) → Preserves g (Detection.load_trace env id)
  unfolding Detection.load_trace
  Preserves-load_trace id = search (preserves)

  pub Preserves-compute :
      (raw : List F) (tuning : Tuning F) (trace : TraceCapture F) (route : FiberRoute F)
      → Preserves g (Detection.compute raw tuning trace route)
  unfolding Detection.compute
  Preserves-compute raw tuning trace route = search preserves depth 9

  pub detect_events-Preserves :
      (id : ℕ) (request : DetectEventsRequest F) (actor : Actor)
      → Preserves g (Detection.detect_events env id request actor)
  unfolding Detection.detect_events Detection.load_trace_route Detection.save_detection
  detect_events-Preserves id request actor =
      search (preserves, Preserves-load_trace, Preserves-compute) depth 14

  pub review-Preserves :
      (id : ℕ) (request : ReviewEventRequest F) (actor : Actor)
      → Preserves g (EventService.review env id request actor)
  unfolding EventService.review EventService.load_event EventService.load_event_route
      EventService.review_on EventService.save_review
  review-Preserves id request actor = search (preserves) depth 14

  pub import_trace-Preserves :
      (max_points : ℤ) (request : ImportTraceRequest F) (actor : Actor)
      → Preserves g (TraceService.import_trace env max_points request actor)
  unfolding TraceService.import_trace TraceService.load_import_route TraceService.prepare_trace
      TraceService.store_trace
  import_trace-Preserves max_points request actor = search (preserves) depth 14

  pub get_detail-Preserves : (id : ℕ) → Preserves g (TraceService.get_detail env id)
  unfolding TraceService.get_detail
  get_detail-Preserves id = search (preserves, Preserves-load_trace) depth 12

module _ {F : Type 0} ⦃f : Float F⦄ (crypto : Crypto) (auth : AuthService) (env : Env F)
    (g : Guarantee F) (writes : Writes env g) where
  Preserves-token_claims : (token : String) → Preserves g (Auth.token_claims crypto auth env token)
  unfolding Auth.token_claims
  Preserves-token_claims token =
      Preserves-read g (Auth.token_claims crypto auth env token) (λ w. ground arith)

  pub parse-Preserves : (token : String) → Preserves g (Auth.parse crypto auth env token)
  unfolding Auth.parse
  parse-Preserves token = search (preserves, Preserves-token_claims, Preserves-find_by_id) depth 9

  Preserves-issue : (user : _) → Preserves g (Auth.issue crypto auth env user)
  unfolding Auth.issue
  Preserves-issue user = search preserves depth 9

  Preserves-if_right :
      {A : Type 0} (outcome : Option Error) (m : M F A)
      → Preserves g m
      → Preserves g (Auth.if_right outcome m)
  Preserves-if_right (some e) m h = Preserves-raise g _
  Preserves-if_right none m h = h

  pub login-Preserves : (request : LoginRequest) → Preserves g (Auth.login crypto auth env request)
  unfolding Auth.login
  login-Preserves request =
      search (preserves, Preserves-find_by_username, Preserves-if_right, Preserves-issue) depth 9
