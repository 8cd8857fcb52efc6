-- ===== src/Http.antt =====
-- The HTTP side: backend/internal/handler, backend/internal/middleware and backend/internal/router.
-- gin and the validator are parameters (`Binding`, `Library`): which route a path selects, how a body
-- is read into a request, and how an answer is written out.
pub mod Middleware
pub mod Handlers
pub mod Router
pub mod Access
pub mod Refused
pub mod Inputs
pub mod Start
pub mod Keeps
pub mod Safe
pub mod Requests
pub mod History
pub mod Audited
pub mod Admitted
pub mod Logged
use Prim.Native.Char.{Char}
use Prim.Native.String.{String, ◌++◌}
use gb_522_l7o.Prelude.{
  ℕ, Bool, true, false, ◌||◌, Option, none, some, List, [], ◌∷◌, if◌then◌else◌, ◌==◌,
}
use gb_522_l7o.Prelude.Int.{ℤ}
use gb_522_l7o.Strings.{is_empty, parse_uint, atoi}
use gb_522_l7o.Errors.{
  Code, Error, invalid_input, not_found_code, state_conflict, auth_required, forbidden,
  algorithm_input, internal_error, nil, text, wrap, app, Result, ok, err, error_string,
}
use gb_522_l7o.Model.{FiberRoute, TraceCapture, EventMarker, LocalizationCase, AuditLog}
use gb_522_l7o.Json.{Json}
use gb_522_l7o.Algorithm.Compare.{Difference}
use gb_522_l7o.Database.{World, Env, M}
use gb_522_l7o.Audit.{Actor}
use gb_522_l7o.Auth.{LoginRequest, LoginResponse, AuthService, Crypto}
use gb_522_l7o.Listings.{Pagination}
use gb_522_l7o.Middleware.RateLimiter.{RateLimiter}
use gb_522_l7o.Cases.Service.{
  CreateCaseRequest, AnalyzeCaseRequest, ConfirmCaseRequest, CloseCaseRequest,
}
use gb_522_l7o.Routes.Service.{CreateRouteRequest, UpdateRouteRequest}
use gb_522_l7o.Events.Service.{ReviewEventRequest}
use gb_522_l7o.Events.Detection.{DetectEventsRequest, DetectionSummary}
use gb_522_l7o.Traces.Service.{ImportTraceRequest, TraceDetail}

-- `dto.SetBaselineRequest`.
pub record SetBaselineRequest : Type 0 where
  pub trace_id : ℕ

-- `ShouldBindJSON` and `validate.Struct` on a type of requests.
pub record Binding (A : Type 0) : Type 0 where
  pub decode : String → Result A
  pub validate : A → Option Error

-- The value under `data`.
pub data Payload (F : Type 0) : Type 0 where
  session : LoginResponse → Payload F
  route : FiberRoute F → Payload F
  routes : List (FiberRoute F) → Payload F
  route_detail : FiberRoute F → List (TraceCapture F) → Payload F
  trace : TraceCapture F → Payload F
  traces : List (TraceCapture F) → Payload F
  trace_detail : TraceDetail F → List (EventMarker F) → Payload F
  event : EventMarker F → Payload F
  events : List (EventMarker F) → Payload F
  summary : DetectionSummary F → Payload F
  one_case : LocalizationCase F → Payload F
  cases : List (LocalizationCase F) → Payload F
  case_detail : LocalizationCase F → List (Difference F) → Payload F
  audits : List (AuditLog F) → Payload F

pub data Body (F : Type 0) : Type 0 where
  empty : Body F
  report : List (String × String) → Body F
  content : Payload F → Option Pagination → String → Body F
  failure : String → String → String → Body F

pub record Answer (F : Type 0) : Type 0 where
  pub status : ℕ
  pub headers : List (String × String)
  pub body : Body F

-- The bindings of the requests; `time.Parse` of RFC 3339; twelve random bytes,
-- the time and a duration as texts, and the bytes that gin writes of an answer; `json.Unmarshal` into a list of differences.
pub record Library (F : Type 0) : Type 0 where
  pub login : Binding LoginRequest
  pub create_route : Binding (CreateRouteRequest F)
  pub update_route : Binding (UpdateRouteRequest F)
  pub set_baseline : Binding SetBaselineRequest
  pub import_trace : Binding (ImportTraceRequest F)
  pub detect_events : Binding (DetectEventsRequest F)
  pub review_event : Binding (ReviewEventRequest F)
  pub create_case : Binding (CreateCaseRequest F)
  pub analyze_case : Binding (AnalyzeCaseRequest F)
  pub confirm_case : Binding (ConfirmCaseRequest F)
  pub close_case : Binding CloseCaseRequest
  pub parse_time : String → Option ℕ
  pub random_bytes : ℕ → ℕ → Option (List ℕ)
  pub format_timestamp : String → ℕ → String
  pub format_duration : ℕ → String
  pub written_size : Answer F → ℤ
  pub decode_differences : Json F → Result (List (Difference F))

-- What the program is set up with.
pub record Program (F : Type 0) : Type 0 where
  pub env : Env F
  pub library : Library F
  pub crypto : Crypto
  pub auth : AuthService
  pub upper_rune : Char → Char
  pub max_points : ℤ
  pub origins : List String

-- The line of the access log about a request.
pub record AccessLine : Type 0 where
  pub method : String
  pub path : String
  pub status : ℕ
  pub bytes : ℤ
  pub latency_ms : ℕ
  pub client_ip : String
  pub request_id : String

-- What it keeps from one request to the next: the tables, the three limiters, and the access log.
pub record Server (F : Type 0) : Type 0 where
  pub world : World F
  pub login_limiter : RateLimiter
  pub import_limiter : RateLimiter
  pub analyze_limiter : RateLimiter
  pub access_lines : List AccessLine

-- The request, with the keys that the middleware sets on gin's context. A missing query parameter or
-- header is empty.
pub record Context : Type 0 where
  pub method : String
  pub path : String
  pub id : String
  pub query : String → String
  pub header : String → String
  pub body : String
  pub client_ip : String
  pub request_id : String
  pub user_id : Option ℕ
  pub username : Option String
  pub role : Option String

-- A handler, or the rest of a chain of them.
abbrev pub Handler : Type 0 → Type 0
Handler F = Context → Server F → Answer F × Server F

-- The texts of the `Code…` constants.
abbrev pub code_text : Code → String
code_text invalid_input = "INVALID_INPUT"
code_text not_found_code = "NOT_FOUND"
code_text state_conflict = "STATE_CONFLICT"
code_text auth_required = "AUTH_REQUIRED"
code_text forbidden = "FORBIDDEN"
code_text algorithm_input = "ALGORITHM_INPUT_INSUFFICIENT"
code_text internal_error = "INTERNAL_ERROR"

abbrev bad_id : Error
bad_id = app invalid_input 400 "resource id must be a positive integer" nil

module _ {F : Type 0} where
  abbrev pub failed : Context → ℕ → String → String → Answer F
  failed c status code message = record {
    status = status;
    headers = [];
    body = failure code message c.request_id;
  }

  -- `ok`.
  unfoldable pub answer_ok : Context → ℕ → Payload F → Option Pagination → Answer F
  answer_ok c status data_ meta = record {
    status = status;
    headers = [];
    body = content data_ meta c.request_id;
  }

  -- `fail`: the first `AppError` that the error is or unwraps to.
  unfoldable pub fail : Context → Error → Answer F
  fail c (app code status message e) = failed c status (code_text code) message
  fail c (wrap message e) = fail c e
  fail c _ = failed c 500 (code_text internal_error) "unexpected server error"

  -- The call of a service, and the answer to its outcome.
  unfoldable pub reply : {A : Type 0} → M F A → (A → Answer F) → Handler F
  reply m g c s =
      let (r, w) = m s.world in (elim r [ ok a ↦ g a | err e ↦ fail c e ], record s { world = w })

  -- `bind`, and what a handler does with the request.
  unfoldable pub bind : {A : Type 0} → Binding A → (A → Handler F) → Handler F
  bind b h c s = elim (b.decode c.body) [
    | err e ↦ (fail c (app invalid_input 400 "request body is not valid JSON" e), s)
    | ok request ↦ elim (b.validate request) [
      | some e ↦
          (fail c (app invalid_input 400 ("request validation failed: " ++ error_string e) e), s)
      | none ↦ h request c s
    ]
  ]

  -- `idParam`, and what a handler does with the id. The cause of the error does not show.
  unfoldable pub id_param : (ℕ → Handler F) → Handler F
  id_param h c s = elim (parse_uint c.id) [
    | none ↦ (fail c bad_id, s)
    | some value ↦ if value == 0 then (fail c bad_id, s) else h value c s
  ]

abbrev or_zero : Option ℕ → ℕ
or_zero none = 0
or_zero (some n) = n

abbrev or_empty : Option String → String
or_empty none = ""
or_empty (some s) = s

unfoldable pub actor : Context → Actor
actor c = record {
  id = or_zero c.user_id;
  username = or_empty c.username;
  role = or_empty c.role;
  request_id = c.request_id;
}

unfoldable pub query_uint : Context → String → Option ℕ
query_uint c key = if is_empty (c.query key) then none else elim (parse_uint (c.query key)) [
  | none ↦ none
  | some value ↦ if value == 0 then none else some value
]

unfoldable pub query_int : Context → String → ℤ → ℤ
query_int c key fallback = elim (atoi (c.query key)) [ none ↦ fallback | some value ↦ value ]
