-- ===== src/Listings/Filters.antt =====
-- What each listing filters by and in which order it lists: the methods `List` of
-- backend/internal/repository, with the queries of backend/internal/dto.
use Prim.Native.String.{String, ◌++◌}
use package.text.Mathlib.Text.{◌==◌ as str_eq}
use gb_522_l7o.Prelude.{
  ℕ, Bool, true, false, not, ◌&&◌, ◌||◌, Option, none, some, List, [], ◌∷◌, if◌then◌else◌, leb, ltb,
  ◌==◌,
}
use gb_522_l7o.Strings.{is_empty, trim_space}
use gb_522_l7o.Constants.{EventType, event_type_valid}
use gb_522_l7o.Float.{Float}
use gb_522_l7o.Model.{FiberRoute, TraceCapture, EventMarker, LocalizationCase, AuditLog}
use gb_522_l7o.Database.{World, Env}
use gb_522_l7o.Cases.Documents.{status_name}
use gb_522_l7o.Events.Service.{event_type_name}
use gb_522_l7o.Listings.{Listing}

-- The queries, without the page and its size.
pub record RouteQuery : Type 0 where
  pub keyword : String
  pub status : String

pub record TraceQuery : Type 0 where
  pub route_id : Option ℕ
  pub from : Option ℕ
  pub to : Option ℕ

pub record EventQuery : Type 0 where
  pub trace_id : Option ℕ
  pub route_id : Option ℕ
  pub event_type : EventType
  pub reviewed : Option Bool

pub record CaseQuery : Type 0 where
  pub route_id : Option ℕ
  pub status : String

pub record AuditQuery : Type 0 where
  pub route_id : Option ℕ
  pub actor_name : String
  pub action : String
  pub from : Option ℕ
  pub to : Option ℕ

-- A condition that is asked for only where a value is given.
abbrev given : {A : Type 0} → Option A → (A → Bool) → Bool
given none p = true
given (some a) p = p a

abbrev unless_empty : String → (String → Bool) → Bool
unless_empty s p = if is_empty s then true else p s

abbrev same_bool : Bool → Bool → Bool
same_bool a b = if a then b else not b

-- A column with NULL meets no equation.
abbrev is_some_of : Option ℕ → ℕ → Bool
is_some_of none n = false
is_some_of (some m) n = m == n

abbrev some_trace : {F : Type 0} → ℕ → ℕ → List (TraceCapture F) → Bool
some_trace id route_id [] = false
some_trace id route_id (t ∷ ts) =
    (t.id == id && t.route_id == route_id) || some_trace id route_id ts

module _ {F : Type 0} (env : Env F) where
  abbrev containing : String → String → Bool
  containing keyword s = env.like s ("%" ++ keyword ++ "%")

  unfoldable pub route_matches : RouteQuery → FiberRoute F → Bool
  route_matches query r =
      unless_empty (trim_space query.keyword)
        (λ keyword. containing keyword r.route_code || containing keyword r.name)
      && unless_empty query.status (λ status. str_eq r.route_status status)

  unfoldable pub trace_matches : TraceQuery → TraceCapture F → Bool
  trace_matches query t =
      given query.route_id (λ id. t.route_id == id)
      && given query.from (λ from. leb from t.captured_at)
      && given query.to (λ to. leb t.captured_at to)

  unfoldable pub event_matches : EventQuery → World F → EventMarker F → Bool
  event_matches query w e =
      given query.trace_id (λ id. e.trace_id == id)
      && given query.route_id (λ id. some_trace e.trace_id id w.traces)
      && (if event_type_valid query.event_type
          then str_eq (event_type_name e.event_type) (event_type_name query.event_type)
          else true)
      && given query.reviewed (same_bool e.reviewed)

  unfoldable pub case_matches : CaseQuery → LocalizationCase F → Bool
  case_matches query c =
      given query.route_id (λ id. c.route_id == id)
      && unless_empty query.status (λ status. str_eq (status_name c.case_status) status)

  unfoldable pub audit_matches : AuditQuery → AuditLog F → Bool
  audit_matches query a =
      given query.route_id (is_some_of a.route_id)
      && unless_empty query.actor_name (λ name. containing name a.actor_name)
      && unless_empty query.action (λ action. str_eq a.action action)
      && given query.from (λ from. leb from a.created_at)
      && given query.to (λ to. leb a.created_at to)

  abbrev pub route_listing : RouteQuery → Listing F (FiberRoute F)
  route_listing query = record {
    table = env.routes;
    rows = λ w. w.routes;
    filter = λ w. route_matches query;
    order = λ a b. ltb b.created_at a.created_at;
    count_failed = "count fiber routes";
    list_failed = "list fiber routes";
  }

  abbrev pub trace_listing : TraceQuery → Listing F (TraceCapture F)
  trace_listing query = record {
    table = env.traces;
    rows = λ w. w.traces;
    filter = λ w. trace_matches query;
    order = λ a b. ltb b.captured_at a.captured_at;
    count_failed = "count traces";
    list_failed = "list traces";
  }

  abbrev pub event_listing : ⦃f : Float F⦄ → EventQuery → Listing F (EventMarker F)
  event_listing ⦃f⦄ query = record {
    table = env.events;
    rows = λ w. w.events;
    filter = event_matches query;
    order = λ a b.
        ltb b.trace_id a.trace_id || (a.trace_id == b.trace_id && f.lt a.distance_m b.distance_m);
    count_failed = "count events";
    list_failed = "list events";
  }

  abbrev pub case_listing : CaseQuery → Listing F (LocalizationCase F)
  case_listing query = record {
    table = env.cases;
    rows = λ w. w.cases;
    filter = λ w. case_matches query;
    order = λ a b. ltb b.created_at a.created_at;
    count_failed = "count localization cases";
    list_failed = "list localization cases";
  }

  abbrev pub audit_listing : AuditQuery → Listing F (AuditLog F)
  audit_listing query = record {
    table = env.audits;
    rows = λ w. w.audits;
    filter = λ w. audit_matches query;
    order = λ a b. ltb b.created_at a.created_at;
    count_failed = "count audit logs";
    list_failed = "list audit logs";
  }
