-- ===== src/Listings/Services.antt =====
-- The methods `List` of the services, backend/internal/service.
use gb_522_l7o.Prelude.{List}
use gb_522_l7o.Prelude.Int.{ℤ}
use gb_522_l7o.Float.{Float}
use gb_522_l7o.Model.{FiberRoute, TraceCapture, EventMarker, LocalizationCase, AuditLog}
use gb_522_l7o.Database.{Env, M}
use gb_522_l7o.Listings.{Pagination, list_page}
use gb_522_l7o.Listings.Filters.{
  RouteQuery, TraceQuery, EventQuery, CaseQuery, AuditQuery, route_listing, trace_listing,
  event_listing, case_listing, audit_listing,
}

module _ {F : Type 0} (env : Env F) where
  abbrev pub route_page : RouteQuery → ℤ × ℤ → M F (List (FiberRoute F) × Pagination)
  route_page query = list_page env (route_listing env query) "list routes failed"

  abbrev pub trace_page : TraceQuery → ℤ × ℤ → M F (List (TraceCapture F) × Pagination)
  trace_page query = list_page env (trace_listing env query) "list traces failed"

  abbrev pub event_page :
      ⦃f : Float F⦄ → EventQuery → ℤ × ℤ → M F (List (EventMarker F) × Pagination)
  event_page query = list_page env (event_listing env query) "list events failed"

  abbrev pub case_page : CaseQuery → ℤ × ℤ → M F (List (LocalizationCase F) × Pagination)
  case_page query = list_page env (case_listing env query) "list cases failed"

  abbrev pub audit_page : AuditQuery → ℤ × ℤ → M F (List (AuditLog F) × Pagination)
  audit_page query = list_page env (audit_listing env query) "list audit entries failed"
