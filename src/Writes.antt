-- ===== src/Writes.antt =====
-- The calls of backend/internal/repository that write a table, as the services of
-- backend/internal/service make them, under a relation of the tables before and after.
pub mod Frames
use Prim.Native.Char.{Char}
use gb_522_l7o.Prelude.{ℕ, ◌≡◌, true, List, arith}
use gb_522_l7o.Prelude.Int.{ℤ}
use gb_522_l7o.Constants.{CaseStatus, analyzing, can_transition}
use gb_522_l7o.Float.{Float}
use gb_522_l7o.Json.{Json}
use gb_522_l7o.Model.{FiberRoute, TraceCapture, EventMarker, LocalizationCase, AuditLog}
use gb_522_l7o.Database.{Env, yield_to_others}
use gb_522_l7o.Database.Preserves.{
  Guarantee, Preserves, Preserves-read, Preserves-pure, Preserves-raise, Preserves-lift,
  Preserves-bind, Preserves-if, Preserves-on_error, Preserves-attempt, Preserves-transaction,
  Preserves-now,
}
use gb_522_l7o.Audit.{Actor, create_audit}
use gb_522_l7o.Cases.Repository as CaseRepository
use gb_522_l7o.Cases.Repository.{Columns}
use gb_522_l7o.Routes.Repository as RouteRepository
use gb_522_l7o.Routes.Service as RouteService
use gb_522_l7o.Routes.Service.{CreateRouteRequest}
use gb_522_l7o.Events.Repository as EventRepository
use gb_522_l7o.Traces.Service as TraceService

module _ {F : Type 0} where
  -- The columns leave alone what a case is about.
  abbrev pub IsColumns : Columns F → Type 0
  IsColumns g =
      (c : LocalizationCase F)
      → ((g c).id ≡ c.id)
        × ((g c).route_id ≡ c.route_id)
        × ((g c).baseline_trace_id ≡ c.baseline_trace_id)
        × ((g c).current_trace_id ≡ c.current_trace_id)
        × ((g c).created_by ≡ c.created_by)

-- The cases are written along the table of constants/case.go alone.
pub record CaseWrites {F : Type 0} ⦃f : Float F⦄ (env : Env F) (g : Guarantee F) : Type 0 where
  pub create : (item : LocalizationCase F) → Preserves g (CaseRepository.create env item)
  pub transition :
      (id version : ℕ) (from to : CaseStatus) (columns : Columns F)
      → can_transition from to ≡ true
      → IsColumns columns
      → Preserves g (CaseRepository.transition env id version from to columns)
  pub save_analysis :
      (id : ℕ) (status : CaseStatus) (columns : Columns F)
      → can_transition analyzing status ≡ true
      → IsColumns columns
      → Preserves g (CaseRepository.save_analysis env id status columns)
  pub recover_stale_analysis :
      (id cutoff : ℕ) → Preserves g (CaseRepository.recover_stale_analysis env id cutoff)

-- A new route is stored by its whole method, which looks its code up first.
pub record RouteWrites {F : Type 0} ⦃f : Float F⦄ (env : Env F) (g : Guarantee F) : Type 0 where
  pub create :
      (upper_rune : Char → Char) (request : CreateRouteRequest F) (actor : Actor)
      → Preserves g (RouteService.create env upper_rune request actor)
  pub update : (route : FiberRoute F) → Preserves g (RouteRepository.update env route)
  pub set_baseline : (id trace_id : ℕ) → Preserves g (RouteRepository.set_baseline env id trace_id)

pub record TraceWrites {F : Type 0} ⦃f : Float F⦄ (env : Env F) (g : Guarantee F) : Type 0 where
  pub create : (trace : TraceCapture F) → Preserves g (TraceService.create_trace env trace)
  pub update_processing :
      (id : ℕ) (processed : Json F) (noise : F) (window : ℤ) (threshold : F) (merge : ℤ)
      → Preserves g
          (EventRepository.update_processing env id processed noise window threshold merge)

pub record EventWrites {F : Type 0} (env : Env F) (g : Guarantee F) : Type 0 where
  pub replace_for_trace :
      (id : ℕ) (events : List (EventMarker F))
      → Preserves g (EventRepository.replace_for_trace env id events)
  pub review : (event : EventMarker F) → Preserves g (EventRepository.review env event)

pub record Writes {F : Type 0} ⦃f : Float F⦄ (env : Env F) (g : Guarantee F) : Type 0 where
  pub others : Preserves g (yield_to_others env)
  pub create_audit : (entry : AuditLog F) → Preserves g (create_audit env entry)
  pub cases : CaseWrites env g
  pub routes : RouteWrites env g
  pub traces : TraceWrites env g
  pub events : EventWrites env g

module _ {F : Type 0} ⦃f : Float F⦄ (env : Env F) (g : Guarantee F) where
  pub others_rule : Writes env g → Preserves g (yield_to_others env)
  others_rule writes = writes.others

  pub audit_rule : (entry : AuditLog F) → Writes env g → Preserves g (create_audit env entry)
  audit_rule entry writes = writes.create_audit entry

  pub create_case_rule :
      (item : LocalizationCase F) → Writes env g → Preserves g (CaseRepository.create env item)
  create_case_rule item writes = writes.cases.create item

  pub recover_rule :
      (id cutoff : ℕ)
      → Writes env g
      → Preserves g (CaseRepository.recover_stale_analysis env id cutoff)
  recover_rule id cutoff writes = writes.cases.recover_stale_analysis id cutoff

  pub update_route_rule :
      (route : FiberRoute F) → Writes env g → Preserves g (RouteRepository.update env route)
  update_route_rule route writes = writes.routes.update route

  pub set_baseline_rule :
      (id trace_id : ℕ) → Writes env g → Preserves g (RouteRepository.set_baseline env id trace_id)
  set_baseline_rule id trace_id writes = writes.routes.set_baseline id trace_id

  pub create_trace_rule :
      (trace : TraceCapture F) → Writes env g → Preserves g (TraceService.create_trace env trace)
  create_trace_rule trace writes = writes.traces.create trace

  pub update_processing_rule :
      (id : ℕ) (processed : Json F) (noise : F) (window : ℤ) (threshold : F) (merge : ℤ)
      → Writes env g
      → Preserves g
          (EventRepository.update_processing env id processed noise window threshold merge)
  update_processing_rule id processed noise window threshold merge writes =
      writes.traces.update_processing id processed noise window threshold merge

  pub replace_rule :
      (id : ℕ) (events : List (EventMarker F))
      → Writes env g
      → Preserves g (EventRepository.replace_for_trace env id events)
  replace_rule id events writes = writes.events.replace_for_trace id events

  pub review_rule :
      (event : EventMarker F) → Writes env g → Preserves g (EventRepository.review env event)
  review_rule event writes = writes.events.review event

  pub case_get_rule : (id : ℕ) → Preserves g (CaseRepository.get env id)
  unfolding CaseRepository.get
  case_get_rule id = Preserves-read g (CaseRepository.get env id) (λ w. ground arith)

  pub belongs_rule :
      (trace_id route_id : ℕ) → Preserves g (CaseRepository.belongs_to_route env trace_id route_id)
  unfolding CaseRepository.belongs_to_route
  belongs_rule trace_id route_id =
      Preserves-read g (CaseRepository.belongs_to_route env trace_id route_id) (λ w. ground arith)

  pub for_trace_rule : (trace_id : ℕ) → Preserves g (CaseRepository.for_trace env trace_id)
  unfolding CaseRepository.for_trace
  for_trace_rule trace_id =
      Preserves-read g (CaseRepository.for_trace env trace_id) (λ w. ground arith)

  pub route_get_rule : (id : ℕ) → Preserves g (RouteRepository.get env id)
  unfolding RouteRepository.get
  route_get_rule id = Preserves-read g (RouteRepository.get env id) (λ w. ground arith)

  pub event_get_rule : (id : ℕ) → Preserves g (EventRepository.get env id)
  unfolding EventRepository.get
  event_get_rule id = Preserves-read g (EventRepository.get env id) (λ w. ground arith)

  pub trace_get_rule : (id : ℕ) → Preserves g (EventRepository.get_trace env id)
  unfolding EventRepository.get_trace
  trace_get_rule id = Preserves-read g (EventRepository.get_trace env id) (λ w. ground arith)

-- The rules of a computation, and those of the calls it is made of.
pub ruleset preserves = (
  Preserves-pure, Preserves-raise, Preserves-lift, Preserves-bind, Preserves-if, Preserves-on_error,
  Preserves-attempt, Preserves-transaction, Preserves-now, others_rule, audit_rule,
  create_case_rule, recover_rule, update_route_rule, set_baseline_rule, create_trace_rule,
  update_processing_rule, replace_rule, review_rule, case_get_rule, belongs_rule, for_trace_rule,
  route_get_rule, event_get_rule, trace_get_rule,
)
