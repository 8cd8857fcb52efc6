-- ===== src/Events/Service.antt =====
-- `Review` of `EventService`, backend/internal/service/event_service.go.
use Prim.Native.String.{String}
use gb_522_l7o.Prelude.{ℕ, true, not, Option, none, some, if◌then◌else◌}
use gb_522_l7o.Errors.{nil, is_not_found, invalid, internal, resource_not_found}
use gb_522_l7o.Constants.{
  EventType, connector, splice, bend, break, end, unknown, other, event_type_valid,
}
use gb_522_l7o.Float.{Float}
use gb_522_l7o.Json.{Json, boolean, num, str, obj, done, field, optional, nat}
use gb_522_l7o.Model.{FiberRoute, EventMarker}
use gb_522_l7o.Snapshot.{scrub}
use gb_522_l7o.Database.{
  Env, M, ◌>>=◌, ◌>>◌, pure, raise, on_error, now, yield_to_others, transaction,
}
use gb_522_l7o.Audit.{Actor, audit, create_audit}
use gb_522_l7o.Events.Repository
use gb_522_l7o.Routes.Repository as RouteRepository

-- The request of backend/internal/dto/event.go, after binding and validation.
pub record ReviewEventRequest (F : Type 0) : Type 0 where
  pub event_type : EventType
  pub distance_m : Option F
  pub review_note : String

abbrev pub event_type_name : EventType → String
event_type_name connector = "connector"
event_type_name splice = "splice"
event_type_name bend = "bend"
event_type_name break = "break"
event_type_name end = "end"
event_type_name unknown = "unknown"
event_type_name (other s) = s

module _ {F : Type 0} ⦃f : Float F⦄ (env : Env F) where
  -- `json.Marshal` of an event.
  abbrev event_document : EventMarker F → Json F
  event_document e = obj (
      field "id" (nat e.id) (
        field "trace_id" (nat e.trace_id) (
          field "distance_m" (num e.distance_m) (
            field "event_type" (str (event_type_name e.event_type)) (
              field "insertion_loss_db" (num e.insertion_loss_db) (
                field "reflectance_db" (num e.reflectance_db) (
                  field "confidence" (num e.confidence) (
                    field "algorithm_event_type" (str (event_type_name e.algorithm_event_type)) (
                      field "algorithm_distance_m" (num e.algorithm_distance_m) (
                        field "algorithm_insertion_loss_db" (num e.algorithm_insertion_loss_db) (
                          field "reviewed" (boolean e.reviewed) (
                            field "review_note" (str e.review_note) (
                              field "reviewed_by" (optional nat e.reviewed_by) (
                                field "reviewed_at"
                                  (optional (λ t. str (env.format_time t)) e.reviewed_at)
                                  (field "created_at" (str (env.format_time e.created_at)) (
                                    field "updated_at" (str (env.format_time e.updated_at))
                                      done))))))))))))))))

  -- The reads of the event, its trace and the route of that.
  unfoldable pub load_event : ℕ → M F (EventMarker F)
  load_event id =
      yield_to_others env
      >> on_error
          (λ e.
            if is_not_found e then resource_not_found "event" else internal "get event failed" e)
          (Repository.get env id)

  unfoldable pub load_event_route : EventMarker F → M F (FiberRoute F)
  load_event_route event = do
    yield_to_others env
    trace ← on_error (internal "get event trace failed") (Repository.get_trace env event.trace_id)
    yield_to_others env
    on_error (internal "get event route failed") (RouteRepository.get env trace.route_id)

  -- The event with the type and the distance of the request.
  abbrev pub corrected : ReviewEventRequest F → EventMarker F → EventMarker F
  corrected request event = record event {
    event_type = request.event_type;
    distance_m = elim request.distance_m [ none ↦ event.distance_m | some x ↦ x ];
  }

  -- Then with the marks of a review at the time `t`.
  abbrev pub signed : ReviewEventRequest F → Actor → ℕ → EventMarker F → EventMarker F
  signed request actor t event = record event {
    reviewed = true;
    review_note = request.review_note;
    reviewed_by = some actor.id;
    reviewed_at = some t;
  }

  unfoldable pub save_review :
      EventMarker F → EventMarker F → FiberRoute F → Actor → M F (EventMarker F)
  save_review before event route actor = do
    on_error (internal "review event failed") (
        transaction env (
          Repository.review env event
          >> create_audit env (
              audit actor "event.reviewed" "EventMarker" event.id (some route.id)
                (scrub env.lower_rune (event_document before))
                (scrub env.lower_rune (event_document event)))))
    pure event

  unfoldable pub review_on :
      EventMarker F → FiberRoute F → ReviewEventRequest F → Actor → M F (EventMarker F)
  review_on event route request actor =
      let changed = corrected request event in
      if f.lt route.length_m changed.distance_m
      then raise (invalid "reviewed distance exceeds route length" nil)
      else do t ← now; save_review event (signed request actor t changed) route actor

  unfoldable pub review : ℕ → ReviewEventRequest F → Actor → M F (EventMarker F)
  review id request actor =
      if not (event_type_valid request.event_type)
      then raise (invalid "event_type is not supported" nil)
      else do
        event ← load_event id
        route ← load_event_route event
        review_on event route request actor
