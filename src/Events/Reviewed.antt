-- ===== src/Events/Reviewed.antt =====
-- What a review does: `Review` of service/event_service.go.
use Prim.Native.String.{String}
use gb_522_l7o.Prelude.{
  ℕ, ◌<◌, ◌≡◌, true, false, none, some, List, map, count_if, if◌then◌else◌, ◌==◌,
}
use gb_522_l7o.Errors.{ok}
use gb_522_l7o.Float.{Float}
use gb_522_l7o.Model.{FiberRoute, EventMarker}
use gb_522_l7o.Database.{World, Env}
use gb_522_l7o.Audit.{Actor}
use gb_522_l7o.Events.Repository
use gb_522_l7o.Events.Service.{ReviewEventRequest, load_event, load_event_route}

module _ {F : Type 0} where
  -- The columns of a review, written to a row at the time `t`.
  abbrev pub reviewed_row : EventMarker F → ℕ → EventMarker F → EventMarker F
  reviewed_row item t row = record row {
    event_type = item.event_type;
    distance_m = item.distance_m;
    reviewed = true;
    review_note = item.review_note;
    reviewed_by = item.reviewed_by;
    reviewed_at = item.reviewed_at;
    updated_at = t;
  }

  -- The table has the review in the row of its key, of which there is one at least, and is otherwise as
  -- it was.
  pub record IsSaved (item : EventMarker F) (rows : List (EventMarker F)) : Type 0 where
    pub before : List (EventMarker F)
    pub at_time : ℕ
    pub present : 0 < count_if (λ e. e.id == item.id) before
    pub saved : rows ≡ map (λ e. if e.id == item.id then reviewed_row item at_time e else e) before

module _ {F : Type 0} ⦃f : Float F⦄ (env : Env F) where
  -- The result of a review: the event read, with the type, distance and note of the request, the
  -- reviewer and the time, at a distance that is not beyond the end of the route read.
  pub record IsReviewed (id : ℕ) (request : ReviewEventRequest F) (actor : Actor) (w : World F)
      (item : EventMarker F) : Type 0 where
    pub event : EventMarker F
    pub event_read : (load_event env id w).0 ≡ ok event
    pub route : FiberRoute F
    pub route_read : (load_event_route env event (load_event env id w).1).0 ≡ ok route
    pub at_time : ℕ
    pub item_is : item ≡ record event {
      event_type = request.event_type;
      distance_m = elim request.distance_m [ none ↦ event.distance_m | some x ↦ x ];
      reviewed = true;
      review_note = request.review_note;
      reviewed_by = some actor.id;
      reviewed_at = some at_time;
    }
    pub on_route : f.lt route.length_m item.distance_m ≡ false
    pub same_type : item.algorithm_event_type ≡ event.algorithm_event_type
    pub same_distance : item.algorithm_distance_m ≡ event.algorithm_distance_m
    pub same_loss : item.algorithm_insertion_loss_db ≡ event.algorithm_insertion_loss_db
