-- ===== src/Events/Repository.antt =====
-- What the event service uses of backend/internal/repository/event_repository.go and
-- trace_repository.go.
use gb_522_l7o.Prelude.{ℕ, true, not, ◌&&◌, List, length, if◌then◌else◌, ◌==◌}
use gb_522_l7o.Errors.{wrap, not_found, ok, err, is_record_not_found}
use gb_522_l7o.Prelude.Int.{ℤ}
use gb_522_l7o.Json.{Json}
use gb_522_l7o.Model.{TraceCapture, EventMarker}
use gb_522_l7o.Database.{Env, M}

module _ {F : Type 0} where
  -- The columns that `Review` writes.
  abbrev pub review_columns : EventMarker F → EventMarker F → EventMarker F
  review_columns event row = record row {
    event_type = event.event_type;
    distance_m = event.distance_m;
    reviewed = true;
    review_note = event.review_note;
    reviewed_by = event.reviewed_by;
    reviewed_at = event.reviewed_at;
  }

module _ {F : Type 0} (env : Env F) where
  unfoldable pub get : ℕ → M F (EventMarker F)
  get id w = elim (env.events.first w.clock (λ e. e.id == id) w.events) [
    | err e ↦ (err (if is_record_not_found e then not_found else wrap "get event marker" e), w)
    | ok event ↦ (ok event, w)
  ]

  unfoldable pub review : EventMarker F → M F (Unit {0})
  review event w =
      elim (env.events.update w.clock (λ e. e.id == event.id) (review_columns event) w.events) [
        | err e ↦ (err (wrap "review event marker" e), w)
        | ok (n, rows) ↦ (if n == 0 then err not_found else ok tt, record w { events = rows })
      ]

  -- `ReplaceForTrace`.
  unfoldable pub replace_for_trace : ℕ → List (EventMarker F) → M F (Unit {0})
  replace_for_trace trace_id events w =
      elim (env.events.delete w.clock (λ e. e.trace_id == trace_id && not e.reviewed) w.events) [
        | err e ↦ (err (wrap "clear unreviewed events" e), w)
        | ok kept ↦
            if length events == 0
            then (ok tt, record w { events = kept })
            else elim (env.events.create_all w.clock events kept) [
              | err e ↦ (err (wrap "create detected events" e), record w { events = kept })
              | ok rows ↦ (ok tt, record w { events = rows })
            ]
      ]

  -- `TraceRepository.UpdateProcessing`.
  unfoldable pub update_processing : ℕ → Json F → F → ℤ → F → ℤ → M F (Unit {0})
  update_processing id processed noise window threshold merge w =
      elim (env.traces.update w.clock (λ t. t.id == id)
        (λ t. record t {
          processed_json = processed;
          noise_floor_db = noise;
          denoise_window = window;
          peak_threshold_db = threshold;
          merge_window = merge;
        })
        w.traces) [
          | err e ↦ (err (wrap "update trace processing" e), w)
          | ok (n, rows) ↦ (if n == 0 then err not_found else ok tt, record w { traces = rows })
        ]

  -- `TraceRepository.Get`.
  unfoldable pub get_trace : ℕ → M F (TraceCapture F)
  get_trace id w = elim (env.traces.first w.clock (λ t. t.id == id) w.traces) [
    | err e ↦ (err (if is_record_not_found e then not_found else wrap "get trace capture" e), w)
    | ok trace ↦ (ok trace, w)
  ]
