-- ===== src/Events/Detection.antt =====
-- `Detect` of `EventService`, backend/internal/service/event_service.go.
use Prim.Native.String.{String, ◌++◌}
use gb_522_l7o.Prelude.{ℕ, ◌+◌, false, none, some, List, [], ◌∷◌, map, length, if◌then◌else◌}
use gb_522_l7o.Prelude.Int.{ℤ, pos, negsuc, eqb_ℤ}
use gb_522_l7o.Errors.{
  Error, app, algorithm_input, external, Result, ok, err, is_not_found, internal,
  resource_not_found,
}
use gb_522_l7o.Float.{Float}
use gb_522_l7o.Json.{Json, null, boolean, num, str, arr, obj, Items, nil, item, done, field, nat}
use gb_522_l7o.Model.{FiberRoute, TraceCapture, EventMarker}
use gb_522_l7o.Snapshot.{scrub}
use gb_522_l7o.Algorithm.Denoise.{moving_median}
use gb_522_l7o.Algorithm.Detect.{DetectedEvent, estimate_noise_floor, detect}
use gb_522_l7o.Database.{Env, M, ◌>>=◌, ◌>>◌, pure, on_error, lift, yield_to_others, transaction}
use gb_522_l7o.Audit.{Actor, audit, create_audit}
use gb_522_l7o.Events.Repository
use gb_522_l7o.Routes.Repository as RouteRepository

-- The request of backend/internal/dto/trace.go and the summary of backend/internal/dto/event.go.
pub record DetectEventsRequest (F : Type 0) : Type 0 where
  pub denoise_window : ℤ
  pub peak_threshold_db : F
  pub merge_window : ℤ

pub record DetectionSummary (F : Type 0) : Type 0 where
  pub trace_id : ℕ
  pub detected_count : ℕ
  pub noise_floor_db : F
  pub threshold_db : F
  pub rejected_count : ℕ

-- The parameters of one detection.
pub record Tuning (F : Type 0) : Type 0 where
  pub window : ℤ
  pub threshold : F
  pub merge : ℤ

-- What `Detect` computes of a trace before it writes.
pub record Computed (F : Type 0) : Type 0 where
  pub filtered : List F
  pub noise : F
  pub detected : List (DetectedEvent F)
  pub rejected : ℕ

-- `x`, or `d` where `x` is zero.
abbrev pub or_int : ℤ → ℤ → ℤ
or_int x d = if eqb_ℤ x (pos 0) then d else x

abbrev failed : String → Error → Error
failed message e = app algorithm_input 422 message e

module _ {F : Type 0} ⦃f : Float F⦄ where
  -- The kinds of values as `encoding/json` names them in its errors.
  abbrev value_kind : Json F → String
  value_kind null = "null"
  value_kind (boolean b) = "bool"
  value_kind (num x) = "number"
  value_kind (str s) = "string"
  value_kind (arr xs) = "array"
  value_kind (obj fs) = "object"

  abbrev mismatch : Json F → String → Error
  mismatch j wanted =
      external ("json: cannot unmarshal " ++ value_kind j ++ " into Go value of type " ++ wanted)

  abbrev pub decode_items : Items F → Result (List F)
  decode_items nil = ok []
  decode_items (item x xs) =
      let rest = decode_items xs in
      let consed : F → Result (List F) = λ a. elim rest [ ok l ↦ ok (a ∷ l) | err e ↦ err e ] in
      elim x [
        | num a ↦ consed a
        | null ↦ consed (f.lit 0 0)
        | boolean b ↦ err (mismatch (boolean b) "float64")
        | str s ↦ err (mismatch (str s) "float64")
        | arr ys ↦ err (mismatch (arr ys) "float64")
        | obj fs ↦ err (mismatch (obj fs) "float64")
      ]

  -- `json.Unmarshal` into a `[]float64`.
  unfoldable pub decode_points : Json F → Result (List F)
  decode_points (arr xs) = decode_items xs
  decode_points null = ok []
  decode_points (boolean b) = err (mismatch (boolean b) "[]float64")
  decode_points (num x) = err (mismatch (num x) "[]float64")
  decode_points (str s) = err (mismatch (str s) "[]float64")
  decode_points (obj fs) = err (mismatch (obj fs) "[]float64")

  abbrev pub points_items : List F → Items F
  points_items [] = nil
  points_items (x ∷ xs) = item (num x) (points_items xs)

  abbrev pub int : ℤ → Json F
  int (pos n) = nat n
  int (negsuc n) = num (f.neg (f.of_ℕ (n + 1)))

  abbrev pub or_float : F → F → F
  or_float x d = if f.eq x (f.lit 0 0) then d else x

  -- The parameters of the request, else those of the trace, else the defaults.
  abbrev pub tuning_of : DetectEventsRequest F → TraceCapture F → Tuning F
  tuning_of request trace = record {
    window = or_int (or_int request.denoise_window trace.denoise_window) (pos 5);
    threshold = or_float (or_float request.peak_threshold_db trace.peak_threshold_db) (f.lit 8 1);
    merge = or_int (or_int request.merge_window trace.merge_window) (pos 3);
  }

  abbrev pub marker_of : ℕ → DetectedEvent F → EventMarker F
  marker_of trace_id e = record {
    id = 0;
    trace_id = trace_id;
    distance_m = e.distance_m;
    event_type = e.event_type;
    insertion_loss_db = e.insertion_loss_db;
    reflectance_db = e.reflectance_db;
    confidence = e.confidence;
    algorithm_event_type = e.event_type;
    algorithm_distance_m = e.distance_m;
    algorithm_insertion_loss_db = e.insertion_loss_db;
    reviewed = false;
    review_note = "";
    reviewed_by = none;
    reviewed_at = none;
    created_at = 0;
    updated_at = 0;
  }

  -- The three calls of the algorithms, on the samples.
  unfoldable pub compute : List F → Tuning F → TraceCapture F → FiberRoute F → M F (Computed F)
  compute raw tuning trace route = do
    filtered ← on_error (failed "trace denoising failed") (lift (moving_median raw tuning.window))
    noise ← on_error (failed "noise floor estimation failed") (lift (estimate_noise_floor filtered))
    found ← on_error (failed "event detection failed") (
        lift (
          detect filtered tuning.threshold tuning.merge trace.sample_interval_ns
            route.refractive_index route.length_m))
    pure (record { filtered = filtered; noise = noise; detected = found.0; rejected = found.1 })

module _ {F : Type 0} ⦃f : Float F⦄ (env : Env F) where
  unfoldable pub load_trace : ℕ → M F (TraceCapture F)
  load_trace id =
      yield_to_others env
      >> on_error
          (λ e.
            if is_not_found e then resource_not_found "trace" else internal "get trace failed" e)
          (Repository.get_trace env id)

  unfoldable pub load_trace_route : TraceCapture F → M F (FiberRoute F)
  load_trace_route trace =
      yield_to_others env
      >> on_error (internal "get trace route failed") (RouteRepository.get env trace.route_id)

  abbrev detection_document : Tuning F → Computed F → Json F
  detection_document tuning computed = obj (
      field "denoise_window" (int tuning.window) (
        field "detected" (nat (length computed.detected)) (
          field "merge_window" (int tuning.merge) (
            field "noise_floor_db" (num computed.noise) (
              field "peak_threshold_db" (num tuning.threshold)
                (field "rejected_out_of_bounds" (nat computed.rejected) done))))))

  -- The transaction.
  unfoldable pub save_detection :
      TraceCapture F → FiberRoute F → Tuning F → Computed F → Actor → M F (Unit {0})
  save_detection trace route tuning computed actor =
      on_error (internal "save detected events failed") (
        transaction env (
          Repository.update_processing env trace.id (arr (points_items computed.filtered))
            computed.noise tuning.window tuning.threshold tuning.merge
          >> Repository.replace_for_trace env trace.id (map (marker_of trace.id) computed.detected)
          >> create_audit env (
              audit actor "trace.events_detected" "TraceCapture" trace.id (some route.id) (obj done)
                (scrub env.lower_rune (detection_document tuning computed)))))

  unfoldable pub detect_events : ℕ → DetectEventsRequest F → Actor → M F (DetectionSummary F)
  detect_events trace_id request actor = do
    trace ← load_trace trace_id
    route ← load_trace_route trace
    raw ← on_error (internal "decode raw trace failed") (lift (decode_points trace.raw_points_json))
    let tuning = tuning_of request trace
    computed ← compute raw tuning trace route
    save_detection trace route tuning computed actor
    pure (record {
      trace_id = trace.id;
      detected_count = length computed.detected;
      noise_floor_db = computed.noise;
      threshold_db = tuning.threshold;
      rejected_count = computed.rejected;
    })
