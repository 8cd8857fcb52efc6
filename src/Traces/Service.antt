-- ===== src/Traces/Service.antt =====
-- `Import` and `Get` of `TraceService`, backend/internal/service/trace_service.go.
use Prim.Native.String.{◌++◌}
use gb_522_l7o.Prelude.{
  ℕ, ◌+◌, Bool, ◌||◌, Option, none, some, List, [], ◌∷◌, length, if◌then◌else◌,
}
use gb_522_l7o.Prelude.Int.{ℤ, pos, ltb_ℤ, ◌-ℤ◌}
use gb_522_l7o.Strings.{format_uint, format_int}
use gb_522_l7o.Errors.{
  nil, wrap, app, algorithm_input, Result, ok, err, is_not_found, invalid, internal,
  resource_not_found,
}
use gb_522_l7o.Float.{Float}
use gb_522_l7o.Json.{Json, num, arr, obj, done, field, nat}
use gb_522_l7o.Model.{FiberRoute, TraceCapture, EventMarker}
use gb_522_l7o.Snapshot.{scrub}
use gb_522_l7o.Algorithm.Distance.{sample_distance}
use gb_522_l7o.Algorithm.Denoise.{moving_median}
use gb_522_l7o.Algorithm.Detect.{estimate_noise_floor}
use gb_522_l7o.Database.{
  Env, M, ◌>>=◌, ◌>>◌, pure, raise, on_error, lift, yield_to_others, transaction,
}
use gb_522_l7o.Audit.{Actor, audit, create_audit}
use gb_522_l7o.Cases.Repository.{for_trace}
use gb_522_l7o.Routes.Repository as RouteRepository
use gb_522_l7o.Events.Detection.{
  Tuning, decode_points, points_items, int, or_int, or_float, load_trace,
}

-- The request of backend/internal/dto/trace.go, after binding and validation.
pub record ImportTraceRequest (F : Type 0) : Type 0 where
  pub route_id : ℕ
  pub wavelength_nm : ℤ
  pub pulse_width_ns : F
  pub sample_interval_ns : F
  pub points : List F
  pub captured_at : ℕ
  pub denoise_window : ℤ
  pub peak_threshold_db : F
  pub merge_window : ℤ

-- `dto.TraceDetail`.
pub record TraceDetail (F : Type 0) : Type 0 where
  pub id : ℕ
  pub route_id : ℕ
  pub wavelength_nm : ℤ
  pub pulse_width_ns : F
  pub sample_interval_ns : F
  pub points : List F
  pub processed_points : List F
  pub noise_floor_db : F
  pub denoise_window : ℤ
  pub peak_threshold_db : F
  pub merge_window : ℤ
  pub captured_at : ℕ
  pub uploaded_by : ℕ

module _ {F : Type 0} ⦃f : Float F⦄ where
  abbrev pub is_outside : F → Bool
  is_outside point =
      f.is_nan point
      || f.is_inf point
      || f.lt point (f.neg (f.lit 200 0))
      || f.lt (f.lit 100 0) point

  -- The loop over the samples from index `i` on: the index of the first that is outside the range.
  unfoldable pub first_outside : ℕ → List F → Option ℕ
  first_outside i [] = none
  first_outside i (point ∷ points) =
      let rest = first_outside (i + 1) points in if is_outside point then some i else rest

  abbrev pub import_tuning : ImportTraceRequest F → Tuning F
  import_tuning request = record {
    window = or_int request.denoise_window (pos 5);
    threshold = or_float request.peak_threshold_db (f.lit 8 1);
    merge = or_int request.merge_window (pos 3);
  }

  -- The trace as it is stored.
  abbrev pub new_trace : ImportTraceRequest F → List F → F → Actor → TraceCapture F
  new_trace request filtered noise actor = record {
    id = 0;
    route_id = request.route_id;
    wavelength_nm = request.wavelength_nm;
    pulse_width_ns = request.pulse_width_ns;
    sample_interval_ns = request.sample_interval_ns;
    raw_points_json = arr (points_items request.points);
    processed_json = arr (points_items filtered);
    noise_floor_db = noise;
    denoise_window = (import_tuning request).window;
    peak_threshold_db = (import_tuning request).threshold;
    merge_window = (import_tuning request).merge;
    captured_at = request.captured_at;
    uploaded_by = actor.id;
    created_at = 0;
  }

  -- The checks of `Import` that need no database.
  unfoldable pub check_points : ℤ → ImportTraceRequest F → Result (Unit {0})
  check_points max_points request =
      if ltb_ℤ max_points (pos (length request.points))
      then err (invalid ("trace exceeds the " ++ format_int max_points ++ "-point limit") nil)
      else elim (first_outside 0 request.points) [
        | none ↦ ok tt
        | some i ↦
            err (invalid ("sample " ++ format_uint i ++ " is outside the supported dB range") nil)
      ]

  -- The last distance has to reach a twentieth of the route.
  abbrev pub is_short : F → FiberRoute F → Bool
  is_short last_distance route = f.lt last_distance (f.mul route.length_m (f.lit 5 2))

  abbrev import_document : ImportTraceRequest F → Json F
  import_document request = obj (
      field "denoise_window" (int (import_tuning request).window) (
        field "merge_window" (int (import_tuning request).merge) (
          field "peak_threshold_db" (num (import_tuning request).threshold) (
            field "point_count" (nat (length request.points))
              (field "wavelength_nm" (int request.wavelength_nm) done)))))

  abbrev pub detail_of : TraceCapture F → List F → List F → TraceDetail F
  detail_of trace raw processed = record {
    id = trace.id;
    route_id = trace.route_id;
    wavelength_nm = trace.wavelength_nm;
    pulse_width_ns = trace.pulse_width_ns;
    sample_interval_ns = trace.sample_interval_ns;
    points = raw;
    processed_points = processed;
    noise_floor_db = trace.noise_floor_db;
    denoise_window = trace.denoise_window;
    peak_threshold_db = trace.peak_threshold_db;
    merge_window = trace.merge_window;
    captured_at = trace.captured_at;
    uploaded_by = trace.uploaded_by;
  }

module _ {F : Type 0} ⦃f : Float F⦄ (env : Env F) where
  -- `TraceRepository.Create`.
  unfoldable pub create_trace : TraceCapture F → M F (TraceCapture F)
  create_trace trace w = elim (env.traces.create w.clock trace w.traces) [
    | err e ↦ (err (wrap "create trace capture" e), w)
    | ok (trace', rows) ↦ (ok trace', record w { traces = rows })
  ]

  -- The read of the route, and its two errors.
  unfoldable pub load_import_route : ℕ → M F (FiberRoute F)
  load_import_route id =
      yield_to_others env
      >> on_error
          (λ e.
            if is_not_found e then resource_not_found "route" else internal "load route failed" e)
          (RouteRepository.get env id)

  -- `Import`, on the route: the trace to store.
  unfoldable pub prepare_trace : ImportTraceRequest F → FiberRoute F → Actor → M F (TraceCapture F)
  prepare_trace request route actor = do
    filtered ←
        on_error (invalid "trace denoising failed")
          (lift (moving_median request.points (import_tuning request).window))
    noise ←
        on_error (app algorithm_input 422 "not enough trace samples for noise estimation")
          (lift (estimate_noise_floor filtered))
    last_distance ← on_error (invalid "distance conversion failed") (
        lift (
          sample_distance (pos (length request.points) -ℤ pos 1) request.sample_interval_ns
            route.refractive_index))
    if is_short last_distance route
        then raise (invalid "trace sampling range covers less than five percent of the route" nil)
        else pure (new_trace request filtered noise actor)

  unfoldable pub store_trace :
      ImportTraceRequest F → TraceCapture F → FiberRoute F → Actor → M F (TraceCapture F)
  store_trace request trace route actor = on_error (internal "import trace failed") (
      transaction env (do
        made ← create_trace trace
        create_audit env (
            audit actor "trace.imported" "TraceCapture" made.id (some route.id) (obj done)
              (scrub env.lower_rune (import_document request)))
        pure made))

  unfoldable pub import_trace : ℤ → ImportTraceRequest F → Actor → M F (TraceCapture F)
  import_trace max_points request actor = do
    lift (check_points max_points request)
    route ← load_import_route request.route_id
    trace ← prepare_trace request route actor
    store_trace request trace route actor

  -- `Get`. A stored column is never empty: a NULL is read as the document `null`.
  unfoldable pub get_detail : ℕ → M F (TraceDetail F × List (EventMarker F))
  get_detail id = do
    trace ← load_trace env id
    raw ←
        on_error (internal "decode raw trace points failed")
          (lift (decode_points trace.raw_points_json))
    processed ←
        on_error (internal "decode processed trace points failed")
          (lift (decode_points trace.processed_json))
    yield_to_others env
    events ← on_error (internal "list trace events failed") (for_trace env id)
    pure (detail_of trace raw processed, events)
