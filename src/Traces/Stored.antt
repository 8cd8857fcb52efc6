-- ===== src/Traces/Stored.antt =====
-- What `Get` of service/trace_service.go reads back of what `Import` stored.
use gb_522_l7o.Prelude.{ℕ, ◌≡◌, refl, sym, ap, ◌∙◌, List, [], ◌∷◌, arith}
use gb_522_l7o.Prelude.Int.{ℤ, pos}
use gb_522_l7o.Errors.{Error, Result, ok, internal}
use gb_522_l7o.Float.{Float}
use gb_522_l7o.Json.{arr}
use gb_522_l7o.Model.{TraceCapture, EventMarker}
use gb_522_l7o.Algorithm.Denoise.{moving_median}
use gb_522_l7o.Algorithm.Detect.{estimate_noise_floor}
use gb_522_l7o.Database.{World, Env, M, pure, lift, on_error, yield_to_others}
use gb_522_l7o.Audit.{Actor}
use gb_522_l7o.Cases.Inversion.{>>=-run}
use gb_522_l7o.Cases.Repository.{for_trace}
use gb_522_l7o.Events.Detection.{
  decode_items, decode_points, points_items, or_int, or_float, load_trace,
}
use gb_522_l7o.Traces.Service.{ImportTraceRequest, TraceDetail, import_trace, get_detail, detail_of}
use gb_522_l7o.Traces.Imported.{IsTraceEnv, stamp_trace, import_trace-IsImported}

module _ {F : Type 0} ⦃f : Float F⦄ where
  decode_items-points_items : (points : List F) → decode_items (points_items points) ≡ ok points
  decode_items-points_items [] = refl
  decode_items-points_items (p ∷ points) = rw (decode_items-points_items points) refl

  -- The samples that a trace is stored with are read back as they are.
  pub decode_points-points_items :
      (points : List F) → decode_points (arr (points_items points)) ≡ ok points
  unfolding decode_points
  decode_points-points_items points = decode_items-points_items points

  on_error-lift :
      {A : Type 0} (g : Error → Error) (r : Result A) (a : A) (w : World F)
      → r ≡ ok a
      → on_error g (lift r) w ≡ (ok a, w)
  unfolding on_error lift
  on_error-lift g r a w e = ground (arith, e)

  on_error-ok :
      {A : Type 0} (g : Error → Error) (m : M F A) (w : World F) (a : A)
      → (m w).0 ≡ ok a
      → (on_error g m w).0 ≡ ok a
  unfolding on_error
  on_error-ok g m w a e = ground (arith, e)

  ok-pair : {A : Type 0} (m : M F A) (w : World F) (a : A) → (m w).0 ≡ ok a → m w ≡ (ok a, (m w).1)
  ok-pair m w a e = ap (λ r. (r, (m w).1)) e

  get_detail-ok :
      (env : Env F) (id : ℕ) (w : World F) (trace : TraceCapture F) (raw processed : List F)
      (events : List (EventMarker F))
      → (load_trace env id w).0 ≡ ok trace
      → decode_points trace.raw_points_json ≡ ok raw
      → decode_points trace.processed_json ≡ ok processed
      → (for_trace env id (env.others (load_trace env id w).1)).0 ≡ ok events
      → (get_detail env id w).0 ≡ ok (detail_of trace raw processed, events)
  unfolding get_detail yield_to_others pure
  get_detail-ok env id w trace raw processed events loaded first second listed =
      let w1 = (load_trace env id w).1 in
      let failed = internal "list trace events failed" in
      let list = on_error failed (for_trace env id) in
      let w2 = env.others w1 in
      >>=-run _ _ w w1 trace _ (ok-pair (load_trace env id) w trace loaded) (
        >>=-run _ _ w1 w1 raw _ (on_error-lift _ _ raw w1 first) (
          >>=-run _ _ w1 w1 processed _ (on_error-lift _ _ processed w1 second) (
            >>=-run _ _ w1 w2 tt _ refl (
              >>=-run _ _ w2 (list w2).1 events _
                (ok-pair list w2 events (on_error-ok failed (for_trace env id) w2 events listed))
                refl))))

  -- What `Get` gives of an imported trace: what was handed in, and what was computed of it.
  pub record IsReadBack (request : ImportTraceRequest F) (actor : Actor) (trace : TraceCapture F)
      (detail : TraceDetail F) : Type 0 where
    pub same_points : detail.points ≡ request.points
    pub filtered :
        moving_median request.points (or_int request.denoise_window (pos 5))
        ≡ ok detail.processed_points
    pub estimated : estimate_noise_floor detail.processed_points ≡ ok detail.noise_floor_db
    pub same_key : detail.id ≡ trace.id
    pub same_pulse :
        (detail.route_id ≡ request.route_id)
        × (detail.wavelength_nm ≡ request.wavelength_nm)
        × (detail.pulse_width_ns ≡ request.pulse_width_ns)
        × (detail.sample_interval_ns ≡ request.sample_interval_ns)
    pub same_tuning :
        (detail.denoise_window ≡ or_int request.denoise_window (pos 5))
        × (detail.peak_threshold_db ≡ or_float request.peak_threshold_db (f.lit 8 1))
        × (detail.merge_window ≡ or_int request.merge_window (pos 3))
    pub same_origin : (detail.captured_at ≡ request.captured_at) × (detail.uploaded_by ≡ actor.id)

  -- After an import has returned a trace, `Get` of its key gives the samples of the request, their
  -- smoothing and its noise floor, and what else was handed in, with the settings of the detection or
  -- their defaults, whenever it reads that trace and its events.
  pub import_trace-get_detail :
      (env : Env F) (max_points : ℤ) (request : ImportTraceRequest F) (actor : Actor)
      (w later : World F) (trace : TraceCapture F) (events : List (EventMarker F))
      → IsTraceEnv env
      → (import_trace env max_points request actor w).0 ≡ ok trace
      → (load_trace env trace.id later).0 ≡ ok trace
      → (for_trace env trace.id (env.others (load_trace env trace.id later).1)).0 ≡ ok events
      → (detail : TraceDetail F) × ((get_detail env trace.id later).0 ≡ ok (detail, events))
        × IsReadBack request actor trace detail
  import_trace-get_detail env max_points request actor w later trace events laws h loaded listed =
      let imported = import_trace-IsImported env max_points request actor w trace laws h in
      let prepared = imported.prepared in
      let is_new = imported.stored.stamped ∙ ap (stamp_trace _ _) prepared.trace_is in
      (
        detail_of trace request.points prepared.filtered,
        get_detail-ok env trace.id later trace request.points prepared.filtered events loaded
            (ap (λ t. decode_points t.raw_points_json) is_new
              ∙ decode_points-points_items request.points)
            (ap (λ t. decode_points t.processed_json) is_new
              ∙ decode_points-points_items prepared.filtered)
            listed,
        record {
          same_points = refl;
          filtered = prepared.smoothed;
          estimated = prepared.noise_is ∙ ap (λ t. ok t.noise_floor_db) (sym is_new);
          same_key = refl;
          same_pulse = (
            ap (λ t. t.route_id) is_new,
            ap (λ t. t.wavelength_nm) is_new,
            ap (λ t. t.pulse_width_ns) is_new,
            ap (λ t. t.sample_interval_ns) is_new,
          );
          same_tuning = (
            ap (λ t. t.denoise_window) is_new,
            ap (λ t. t.peak_threshold_db) is_new,
            ap (λ t. t.merge_window) is_new,
          );
          same_origin = (ap (λ t. t.captured_at) is_new, ap (λ t. t.uploaded_by) is_new);
        },
      )
