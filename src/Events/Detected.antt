-- ===== src/Events/Detected.antt =====
-- What a detection finds and reports: `Detect` of service/event_service.go.
use gb_522_l7o.Prelude.{ℕ, ◌≡◌, subst, ap, ◌∙◌, List, length, All}
use gb_522_l7o.Errors.{Error, Result, ok}
use gb_522_l7o.Float.{Float}
use gb_522_l7o.Model.{FiberRoute, TraceCapture}
use gb_522_l7o.Algorithm.Denoise.{moving_median}
use gb_522_l7o.Algorithm.Detect.{DetectedEvent, detect}
use gb_522_l7o.Algorithm.Detect.Pipeline.{IsEvent, detect-IsEvent}
use gb_522_l7o.Database.{World, Env, lift, on_error}
use gb_522_l7o.Audit.{Actor}
use gb_522_l7o.Cases.Inversion.{>>=-inv, on_error-inv, pure-ok}
use gb_522_l7o.Events.Detection.{
  DetectEventsRequest, DetectionSummary, Tuning, Computed, tuning_of, decode_points, compute,
  load_trace, load_trace_route, detect_events,
}

module _ {F : Type 0} ⦃f : Float F⦄ where
  pub lift-inv :
      {A : Type 0} (g : Error → Error) (r : Result A) (w : World F) (a : A)
      → (on_error g (lift r) w).0 ≡ ok a
      → r ≡ ok a
  unfolding lift
  lift-inv g r w a h = on_error-inv g (lift r) w a h

  compute-inv :
      (raw : List F) (tuning : Tuning F) (trace : TraceCapture F) (route : FiberRoute F)
      (w : World F) (computed : Computed F)
      → (compute raw tuning trace route w).0 ≡ ok computed
      → (moving_median raw tuning.window ≡ ok computed.filtered)
        × (detect computed.filtered tuning.threshold tuning.merge trace.sample_interval_ns
              route.refractive_index route.length_m
            ≡ ok (computed.detected, computed.rejected))
  unfolding compute
  compute-inv raw tuning trace route w computed h =
      let (filtered, smooth, rest, _) = >>=-inv _ _ w computed h in
      let (noise, _, rest2, _) = >>=-inv _ _ _ computed rest in
      let (found, run, last, _) = >>=-inv _ _ _ computed rest2 in
      let same = pure-ok _ computed _ last in
      (
        lift-inv _ _ _ filtered smooth ∙ ap (λ c. ok c.filtered) same,
        subst
            (λ c.
              detect c.filtered tuning.threshold tuning.merge trace.sample_interval_ns
                route.refractive_index route.length_m
              ≡ ok (c.detected, c.rejected))
            same (lift-inv _ _ _ found run),
      )

  -- The summary of a successful detection: what the algorithms give for the samples of the trace read
  -- and the route read, with the parameters chosen.
  pub record IsDetected (env : Env F) (trace_id : ℕ) (request : DetectEventsRequest F) (w : World F)
      (summary : DetectionSummary F) : Type 0 where
    pub trace : TraceCapture F
    pub trace_read : (load_trace env trace_id w).0 ≡ ok trace
    pub route : FiberRoute F
    pub route_read : (load_trace_route env trace (load_trace env trace_id w).1).0 ≡ ok route
    pub raw : List F
    pub decoded : decode_points trace.raw_points_json ≡ ok raw
    pub filtered : List F
    pub smoothed : moving_median raw (tuning_of request trace).window ≡ ok filtered
    pub detected : List (DetectedEvent F)
    pub found :
        detect filtered
          (tuning_of request trace).threshold
          (tuning_of request trace).merge
          trace.sample_interval_ns
          route.refractive_index
          route.length_m
        ≡ ok (detected, summary.rejected_count)
    pub counted : length detected ≡ summary.detected_count
    pub on_route :
        All
          (IsEvent filtered trace.sample_interval_ns route.refractive_index route.length_m)
          detected

  -- When a detection succeeds, its summary counts what `Detect` finds and rejects in the smoothed
  -- samples of the trace, with the parameters of the request, else of the trace, else the defaults;
  -- and every event found lies on the route, at the distance of an index of the trace.
  pub detect_events-IsDetected :
      (env : Env F) (trace_id : ℕ) (request : DetectEventsRequest F) (actor : Actor) (w : World F)
      (summary : DetectionSummary F)
      → (detect_events env trace_id request actor w).0 ≡ ok summary
      → IsDetected env trace_id request w summary
  unfolding detect_events
  detect_events-IsDetected env trace_id request actor w summary h =
      let (trace, trace_read, rest, _) = >>=-inv _ _ w summary h in
      let w1 = (load_trace env trace_id w).1 in
      let (route, route_read, rest2, _) = >>=-inv _ _ w1 summary rest in
      let (raw, decoded, rest3, _) = >>=-inv _ _ _ summary rest2 in
      let (computed, ran, rest4, _) = >>=-inv _ _ _ summary rest3 in
      let (u, _, last, _) = >>=-inv _ _ _ summary rest4 in
      let same = pure-ok _ summary _ last in
      let tuning = tuning_of request trace in
      let (smoothed, found) = compute-inv raw tuning trace route _ computed ran in
      let (events, spaced) =
        detect-IsEvent computed.filtered tuning.threshold tuning.merge trace.sample_interval_ns
          route.refractive_index route.length_m found in
      record {
        trace = trace;
        trace_read = trace_read;
        route = route;
        route_read = route_read;
        raw = raw;
        decoded = lift-inv _ _ _ raw decoded;
        filtered = computed.filtered;
        smoothed = smoothed;
        detected = computed.detected;
        found = found ∙ ap (λ s. ok (computed.detected, s.rejected_count)) same;
        counted = ap (λ s. s.detected_count) same;
        on_route = events;
      }
