-- ===== src/Traces/Lasting.antt =====
-- The traces under everything that writes: `Create` and `UpdateProcessing` of
-- backend/internal/repository/trace_repository.go.
use gb_522_l7o.Prelude.{ℕ, ◌≡◌, refl, subst, ◌∙◌, List, ◌==◌, arith, inl, inr}
use gb_522_l7o.Prelude.Int.{ℤ}
use gb_522_l7o.Float.{Float}
use gb_522_l7o.Json.{Json}
use gb_522_l7o.Model.{TraceCapture}
use gb_522_l7o.Database.{World, Env, yield_to_others}
use gb_522_l7o.Database.Preserves.{Guarantee, Preserves}
use gb_522_l7o.Database.Extends.{
  Extends, Extends-refl, Extends-trans, create-Extends, update-Extends,
}
use gb_522_l7o.Writes.{Writes}
use gb_522_l7o.Writes.Frames.{framed_audits, framed_cases, framed_routes, framed_events}
use gb_522_l7o.Algorithm.Detect.Pipeline.{Result-cases}
use gb_522_l7o.Events.Repository.{update_processing}
use gb_522_l7o.Traces.Service.{create_trace}
use gb_522_l7o.Traces.Imported.{IsTraceEnv}

module _ {F : Type 0} where
  -- What was measured, and by whom it was handed in: all columns but those computed from the samples.
  abbrev pub measured : TraceCapture F → ℕ × ℕ × ℤ × F × F × Json F × ℕ × ℕ × ℕ
  measured r = (
    r.id, r.route_id, r.wavelength_nm, r.pulse_width_ns, r.sample_interval_ns, r.raw_points_json,
    r.captured_at, r.uploaded_by, r.created_at,
  )

  abbrev pub SameTrace : TraceCapture F → TraceCapture F → Type 0
  SameTrace r s = measured s ≡ measured r

  abbrev pub TracesLast : List (TraceCapture F) → List (TraceCapture F) → Type 0
  TracesLast = Extends SameTrace

  abbrev pub trace_guarantee : Guarantee F
  trace_guarantee = record {
    Kept = λ v w. TracesLast v.traces w.traces;
    same = λ w. Extends-refl SameTrace (λ r. refl) w.traces;
    chain = λ u v w. Extends-trans SameTrace (λ r s t p q. q ∙ p) u.traces v.traces w.traces;
    later = λ w t. Extends-refl SameTrace (λ r. refl) w.traces;
  }

  -- The table of traces works, and the other requests, which run the same code, keep the traces.
  pub record IsTracesEnv (env : Env F) : Type 0 where
    pub traces : IsTraceEnv env
    pub others : (w : World F) → TracesLast w.traces (env.others w).traces

module _ {F : Type 0} ⦃f : Float F⦄ (env : Env F) (laws : IsTracesEnv env) where
  unchanged : (w : World F) → TracesLast w.traces w.traces
  unchanged w = Extends-refl SameTrace (λ r. refl) w.traces

  create_trace-Last :
      (trace : TraceCapture F) (w : World F)
      → TracesLast w.traces (create_trace env trace w).1.traces
  unfolding create_trace
  create_trace-Last trace w = elim (Result-cases (env.traces.create w.clock trace w.traces)) [
    | inl ((made, rows), e) ↦
        subst (TracesLast w.traces) {x = rows} (ground arith)
          (create-Extends SameTrace (λ r. refl) laws.traces w.clock trace made w.traces rows e)
    | inr (e, q) ↦ subst (TracesLast w.traces) {x = w.traces} (ground arith) (unchanged w)
  ]

  update_processing-Last :
      (id : ℕ) (processed : Json F) (noise : F) (window : ℤ) (threshold : F) (merge : ℤ)
      (w : World F)
      → TracesLast w.traces
          (update_processing env id processed noise window threshold merge w).1.traces
  unfolding update_processing
  update_processing-Last id processed noise window threshold merge w =
      let columns : TraceCapture F → TraceCapture F = λ t. record t {
        processed_json = processed;
        noise_floor_db = noise;
        denoise_window = window;
        peak_threshold_db = threshold;
        merge_window = merge;
      } in
      elim (Result-cases (env.traces.update w.clock (λ t. t.id == id) columns w.traces)) [
        | inl ((n, rows), e) ↦ subst (TracesLast w.traces) {x = rows} (ground arith) (
            update-Extends SameTrace (λ r. refl) laws.traces w.clock n (λ t. t.id == id) columns
              w.traces rows (λ r q. refl) e)
        | inr (e, q) ↦ subst (TracesLast w.traces) {x = w.traces} (ground arith) (unchanged w)
      ]

  others-Last : Preserves trace_guarantee (yield_to_others env)
  unfolding yield_to_others
  others-Last = record { keeps = λ w. laws.others w }

  -- Every write of the program keeps the measurements.
  pub trace-Writes : Writes env trace_guarantee
  trace-Writes =
      let logged = framed_audits env trace_guarantee (λ w rows. unchanged w) in
      record {
        others = others-Last;
        create_audit = logged;
        cases = framed_cases env trace_guarantee (λ w rows. unchanged w);
        routes = framed_routes env trace_guarantee (λ w rows. unchanged w) others-Last logged;
        traces = record {
          create = λ trace. record { keeps = create_trace-Last trace };
          update_processing = λ id processed noise window threshold merge. record {
            keeps = update_processing-Last id processed noise window threshold merge;
          };
        };
        events = framed_events env trace_guarantee (λ w rows. unchanged w);
      }
