-- ===== src/Traces/Imported.antt =====
-- What `Import` of service/trace_service.go accepts, and what it stores.
use gb_522_l7o.Prelude.{
  ℕ, ◌+◌, ◌≡◌, ◌≢◌, sym, subst, ap, ◌∙◌, false, none, List, [], ◌∷◌, ◌++◌, length, All, arith,
  Bool-cases, Option-cases, inl, inr,
}
use gb_522_l7o.Prelude.Int.{ℤ, pos, ltb_ℤ, ◌-ℤ◌}
use gb_522_l7o.Errors.{Error, ok}
use gb_522_l7o.Float.{Float}
use gb_522_l7o.Model.{FiberRoute, TraceCapture, AuditLog}
use gb_522_l7o.Algorithm.Denoise.{moving_median}
use gb_522_l7o.Algorithm.Detect.{estimate_noise_floor}
use gb_522_l7o.Algorithm.Detect.Pipeline.{Result-cases}
use gb_522_l7o.Algorithm.Distance.{sample_distance}
use gb_522_l7o.Database.{IsTable, World, Env, ◌>>=◌, pure, lift, on_error, transaction}
use gb_522_l7o.Database.Preserves.{on_error-world}
use gb_522_l7o.Audit.{Actor, create_audit}
use gb_522_l7o.Cases.Inversion.{
  >>=-inv, if_raise-inv, on_error-inv, pure-inv, transaction-inv, pure-ok,
}
use gb_522_l7o.Events.Detected.{lift-inv}
use gb_522_l7o.Json.{arr}
use gb_522_l7o.Events.Detection.{points_items, or_int, or_float}
use gb_522_l7o.Traces.Service.{
  ImportTraceRequest, is_outside, first_outside, check_points, is_short, create_trace,
  load_import_route, prepare_trace, store_trace, import_trace,
}

module _ {F : Type 0} where
  abbrev pub stamp_trace : ℕ → ℕ → TraceCapture F → TraceCapture F
  stamp_trace n t r = record r { id = n; created_at = t }

  abbrev pub IsTraceEnv : Env F → Type 0
  IsTraceEnv env = IsTable env.traces (λ r. r.id) stamp_trace (λ t r. r)

module _ {F : Type 0} ⦃f : Float F⦄ where
  -- A sample is a number from -200 to 100.
  abbrev pub InRange : F → Type 0
  InRange p =
      (f.is_nan p ≡ false)
      × (f.is_inf p ≡ false)
      × (f.lt p (f.neg (f.lit 200 0)) ≡ false)
      × (f.lt (f.lit 100 0) p ≡ false)

  is_outside-InRange : (p : F) → is_outside p ≡ false → InRange p
  is_outside-InRange p h = (ground arith, ground arith, ground arith, ground arith)

  first_outside-All : (i : ℕ) (points : List F) → first_outside i points ≡ none → All InRange points
  unfolding first_outside
  first_outside-All i [] h = tt
  first_outside-All i (p ∷ points) h = elim (Bool-cases (is_outside p)) [
    | inl e ↦ absurd (ground arith)
    | inr e ↦ (is_outside-InRange p e, first_outside-All (i + 1) points (rw e at h))
  ]

  check_points-inv :
      (max_points : ℤ) (request : ImportTraceRequest F)
      → check_points max_points request ≡ ok tt
      → (ltb_ℤ max_points (pos (length request.points)) ≡ false) × All InRange request.points
  unfolding check_points
  check_points-inv max_points request h =
      elim (Bool-cases (ltb_ℤ max_points (pos (length request.points)))) [
        | inl e ↦ absurd (ground arith)
        | inr e ↦ elim (Option-cases (first_outside 0 request.points)) [
          | inl none_out ↦ (e, first_outside-All 0 request.points none_out)
          | inr (i, out) ↦ absurd (ground arith)
        ]
      ]

  -- The trace that the algorithms prepare on a route.
  pub record IsPrepared (request : ImportTraceRequest F) (route : FiberRoute F) (actor : Actor)
      (trace : TraceCapture F) : Type 0 where
    pub filtered : List F
    pub smoothed :
        moving_median request.points (or_int request.denoise_window (pos 5)) ≡ ok filtered
    pub noise : F
    pub noise_is : estimate_noise_floor filtered ≡ ok noise
    pub last : F
    pub last_is :
        sample_distance
          (pos (length request.points) -ℤ pos 1)
          request.sample_interval_ns
          route.refractive_index
        ≡ ok last
    pub long_enough : f.lt last (f.mul route.length_m (f.lit 5 2)) ≡ false
    pub trace_is : trace ≡ record {
      id = 0;
      route_id = request.route_id;
      wavelength_nm = request.wavelength_nm;
      pulse_width_ns = request.pulse_width_ns;
      sample_interval_ns = request.sample_interval_ns;
      raw_points_json = arr (points_items request.points);
      processed_json = arr (points_items filtered);
      noise_floor_db = noise;
      denoise_window = or_int request.denoise_window (pos 5);
      peak_threshold_db = or_float request.peak_threshold_db (f.lit 8 1);
      merge_window = or_int request.merge_window (pos 3);
      captured_at = request.captured_at;
      uploaded_by = actor.id;
      created_at = 0;
    }

  prepare_trace-IsPrepared :
      (env : Env F) (request : ImportTraceRequest F) (route : FiberRoute F) (actor : Actor)
      (w : World F) (trace : TraceCapture F)
      → (prepare_trace env request route actor w).0 ≡ ok trace
      → IsPrepared request route actor trace
  unfolding prepare_trace
  prepare_trace-IsPrepared env request route actor w trace h =
      let (filtered, smooth, rest, _) = >>=-inv _ _ w trace h in
      let (noise, estimated, rest2, _) = >>=-inv _ _ _ trace rest in
      let (last, measured, rest3, _) = >>=-inv _ _ _ trace rest2 in
      let (fits, made) = if_raise-inv (is_short last route) _ _ _ trace rest3 in
      record {
        filtered = filtered;
        smoothed = lift-inv _ _ _ filtered smooth;
        noise = noise;
        noise_is = lift-inv _ _ _ noise estimated;
        last = last;
        last_is = lift-inv _ _ _ last measured;
        long_enough = fits;
        trace_is = sym (pure-ok _ trace _ made);
      }

  -- `trace` is a new row of the table: `new` with a key that no other row has.
  pub record IsAdded (new trace : TraceCapture F) (rows : List (TraceCapture F)) : Type 0 where
    pub old : List (TraceCapture F)
    pub added : rows ≡ old ++ (trace ∷ [])
    pub fresh : All (λ r. r.id ≢ trace.id) old
    pub key : ℕ
    pub time : ℕ
    pub stamped : trace ≡ stamp_trace key time new

  create_trace-IsAdded :
      (env : Env F) (new trace : TraceCapture F) (w : World F)
      → IsTraceEnv env
      → (create_trace env new w).0 ≡ ok trace
      → IsAdded new trace (create_trace env new w).1.traces
  unfolding create_trace
  create_trace-IsAdded env new trace w laws h =
      elim (Result-cases (env.traces.create w.clock new w.traces)) [
        | inl ((made, rows), e) ↦
            let (n, stamped, fresh, stored) = laws.create_ok w.clock new w.traces made rows e in
            let same : made ≡ trace = ground arith in
            subst (λ r. IsAdded new r (create_trace env new w).1.traces) {x = made} same
              (record {
                old = w.traces;
                added = ground (arith, stored);
                fresh =
                    subst (λ x. All (λ r. r.id ≢ x) w.traces) {x = n} (ap (λ r. r.id) (sym stamped))
                      fresh;
                key = n;
                time = w.clock;
                stamped = stamped;
              })
        | inr (e, q) ↦ absurd (ground arith)
      ]

  create_audit-traces :
      (env : Env F) (entry : AuditLog F) (w : World F)
      → (create_audit env entry w).1.traces ≡ w.traces
  unfolding create_audit
  create_audit-traces env entry w = ground arith

  transaction-IsAdded :
      (env : Env F) (new trace : TraceCapture F) (entry : TraceCapture F → AuditLog F)
      (failed : Error → Error) (w : World F)
      → IsTraceEnv env
      → (on_error failed
          (transaction env
            (create_trace env new >>= λ made. create_audit env (entry made) >>= λ _. pure made))
          w).0
        ≡ ok trace
      → IsAdded new trace
          (on_error failed
            (transaction env
              (create_trace env new >>= λ made. create_audit env (entry made) >>= λ _. pure made))
            w).1.traces
  transaction-IsAdded env new trace entry failed w laws h =
      let body =
        create_trace env new >>= λ made. create_audit env (entry made) >>= λ _. pure made in
      let w' = env.others w in
      let (inside, left) = transaction-inv env body w trace (on_error-inv failed _ w trace h) in
      let (made, created, rest, left2) = >>=-inv _ _ w' trace inside in
      let at = (create_trace env new w').1 in
      let (u, logged, out, left3) = >>=-inv _ _ at trace rest in
      let at2 = (create_audit env (entry made) at).1 in
      let (same, left4) = pure-inv at2 made trace out in
      let rows =
        ap (λ v. v.traces)
          (on_error-world failed (transaction env body) w ∙ left ∙ left2 ∙ left3 ∙ left4)
        ∙ create_audit-traces env (entry made) at in
      subst (IsAdded new trace) (sym rows) (
        subst (λ r. IsAdded new r at.traces) same
          (create_trace-IsAdded env new made w' laws created))

  -- What an import that succeeds has checked, computed and stored.
  pub record IsImported (env : Env F) (max_points : ℤ) (request : ImportTraceRequest F)
      (actor : Actor) (w : World F) (trace : TraceCapture F) : Type 0 where
    pub within : ltb_ℤ max_points (pos (length request.points)) ≡ false
    pub inside : All InRange request.points
    pub route : FiberRoute F
    pub route_read : (load_import_route env request.route_id w).0 ≡ ok route
    pub new : TraceCapture F
    pub prepared : IsPrepared request route actor new
    pub stored : IsAdded new trace (import_trace env max_points request actor w).1.traces

  -- When `Import` succeeds, the samples are no more than the limit and each is a number from -200 to
  -- 100; the smoothing, the noise floor and the last distance were computed of them and of the route
  -- read, and the last distance is not below a twentieth of that route. The trace returned is the last
  -- row of its table, with a key that no row before it has: the one so prepared, of the actor.
  pub import_trace-IsImported :
      (env : Env F) (max_points : ℤ) (request : ImportTraceRequest F) (actor : Actor) (w : World F)
      (trace : TraceCapture F)
      → IsTraceEnv env
      → (import_trace env max_points request actor w).0 ≡ ok trace
      → IsImported env max_points request actor w trace
  unfolding import_trace store_trace lift
  import_trace-IsImported env max_points request actor w trace laws h =
      let (u, checked, rest, left) = >>=-inv _ _ w trace h in
      let (route, route_read, rest2, left2) = >>=-inv _ _ _ trace rest in
      let (new, made, rest3, left3) = >>=-inv _ _ _ trace rest2 in
      let (within, inside) = check_points-inv max_points request checked in
      record {
        within = within;
        inside = inside;
        route = route;
        route_read = route_read;
        new = new;
        prepared = prepare_trace-IsPrepared env request route actor _ new made;
        stored =
            subst (IsAdded new trace) (ap (λ v. v.traces) (sym (left ∙ left2 ∙ left3)))
              (transaction-IsAdded env new trace _ _ _ laws rest3);
      }
