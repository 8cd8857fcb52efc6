-- ===== src/Events/Lasting.antt =====
-- The events under everything that writes: `ReplaceForTrace` and `Review` of
-- backend/internal/repository/event_repository.go.
use gb_522_l7o.Prelude.{
  ℕ, zero, suc, ◌≡◌, refl, sym, subst, ◌∙◌, Bool, true, false, not, some, List, [], ◌∷◌, ◌++◌,
  filter_if, get_elem?, ◌==◌, arith, Bool-cases, inl, inr,
}
use mathlib.Core.Option.{some-injective}
use gb_522_l7o.Errors.{ok}
use gb_522_l7o.Float.{Float}
use gb_522_l7o.Constants.{EventType}
use gb_522_l7o.Model.{EventMarker}
use gb_522_l7o.Database.{IsTable, IsReplacing, World, Env, yield_to_others, written}
use gb_522_l7o.Database.Preserves.{Guarantee, Preserves}
use gb_522_l7o.Writes.{Writes}
use gb_522_l7o.Writes.Frames.{framed_audits, framed_cases, framed_routes, framed_traces}
use gb_522_l7o.Algorithm.Detect.Pipeline.{Result-cases}
use gb_522_l7o.Events.Repository.{replace_for_trace, review, review_columns}
use gb_522_l7o.Events.Replaced.{stamp_event, is_replaced}

module _ {F : Type 0} where
  abbrev pub touch_event : ℕ → EventMarker F → EventMarker F
  touch_event t e = record e { updated_at = t }

  -- What the algorithm found.
  abbrev pub found : EventMarker F → ℕ × ℕ × EventType × F × F × F × F × F × ℕ
  found r = (
    r.id, r.trace_id, r.algorithm_event_type, r.algorithm_distance_m, r.algorithm_insertion_loss_db,
    r.insertion_loss_db, r.reflectance_db, r.confidence, r.created_at,
  )

  -- The same finding, reviewed if it was.
  pub record Lasts (r s : EventMarker F) : Type 0 where
    pub same : found s ≡ found r
    pub still : r.reviewed ≡ true → s.reviewed ≡ true

  Lasts-refl : (r : EventMarker F) → Lasts r r
  Lasts-refl r = record { same = refl; still = λ h. h }

  -- Every reviewed event is still there, in the order there was; others may have gone, and new ones
  -- stand behind.
  pub data EventsLast : List (EventMarker F) → List (EventMarker F) → Type 0 where
    end : (new : List (EventMarker F)) → EventsLast [] new
    stays :
        {r s : EventMarker F} {rows later : List (EventMarker F)}
        → Lasts r s
        → EventsLast rows later
        → EventsLast (r ∷ rows) (s ∷ later)
    gone :
        {r : EventMarker F} {rows later : List (EventMarker F)}
        → r.reviewed ≡ false
        → EventsLast rows later
        → EventsLast (r ∷ rows) later

  pub EventsLast-refl : (rows : List (EventMarker F)) → EventsLast rows rows
  EventsLast-refl [] = end []
  EventsLast-refl (r ∷ rows) = stays (Lasts-refl r) (EventsLast-refl rows)

  not_reviewed : (r s : EventMarker F) → Lasts r s → s.reviewed ≡ false → r.reviewed ≡ false
  not_reviewed r s l h = elim (Bool-cases r.reviewed) [
    | inl e ↦ let kept = l.still e in absurd (ground (arith, kept))
    | inr e ↦ e
  ]

  pub EventsLast-trans :
      {a b c : List (EventMarker F)} → EventsLast a b → EventsLast b c → EventsLast a c
  EventsLast-trans {c = c} (end new) q = end c
  EventsLast-trans (stays {r} {s} p ps) (stays {s = t} q qs) =
      stays (record { same = q.same ∙ p.same; still = λ h. q.still (p.still h) })
        (EventsLast-trans ps qs)
  EventsLast-trans (stays {r} {s} p ps) (gone h qs) =
      gone (not_reviewed r s p h) (EventsLast-trans ps qs)
  EventsLast-trans (gone h ps) q = gone h (EventsLast-trans ps q)

  EventsLast-append :
      {rows later : List (EventMarker F)} (new : List (EventMarker F))
      → EventsLast rows later
      → EventsLast rows (later ++ new)
  EventsLast-append new (end more) = end (more ++ new)
  EventsLast-append new (stays p ps) = stays p (EventsLast-append new ps)
  EventsLast-append new (gone h ps) = gone h (EventsLast-append new ps)

  EventsLast-filter :
      (p : EventMarker F → Bool) (rows : List (EventMarker F))
      → ((r : EventMarker F) → p r ≡ false → r.reviewed ≡ false)
      → EventsLast rows (filter_if p rows)
  EventsLast-filter p [] h = end []
  EventsLast-filter p (r ∷ rows) h = elim (Bool-cases (p r)) [
    | inl e ↦ rw e (stays (Lasts-refl r) (EventsLast-filter p rows h))
    | inr e ↦ rw e (gone (h r e) (EventsLast-filter p rows h))
  ]

  EventsLast-written :
      (touch : EventMarker F → EventMarker F) (p : EventMarker F → Bool)
      (g : EventMarker F → EventMarker F) (rows : List (EventMarker F))
      → ((r : EventMarker F) → Lasts r (touch (g r)))
      → EventsLast rows (written touch p g rows)
  EventsLast-written touch p g [] h = end []
  EventsLast-written touch p g (r ∷ rows) h =
      let rest = EventsLast-written touch p g rows h in
      elim (Bool-cases (p r)) [
        | inl e ↦ rw e (stays (h r) rest)
        | inr e ↦ rw e (stays (Lasts-refl r) rest)
      ]

  -- A reviewed event is found again, with what the algorithm found of it.
  pub reviewed_at :
      {rows later : List (EventMarker F)} (i : ℕ) (r : EventMarker F)
      → EventsLast rows later
      → get_elem? rows i ≡ some r
      → r.reviewed ≡ true
      → (j : ℕ) × (s : EventMarker F) × (get_elem? later j ≡ some s) × Lasts r s
  reviewed_at i r (end new) e h = cc
  reviewed_at zero r (stays {s = s} p ps) e h =
      (0, s, refl, subst (λ x. Lasts x s) (some-injective _ _ e) p)
  reviewed_at (suc i) r (stays p ps) e h =
      let (j, s, there, lasts) = reviewed_at i r ps e h in (suc j, s, there, lasts)
  reviewed_at zero r (gone {r = q} unread ps) e h =
      let same : q ≡ r = some-injective _ _ e in absurd (ground (arith, same))
  reviewed_at (suc i) r (gone unread ps) e h = reviewed_at i r ps e h

  abbrev pub event_guarantee : Guarantee F
  event_guarantee = record {
    Kept = λ v w. EventsLast v.events w.events;
    same = λ w. EventsLast-refl w.events;
    chain = λ u v w p q. EventsLast-trans p q;
    later = λ w t. EventsLast-refl w.events;
  }

  -- The table of events works, and the other requests, which run the same code, keep what is reviewed.
  pub record IsEventEnv (env : Env F) : Type 0 where
    pub events : IsTable env.events (λ r. r.id) stamp_event touch_event
    pub replacing : IsReplacing env.events stamp_event
    pub others : (w : World F) → EventsLast w.events (env.others w).events

module _ {F : Type 0} ⦃f : Float F⦄ (env : Env F) (laws : IsEventEnv env) where
  review-Last :
      (event : EventMarker F) (w : World F) → EventsLast w.events (review env event w).1.events
  unfolding review
  review-Last event w =
      let p : EventMarker F → Bool = λ e. e.id == event.id in
      elim (Result-cases (env.events.update w.clock p (review_columns event) w.events)) [
        | inl ((n, rows), e) ↦
            let (counted, wrote) =
              laws.events.update_ok w.clock p (review_columns event) w.events n rows e in
            subst (EventsLast w.events) {x = rows} (ground arith) (
              subst (EventsLast w.events) (sym wrote) (
                EventsLast-written (touch_event w.clock) p (review_columns event) w.events
                  (λ r. record { same = refl; still = λ h. refl })))
        | inr (e, q) ↦
            subst (EventsLast w.events) {x = w.events} (ground arith) (EventsLast-refl w.events)
      ]

  kept-Last :
      (trace_id t : ℕ) (rows kept : List (EventMarker F))
      → env.events.delete t (is_replaced trace_id) rows ≡ ok kept
      → EventsLast rows kept
  kept-Last trace_id t rows kept e =
      subst (EventsLast rows) (sym (laws.replacing.delete_ok t (is_replaced trace_id) rows kept e))
        (EventsLast-filter (λ r. not (is_replaced trace_id r)) rows (λ r h. ground arith))

  replace_for_trace-Last :
      (trace_id : ℕ) (events : List (EventMarker F)) (w : World F)
      → EventsLast w.events (replace_for_trace env trace_id events w).1.events
  unfolding replace_for_trace
  replace_for_trace-Last trace_id [] w =
      elim (Result-cases (env.events.delete w.clock (is_replaced trace_id) w.events)) [
        | inl (kept, e) ↦
            subst (EventsLast w.events) {x = kept} (ground arith)
              (kept-Last trace_id w.clock w.events kept e)
        | inr (e, q) ↦
            subst (EventsLast w.events) {x = w.events} (ground arith) (EventsLast-refl w.events)
      ]
  replace_for_trace-Last trace_id (event ∷ events) w =
      elim (Result-cases (env.events.delete w.clock (is_replaced trace_id) w.events)) [
        | inl (kept, e) ↦
            let left = kept-Last trace_id w.clock w.events kept e in
            elim (Result-cases (env.events.create_all w.clock (event ∷ events) kept)) [
              | inl (rows, c) ↦
                  let (new, added, stamped) =
                    laws.replacing.create_all_ok w.clock (event ∷ events) kept rows c in
                  subst (EventsLast w.events) {x = rows} (ground arith)
                    (subst (EventsLast w.events) (sym added) (EventsLast-append new left))
              | inr (e', c) ↦ subst (EventsLast w.events) {x = kept} (ground arith) left
            ]
        | inr (e, q) ↦
            subst (EventsLast w.events) {x = w.events} (ground arith) (EventsLast-refl w.events)
      ]

  others-Last : Preserves event_guarantee (yield_to_others env)
  unfolding yield_to_others
  others-Last = record { keeps = λ w. laws.others w }

  -- Every write of the program keeps what is reviewed.
  pub event-Writes : Writes env event_guarantee
  event-Writes =
      let logged = framed_audits env event_guarantee (λ w rows. EventsLast-refl w.events) in
      record {
        others = others-Last;
        create_audit = logged;
        cases = framed_cases env event_guarantee (λ w rows. EventsLast-refl w.events);
        routes =
            framed_routes env event_guarantee (λ w rows. EventsLast-refl w.events) others-Last
              logged;
        traces = framed_traces env event_guarantee (λ w rows. EventsLast-refl w.events);
        events = record {
          replace_for_trace =
              λ trace_id events. record { keeps = replace_for_trace-Last trace_id events };
          review = λ event. record { keeps = review-Last event };
        };
      }
