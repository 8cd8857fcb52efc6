-- ===== src/Events/Replaced.antt =====
-- `ReplaceForTrace` of repository/event_repository.go: which events a new detection replaces.
use gb_522_l7o.Prelude.{
  ℕ, ◌≡◌, subst, Bool, not, ◌&&◌, List, [], ◌∷◌, ◌++◌, filter_if, ◌==◌, arith, inl, inr,
}
use mathlib.Core.List.{append-nil}
use gb_522_l7o.Errors.{ok}
use gb_522_l7o.Model.{EventMarker}
use gb_522_l7o.Database.{World, Env, IsStamped, IsReplacing}
use gb_522_l7o.Algorithm.Detect.Pipeline.{Result-cases}
use gb_522_l7o.Events.Repository

module _ {F : Type 0} where
  abbrev pub stamp_event : ℕ → ℕ → EventMarker F → EventMarker F
  stamp_event n t e = record e { id = n; created_at = t; updated_at = t }

  -- An event of the trace that nobody has reviewed.
  abbrev pub is_replaced : ℕ → EventMarker F → Bool
  is_replaced trace_id e = e.trace_id == trace_id && not e.reviewed

  -- The events after the replacement: those that are not replaced, untouched and in their order, and
  -- behind them the new ones.
  abbrev pub Replaced :
      ℕ → ℕ → List (EventMarker F) → List (EventMarker F) → List (EventMarker F) → Type 0
  Replaced trace_id t events before after =
      (new : List (EventMarker F)) × (after
        ≡ filter_if (λ e. not (is_replaced trace_id e)) before ++ new)
      × IsStamped stamp_event t events new

module _ {F : Type 0} (env : Env F) where
  -- A successful replacement keeps every reviewed event and every event of another trace as it is, in
  -- their order; no other event stays; and the detected events stand behind them, with new keys. The
  -- table of events does what it reports.
  pub replace_for_trace-Replaced :
      (trace_id : ℕ) (events : List (EventMarker F)) (w : World F)
      → IsReplacing env.events stamp_event
      → (Repository.replace_for_trace env trace_id events w).0 ≡ ok tt
      → Replaced trace_id w.clock events w.events
          (Repository.replace_for_trace env trace_id events w).1.events
  unfolding Repository.replace_for_trace
  replace_for_trace-Replaced trace_id [] w laws h =
      elim (Result-cases (env.events.delete w.clock (is_replaced trace_id) w.events)) [
        | inl (kept, e) ↦
            let left = laws.delete_ok w.clock (is_replaced trace_id) w.events kept e in
            ([], ground (arith, left, append-nil kept), tt)
        | inr (e, q) ↦ absurd (ground arith)
      ]
  replace_for_trace-Replaced trace_id (event ∷ events) w laws h =
      elim (Result-cases (env.events.delete w.clock (is_replaced trace_id) w.events)) [
        | inl (kept, e) ↦
            let left = laws.delete_ok w.clock (is_replaced trace_id) w.events kept e in
            elim (Result-cases (env.events.create_all w.clock (event ∷ events) kept)) [
              | inl (rows, c) ↦
                  let (new, added, stamped) =
                    laws.create_all_ok w.clock (event ∷ events) kept rows c in
                  (
                    new,
                    subst
                        (λ x.
                          (Repository.replace_for_trace env trace_id (event ∷ events) w).1.events
                          ≡ x ++ new)
                        {x = kept} left (ground (arith, added)),
                    stamped,
                  )
              | inr (e', c) ↦ absurd (ground arith)
            ]
        | inr (e, q) ↦ absurd (ground arith)
      ]
