-- ===== src/Cases/Repository.antt =====
-- backend/internal/repository/case_repository.go, and what the case service uses of
-- trace_repository.go and event_repository.go. The map of columns to update is a function on rows.
use gb_522_l7o.Prelude.{ℕ, ◌+◌, Bool, ◌&&◌, List, if◌then◌else◌, ltb, ◌==◌}
use gb_522_l7o.Errors.{Error, wrap, not_found, invalid_transaction, ok, err, is_record_not_found}
use gb_522_l7o.Constants.{CaseStatus, draft, analyzing, same_status}
use gb_522_l7o.Float.{Float}
use gb_522_l7o.Model.{LocalizationCase, EventMarker}
use gb_522_l7o.Database.{Env, M}

abbrev pub Columns : Type 0 → Type 0
Columns F = LocalizationCase F → LocalizationCase F

module _ {F : Type 0} where
  -- The condition and the columns of `Transition`.
  abbrev pub transition_where : ℕ → ℕ → CaseStatus → LocalizationCase F → Bool
  transition_where id version from c =
      c.id == id && c.version == version && same_status c.case_status from

  abbrev pub advance : CaseStatus → Columns F → Columns F
  advance to updates c = record (updates c) { case_status = to; version = c.version + 1 }

  abbrev pub expired : Columns F
  expired c = record c { analysis_error = "previous analysis worker expired; please retry" }

module _ {F : Type 0} (env : Env F) where
  unfoldable pub create : LocalizationCase F → M F (LocalizationCase F)
  create item w = elim (env.cases.create w.clock item w.cases) [
    | err e ↦ (err (wrap "create localization case" e), w)
    | ok (item', rows) ↦ (ok item', record w { cases = rows })
  ]

  unfoldable pub get : ℕ → M F (LocalizationCase F)
  get id w = elim (env.cases.first w.clock (λ c. c.id == id) w.cases) [
    | err e ↦ (err (if is_record_not_found e then not_found else wrap "get localization case" e), w)
    | ok item ↦ (ok item, w)
  ]

  -- An `Updates` that has to write a row: `failed` wraps an error of the call, and `missed` is the
  -- error where the condition selects no row.
  abbrev pub update_one :
      Error → (Error → Error) → (LocalizationCase F → Bool) → Columns F → M F (Unit {0})
  update_one missed failed p g w = elim (env.cases.update w.clock p g w.cases) [
    | err e ↦ (err (failed e), w)
    | ok (n, rows) ↦ (if n == 0 then err missed else ok tt, record w { cases = rows })
  ]

  unfoldable pub transition : ℕ → ℕ → CaseStatus → CaseStatus → Columns F → M F (Unit {0})
  transition id version from to updates =
      update_one (wrap "case state or version changed" invalid_transaction)
        (wrap "transition localization case") (transition_where id version from)
        (advance to updates)

  unfoldable pub save_analysis : ℕ → CaseStatus → Columns F → M F (Unit {0})
  save_analysis id status updates =
      update_one (wrap "case is no longer analyzing" invalid_transaction)
        (wrap "save case analysis") (λ c. c.id == id && same_status c.case_status analyzing)
        (advance status updates)

  unfoldable pub recover_stale_analysis : ℕ → ℕ → M F Bool
  recover_stale_analysis id cutoff w =
      elim (env.cases.update w.clock
        (λ c. c.id == id && same_status c.case_status analyzing && ltb c.updated_at cutoff)
        (advance draft expired) w.cases) [
          | err e ↦ (err (wrap "recover stale case analysis" e), w)
          | ok (n, rows) ↦ (ok (ltb 0 n), record w { cases = rows })
        ]

  -- `TraceRepository.BelongsToRoute`.
  unfoldable pub belongs_to_route : ℕ → ℕ → M F Bool
  belongs_to_route trace_id route_id w =
      elim (env.traces.count w.clock (λ t. t.id == trace_id && t.route_id == route_id) w.traces) [
        | err e ↦ (err (wrap "check trace route" e), w)
        | ok n ↦ (ok (n == 1), w)
      ]

  -- `EventRepository.ForTrace`.
  unfoldable pub for_trace : ⦃f : Float F⦄ → ℕ → M F (List (EventMarker F))
  for_trace ⦃f⦄ trace_id w =
      elim (env.events.find w.clock (λ e. e.trace_id == trace_id)
        (λ a b. f.lt a.distance_m b.distance_m) w.events) [
          | err e ↦ (err (wrap "list events for trace" e), w)
          | ok events ↦ (ok events, w)
        ]
