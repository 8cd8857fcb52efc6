-- ===== src/Audit/Appended.antt =====
-- The audit log under everything that writes: `AuditRepository.Create` of
-- backend/internal/repository/audit_repository.go is its only write.
use gb_522_l7o.Prelude.{
  ℕ, ◌≡◌, subst, ◌∙◌, ap, false, List, [], ◌∷◌, ◌++◌, All, All-append, arith, Bool-cases, inl, inr,
  append_assoc, append_nil,
}
use gb_522_l7o.Float.{Float}
use gb_522_l7o.Model.{AuditLog}
use gb_522_l7o.Database.{IsTable, World, Env, yield_to_others}
use gb_522_l7o.Database.Preserves.{Guarantee, Preserves}
use gb_522_l7o.Writes.{Writes}
use gb_522_l7o.Writes.Frames.{framed_cases, framed_routes, framed_traces, framed_events}
use gb_522_l7o.Algorithm.Detect.Pipeline.{Result-cases}
use gb_522_l7o.Audit.{is_blank, create_audit}

module _ {F : Type 0} where
  abbrev pub stamp_entry : ℕ → ℕ → AuditLog F → AuditLog F
  stamp_entry n t r = record r { id = n; created_at = t }

  -- The entries there were, unchanged and in their order, and behind them entries that name their
  -- request.
  abbrev pub Appended : List (AuditLog F) → List (AuditLog F) → Type 0
  Appended rows later =
      (new : List (AuditLog F)) × (later ≡ rows ++ new)
      × All (λ e. is_blank e.request_id ≡ false) new

  pub Appended-refl : (rows : List (AuditLog F)) → Appended rows rows
  Appended-refl rows = ([], append_nil rows, tt)

  pub Appended-trans : (a b c : List (AuditLog F)) → Appended a b → Appended b c → Appended a c
  Appended-trans a b c (new, e, named) (more, e', named') = (
    new ++ more,
    e' ∙ ap (λ rows. rows ++ more) e ∙ append_assoc a new more,
    All-append (λ r. is_blank r.request_id ≡ false) new more named named',
  )

  abbrev pub audit_guarantee : Guarantee F
  audit_guarantee = record {
    Kept = λ v w. Appended v.audits w.audits;
    same = λ w. Appended-refl w.audits;
    chain = λ u v w. Appended-trans u.audits v.audits w.audits;
    later = λ w t. Appended-refl w.audits;
  }

  -- The table of the log works, and the other requests, which run the same code, append to it alone.
  pub record IsAuditEnv (env : Env F) : Type 0 where
    pub audits : IsTable env.audits (λ r. r.id) stamp_entry (λ t r. r)
    pub others : (w : World F) → Appended w.audits (env.others w).audits

module _ {F : Type 0} (env : Env F) (laws : IsAuditEnv env) where
  create_audit-Appended :
      (entry : AuditLog F) (w : World F) → Appended w.audits (create_audit env entry w).1.audits
  unfolding create_audit
  create_audit-Appended entry w = elim (Bool-cases (is_blank entry.request_id)) [
    | inl blank ↦ subst (Appended w.audits) {x = w.audits} (ground arith) (Appended-refl w.audits)
    | inr named ↦ elim (Result-cases (env.audits.create w.clock entry w.audits)) [
      | inl ((made, rows), e) ↦
          let (n, stamped, fresh, added) =
            laws.audits.create_ok w.clock entry w.audits made rows e in
          subst (Appended w.audits) {x = rows} (ground arith)
            (made ∷ [], added, (ap (λ r. is_blank r.request_id) stamped ∙ named, tt))
      | inr (e, q) ↦
          subst (Appended w.audits) {x = w.audits} (ground arith) (Appended-refl w.audits)
    ]
  ]

  others-Appended : Preserves audit_guarantee (yield_to_others env)
  unfolding yield_to_others
  others-Appended = record { keeps = λ w. laws.others w }

  -- Every write of the program leaves the log as it is or appends to it.
  pub audit-Writes : ⦃f : Float F⦄ → Writes env audit_guarantee
  audit-Writes =
      let logged : (entry : AuditLog F) → Preserves audit_guarantee (create_audit env entry) =
        λ entry. record { keeps = create_audit-Appended entry } in
      record {
        others = others-Appended;
        create_audit = logged;
        cases = framed_cases env audit_guarantee (λ w rows. Appended-refl w.audits);
        routes =
            framed_routes env audit_guarantee (λ w rows. Appended-refl w.audits) others-Appended
              logged;
        traces = framed_traces env audit_guarantee (λ w rows. Appended-refl w.audits);
        events = framed_events env audit_guarantee (λ w rows. Appended-refl w.audits);
      }
