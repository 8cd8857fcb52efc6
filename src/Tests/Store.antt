-- ===== src/Tests/Store.antt =====
-- A database in memory, for the runs: it meets what is relied on of a table.
use Prim.Native.Nat.{max}
use gb_522_l7o.Prelude.{
  ℕ, suc, ◌+◌, ◌<◌, ◌≡◌, ◌≢◌, refl, sym, ap, ◌∙◌, Bool, true, not, none, some, List, [], ◌∷◌, ◌++◌,
  get_elem?, count_if, filter_if, take, drop, All, arith, Bool-cases, inl, inr,
}
use gb_522_l7o.Prelude.Int.{pos_part}
use gb_522_l7o.Prelude.Sort.{sort_slice, sort_slice-perm, sort_slice-IsSorted, IsOrder}
use gb_522_l7o.Errors.{Error, record_not_found, Result, ok, err, is_not_found}
use gb_522_l7o.Float.Fixed.{Fixed}
use gb_522_l7o.Database.{Table, IsTable, IsStamped, IsReplacing, Env, written}
use gb_522_l7o.Listings.Bounds.{IsPaging}
use gb_522_l7o.Auth.Session.{IsUserEnv, stamp_user}
use gb_522_l7o.Traces.Imported.{IsTraceEnv, stamp_trace}
use gb_522_l7o.Cases.Rows.{RowsEvolve-refl}
use gb_522_l7o.Cases.Keeps.{IsCaseEnv, stamp_case, touch_case}
use gb_522_l7o.Database.Extends.{Extends-refl}
use gb_522_l7o.Audit.Appended.{IsAuditEnv, Appended-refl, stamp_entry}
use gb_522_l7o.Traces.Lasting.{IsTracesEnv, SameTrace}
use gb_522_l7o.Events.Lasting.{IsEventEnv, EventsLast-refl, touch_event}
use gb_522_l7o.Routes.Lasting.{IsRouteEnv}
use gb_522_l7o.Events.Replaced.{stamp_event}
use gb_522_l7o.Routes.Codes.{IsRouteTable, stamp_route, touch_route}

module _ {R : Type 0} where
  abbrev head_of : List R → Result R
  head_of [] = err record_not_found
  head_of (r ∷ rows) = ok r

  abbrev largest : (R → ℕ) → List R → ℕ
  largest id [] = 0
  largest id (r ∷ rows) = max (id r) (largest id rows)

  abbrev numbered : (ℕ → ℕ → R → R) → ℕ → List R → ℕ → List R
  numbered stamp t [] n = []
  numbered stamp t (r ∷ rs) n = stamp n t r ∷ numbered stamp t rs (suc n)

  abbrev memory_table : (R → ℕ) → (ℕ → ℕ → R → R) → (ℕ → R → R) → Table R
  memory_table id stamp touch = record {
    first = λ t p rows. head_of (filter_if p rows);
    find = λ t p less rows. ok (sort_slice less (filter_if p rows));
    page = λ t p less offset limit rows.
        ok (take (pos_part limit) (drop (pos_part offset) (sort_slice less (filter_if p rows))));
    count = λ t p rows. ok (count_if p rows);
    create = λ t r rows. let r' = stamp (suc (largest id rows)) t r in ok (r', rows ++ (r' ∷ []));
    create_all = λ t rs rows. ok (rows ++ numbered stamp t rs (suc (largest id rows)));
    update = λ t p g rows. ok (count_if p rows, written (touch t) p g rows);
    delete = λ t p rows. ok (filter_if (λ r. not (p r)) rows);
  }

  first-found :
      (p : R → Bool) (rows : List R) (r : R)
      → head_of (filter_if p rows) ≡ ok r
      → (i : ℕ) × (get_elem? rows i ≡ some r) × (p r ≡ true)
  first-found p [] r h = cc
  first-found p (q ∷ rows) r h = elim (Bool-cases (p q)) [
    | inl e ↦ let same : q ≡ r = ground arith in (0, ap some same, ap p (sym same) ∙ e)
    | inr e ↦ let (i, there, holds) = first-found p rows r (rw e at h) in (suc i, there, holds)
  ]

  first-missing :
      (p : R → Bool) (rows : List R) (e : Error)
      → head_of (filter_if p rows) ≡ err e
      → (e ≡ record_not_found) × (count_if p rows ≡ 0)
  first-missing p [] e h = (cc, refl)
  first-missing p (q ∷ rows) e h = elim (Bool-cases (p q)) [
    | inl y ↦ absurd (ground arith)
    | inr y ↦ let (same, empty) = first-missing p rows e (rw y at h) in (same, rw y empty)
  ]

  below_largest :
      (id : R → ℕ) (rows : List R) (n : ℕ) → largest id rows < n → All (λ q. id q ≢ n) rows
  below_largest id [] n h = tt
  below_largest id (r ∷ rows) n h =
      (λ e. omega (arith, h, e), below_largest id rows n (omega (arith, h)))

  pub memory-IsTable :
      (id : R → ℕ) (stamp : ℕ → ℕ → R → R) (touch : ℕ → R → R)
      → IsTable (memory_table id stamp touch) id stamp touch
  memory-IsTable id stamp touch = record {
    first_ok = λ t p rows r h. first-found p rows r h;
    create_ok = λ t r rows r' rows' h.
        let n = suc (largest id rows) in
        let same : stamp n t r ≡ r' = cc in
        let stored : rows ++ (stamp n t r ∷ []) ≡ rows' = cc in
        (
          n,
          sym same,
          below_largest id rows n (omega arith),
          sym stored ∙ ap (λ x. rows ++ (x ∷ [])) same,
        );
    update_ok = λ t p g rows n rows' h.
        let counted : count_if p rows ≡ n = cc in
        let wrote : written (touch t) p g rows ≡ rows' = cc in (sym counted, sym wrote);
  }

  numbered-IsStamped :
      (stamp : ℕ → ℕ → R → R) (t : ℕ) (rs : List R) (n : ℕ)
      → IsStamped stamp t rs (numbered stamp t rs n)
  numbered-IsStamped stamp t [] n = tt
  numbered-IsStamped stamp t (r ∷ rs) n = ((n, refl), numbered-IsStamped stamp t rs (suc n))

  pub memory-IsReplacing :
      (id : R → ℕ) (stamp : ℕ → ℕ → R → R) (touch : ℕ → R → R)
      → IsReplacing (memory_table id stamp touch) stamp
  memory-IsReplacing id stamp touch = record {
    delete_ok =
        λ t p rows rows' h. let same : filter_if (λ r. not (p r)) rows ≡ rows' = cc in sym same;
    create_all_ok = λ t rs rows rows' h.
        let new = numbered stamp t rs (suc (largest id rows)) in
        let same : rows ++ new ≡ rows' = cc in
        (new, sym same, numbered-IsStamped stamp t rs (suc (largest id rows)));
  }

  all_unit : (rows : List R) → All (λ r. Unit {0}) rows
  all_unit [] = tt
  all_unit (r ∷ rows) = (tt, all_unit rows)

  pub memory-IsPaging :
      (id : R → ℕ) (stamp : ℕ → ℕ → R → R) (touch : ℕ → R → R) (less : R → R → Bool)
      → IsOrder less (λ r. Unit {0})
      → IsPaging (memory_table id stamp touch) less
  memory-IsPaging id stamp touch less order t p offset limit rows out h =
      let all = sort_slice less (filter_if p rows) in
      record {
        all = all;
        permuted = sort_slice-perm less (filter_if p rows);
        sorted = sort_slice-IsSorted less order (filter_if p rows) (all_unit (filter_if p rows));
        cut = let same : take limit (drop offset all) ≡ out = cc in sym same;
      }

abbrev pub store : Env Fixed
store = record {
  users = memory_table (λ u. u.id) (λ n t u. record u { id = n; created_at = t }) (λ t u. u);
  routes = memory_table (λ r. r.id) stamp_route touch_route;
  traces = memory_table (λ r. r.id) (λ n t r. record r { id = n; created_at = t }) (λ t r. r);
  events =
      memory_table (λ r. r.id) (λ n t r. record r { id = n; created_at = t; updated_at = t })
        (λ t r. record r { updated_at = t });
  cases = memory_table (λ c. c.id) stamp_case touch_case;
  audits = memory_table (λ r. r.id) (λ n t r. record r { id = n; created_at = t }) (λ t r. r);
  commit = λ t. none;
  ping = λ t. none;
  like = λ s pattern. true;
  others = λ w. record w { clock = w.clock + 1 };
  format_time = λ t. "2026-01-01T00:00:00Z";
  lower_rune = λ c. c;
}

pub store-IsCaseEnv : IsCaseEnv store
store-IsCaseEnv = record {
  cases = memory-IsTable (λ c. c.id) stamp_case touch_case;
  others = λ w. RowsEvolve-refl w.cases;
}

pub store-IsRouteTable : IsRouteTable store
unfolding is_not_found
store-IsRouteTable = record {
  routes = memory-IsTable (λ r. r.id) stamp_route touch_route;
  missing = λ t p rows e h m. (first-missing p rows e h).1;
  foreign = λ t p rows e h. ap is_not_found (first-missing p rows e h).0;
}

pub store-IsReplacing : IsReplacing store.events stamp_event
store-IsReplacing = memory-IsReplacing (λ e. e.id) stamp_event (λ t e. record e { updated_at = t })

pub store-IsTraceEnv : IsTraceEnv store
store-IsTraceEnv = memory-IsTable (λ r. r.id) stamp_trace (λ t r. r)

pub store-IsUserEnv : IsUserEnv store
store-IsUserEnv = memory-IsTable (λ u. u.id) stamp_user (λ t u. u)

pub store-IsAuditEnv : IsAuditEnv store
store-IsAuditEnv = record {
  audits = memory-IsTable (λ r. r.id) stamp_entry (λ t r. r);
  others = λ w. Appended-refl w.audits;
}

pub store-IsTracesEnv : IsTracesEnv store
store-IsTracesEnv = record {
  traces = store-IsTraceEnv;
  others = λ w. Extends-refl SameTrace (λ r. refl) w.traces;
}

pub store-IsEventEnv : IsEventEnv store
store-IsEventEnv = record {
  events = memory-IsTable (λ e. e.id) stamp_event touch_event;
  replacing = store-IsReplacing;
  others = λ w. EventsLast-refl w.events;
}

pub store-IsRouteEnv : IsRouteEnv store
store-IsRouteEnv = record { table = store-IsRouteTable; others = λ w h. h }
