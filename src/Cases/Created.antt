-- ===== src/Cases/Created.antt =====
-- What `Create` of service/case_service.go returns and stores.
use gb_522_l7o.Prelude.{
  ℕ, refl, Bool, true, not, if◌then◌else◌, ◌≡◌, ◌≢◌, sym, subst, ap, ◌∙◌, false, none, List, [],
  ◌∷◌, ◌++◌, All, ◌==◌, ◌&&◌, arith, inl, inr,
}
use gb_522_l7o.Errors.{Error, ok}
use gb_522_l7o.Constants.{draft}
use gb_522_l7o.Json.{arr, nil}
use gb_522_l7o.Routes.Baseline.{belongs-inv}
use gb_522_l7o.Cases.Documents.{parameters_document, difference_items}
use gb_522_l7o.Cases.Service.Base.{or_default}
use gb_522_l7o.Float.{Float}
use gb_522_l7o.Model.{LocalizationCase, AuditLog}
use gb_522_l7o.Database.{World, Env, M, raise, ◌>>=◌, pure, transaction, on_error, yield_to_others}
use gb_522_l7o.Algorithm.Detect.Pipeline.{Result-cases}
use gb_522_l7o.Audit.{Actor, create_audit}
use gb_522_l7o.Cases.Repository
use gb_522_l7o.Database.Preserves.{on_error-world}
use gb_522_l7o.Cases.Keeps.{IsCaseEnv, stamp_case}
use gb_522_l7o.Cases.Service.{CreateCaseRequest, check_traces, create}
use gb_522_l7o.Cases.Inversion.{
  >>=-inv, if_raise-inv, if_raise-world, on_error-inv, transaction-inv, pure-inv,
}

module _ {F : Type 0} where
  if_then-inv :
      {A : Type 0} (b : Bool) (m : M F A) (e : Error) (w : World F) (a : A)
      → ((if b then m else raise e) w).0 ≡ ok a
      → (not b ≡ false) × ((m w).0 ≡ ok a)
  unfolding raise
  if_then-inv true m e w a h = (refl, h)
  if_then-inv false m e w a h = absurd (ground arith)

module _ {F : Type 0} (env : Env F) where
  create-inv :
      (new item : LocalizationCase F) (w : World F)
      → IsCaseEnv env
      → (Repository.create env new w).0 ≡ ok item
      → (n : ℕ) × (item ≡ stamp_case n w.clock new)
        × All (λ c. c.id ≢ n) w.cases
        × ((Repository.create env new w).1.cases ≡ w.cases ++ (item ∷ []))
  unfolding Repository.create
  create-inv new item w laws h = elim (Result-cases (env.cases.create w.clock new w.cases)) [
    | inl ((item', rows), e) ↦
        let (n, stamped, fresh, stored) = laws.cases.create_ok w.clock new w.cases item' rows e in
        let same : item' ≡ item = ground arith in
        (
          n,
          sym same ∙ stamped,
          fresh,
          subst (λ x. (Repository.create env new w).1.cases ≡ w.cases ++ (x ∷ [])) {x = item'} same
              (ground (arith, stored)),
        )
    | inr (e, q) ↦ absurd (ground arith)
  ]

  create_audit-cases :
      (entry : AuditLog F) (w : World F) → (create_audit env entry w).1.cases ≡ w.cases
  unfolding create_audit
  create_audit-cases entry w = ground arith

  -- `item` is a new row of the table, which is `new` with a key that no other row has.
  pub record IsStored (new item : LocalizationCase F) (rows : List (LocalizationCase F))
      : Type 0 where
    pub old : List (LocalizationCase F)
    pub stored : rows ≡ old ++ (item ∷ [])
    pub fresh : All (λ c. c.id ≢ item.id) old
    pub key : ℕ
    pub time : ℕ
    pub stamped : item ≡ stamp_case key time new

  transaction-IsStored :
      (new item : LocalizationCase F) (entry : LocalizationCase F → AuditLog F)
      (failed : Error → Error) (w : World F)
      → IsCaseEnv env
      → (on_error failed
          (transaction env (
            Repository.create env new >>= λ made. create_audit env (entry made) >>= λ _. pure made))
          w).0
        ≡ ok item
      → IsStored new item
          (on_error failed
            (transaction env (
              Repository.create env new >>= λ made.
              create_audit env (entry made) >>= λ _. pure made))
            w).1.cases
  transaction-IsStored new item entry failed w laws h =
      let body =
        Repository.create env new >>= λ made. create_audit env (entry made) >>= λ _. pure made in
      let w' = env.others w in
      let (inside, left) = transaction-inv env body w item (on_error-inv failed _ w item h) in
      let (made, done, rest, left2) = >>=-inv _ _ w' item inside in
      let at = (Repository.create env new w').1 in
      let (u, logged, out, left3) = >>=-inv _ _ at item rest in
      let at2 = (create_audit env (entry made) at).1 in
      let (same, left4) = pure-inv at2 made item out in
      let (n, stamped, fresh, stored) = create-inv new made w' laws done in
      record {
        old = w'.cases;
        stored =
            ap (λ v. v.cases)
              (on_error-world failed (transaction env body) w ∙ left ∙ left2 ∙ left3 ∙ left4)
            ∙ create_audit-cases (entry made) at
            ∙ subst (λ x. at.cases ≡ w'.cases ++ (x ∷ [])) same stored;
        fresh =
            subst (λ x. All (λ c. c.id ≢ x) w'.cases) {x = n}
              (ap (λ c. c.id) (sym stamped) ∙ ap (λ c. c.id) same) fresh;
        key = n;
        time = w'.clock;
        stamped = sym same ∙ stamped;
      }

module _ {F : Type 0} ⦃f : Float F⦄ (env : Env F) where
  -- The database counted one trace of this key on this route.
  abbrev pub WasCounted : ℕ → ℕ → World F → Type 0
  WasCounted trace_id route_id w =
      env.traces.count w.clock (λ t. t.id == trace_id && t.route_id == route_id) w.traces ≡ ok 1

  belongs_to_route-world :
      (failed : Error → Error) (trace_id route_id : ℕ) (w : World F)
      → (on_error failed (Repository.belongs_to_route env trace_id route_id) w).1 ≡ w
  unfolding Repository.belongs_to_route on_error
  belongs_to_route-world failed trace_id route_id w =
      elim (Result-cases
        (env.traces.count w.clock (λ t. t.id == trace_id && t.route_id == route_id) w.traces)) [
          | inl (n, q) ↦ ground (arith, q)
          | inr (e, q) ↦ ground (arith, q)
        ]

  -- The loop goes on only if the next trace is of the route.
  check_traces-cons :
      (trace_id route_id : ℕ) (rest : List ℕ) (w : World F)
      → (check_traces env (trace_id ∷ rest) route_id w).0 ≡ ok tt
      → WasCounted trace_id route_id (env.others w)
        × ((check_traces env rest route_id (env.others w)).0 ≡ ok tt)
  unfolding check_traces yield_to_others
  check_traces-cons trace_id route_id rest w h =
      let v = env.others w in
      let (u, _, next, _) = >>=-inv (yield_to_others env) _ w tt h in
      let (b, asked, later, _) = >>=-inv _ _ v tt next in
      let same = belongs_to_route-world _ trace_id route_id v in
      let (counted, looped) = if_then-inv b (check_traces env rest route_id) _ _ tt later in
      (
        belongs-inv env trace_id route_id v b (on_error-inv _ _ v b asked) counted,
        subst (λ x. (check_traces env rest route_id x).0 ≡ ok tt) same looped,
      )

  -- The draft that a request asks for, before it has a key and a time.
  abbrev pub draft_of : CreateCaseRequest F → Actor → LocalizationCase F
  draft_of request actor = record {
    id = 0;
    route_id = request.route_id;
    baseline_trace_id = request.baseline_trace_id;
    current_trace_id = request.current_trace_id;
    case_status = draft;
    estimated_distance_m = none;
    uncertainty_m = none;
    conclusion = "";
    reviewer_id = none;
    closed_at = none;
    analysis_error = "";
    parameters_json = parameters_document (record {
      distance_tolerance_m = or_default request.distance_tolerance_m (f.lit 25 0);
      loss_increase_db = or_default request.loss_increase_db (f.lit 5 1);
    });
    differences_json = arr nil;
    version = 1;
    created_by = actor.id;
    created_at = 0;
    updated_at = 0;
  }

  -- When `Create` succeeds, the two traces of the request differ, and the database counted each of
  -- them on the route of the request. The case that is returned is the last row of the table and has
  -- a key that no row before it has: a draft at version 1, of the route and traces of the request and
  -- of the actor, with neither estimate nor reviewer.
  pub create-IsStored :
      (request : CreateCaseRequest F) (actor : Actor) (w : World F) (item : LocalizationCase F)
      → IsCaseEnv env
      → (create env request actor w).0 ≡ ok item
      → (request.baseline_trace_id ≢ request.current_trace_id)
        × WasCounted request.baseline_trace_id request.route_id (env.others w)
        × WasCounted request.current_trace_id request.route_id (env.others (env.others w))
        × IsStored env (draft_of request actor) item (create env request actor w).1.cases
  unfolding create difference_items
  create-IsStored request actor w item laws h =
      let (differ, inside) =
        if_raise-inv (request.baseline_trace_id == request.current_trace_id) _ _ w item h in
      let (u, checked, step, left) = >>=-inv _ _ w item inside in
      let stored = transaction-IsStored env (draft_of request actor) item _ _ _ laws step in
      let left2 =
        if_raise-world (request.baseline_trace_id == request.current_trace_id) _ _ w differ in
      let (first, rest) =
        check_traces-cons request.baseline_trace_id request.route_id _ w checked in
      let (second, _) =
        check_traces-cons request.current_trace_id request.route_id _ (env.others w) rest in
      (
        λ same. absurd (ground (arith, differ, same)),
        first,
        second,
        subst (IsStored env (draft_of request actor) item) (ap (λ v. v.cases) (sym (left2 ∙ left)))
            stored,
      )
