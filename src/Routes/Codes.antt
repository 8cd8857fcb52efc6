-- ===== src/Routes/Codes.antt =====
-- The codes of the routes under `Create` of service/route_service.go.
use Prim.Native.Char.{Char}
use Prim.Native.String.{String}
use package.text.Mathlib.Text.{◌==◌ as str_eq}
use package.text.Mathlib.TextPositions.{eq_refl}
use gb_522_l7o.Prelude.{
  ℕ, ◌≡◌, ◌≢◌, refl, sym, subst, ap, Bool, true, false, List, [], ◌∷◌, ◌++◌, All, All-append,
  count_if, arith, Bool-cases, ◌⊎◌, inl, inr,
}
use gb_522_l7o.Errors.{Error, Result, ok, err, is_not_found, is_record_not_found}
use gb_522_l7o.Float.{Float}
use gb_522_l7o.Model.{FiberRoute, AuditLog}
use gb_522_l7o.Database.{IsTable, World, Env, M, ◌>>=◌, pure, raise, transaction, attempt}
use gb_522_l7o.Algorithm.Detect.Pipeline.{Result-cases}
use gb_522_l7o.Audit.{Actor, create_audit}
use gb_522_l7o.Database.Preserves.{on_error-world}
use gb_522_l7o.Routes.Repository
use gb_522_l7o.Routes.Service.{CreateRouteRequest, new_route, store_route, create}

module _ {F : Type 0} where
  abbrev pub stamp_route : ℕ → ℕ → FiberRoute F → FiberRoute F
  stamp_route n t r = record r { id = n; created_at = t; updated_at = t }

  abbrev pub touch_route : ℕ → FiberRoute F → FiberRoute F
  touch_route t r = record r { updated_at = t }

  -- The table of routes works: `First` reports that there is no row only where there is none, and no
  -- error of the database is the sentinel of the repository.
  pub record IsRouteTable (env : Env F) : Type 0 where
    pub routes : IsTable env.routes (λ r. r.id) stamp_route touch_route
    pub missing :
        (t : ℕ) (p : FiberRoute F → Bool) (rows : List (FiberRoute F)) (e : Error)
        → env.routes.first t p rows ≡ err e
        → is_record_not_found e ≡ true
        → count_if p rows ≡ 0
    pub foreign :
        (t : ℕ) (p : FiberRoute F → Bool) (rows : List (FiberRoute F)) (e : Error)
        → env.routes.first t p rows ≡ err e
        → is_not_found e ≡ false

  -- No two rows have the same code.
  abbrev pub HaveCodes : List (FiberRoute F) → Type 0
  HaveCodes [] = Unit
  HaveCodes (r ∷ rows) = All (λ s. s.route_code ≢ r.route_code) rows × HaveCodes rows

  HaveCodes-append :
      (rows : List (FiberRoute F)) (s : FiberRoute F)
      → count_if (λ r. str_eq r.route_code s.route_code) rows ≡ 0
      → HaveCodes rows
      → HaveCodes (rows ++ (s ∷ []))
  HaveCodes-append [] s h all = (tt, tt)
  HaveCodes-append (r ∷ rows) s h all = elim (Bool-cases (str_eq r.route_code s.route_code)) [
    | inl e ↦ absurd (ground arith)
    | inr e ↦
        let differ : s.route_code ≢ r.route_code = λ same. absurd (
          subst (λ x. str_eq x s.route_code ≢ false) {x = s.route_code} same
            (λ q. ground (arith, eq_refl s.route_code)) e) in
        (
          All-append (λ q. q.route_code ≢ r.route_code) rows (s ∷ []) all.0 (differ, tt),
          HaveCodes-append rows s (ground arith) all.1,
        )
  ]

module _ {F : Type 0} (env : Env F) where
  get_by_code-missing :
      (route_code : String) (w : World F) (e : Error)
      → IsRouteTable env
      → (Repository.get_by_code env route_code w).0 ≡ err e
      → is_not_found e ≡ true
      → count_if (λ r. str_eq r.route_code route_code) w.routes ≡ 0
  unfolding Repository.get_by_code is_not_found
  get_by_code-missing route_code w e laws h missing =
      let p : FiberRoute F → Bool = λ r. str_eq r.route_code route_code in
      elim (Result-cases (env.routes.first w.clock p w.routes)) [
        | inl (r, q) ↦ absurd (ground arith)
        | inr (e', q) ↦ elim (Bool-cases (is_record_not_found e')) [
          | inl absent ↦ laws.missing w.clock p w.routes e' q absent
          | inr other ↦
              let foreign = laws.foreign w.clock p w.routes e' q in absurd (ground (arith, foreign))
        ]
      ]

  get_by_code-routes :
      (route_code : String) (w : World F) → (Repository.get_by_code env route_code w).1 ≡ w
  unfolding Repository.get_by_code
  get_by_code-routes route_code w = ground arith

  create-routes :
      (new : FiberRoute F) (w : World F)
      → IsRouteTable env
      → ((Repository.create env new w).1.routes ≡ w.routes)
        ⊎ ((n : ℕ) × (t : ℕ) × ((Repository.create env new w).1.routes
              ≡ w.routes ++ (stamp_route n t new ∷ [])))
  unfolding Repository.create
  create-routes new w laws = elim (Result-cases (env.routes.create w.clock new w.routes)) [
    | inl ((r, rows), e) ↦
        let (n, stamped, fresh, stored) = laws.routes.create_ok w.clock new w.routes r rows e in
        inr (
          n,
          w.clock,
          subst (λ x. (Repository.create env new w).1.routes ≡ w.routes ++ (x ∷ [])) {x = r} stamped
              (ground (arith, stored)),
        )
    | inr (e, q) ↦ inl (ground arith)
  ]

  logged-routes :
      (new : FiberRoute F) (entry : FiberRoute F → AuditLog F) (w : World F)
      → ((Repository.create env new >>= λ made. create_audit env (entry made) >>= λ _. pure made)
          w).1.routes
        ≡ (Repository.create env new w).1.routes
  unfolding ◌>>=◌ create_audit pure
  logged-routes new entry w = ground arith

  made_step :
      (new : FiberRoute F) (entry : FiberRoute F → AuditLog F) (w : World F)
      → IsRouteTable env
      → count_if (λ r. str_eq r.route_code new.route_code) w.routes ≡ 0
      → HaveCodes w.routes
      → HaveCodes
          ((Repository.create env new >>= λ made. create_audit env (entry made) >>= λ _. pure made)
            w).1.routes
  made_step new entry w laws absent all =
      subst HaveCodes (sym (logged-routes new entry w)) (elim (create-routes new w laws) [
        | inl same ↦ subst HaveCodes (sym same) all
        | inr (n, t, added) ↦
            subst HaveCodes (sym added) (HaveCodes-append w.routes (stamp_route n t new) absent all)
      ])

  transaction-routes :
      {A : Type 0} (m : M F A) (w : World F)
      → ((transaction env m w).1.routes ≡ (m (env.others w)).1.routes)
        ⊎ ((transaction env m w).1.routes ≡ (env.others w).routes)
  unfolding transaction
  transaction-routes m w = ground arith

  attempt-bind :
      {A B : Type 0} (m : M F A) (g : Result A → M F B) (w : World F)
      → (attempt m >>= g) w ≡ g (m w).0 (m w).1
  unfolding attempt ◌>>=◌
  attempt-bind m g w = refl

module _ {F : Type 0} ⦃f : Float F⦄ (env : Env F) (upper_rune : Char → Char) where
  store_route-HaveCodes :
      (route : FiberRoute F) (actor : Actor) (found : Result (FiberRoute F)) (w : World F)
      → IsRouteTable env
      → ((e : Error)
          → found ≡ err e
          → is_not_found e ≡ true
          → count_if (λ r. str_eq r.route_code route.route_code) w.routes ≡ 0)
      → HaveCodes w.routes
      → HaveCodes (store_route env upper_rune route actor found w).1.routes
  unfolding store_route raise
  store_route-HaveCodes route actor (ok taken) w laws absent all = all
  store_route-HaveCodes route actor (err e) w laws absent all = elim (Bool-cases (is_not_found e)) [
    | inl q ↦ rw q (made_step env route _ w laws (absent e refl q) all)
    | inr q ↦ rw q all
  ]

  -- `Create` keeps the codes of the routes distinct, whether it succeeds or fails: the code that it
  -- looks up, trimmed and in upper case, is the code that it stores. The table reports that there is
  -- no row only where there is none.
  pub create-HaveCodes :
      (request : CreateRouteRequest F) (actor : Actor) (w : World F)
      → IsRouteTable env
      → HaveCodes (env.others w).routes
      → HaveCodes (create env upper_rune request actor w).1.routes
  unfolding create
  create-HaveCodes request actor w laws all =
      let route = new_route env upper_rune request in
      let w' = env.others w in
      let lookup = Repository.get_by_code env route.route_code in
      let body = attempt lookup >>= λ found. store_route env upper_rune route actor found in
      let inside : HaveCodes (body w').1.routes =
        subst HaveCodes (ap (λ p. p.1.routes) (sym (attempt-bind env lookup _ w'))) (
          subst (λ v. HaveCodes (store_route env upper_rune route actor (lookup w').0 v).1.routes)
            (sym (get_by_code-routes env route.route_code w'))
            (store_route-HaveCodes route actor (lookup w').0 w' laws
              (λ e h q. get_by_code-missing env route.route_code w' e laws h q) all)) in
      subst HaveCodes (ap (λ v. v.routes) (sym (on_error-world _ (transaction env body) w)))
        (elim (transaction-routes env body w) [
          | inl e ↦ subst HaveCodes (sym e) inside
          | inr e ↦ subst HaveCodes (sym e) all
        ])
