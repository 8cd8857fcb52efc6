-- ===== src/Cases/Calls.antt =====
-- The methods of service/case_service.go called one after the other by any users, each in an
-- environment of its own: what the other requests do, and which calls fail, may differ.
use gb_522_l7o.Prelude.{ℕ, ◌≡◌, ap, ◌∙◌, some, List, [], ◌∷◌, get_elem?, All}
use gb_522_l7o.Constants.{closed}
use gb_522_l7o.Float.{Float}
use gb_522_l7o.Model.{LocalizationCase}
use gb_522_l7o.Database.{World, Env, M}
use gb_522_l7o.Database.Preserves.{Preserves}
use gb_522_l7o.Audit.{Actor}
use gb_522_l7o.Cases.Rows.{
  RowReach-closed, RowsEvolve, RowsEvolve-refl, RowsEvolve-trans, evolved_at,
}
use gb_522_l7o.Cases.Keeps.{IsCaseEnv, case_guarantee, case-Writes}
use gb_522_l7o.Cases.Service
use gb_522_l7o.Cases.Service.{
  CreateCaseRequest, AnalyzeCaseRequest, ConfirmCaseRequest, CloseCaseRequest,
}
use gb_522_l7o.Cases.Guarantee.{
  create-Preserves, analyze-Preserves, confirm-Preserves, close-Preserves,
}

-- A call of a method that changes cases.
pub data CaseCall (F : Type 0) : Type 0 where
  creating : CreateCaseRequest F → Actor → CaseCall F
  analysing : ℕ → AnalyzeCaseRequest F → Actor → CaseCall F
  confirming : ℕ → ConfirmCaseRequest F → Actor → CaseCall F
  closing : ℕ → CloseCaseRequest → Actor → CaseCall F

module _ {F : Type 0} ⦃f : Float F⦄ where
  unfoldable pub serve : Env F → CaseCall F → M F (LocalizationCase F)
  serve env (creating request actor) = Service.create env request actor
  serve env (analysing id request actor) = Service.analyze env id request actor
  serve env (confirming id request actor) = Service.confirm env id request actor
  serve env (closing id request actor) = Service.close env id request actor

  -- The tables after the calls, in their order.
  unfoldable pub serve_all : List (Env F × CaseCall F) → World F → World F
  serve_all [] w = w
  serve_all ((env, call) ∷ calls) w = serve_all calls (serve env call w).1

  pub serve-Preserves :
      (env : Env F) (call : CaseCall F) → IsCaseEnv env → Preserves case_guarantee (serve env call)
  unfolding serve
  serve-Preserves env (creating request actor) laws =
      create-Preserves env case_guarantee (case-Writes env laws) request actor
  serve-Preserves env (analysing id request actor) laws =
      analyze-Preserves env case_guarantee (case-Writes env laws) id request actor
  serve-Preserves env (confirming id request actor) laws =
      confirm-Preserves env case_guarantee (case-Writes env laws) id request actor
  serve-Preserves env (closing id request actor) laws =
      close-Preserves env case_guarantee (case-Writes env laws) id request actor

  -- Whatever calls are made, by whichever users and in whichever order, succeeding or failing, each on
  -- a table of cases that does what it reports and among requests that move the cases along the
  -- transition table: every case there was is still there, moved along the table `transitions`, its
  -- version one higher for each move, about the same route and traces and of the same creator.
  pub serve_all-RowsEvolve :
      (calls : List (Env F × CaseCall F)) (w : World F)
      → All (λ c. IsCaseEnv c.0) calls
      → RowsEvolve w.cases (serve_all calls w).cases
  unfolding serve_all
  serve_all-RowsEvolve [] w laws = RowsEvolve-refl w.cases
  serve_all-RowsEvolve ((env, call) ∷ calls) w laws =
      let w' = (serve env call w).1 in
      RowsEvolve-trans w.cases w'.cases (serve_all calls w').cases
        ((serve-Preserves env call laws.0).keeps w) (serve_all-RowsEvolve calls w' laws.1)

  -- A closed case is final: whatever calls are made afterwards, each on a table of cases that does
  -- what it reports and among requests that move the cases along the transition table, its row
  -- stays as it is, in every column.
  pub serve_all-closed :
      (calls : List (Env F × CaseCall F)) (w : World F) (i : ℕ) (r : LocalizationCase F)
      → All (λ c. IsCaseEnv c.0) calls
      → get_elem? w.cases i ≡ some r
      → r.case_status ≡ closed
      → get_elem? (serve_all calls w).cases i ≡ some r
  serve_all-closed calls w i r laws e c =
      let (s, there, path) =
        evolved_at w.cases (serve_all calls w).cases i (serve_all-RowsEvolve calls w laws) e in
      there ∙ ap some (RowReach-closed c path)
