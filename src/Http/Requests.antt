-- ===== src/Http/Requests.antt =====
-- Requests to backend/internal/router, one after the other, each in an environment of its own: what the
-- other requests do meanwhile, and which calls fail, may differ.
use gb_522_l7o.Prelude.{ℕ, ◌≡◌, ap, ◌∙◌, some, List, [], ◌∷◌, get_elem?, All}
use gb_522_l7o.Constants.{closed}
use gb_522_l7o.Float.{Float}
use gb_522_l7o.Model.{LocalizationCase}
use gb_522_l7o.Cases.Rows.{RowReach-closed, RowsEvolve, evolved_at}
use gb_522_l7o.Database.{Env}
use gb_522_l7o.Database.Preserves.{Guarantee}
use gb_522_l7o.Writes.{Writes}
use gb_522_l7o.Cases.Keeps.{IsCaseEnv, case_guarantee, case-Writes}
use gb_522_l7o.Http.{Program, Server, Context}
use gb_522_l7o.Http.Router.{Endpoint, serve}
use gb_522_l7o.Http.Safe.{serve-Safe}

-- A request, and the program as it finds it.
pub record Request (F : Type 0) : Type 0 where
  pub program : Program F
  pub endpoint : Endpoint
  pub context : Context

module _ {F : Type 0} ⦃f : Float F⦄ where
  -- The server after the requests, in their order.
  unfoldable pub serve_requests : List (Request F) → Server F → Server F
  serve_requests [] s = s
  serve_requests (r ∷ rest) s = serve_requests rest (serve r.program r.endpoint r.context s).1

  -- Whatever requests reach the server, they keep what every write keeps.
  pub serve_requests-Kept :
      (g : Guarantee F) (IsWorking : Env F → Type 0)
      → ((env : Env F) → IsWorking env → Writes env g)
      → (requests : List (Request F)) (s : Server F) → All (λ r. IsWorking r.program.env) requests
      → g.Kept s.world (serve_requests requests s).world
  unfolding serve_requests
  serve_requests-Kept g IsWorking writes [] s laws = g.same s.world
  serve_requests-Kept g IsWorking writes (r ∷ rest) s laws =
      let s' = (serve r.program r.endpoint r.context s).1 in
      g.chain s.world s'.world (serve_requests rest s').world
        ((serve-Safe r.program g (writes r.program.env laws.0) r.endpoint).safe r.context s)
        (serve_requests-Kept g IsWorking writes rest s' laws.1)

  -- Whatever requests reach the server, of any endpoints and users, each on a table of cases that does
  -- what it reports and among requests that move the cases along the transition table: every case
  -- there was is still there, moved along the table `transitions`, its version one higher for each
  -- move, about the same route and traces and of the same creator.
  pub serve_requests-RowsEvolve :
      (requests : List (Request F)) (s : Server F)
      → All (λ r. IsCaseEnv r.program.env) requests
      → RowsEvolve s.world.cases (serve_requests requests s).world.cases
  serve_requests-RowsEvolve requests s laws =
      serve_requests-Kept case_guarantee IsCaseEnv case-Writes requests s laws

  -- A closed case is final: whatever requests reach the server afterwards, each on a table of cases that
  -- does what it reports and among requests that move the cases along the transition table, its row
  -- stays as it is, in every column.
  pub serve_requests-closed :
      (requests : List (Request F)) (s : Server F) (i : ℕ) (r : LocalizationCase F)
      → All (λ r. IsCaseEnv r.program.env) requests
      → get_elem? s.world.cases i ≡ some r
      → r.case_status ≡ closed
      → get_elem? (serve_requests requests s).world.cases i ≡ some r
  serve_requests-closed requests s i r laws e c =
      let (row, there, path) =
        evolved_at s.world.cases (serve_requests requests s).world.cases i
          (serve_requests-RowsEvolve requests s laws) e in
      there ∙ ap some (RowReach-closed c path)
