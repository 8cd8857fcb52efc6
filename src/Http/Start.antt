-- ===== src/Http/Start.antt =====
-- The start of the program, backend/cmd/server/main.go: what is set up before it listens. gorm with
-- its migration and bcrypt's hash are parameters.
use Prim.Native.Char.{Char}
use Prim.Native.String.{String}
use gb_522_l7o.Prelude.{
  ℕ, ◌≤◌, ◌≡◌, sym, subst, ap, ◌∙◌, false, Option, [], length, if◌then◌else◌, arith,
}
use gb_522_l7o.Prelude.Int.{pos, ltb_ℤ}
use gb_522_l7o.Strings.{byte_length}
use gb_522_l7o.Errors.{Error, Result, ok, err}
use gb_522_l7o.Float.{Float}
use gb_522_l7o.Model.{TraceCapture}
use gb_522_l7o.Database.{World, Env, M, ◌>>=◌, ◌>>◌, lift}
use gb_522_l7o.Audit.{Actor}
use gb_522_l7o.Auth.{Crypto}
use gb_522_l7o.Auth.Seed.{migrate_and_seed}
use gb_522_l7o.Cases.Inversion.{>>=-inv, ok-injective}
use gb_522_l7o.Config.{Config, load}
use gb_522_l7o.Database.Open.{Driver, open_database}
use gb_522_l7o.Config.Bounds.{load-IsConfig}
use gb_522_l7o.Middleware.RateLimiter.{new_rate_limiter}
use gb_522_l7o.Traces.Service.{ImportTraceRequest, import_trace}
use gb_522_l7o.Traces.Imported.{IsTraceEnv, import_trace-IsImported}
use gb_522_l7o.Http.{Program, Server, Library}

-- What the process is started in.
pub record Surroundings (F : Type 0) : Type 0 where
  pub env : Env F
  pub library : Library F
  pub crypto : Crypto
  pub upper_rune : Char → Char
  pub lower_rune : Char → Char
  pub quote : String → String
  pub getenv : String → String
  pub driver : Driver
  pub migrate : ℕ → Option Error
  pub generate_hash : String → Result String

-- `time.Minute`.
abbrev minute : ℕ
minute = 60_000_000_000

module _ {F : Type 0} (o : Surroundings F) where
  abbrev pub program_of : Config → Program F
  program_of c = record {
    env = o.env;
    library = o.library;
    crypto = o.crypto;
    auth = record { secret = c.jwt_secret; ttl = c.access_token_ttl };
    upper_rune = o.upper_rune;
    max_points = c.max_trace_points;
    origins = c.cors_origins;
  }

  unfoldable pub prepare_database : Config → M F (Unit {0})
  prepare_database c w = elim (open_database o.driver c) [
    | err e ↦ (err e, w)
    | ok connection ↦
        let seeded = migrate_and_seed o.env o.migrate o.generate_hash w in
        if c.db_auto_migrate then seeded else (ok tt, w)
  ]

  -- `main`, up to `ListenAndServe`. An error ends the process.
  unfoldable pub start : M F (Program F × Server F)
  start = do
    c ← lift (load o.getenv o.lower_rune o.quote)
    prepare_database c
    λ w. (
      ok (
        program_of c,
        record {
          world = w;
          access_lines = [];
          login_limiter = new_rate_limiter c.login_rate_limit minute w.clock;
          import_limiter = new_rate_limiter c.import_rate_limit minute w.clock;
          analyze_limiter = new_rate_limiter c.analyze_rate_limit minute w.clock;
        },
      ),
      w,
    )

module _ {F : Type 0} ⦃f : Float F⦄ (o : Surroundings F) where
  start-inv :
      (w : World F) (p : Program F) (s : Server F)
      → (start o w).0 ≡ ok (p, s)
      → (c : Config) × (load o.getenv o.lower_rune o.quote ≡ ok c) × (p ≡ program_of o c)
  unfolding start lift
  start-inv w p s h =
      let (c, loaded, rest, _) = >>=-inv _ _ w (p, s) h in
      let (u, _, last, _) = >>=-inv (prepare_database o c) _ _ (p, s) rest in
      (c, loaded, ap (λ r. r.0) (sym (ok-injective _ (p, s) last)))

  -- A program that has started signs its tokens with a secret of at least 32 bytes, and whatever it is
  -- asked, it imports no trace of more than 200,000 samples.
  pub start-import_trace :
      (before later : World F) (p : Program F) (s : Server F) (request : ImportTraceRequest F)
      (actor : Actor) (trace : TraceCapture F)
      → (start o before).0 ≡ ok (p, s)
      → IsTraceEnv p.env
      → (import_trace p.env p.max_points request actor later).0 ≡ ok trace
      → (32 ≤ byte_length p.auth.secret) × (length request.points ≤ 200000)
  start-import_trace before later p s request actor trace started laws h =
      let (c, loaded, is_p) = start-inv before p s started in
      let bounds = load-IsConfig o.getenv o.lower_rune o.quote c loaded in
      let limit : p.max_points ≡ pos bounds.points =
        ap (λ q. q.max_points) is_p ∙ bounds.points_are in
      let imported = import_trace-IsImported p.env p.max_points request actor later trace laws h in
      let within =
        subst (λ z. ltb_ℤ z (pos (length request.points)) ≡ false) limit imported.within in
      (
        subst (λ q. 32 ≤ byte_length q.auth.secret) (sym is_p) bounds.secret,
        ground (arith, within, bounds.bounds),
      )
