-- ===== src/Tests/Starting.antt =====
-- Runs of the configuration, of the start of the program, and of the limiter's windows.
use Prim.Native.String.{String}
use package.text.Mathlib.Text.{◌==◌ as str_eq}
use gb_522_l7o.Prelude.{◌≤◌, ◌≡◌, refl, true, none, [], ◌∷◌, All, length, if◌then◌else◌, arith}
use gb_522_l7o.Prelude.Int.{pos}
use gb_522_l7o.Strings.{
  trim_space, to_lower, split_commas, parse_bool, atoi, parse_digits, format_uint, format_int,
  digits_onto, byte_length,
}
use gb_522_l7o.Errors.{Result, ok, is_record_not_found}
use gb_522_l7o.Float.Fixed.{Fixed, fixed_float}
use gb_522_l7o.Database.{◌>>=◌, pure, lift}
use gb_522_l7o.Auth.Seed.{accounts, create_user, seed_account, seed_accounts, migrate_and_seed}
use gb_522_l7o.Auth.Seeded.{HasAccount, IsGrown, migrate_and_seed-IsSeeded}
use gb_522_l7o.Database.Open.{open_database}
use gb_522_l7o.Config.{
  Config, check_config, trimmed_parts, env, env_int, env_bool, read_config, load,
}
use gb_522_l7o.Middleware.RateLimiter.{new_rate_limiter}
use gb_522_l7o.Middleware.RateLimiter.Refinement.{
  decisions, promised, no_windows, new_rate_limiter-promised,
}
use gb_522_l7o.Http.{Program, Server}
use gb_522_l7o.Http.Start.{Surroundings, program_of, prepare_database, start, start-import_trace}
use gb_522_l7o.Tests.Store.{store, store-IsUserEnv, store-IsTraceEnv}
use gb_522_l7o.Tests.Workflow.{reviewer, pending, item_of}
use gb_522_l7o.Tests.Tokens.{crypto}
use gb_522_l7o.Tests.Access.{library}
use gb_522_l7o.Tests.Traces.{import_request, stored, import_done}

-- An environment with one variable.
abbrev getenv : String → String
getenv key = if str_eq key "MAX_TRACE_POINTS" then " 20000 " else ""

abbrev defaults : Config
defaults = record {
  port = "8080";
  db_driver = "postgres";
  db_dsn =
      "host=localhost user=otdr_app password=otdr_local_password dbname=fiber_otdr port=5432 sslmode=disable";
  db_auto_migrate = true;
  jwt_secret = "development-secret-change-me-at-least-32-bytes";
  cors_origins = "http://localhost:18522" ∷ [];
  max_trace_points = pos 20000;
  log_level = "info";
  shutdown_timeout = 10_000_000_000;
  access_token_ttl = 28_800_000_000_000;
  login_rate_limit = pos 30;
  import_rate_limit = pos 40;
  analyze_rate_limit = pos 60;
}

load_done : load getenv (λ c. c) (λ s. s) ≡ ok defaults
unfolding load read_config check_config env env_int env_bool trimmed_parts trim_space to_lower
    split_commas parse_bool atoi parse_digits format_int format_uint digits_onto
load_done = refl

seed_done : (migrate_and_seed store (λ t. none) (λ s. ok "hash") pending).0 ≡ ok tt
unfolding migrate_and_seed seed_accounts seed_account create_user ◌>>=◌ pure is_record_not_found
seed_done = refl

migrate_and_seed-IsSeeded_example :
    let seeded = migrate_and_seed store (λ t. none) (λ s. ok "hash") pending in
    (hash : String) × (ok "hash" ≡ ok hash)
    × IsGrown hash pending.users seeded.1.users
    × All (HasAccount seeded.1.users) accounts
migrate_and_seed-IsSeeded_example =
    migrate_and_seed-IsSeeded store (λ t. none) (λ s. ok "hash") pending store-IsUserEnv seed_done

abbrev surroundings : Surroundings Fixed
surroundings = record {
  env = store;
  library = library;
  crypto = crypto;
  upper_rune = λ c. c;
  lower_rune = λ c. c;
  quote = λ s. s;
  getenv = getenv;
  driver = record { connect = λ d. none; sql_db = λ d. none };
  migrate = λ t. none;
  generate_hash = λ s. ok "hash";
}

abbrev started : Result (Program Fixed × Server Fixed)
started = (start surroundings pending).0

abbrev unstarted : Program Fixed × Server Fixed
unstarted = (
  program_of surroundings defaults,
  record {
    world = pending;
    access_lines = [];
    login_limiter = new_rate_limiter (pos 0) 0 0;
    import_limiter = new_rate_limiter (pos 0) 0 0;
    analyze_limiter = new_rate_limiter (pos 0) 0 0;
  },
)

start_done : started ≡ ok (program_of surroundings defaults, (item_of unstarted started).1)
unfolding start prepare_database open_database lift load read_config check_config env env_int
    env_bool trimmed_parts trim_space to_lower split_commas parse_bool atoi parse_digits format_int
    format_uint digits_onto migrate_and_seed seed_accounts seed_account create_user ◌>>=◌ pure
    is_record_not_found
start_done = refl

start-import_trace_example :
    (32 ≤ byte_length defaults.jwt_secret) × (length import_request.points ≤ 200000)
start-import_trace_example =
    start-import_trace surroundings pending pending (program_of surroundings defaults)
      (item_of unstarted started).1 import_request reviewer stored start_done store-IsTraceEnv
      import_done

new_rate_limiter-promised_example :
    decisions (("a", 10) ∷ ("b", 20) ∷ ("a", 20) ∷ ("a", 130) ∷ []) (new_rate_limiter (pos 1) 100 5)
    ≡ promised (pos 1) 100 (("a", 10) ∷ ("b", 20) ∷ ("a", 20) ∷ ("a", 130) ∷ []) no_windows
new_rate_limiter-promised_example =
    new_rate_limiter-promised (pos 1) 100 5 (("a", 10) ∷ ("b", 20) ∷ ("a", 20) ∷ ("a", 130) ∷ [])
      (omega arith, (omega arith, (omega arith, (omega arith, tt))))
