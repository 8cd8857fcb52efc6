-- ===== src/Config.antt =====
-- The configuration, backend/internal/config/config.go. The environment of the process is a function
-- from names to values, where an unset variable is empty.
pub mod Bounds
use Prim.Native.Char.{Char}
use Prim.Native.String.{String, ◌++◌}
use package.text.Mathlib.Text.{◌==◌ as str_eq}
use gb_522_l7o.Prelude.{
  ℕ, ◌*◌, Bool, true, false, not, ◌&&◌, ◌||◌, Option, none, some, List, [], ◌∷◌, if◌then◌else◌, ltb,
}
use gb_522_l7o.Prelude.Int.{ℤ, pos, ltb_ℤ}
use gb_522_l7o.Strings.{
  is_empty, trim_space, to_lower, split_commas, parse_bool, atoi, format_int, byte_length,
}
use gb_522_l7o.Errors.{text, Result, ok, err}

-- `Config`. A duration is a number of nanoseconds.
pub record Config : Type 0 where
  pub port : String
  pub db_driver : String
  pub db_dsn : String
  pub db_auto_migrate : Bool
  pub jwt_secret : String
  pub cors_origins : List String
  pub max_trace_points : ℤ
  pub log_level : String
  pub shutdown_timeout : ℕ
  pub access_token_ttl : ℕ
  pub login_rate_limit : ℤ
  pub import_rate_limit : ℤ
  pub analyze_rate_limit : ℤ

-- `strconv.FormatBool`.
abbrev format_bool : Bool → String
format_bool b = if b then "true" else "false"

-- The loop of `split`.
unfoldable pub trimmed_parts : List String → List String
trimmed_parts [] = []
trimmed_parts (part ∷ parts) =
    let rest = trimmed_parts parts in
    let trimmed = trim_space part in if is_empty trimmed then rest else trimmed ∷ rest

abbrev pub split : String → List String
split value = trimmed_parts (split_commas value)

-- The four tests at the end of `Load`; `quote` is the verb `%q`.
unfoldable pub check_config : (String → String) → Config → Result Config
check_config quote c =
    if ltb (byte_length c.jwt_secret) 32
    then err (text "JWT_SECRET must contain at least 32 characters")
    else if not (str_eq c.db_driver "postgres") && not (str_eq c.db_driver "sqlite")
    then err (text ("unsupported DB_DRIVER " ++ quote c.db_driver))
    else if ltb_ℤ c.max_trace_points (pos 64) || ltb_ℤ (pos 200000) c.max_trace_points
    then err (text "MAX_TRACE_POINTS must be between 64 and 200000")
    else ok c

module _ (getenv : String → String) where
  unfoldable pub env : String → String → String
  env key fallback =
      let value = trim_space (getenv key) in if is_empty value then fallback else value

  unfoldable pub env_int : String → ℤ → ℤ
  env_int key fallback = elim (atoi (env key (format_int fallback))) [
    | none ↦ fallback
    | some v ↦ v
  ]

  unfoldable pub env_bool : String → Bool → Bool
  env_bool key fallback = elim (parse_bool (env key (format_bool fallback))) [
    | none ↦ fallback
    | some v ↦ v
  ]

  unfoldable pub read_config : (Char → Char) → Config
  read_config lower_rune = record {
    port = env "PORT" "8080";
    db_driver = to_lower lower_rune (env "DB_DRIVER" "postgres");
    db_dsn =
        env "DB_DSN"
          "host=localhost user=otdr_app password=otdr_local_password dbname=fiber_otdr port=5432 sslmode=disable";
    db_auto_migrate = env_bool "DB_AUTO_MIGRATE" true;
    jwt_secret = env "JWT_SECRET" "development-secret-change-me-at-least-32-bytes";
    cors_origins = split (env "CORS_ORIGINS" "http://localhost:18522");
    max_trace_points = env_int "MAX_TRACE_POINTS" (pos 20000);
    log_level = env "LOG_LEVEL" "info";
    shutdown_timeout = 10_000_000_000;
    access_token_ttl = 28_800_000_000_000;
    login_rate_limit = env_int "LOGIN_RATE_LIMIT" (pos 30);
    import_rate_limit = env_int "IMPORT_RATE_LIMIT" (pos 40);
    analyze_rate_limit = env_int "ANALYZE_RATE_LIMIT" (pos 60);
  }

  -- `Load`.
  unfoldable pub load : (Char → Char) → (String → String) → Result Config
  load lower_rune quote = check_config quote (read_config lower_rune)
