-- ===== src/Auth/Seed.antt =====
-- `MigrateAndSeed` of backend/internal/repository/user_repository.go, which runs before the server
-- answers its first request. gorm's `AutoMigrate` and bcrypt's `GenerateFromPassword` are parameters.
use Prim.Native.String.{String, ◌++◌}
use package.text.Mathlib.Text.{◌==◌ as str_eq}
use gb_522_l7o.Prelude.{ℕ, Bool, true, Option, none, some, List, [], ◌∷◌, if◌then◌else◌}
use gb_522_l7o.Errors.{Error, wrap, Result, ok, err, is_record_not_found}
use gb_522_l7o.Constants.{role_analyst, role_reviewer, role_admin}
use gb_522_l7o.Model.{User}
use gb_522_l7o.Database.{Env, M, ◌>>◌, pure}

pub record Account : Type 0 where
  pub username : String
  pub display : String
  pub role : String

abbrev pub account : String → String → String → Account
account username display role = record { username = username; display = display; role = role }

abbrev pub accounts : List Account
accounts =
    account "analyst" "分析员" role_analyst
    ∷ account "reviewer" "复核员" role_reviewer
    ∷ account "admin" "系统管理员" role_admin
    ∷ []

abbrev pub new_user : String → Account → User
new_user hash a = record {
  id = 0;
  username = a.username;
  password_hash = hash;
  display_name = a.display;
  role = a.role;
  active = true;
  created_at = 0;
}

abbrev pub named : String → User → Bool
named username u = str_eq u.username username

module _ {F : Type 0} (env : Env F) (migrate : ℕ → Option Error)
    (generate_hash : String → Result String) where
  unfoldable pub create_user : Account → String → M F (Unit {0})
  create_user a hash w = elim (env.users.create w.clock (new_user hash a) w.users) [
    | err e ↦ (err (wrap ("create seed user " ++ a.username) e), w)
    | ok (user, rows) ↦ (ok tt, record w { users = rows })
  ]

  -- One turn of the loop.
  unfoldable pub seed_account : String → Account → M F (Unit {0})
  seed_account hash a w = elim (env.users.first w.clock (named a.username) w.users) [
    | ok existing ↦ (ok tt, w)
    | err e ↦
        if is_record_not_found e then create_user a hash w else (err (wrap "find seed user" e), w)
  ]

  unfoldable pub seed_accounts : String → List Account → M F (Unit {0})
  seed_accounts hash [] = pure tt
  seed_accounts hash (a ∷ rest) = seed_account hash a >> seed_accounts hash rest

  unfoldable pub migrate_and_seed : M F (Unit {0})
  migrate_and_seed w = elim (migrate w.clock) [
    | some e ↦ (err (wrap "auto migrate" e), w)
    | none ↦ elim (generate_hash "DemoPass123!") [
      | err e ↦ (err (wrap "hash seed password" e), w)
      | ok hash ↦ seed_accounts hash accounts w
    ]
  ]
