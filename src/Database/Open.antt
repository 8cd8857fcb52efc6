-- ===== src/Database/Open.antt =====
-- `Open` of backend/internal/repository/user_repository.go. gorm and its drivers are a parameter.
use Prim.Native.String.{String, ◌++◌}
use package.text.Mathlib.Text.{◌==◌ as str_eq}
use gb_522_l7o.Prelude.{ℕ, Option, none, some, if◌then◌else◌}
use gb_522_l7o.Errors.{Error, wrap, Result, ok, err}
use gb_522_l7o.Config.{Config}

pub data Dialector : Type 0 where
  sqlite : String → Dialector
  postgres : String → Dialector

-- `gorm.Open` on a dialect, and the pool of connections behind it: whether they fail.
pub record Driver : Type 0 where
  pub connect : Dialector → Option Error
  pub sql_db : Dialector → Option Error

-- The connection, with the limits of its pool.
pub record Connection : Type 0 where
  pub dialector : Dialector
  pub max_open_conns : ℕ
  pub max_idle_conns : ℕ

abbrev pub dialector_of : Config → Dialector
dialector_of c = if str_eq c.db_driver "sqlite" then sqlite c.db_dsn else postgres c.db_dsn

unfoldable pub open_database : Driver → Config → Result Connection
open_database driver c =
    let dialector = dialector_of c in
    elim (driver.connect dialector) [
      | some e ↦ err (wrap ("open " ++ c.db_driver ++ " database") e)
      | none ↦ elim (driver.sql_db dialector) [
        | some e ↦ err (wrap "obtain sql database" e)
        | none ↦ ok (record { dialector = dialector; max_open_conns = 20; max_idle_conns = 5 })
      ]
    ]
