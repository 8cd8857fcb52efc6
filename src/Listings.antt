-- ===== src/Listings.antt =====
-- The listings: the methods `List` of backend/internal/repository and of backend/internal/service.
pub mod Filters
pub mod Services
pub mod Bounds
use Prim.Native.String.{String}
use gb_522_l7o.Prelude.{ℕ, Bool, List, if◌then◌else◌}
use gb_522_l7o.Prelude.Int.{ℤ, pos, ◌-ℤ◌, ◌*ℤ◌, wrap_int}
use gb_522_l7o.Errors.{Error, wrap, internal, Result, ok, err}
use gb_522_l7o.Database.{Table, World, Env, M, ◌>>=◌, ◌>>◌, pure, on_error, yield_to_others}
use gb_522_l7o.Pages.{normalize_page}

-- `dto.Pagination`.
pub record Pagination : Type 0 where
  pub page : ℤ
  pub page_size : ℤ
  pub total : ℕ

-- The two calls of a repository's `List` on one table: the filter, the order, and the texts that wrap
-- the errors of the calls.
pub record Listing (F R : Type 0) : Type 0 where
  pub table : Table R
  pub rows : World F → List R
  pub filter : World F → R → Bool
  pub order : R → R → Bool
  pub count_failed : String
  pub list_failed : String

module _ {F R : Type 0} (env : Env F) (l : Listing F R) where
  unfoldable pub count_rows : M F ℕ
  count_rows w = elim (l.table.count w.clock (l.filter w) (l.rows w)) [
    | err e ↦ (err (wrap l.count_failed e), w)
    | ok n ↦ (ok n, w)
  ]

  unfoldable pub find_rows : ℤ → ℤ → M F (List R)
  find_rows page page_size w =
      elim (l.table.page w.clock (l.filter w) l.order (wrap_int ((page -ℤ pos 1) *ℤ page_size))
        page_size (l.rows w)) [ err e ↦ (err (wrap l.list_failed e), w) | ok rows ↦ (ok rows, w) ]

  -- `List` of a repository.
  unfoldable pub list_rows : ℤ → ℤ → M F (List R × ℕ)
  list_rows page page_size = do
    total ← count_rows
    yield_to_others env
    rows ← find_rows page page_size
    pure (rows, total)

  -- `List` of a service.
  unfoldable pub list_page : String → ℤ × ℤ → M F (List R × Pagination)
  list_page failed query = do
    let (page, page_size) = normalize_page query
    yield_to_others env
    found ← on_error (internal failed) (list_rows page page_size)
    pure (found.0, record { page = page; page_size = page_size; total = found.1 })
