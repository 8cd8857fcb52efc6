-- ===== src/Pages.antt =====
-- `normalizePage` of backend/internal/service/route_service.go, which every listing begins with.
use gb_522_l7o.Prelude.{◌≡◌, true, if◌then◌else◌, arith}
use gb_522_l7o.Prelude.Int.{ℤ, pos, ltb_ℤ, leb_ℤ}

unfoldable pub normalize_page : ℤ × ℤ → ℤ × ℤ
normalize_page (page, size) =
    let page' = if ltb_ℤ page (pos 1) then pos 1 else page in
    let size' = if ltb_ℤ size (pos 1) then pos 20 else size in
    (page', if ltb_ℤ (pos 100) size' then pos 100 else size')

-- A page from 1 on, of 1 to 100 rows.
abbrev pub IsPage : ℤ × ℤ → Type 0
IsPage (page, size) =
    (leb_ℤ (pos 1) page ≡ true) × (leb_ℤ (pos 1) size ≡ true) × (leb_ℤ size (pos 100) ≡ true)

-- Whatever is asked for, the page is at least 1 and has 1 to 100 rows.
pub normalize_page-IsPage : (query : ℤ × ℤ) → IsPage (normalize_page query)
unfolding normalize_page
normalize_page-IsPage (page, size) = ground arith

-- A page within the bounds is what is listed.
pub normalize_page-same : (query : ℤ × ℤ) → IsPage query → normalize_page query ≡ query
unfolding normalize_page
normalize_page-same (page, size) h = ground arith
