-- ===== src/Listings/Bounds.antt =====
-- What a listing returns: `List` of backend/internal/service on a table that pages as asked.
use Prim.Native.String.{String}
use native.Mathlib.Nat.{mul-le-mul_left}
use mathlib.Core.List.{Perm}
use gb_522_l7o.Prelude.{
  ℕ, ◌+◌, ◌-◌, ◌*◌, ◌%◌, ◌^◌, ◌≤◌, ◌<◌, false, ◌≡◌, sym, subst, ap, ◌∙◌, Bool, List, take, drop,
  filter_if, length, arith, inl, inr, length-take,
}
use gb_522_l7o.Prelude.Int.{ℤ, pos, negsuc, pos_part, ltb_ℤ, ◌-ℤ◌, ◌*ℤ◌, wrap_int}
use gb_522_l7o.Prelude.Sort.{IsSorted}
use gb_522_l7o.Errors.{ok}
use gb_522_l7o.Algorithm.Detect.Pipeline.{Result-cases}
use gb_522_l7o.Database.{Table, World, Env, yield_to_others}
use gb_522_l7o.Cases.Inversion.{>>=-inv, on_error-inv, pure-ok}
use gb_522_l7o.Pages.{normalize_page, IsPage, normalize_page-IsPage}
use gb_522_l7o.Listings.{Pagination, Listing, count_rows, find_rows, list_rows, list_page}

-- Where rows tie in the order, the database may choose theirs. `all` is that choice.
pub record IsPageOf {R : Type 0} (p : R → Bool) (less : R → R → Bool) (offset limit : ℕ)
    (rows out : List R) : Type 0 where
  pub all : List R
  pub permuted : Perm all (filter_if p rows)
  pub sorted : IsSorted less all
  pub cut : out ≡ take limit (drop offset all)

-- A table pages as asked, in the order `less`.
abbrev pub IsPaging : {R : Type 0} → Table R → (R → R → Bool) → Type 0
IsPaging table less =
    (t : ℕ) (p : _ → Bool) (offset limit : ℕ) (rows out : List _)
    → table.page t p less (pos offset) (pos limit) rows ≡ ok out
    → IsPageOf p less offset limit rows out

module _ {F R : Type 0} (env : Env F) (l : Listing F R) where
  -- A page as it is asked for: its number, counted from 0, and its size.
  pub record IsListed (query : ℤ × ℤ) (w : World F) (rows : List R) (pagination : Pagination)
      : Type 0 where
    pub number : ℕ
    pub size : ℕ
    pub asked : normalize_page query ≡ (pos (number + 1), pos size)
    pub told : (pagination.page, pagination.page_size) ≡ normalize_page query
    pub bounded : (length rows ≤ size) × (size ≤ 100)
    pub counted :
        l.table.count (env.others w).clock (l.filter (env.others w)) (l.rows (env.others w))
        ≡ ok pagination.total
    pub page :
        let later = env.others (env.others w) in
        IsPageOf (l.filter later) l.order (number * size) size (l.rows later) rows

  normal-pos :
      (query : ℤ × ℤ)
      → IsPage query
      → (n : ℕ) × (m : ℕ) × (query ≡ (pos (n + 1), pos m)) × (m ≤ 100)
  normal-pos (pos n, pos m) h = (n - 1, m, ground arith, ground arith)
  normal-pos (pos n, negsuc m) h = absurd (ground arith)
  normal-pos (negsuc n, size) h = absurd (ground arith)

  normal-below :
      (query : ℤ × ℤ) (n m : ℕ)
      → ltb_ℤ (pos (2 ^ 56)) query.0 ≡ false
      → normalize_page query ≡ (pos (n + 1), pos m)
      → n < 2 ^ 56
  unfolding normalize_page
  normal-below (pos page, size) n m low asked = ground (arith, low, ap (λ q. pos_part q.0) asked)
  normal-below (negsuc page, size) n m low asked = ground (arith, ap (λ q. pos_part q.0) asked)

  product-small : (n m : ℕ) → n < 2 ^ 56 → m ≤ 100 → n * m < 2 ^ 63
  product-small n m few small =
      let bound : n * m ≤ n * 100 = mul-le-mul_left n small in omega (arith, bound)

  count_rows-inv :
      (w : World F) (n : ℕ)
      → (count_rows env l w).0 ≡ ok n
      → (l.table.count w.clock (l.filter w) (l.rows w) ≡ ok n) × ((count_rows env l w).1 ≡ w)
  unfolding count_rows
  count_rows-inv w n h = ground arith

  product_pos : (n m : ℕ) → (pos (n + 1) -ℤ pos 1) *ℤ pos m ≡ pos (n * m)
  unfolding ◌-ℤ◌ ◌*ℤ◌
  product_pos n m = ground arith

  wrap_int-small : (n : ℕ) → n < 2 ^ 63 → wrap_int (pos n) ≡ pos n
  unfolding wrap_int
  wrap_int-small n h = let same : n % 2 ^ 64 ≡ n = omega arith in rw same (ground (arith, h))

  offset_pos : (n m : ℕ) → n * m < 2 ^ 63 → wrap_int ((pos (n + 1) -ℤ pos 1) *ℤ pos m) ≡ pos (n * m)
  offset_pos n m h = ap wrap_int (product_pos n m) ∙ wrap_int-small (n * m) h

  find_rows-inv :
      (n m : ℕ) (w : World F) (rows : List R)
      → n * m < 2 ^ 63
      → (find_rows env l (pos (n + 1)) (pos m) w).0 ≡ ok rows
      → l.table.page w.clock (l.filter w) l.order (pos (n * m)) (pos m) (l.rows w) ≡ ok rows
  unfolding find_rows
  find_rows-inv n m w rows fits h =
      elim (Result-cases
        (l.table.page w.clock (l.filter w) l.order (pos (n * m)) (pos m) (l.rows w))) [
          | inl (out, e) ↦ ground (arith, offset_pos n m fits)
          | inr (e, q) ↦ absurd (ground (arith, offset_pos n m fits))
        ]

  list_rows-inv :
      (n m : ℕ) (w : World F) (found : List R × ℕ)
      → IsPaging l.table l.order
      → n * m < 2 ^ 63
      → (list_rows env l (pos (n + 1)) (pos m) w).0 ≡ ok found
      → (l.table.count w.clock (l.filter w) (l.rows w) ≡ ok found.1)
        × IsPageOf (l.filter (env.others w)) l.order (n * m) m (l.rows (env.others w)) found.0
  unfolding list_rows yield_to_others
  list_rows-inv n m w found paging fits h =
      let (total, counted, rest, _) = >>=-inv _ _ w found h in
      let (count_is, same) = count_rows-inv w total counted in
      let (u, _, rest2, _) = >>=-inv (yield_to_others env) _ _ found rest in
      let (rows, listed, last, _) = >>=-inv _ _ _ found rest2 in
      let made = pure-ok _ found _ last in
      let page = find_rows-inv n m _ rows fits listed in
      let later = env.others (count_rows env l w).1 in
      let cut = paging later.clock (l.filter later) (n * m) m (l.rows later) rows page in
      (
        count_is ∙ ap (λ p. ok p.1) made,
        subst
            (λ v.
              IsPageOf (l.filter (env.others v)) l.order (n * m) m (l.rows (env.others v)) found.0)
            {x = (count_rows env l w).1} same
            (subst (λ q. IsPageOf (l.filter later) l.order (n * m) m (l.rows later) q.0) made cut),
      )

  -- When a listing succeeds, its page is at least 1 and has at most 100 rows; the total is what the
  -- database counted; and the rows are those of that page of the rows that meet the filter, in the
  -- order of the listing. The page asked for is at most 2^56, so that the offset of a page fits into
  -- an `int`, and the database pages as it is asked.
  pub list_page-IsListed :
      (failed : String) (query : ℤ × ℤ) (w : World F) (rows : List R) (pagination : Pagination)
      → IsPaging l.table l.order
      → ltb_ℤ (pos (2 ^ 56)) query.0 ≡ false
      → (list_page env l failed query w).0 ≡ ok (rows, pagination)
      → IsListed query w rows pagination
  unfolding list_page yield_to_others
  list_page-IsListed failed query w rows pagination paging low h =
      let (n, m, asked, small) = normal-pos (normalize_page query) (normalize_page-IsPage query) in
      let few = normal-below query n m low asked in
      let fits : n * m < 2 ^ 63 = product-small n m few small in
      let (u, _, rest, _) = >>=-inv (yield_to_others env) _ w (rows, pagination) h in
      let (found, listed, last, _) = >>=-inv _ _ _ (rows, pagination) rest in
      let made = pure-ok _ (rows, pagination) _ last in
      let inside = on_error-inv _ _ _ found listed in
      let (counted, page) =
        list_rows-inv n m (env.others w) found paging fits
          (subst (λ q. (list_rows env l q.0 q.1 (env.others w)).0 ≡ ok found) asked inside) in
      let same : found.0 ≡ rows = ap (λ p. p.0) made in
      let total : found.1 ≡ pagination.total = ap (λ p. p.1.total) made in
      let later = env.others (env.others w) in
      let cut = subst (IsPageOf (l.filter later) l.order (n * m) m (l.rows later)) same page in
      record {
        number = n;
        size = m;
        asked = asked;
        told = ap (λ p. (p.1.page, p.1.page_size)) (sym made);
        bounded = (omega (arith, ap length cut.cut, length-take m (drop (n * m) cut.all)), small);
        counted = counted ∙ ap (λ t. ok t) total;
        page = cut;
      }
