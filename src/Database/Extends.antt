-- ===== src/Database/Extends.antt =====
-- A table that only grows: every row is still there, at its place and in some relation to what it was,
-- and new rows stand behind.
use mathlib.Core.Option.{some-injective}
use gb_522_l7o.Prelude.{
  ℕ, zero, suc, ◌≡◌, refl, sym, subst, Bool, true, some, List, [], ◌∷◌, ◌++◌, get_elem?, Bool-cases,
  inl, inr,
}
use gb_522_l7o.Errors.{ok}
use gb_522_l7o.Database.{Table, IsTable, written}

module _ {R : Type 0} (Same : R → R → Type 0) where
  abbrev pub Extends : List R → List R → Type 0
  Extends [] later = Unit
  Extends (r ∷ rows) [] = ⊥
  Extends (r ∷ rows) (s ∷ later) = Same r s × Extends rows later

  pub Extends-trans :
      ((r s t : R) → Same r s → Same s t → Same r t)
      → (a b c : List R) → Extends a b
      → Extends b c
      → Extends a c
  Extends-trans chain [] b c p q = tt
  Extends-trans chain (x ∷ a) [] c p q = absurd p
  Extends-trans chain (x ∷ a) (y ∷ b) [] p q = absurd q
  Extends-trans chain (x ∷ a) (y ∷ b) (z ∷ c) p q =
      (chain x y z p.0 q.0, Extends-trans chain a b c p.1 q.1)

  pub Extends-at :
      (rows later : List R) (i : ℕ) {r : R}
      → Extends rows later
      → get_elem? rows i ≡ some r
      → (s : R) × (get_elem? later i ≡ some s) × Same r s
  Extends-at [] later i e p = cc
  Extends-at (x ∷ rows) [] i e p = absurd e
  Extends-at (x ∷ rows) (y ∷ later) zero {r} e p = (y, refl, rw (some-injective _ _ p) at e.0)
  Extends-at (x ∷ rows) (y ∷ later) (suc i) e p = Extends-at rows later i e.1 p

  module _ (same : (r : R) → Same r r) where
    pub Extends-append : (rows new : List R) → Extends rows (rows ++ new)
    Extends-append [] new = tt
    Extends-append (r ∷ rows) new = (same r, Extends-append rows new)

    pub Extends-refl : (rows : List R) → Extends rows rows
    Extends-refl [] = tt
    Extends-refl (r ∷ rows) = (same r, Extends-refl rows)

    pub Extends-written :
        (touch : R → R) (p : R → Bool) (g : R → R) (rows : List R)
        → ((r : R) → p r ≡ true → Same r (touch (g r)))
        → Extends rows (written touch p g rows)
    Extends-written touch p g [] h = tt
    Extends-written touch p g (r ∷ rows) h =
        let rest = Extends-written touch p g rows h in
        elim (Bool-cases (p r)) [ inl e ↦ rw e (h r e, rest) | inr e ↦ rw e (same r, rest) ]

    -- What a successful insert and a successful update make of the rows.
    module _ {table : Table R} {id : R → ℕ} {stamp : ℕ → ℕ → R → R} {touch : ℕ → R → R}
        (laws : IsTable table id stamp touch) where
      pub create-Extends :
          (t : ℕ) (r r' : R) (rows later : List R)
          → table.create t r rows ≡ ok (r', later)
          → Extends rows later
      create-Extends t r r' rows later e =
          let (n, stamped, fresh, added) = laws.create_ok t r rows r' later e in
          subst (Extends rows) (sym added) (Extends-append rows (r' ∷ []))

      pub update-Extends :
          (t n : ℕ) (p : R → Bool) (g : R → R) (rows later : List R)
          → ((r : R) → p r ≡ true → Same r (touch t (g r)))
          → table.update t p g rows ≡ ok (n, later)
          → Extends rows later
      update-Extends t n p g rows later h e =
          subst (Extends rows) (sym (laws.update_ok t p g rows n later e).1)
            (Extends-written (touch t) p g rows h)
