-- ===== src/Prelude/Sort.antt =====
-- `sort.Float64s` and `sort.Slice`: the elements rearranged so that none is less than an earlier
-- one. Neither promises an order among elements that tie, and nothing here relies on one.
use mathlib.Core.Path.{◌≡◌, refl}
use mathlib.Core.Bool.{Bool, true, false}
use mathlib.Core.Logic.{inl, inr}
use mathlib.Core.List.{List, [], ◌∷◌, Perm}
use mathlib.Core.List.Perm
use Prim.Native.Nat.{suc}
use native.Mathlib.Omega.{arith}
use gb_522_l7o.Prelude.Tests.{if◌then◌else◌, Bool-cases}
use gb_522_l7o.Prelude.Lists.{All, length, count_if}

module _ {ℓ} {A : Type ℓ} (less : A → A → Bool) where
  -- The place of `x` in a sorted list: before the first element that `x` is less than.
  unfoldable pub insert_sorted : A → List A → List A
  insert_sorted x [] = x ∷ []
  insert_sorted x (y ∷ ys) =
      let rest = insert_sorted x ys in if less x y then x ∷ y ∷ ys else y ∷ rest

  unfoldable pub sort_slice : List A → List A
  unfolding insert_sorted
  sort_slice [] = []
  sort_slice (x ∷ xs) = insert_sorted x (sort_slice xs)

  -- No element is less than an earlier one.
  abbrev pub IsSorted : List A → Type ℓ
  IsSorted [] = Unit
  IsSorted (x ∷ xs) = All (λ y. less y x ≡ false) xs × IsSorted xs

  insert_sorted-perm : (x : A) (l : List A) → Perm (insert_sorted x l) (x ∷ l)
  unfolding insert_sorted
  insert_sorted-perm x [] = Perm.rfl
  insert_sorted-perm x (y ∷ ys) = elim (Bool-cases (less x y)) [
    | inl e ↦ rw e Perm.rfl
    | inr e ↦ rw e (Perm.trans (Perm.cons y (insert_sorted-perm x ys)) (Perm.swap x y ys))
  ]

  pub sort_slice-perm : (l : List A) → Perm (sort_slice l) l
  unfolding sort_slice
  sort_slice-perm [] = Perm.rfl
  sort_slice-perm (x ∷ xs) =
      Perm.trans (insert_sorted-perm x (sort_slice xs)) (Perm.cons x (sort_slice-perm xs))

  length-insert_sorted : (x : A) (l : List A) → length (insert_sorted x l) ≡ suc (length l)
  unfolding insert_sorted
  length-insert_sorted x [] = refl
  length-insert_sorted x (y ∷ ys) = ground (arith, length-insert_sorted x ys)

  pub length-sort_slice : (l : List A) → length (sort_slice l) ≡ length l
  unfolding sort_slice
  length-sort_slice [] = refl
  length-sort_slice (x ∷ xs) =
      omega (arith, length-insert_sorted x (sort_slice xs), length-sort_slice xs)

  insert_sorted-count_if :
      (p : A → Bool) (x : A) (l : List A) → count_if p (insert_sorted x l) ≡ count_if p (x ∷ l)
  unfolding insert_sorted
  insert_sorted-count_if p x [] = refl
  insert_sorted-count_if p x (y ∷ ys) = ground (arith, insert_sorted-count_if p x ys)

  pub count_if-sort_slice : (p : A → Bool) (l : List A) → count_if p (sort_slice l) ≡ count_if p l
  unfolding sort_slice
  count_if-sort_slice p [] = refl
  count_if-sort_slice p (x ∷ xs) =
      ground (arith, insert_sorted-count_if p x (sort_slice xs), count_if-sort_slice p xs)

  insert_sorted-All {κ} :
      (P : A → Type κ) (x : A) (l : List A) → P x → All P l → All P (insert_sorted x l)
  unfolding insert_sorted
  insert_sorted-All P x [] p h = (p, tt)
  insert_sorted-All P x (y ∷ ys) p h = elim (Bool-cases (less x y)) [
    | inl e ↦ rw e (p, h)
    | inr e ↦ rw e (h.0, insert_sorted-All P x ys p h.1)
  ]

  pub sort_slice-All {κ} : (P : A → Type κ) (l : List A) → All P l → All P (sort_slice l)
  unfolding sort_slice
  sort_slice-All P [] h = tt
  sort_slice-All P (x ∷ xs) h = insert_sorted-All P x (sort_slice xs) h.0 (sort_slice-All P xs h.1)

  -- What a comparison has to satisfy among the values of `P`: it is asymmetric, and "not less" is
  -- transitive.
  pub record IsOrder (P : A → Type 0) : Type ℓ where
    pub asym : (a b : A) → P a → P b → less a b ≡ true → less b a ≡ false
    pub trans :
        (a b c : A) → P a → P b → P c → less b a ≡ false → less c b ≡ false → less c a ≡ false

  All-not_less :
      {P : A → Type 0} (o : IsOrder P) (x y : A) (l : List A)
      → P x
      → P y
      → All P l
      → less y x ≡ false
      → All (λ z. less z y ≡ false) l
      → All (λ z. less z x ≡ false) l
  All-not_less o x y [] p q ps e h = tt
  All-not_less o x y (z ∷ l) p q ps e h =
      (o.trans x y z p q ps.0 e h.0, All-not_less o x y l p q ps.1 e h.1)

  insert_sorted-IsSorted :
      {P : A → Type 0} (o : IsOrder P) (x : A) (l : List A)
      → P x
      → All P l
      → IsSorted l
      → IsSorted (insert_sorted x l)
  unfolding insert_sorted
  insert_sorted-IsSorted o x [] p ps h = (tt, tt)
  insert_sorted-IsSorted o x (y ∷ ys) p ps h = elim (Bool-cases (less x y)) [
    | inl e ↦
        let below = o.asym x y p ps.0 e in
        rw e ((below, All-not_less o x y ys p ps.0 ps.1 below h.0), h)
    | inr e ↦ rw e (
      insert_sorted-All (λ z. less z y ≡ false) x ys e h.0,
      insert_sorted-IsSorted o x ys p ps.1 h.1,
    )
  ]

  pub sort_slice-IsSorted :
      {P : A → Type 0} (o : IsOrder P) (l : List A) → All P l → IsSorted (sort_slice l)
  unfolding sort_slice
  sort_slice-IsSorted o [] ps = tt
  sort_slice-IsSorted {P} o (x ∷ xs) ps =
      insert_sorted-IsSorted o x (sort_slice xs) ps.0 (sort_slice-All P xs ps.1)
        (sort_slice-IsSorted o xs ps.1)
