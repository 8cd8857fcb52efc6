-- ===== src/Float/Defs.antt =====
-- The type `float64` and its operations are a parameter of the model: a `Float` names the
-- operations of the language and of the package `math`, and `IsFloat` facts about them that hold
-- of IEEE 754 numbers, NaN and the infinities included. The child Fixed meets them.
use gb_522_l7o.Prelude.{ℕ, ◌≡◌, Bool, true, false, not, ◌&&◌, ◌||◌, ◌⊎◌, arith}
use gb_522_l7o.Prelude.Sort.{IsOrder}

-- `lit m d` is the constant m / 10^d, and `of_ℕ` the conversion `float64(n)`.
pub record Float (F : Type 0) : Type 0 where
  pub lit : ℕ → ℕ → F
  pub of_ℕ : ℕ → F
  pub max_float : F
  pub neg : F → F
  pub add : F → F → F
  pub sub : F → F → F
  pub mul : F → F → F
  pub div : F → F → F
  pub abs : F → F
  pub nearest : F → F
  pub copysign : F → F → F
  pub fmax : F → F → F
  pub fmin : F → F → F
  pub eq : F → F → Bool
  pub lt : F → F → Bool
  pub le : F → F → Bool
  pub is_nan : F → Bool
  pub is_inf : F → Bool

-- The order of IEEE 754: NaN is the value that is not below itself, and the order is total away
-- from it. `max` and `min` return a bound of two numbers.
pub record IsFloat (F : Type 0) ⦃f : Float F⦄ : Type 0 where
  pub nan-le_self : (x : F) → f.is_nan x ≡ not (f.le x x)
  pub le_numbers : (x y : F) → f.le x y ≡ true → (f.is_nan x ≡ false) × (f.is_nan y ≡ false)
  pub le_trans : (x y z : F) → f.le x y ≡ true → f.le y z ≡ true → f.le x z ≡ true
  pub le_total :
      (x y : F) → f.is_nan x ≡ false → f.is_nan y ≡ false → (f.le x y ≡ true) ⊎ (f.le y x ≡ true)
  pub lt-le : (x y : F) → f.lt x y ≡ (f.le x y && not (f.le y x))
  pub eq-le : (x y : F) → f.eq x y ≡ (f.le x y && f.le y x)
  pub le-fmax :
      (x y : F)
      → f.is_nan x ≡ false
      → f.is_nan y ≡ false
      → (f.le x (f.fmax x y) ≡ true) × (f.le y (f.fmax x y) ≡ true)
  pub fmin-le :
      (x y : F)
      → f.is_nan x ≡ false
      → f.is_nan y ≡ false
      → (f.le (f.fmin x y) x ≡ true) × (f.le (f.fmin x y) y ≡ true)
  pub nearest_mono : (x y : F) → f.le x y ≡ true → f.le (f.nearest x) (f.nearest y) ≡ true

module _ {F : Type 0} ⦃f : Float F⦄ where
  -- The order of `sort.Float64s`: NaN stands before every number.
  abbrev pub float_less : F → F → Bool
  float_less x y = f.lt x y || (f.is_nan x && not (f.is_nan y))

  module _ (laws : IsFloat F) where
    pub float_less-IsOrder : IsOrder float_less (λ x. Unit)
    float_less-IsOrder = record {
      asym = λ a b _ _ h.
          ground (arith, laws.lt-le a b, laws.lt-le b a, laws.le_numbers a b, laws.le_numbers b a);
      trans = λ a b c _ _ _ h k. ground (
        arith,
        laws.lt-le b a,
        laws.lt-le c b,
        laws.lt-le c a,
        laws.le_total a b,
        laws.le_total b c,
        laws.le_trans a b c,
        laws.le_numbers c a,
        laws.le_numbers b a,
        laws.le_numbers c b,
      );
    }

    -- What is not less than a number is, if it is a number, above or equal to it.
    pub le-of_not_lt :
        (x y : F) → f.is_nan x ≡ false → f.is_nan y ≡ false → f.lt x y ≡ false → f.le y x ≡ true
    le-of_not_lt x y p q h = ground (arith, laws.lt-le x y, laws.le_total x y)
