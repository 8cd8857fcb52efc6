-- ===== src/Float/Fixed.antt =====
-- Fixed-point numbers with twelve decimals and a NaN: they meet the facts that the theorems use,
-- and the runs and examples of the development compute with them.
use gb_522_l7o.Prelude.{
  ℕ, zero, suc, ◌+◌, ◌*◌, ◌/◌, ◌^◌, Bool, true, false, not, ◌&&◌, ◌||◌, Option, none, some, arith,
  if◌then◌else◌, ◌==◌,
}
use gb_522_l7o.Prelude.Int.{ℤ, pos, negsuc, pos_part, neg_part, leb_ℤ, ltb_ℤ, eqb_ℤ, ◌+ℤ◌, ◌-ℤ◌}
use gb_522_l7o.Float.Defs.{Float, IsFloat}

abbrev pub Fixed : Type 0
Fixed = Option ℤ

abbrev scale : ℕ
scale = 1_000_000_000_000

abbrev mag : ℤ → ℕ
mag z = pos_part z + neg_part z

abbrev is_neg : ℤ → Bool
is_neg (pos n) = false
is_neg (negsuc n) = true

abbrev opposite : ℕ → ℤ
opposite zero = pos 0
opposite (suc n) = negsuc n

abbrev signed : Bool → ℕ → ℤ
signed b n = if b then opposite n else pos n

abbrev lift_one : (ℤ → ℤ) → Fixed → Fixed
lift_one g none = none
lift_one g (some a) = some (g a)

abbrev lift_two : (ℤ → ℤ → Fixed) → Fixed → Fixed → Fixed
lift_two g (some a) (some b) = g a b
lift_two g _ _ = none

abbrev on_numbers : (ℤ → ℤ → Bool) → Fixed → Fixed → Bool
on_numbers g (some a) (some b) = g a b
on_numbers g _ _ = false

abbrev differ : Bool → Bool → Bool
differ a b = (a && not b) || (not a && b)

instance abbrev pub fixed_float : Float Fixed
fixed_float = record {
  lit = λ m d. some (pos (m * scale / 10 ^ d));
  of_ℕ = λ n. some (pos (n * scale));
  max_float = some (pos (10 ^ 40));
  neg = lift_one (λ a. signed (not (is_neg a)) (mag a));
  add = lift_two (λ a b. some (a +ℤ b));
  sub = lift_two (λ a b. some (a -ℤ b));
  mul = lift_two (λ a b. some (signed (differ (is_neg a) (is_neg b)) (mag a * mag b / scale)));
  div = lift_two (λ a b.
      if mag b == 0
      then none
      else some (signed (differ (is_neg a) (is_neg b)) (mag a * scale / mag b)));
  abs = lift_one (λ a. pos (mag a));
  nearest = lift_one (λ a. signed (is_neg a) ((mag a + 500_000_000_000) / scale * scale));
  copysign = lift_two (λ a b. some (signed (is_neg b) (mag a)));
  fmax = lift_two (λ a b. some (if leb_ℤ a b then b else a));
  fmin = lift_two (λ a b. some (if leb_ℤ a b then a else b));
  eq = on_numbers eqb_ℤ;
  lt = on_numbers ltb_ℤ;
  le = on_numbers leb_ℤ;
  is_nan = λ x. elim x [ none ↦ true | some _ ↦ false ];
  is_inf = λ _. false;
}

-- A literal of the tests: `fixed m d` is m / 10^d.
abbrev pub fixed : ℕ → ℕ → Fixed
fixed = fixed_float.lit

pub Fixed-IsFloat : IsFloat Fixed
Fixed-IsFloat = record {
  nan-le_self = λ x. ground arith;
  le_numbers = λ x y h. ground arith;
  le_trans = λ x y z h k. ground arith;
  le_total = λ x y h k. ground arith;
  lt-le = λ x y. ground arith;
  eq-le = λ x y. ground arith;
  le-fmax = λ x y h k. ground arith;
  fmin-le = λ x y h k. ground arith;
  nearest_mono = λ x y h. ground arith;
}
