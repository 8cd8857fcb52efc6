-- ===== src/Strings/Decimal.antt =====
-- Numbers written and read: strconv's `Itoa`, `ParseUint` and `Atoi`.
use Prim.Native.Char.{Char, code}
use Prim.Native.String.{String}
use gb_522_l7o.Prelude.{
  ℕ, zero, suc, ◌+◌, ◌*◌, ◌-◌, ◌/◌, ◌%◌, ◌^◌, ◌≤◌, ◌<◌, ◌≡◌, refl, subst, ◌∙◌, true, false, some,
  ◌==◌, arith, Bool-cases, inl, inr,
}
use gb_522_l7o.Prelude.Int.{pos}
use gb_522_l7o.Strings.{
  is_empty, is_space, is_digit, parse_digits, parse_uint, atoi, digit, digits_onto, format_uint,
  trim_left, trim_right, trim_space,
}

code-digit : (d : ℕ) → d < 10 → code (digit d) ≡ b'0' + d
code-digit zero h = refl
code-digit (suc zero) h = refl
code-digit (suc (suc zero)) h = refl
code-digit (suc (suc (suc zero))) h = refl
code-digit (suc (suc (suc (suc zero)))) h = refl
code-digit (suc (suc (suc (suc (suc zero))))) h = refl
code-digit (suc (suc (suc (suc (suc (suc zero)))))) h = refl
code-digit (suc (suc (suc (suc (suc (suc (suc zero))))))) h = refl
code-digit (suc (suc (suc (suc (suc (suc (suc (suc zero)))))))) h = refl
code-digit (suc (suc (suc (suc (suc (suc (suc (suc (suc zero))))))))) h = refl
code-digit (suc (suc (suc (suc (suc (suc (suc (suc (suc (suc d)))))))))) h = absurd (omega arith)

-- Reading one more digit.
parse_digits-digit :
    (largest n : ℕ) (s : String)
    → n ≤ largest
    → parse_digits largest (n / 10) (String.◌∷◌ (digit (n % 10)) s) ≡ parse_digits largest n s
unfolding parse_digits
parse_digits-digit largest n s k =
    let c : code (digit (n % 10)) ≡ b'0' + n % 10 = code-digit (n % 10) (omega arith) in
    let next : n / 10 * 10 + (b'0' + n % 10 - b'0') ≡ n = omega arith in rw (c, next) (ground arith)

-- Reading the digits of a number and then the rest is going on from the number.
parse_digits-digits_onto :
    (largest fuel n : ℕ) (s : String)
    → n < fuel
    → n ≤ largest
    → parse_digits largest 0 (digits_onto fuel n s) ≡ parse_digits largest n s
unfolding digits_onto
parse_digits-digits_onto largest zero n s h k = absurd (omega arith)
parse_digits-digits_onto largest (suc fuel) n s h k = elim (Bool-cases (n / 10 == 0)) [
  | inl last ↦ rw last (
      subst
        (λ (z : ℕ).
          parse_digits largest z (String.◌∷◌ (digit (n % 10)) s) ≡ parse_digits largest n s)
        {x = n / 10} (ground arith) (parse_digits-digit largest n s k))
  | inr more ↦ rw more (
      parse_digits-digits_onto largest fuel (n / 10) (String.◌∷◌ (digit (n % 10)) s) (ground arith)
        (omega arith)
      ∙ parse_digits-digit largest n s k)
]

-- Digits alone.
abbrev AllDigits : String → Type 0
AllDigits String.[] = Unit
AllDigits (String.◌∷◌ c s) = (is_digit c ≡ true) × AllDigits s

is_digit-digit : (d : ℕ) → d < 10 → is_digit (digit d) ≡ true
is_digit-digit d h = let c = code-digit d h in rw c (ground arith)

digits_onto-AllDigits :
    (fuel n : ℕ) (s : String)
    → n < fuel
    → AllDigits s
    → AllDigits (digits_onto fuel n s) × (is_empty (digits_onto fuel n s) ≡ false)
unfolding digits_onto
digits_onto-AllDigits zero n s h all = absurd (omega arith)
digits_onto-AllDigits (suc fuel) n s h all =
    let d = is_digit-digit (n % 10) (omega arith) in
    elim (Bool-cases (n / 10 == 0)) [
      | inl last ↦ rw last ((d, all), refl)
      | inr more ↦ rw more (
          digits_onto-AllDigits fuel (n / 10) (String.◌∷◌ (digit (n % 10)) s) (ground arith)
            (d, all))
    ]

format_uint-AllDigits : (n : ℕ) → AllDigits (format_uint n) × (is_empty (format_uint n) ≡ false)
unfolding format_uint
format_uint-AllDigits n = digits_onto-AllDigits (suc n) n "" (omega arith) tt

parse_digits-format_uint :
    (largest n : ℕ) → n ≤ largest → parse_digits largest 0 (format_uint n) ≡ some n
unfolding format_uint parse_digits
parse_digits-format_uint largest n k = parse_digits-digits_onto largest (suc n) n "" (omega arith) k

-- A number that fits into 64 bits is read back as it was written.
pub parse_uint-format_uint : (n : ℕ) → n < 2 ^ 64 → parse_uint (format_uint n) ≡ some n
unfolding parse_uint
parse_uint-format_uint n h =
    rw (format_uint-AllDigits n).1 (parse_digits-format_uint (2 ^ 64 - 1) n (omega arith))

is_digit-not_space : (c : Char) → is_digit c ≡ true → is_space (code c) ≡ false
is_digit-not_space c h = ground arith

trim_left-AllDigits : (s : String) → AllDigits s → trim_left s ≡ s
trim_left-AllDigits String.[] all = refl
trim_left-AllDigits (String.◌∷◌ c s) all = rw (is_digit-not_space c all.0)

trim_right-AllDigits : (s : String) → AllDigits s → trim_right s ≡ s
trim_right-AllDigits String.[] all = refl
trim_right-AllDigits (String.◌∷◌ c s) all =
    rw (trim_right-AllDigits s all.1, is_digit-not_space c all.0) (ground arith)

atoi-AllDigits :
    (s : String) (n : ℕ)
    → AllDigits s
    → is_empty s ≡ false
    → parse_digits (2 ^ 63 - 1) 0 s ≡ some n
    → atoi s ≡ some (pos n)
unfolding atoi
atoi-AllDigits String.[] n all e h = cc
atoi-AllDigits (String.◌∷◌ c s) n all e h = rw h (ground (arith, all.0))

-- A number that fits into an `int` and is not negative is read back as it was written, also with
-- spaces taken off.
pub atoi-format_uint :
    (n : ℕ)
    → n < 2 ^ 63
    → (atoi (trim_space (format_uint n)) ≡ some (pos n))
      × (trim_space (format_uint n) ≡ format_uint n)
unfolding trim_space
atoi-format_uint n h =
    let (all, nonempty) = format_uint-AllDigits n in
    let trimmed : trim_right (trim_left (format_uint n)) ≡ format_uint n =
      rw (trim_left-AllDigits (format_uint n) all) (trim_right-AllDigits (format_uint n) all) in
    (
      rw trimmed (
          atoi-AllDigits (format_uint n) n all nonempty
            (parse_digits-format_uint (2 ^ 63 - 1) n (omega arith))),
      trimmed,
    )
