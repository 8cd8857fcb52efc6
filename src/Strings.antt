-- ===== src/Strings.antt =====
-- What the program uses of Go's packages strings and strconv, on texts as lists of runes.
pub mod Decimal
use Prim.Native.Char.{Char, code}
use Prim.Native.String.{String}
use text.Mathlib.Text.{◌==◌ as str_eq}
use gb_522_l7o.Prelude.{
  ℕ, suc, zero, ◌+◌, ◌*◌, ◌-◌, ◌/◌, ◌%◌, ◌^◌, Bool, true, false, not, ◌&&◌, ◌||◌, Option, none,
  some, List, [], ◌∷◌, if◌then◌else◌, leb, ltb, ◌==◌,
}
use gb_522_l7o.Prelude.Int.{ℤ, pos, negsuc}

-- The code points of a text.
abbrev pub codes : String → List ℕ
codes String.[] = []
codes (String.◌∷◌ c s) = code c ∷ codes s

-- `unicode.IsSpace`.
abbrev pub is_space : ℕ → Bool
is_space c =
    (leb 9 c && leb c 13)
    || c == 32
    || c == 0x85
    || c == 0xa0
    || c == 0x1680
    || (leb 0x2000 c && leb c 0x200a)
    || c == 0x2028
    || c == 0x2029
    || c == 0x202f
    || c == 0x205f
    || c == 0x3000

abbrev pub is_empty : String → Bool
is_empty String.[] = true
is_empty (String.◌∷◌ c s) = false

-- `strings.TrimSpace`.
abbrev pub trim_left : String → String
trim_left String.[] = ""
trim_left (String.◌∷◌ c s) =
    let rest = trim_left s in if is_space (code c) then rest else String.◌∷◌ c s

abbrev pub trim_right : String → String
trim_right String.[] = ""
trim_right (String.◌∷◌ c s) =
    let rest = trim_right s in if is_empty rest && is_space (code c) then "" else String.◌∷◌ c rest

unfoldable pub trim_space : String → String
trim_space s = trim_right (trim_left s)

-- `strings.ToUpper`, by the table of `unicode.ToUpper`.
unfoldable pub to_upper : (Char → Char) → String → String
to_upper upper_rune String.[] = ""
to_upper upper_rune (String.◌∷◌ c s) = String.◌∷◌ (upper_rune c) (to_upper upper_rune s)

-- The bytes of a text in UTF-8, as `len` counts them.
abbrev pub byte_length : String → ℕ
byte_length String.[] = 0
byte_length (String.◌∷◌ c s) =
    let rest = byte_length s in
    if ltb (code c) 0x80
    then 1 + rest
    else if ltb (code c) 0x800
    then 2 + rest
    else if ltb (code c) 0x10000
    then 3 + rest
    else 4 + rest

-- `strings.ToLower`, by the table of `unicode.ToLower`.
unfoldable pub to_lower : (Char → Char) → String → String
to_lower lower_rune String.[] = ""
to_lower lower_rune (String.◌∷◌ c s) = String.◌∷◌ (lower_rune c) (to_lower lower_rune s)

-- `strings.Split(s, ",")`.
abbrev before_first : Char → List String → List String
before_first c [] = []
before_first c (part ∷ parts) = String.◌∷◌ c part ∷ parts

unfoldable pub split_commas : String → List String
split_commas String.[] = "" ∷ []
split_commas (String.◌∷◌ c s) =
    let rest = split_commas s in if code c == b',' then "" ∷ rest else before_first c rest

-- `strconv.ParseBool`, with its error as `none`.
unfoldable pub parse_bool : String → Option Bool
parse_bool s =
    if str_eq s "1"
      || str_eq s "t"
      || str_eq s "T"
      || str_eq s "true"
      || str_eq s "TRUE"
      || str_eq s "True"
    then some true
    else if str_eq s "0"
        || str_eq s "f"
        || str_eq s "F"
        || str_eq s "false"
        || str_eq s "FALSE"
        || str_eq s "False"
    then some false
    else none

-- `strings.HasPrefix(s, p)` and `strings.TrimPrefix(s, p)` in one: what follows the prefix.
unfoldable pub after_prefix : String → String → Option String
after_prefix String.[] s = some s
after_prefix (String.◌∷◌ p ps) String.[] = none
after_prefix (String.◌∷◌ p ps) (String.◌∷◌ c s) =
    let rest = after_prefix ps s in if code p == code c then rest else none

abbrev pub is_digit : Char → Bool
is_digit c = leb b'0' (code c) && leb (code c) b'9'

-- The loop of `strconv.ParseUint` in base 10, up to the largest number that fits. Its two errors,
-- of syntax and of range, are `none`.
unfoldable pub parse_digits : ℕ → ℕ → String → Option ℕ
parse_digits largest n String.[] = some n
parse_digits largest n (String.◌∷◌ c s) =
    let next = n * 10 + (code c - b'0') in
    let rest = parse_digits largest next s in
    if is_digit c then (if ltb largest next then none else rest) else none

-- `strconv.ParseUint(s, 10, 64)`.
unfoldable pub parse_uint : String → Option ℕ
parse_uint s = if is_empty s then none else parse_digits (2 ^ 64 - 1) 0 s

abbrev positive : ℕ → ℤ
positive n = pos n

abbrev opposite_of : ℕ → ℤ
opposite_of zero = pos 0
opposite_of (suc n) = negsuc n

abbrev signed_digits : (ℕ → ℤ) → ℕ → String → Option ℤ
signed_digits sign largest s =
    if is_empty s
    then none
    else elim (parse_digits largest 0 s) [ none ↦ none | some n ↦ some (sign n) ]

-- `strconv.Atoi`, of a 64-bit int.
unfoldable pub atoi : String → Option ℤ
atoi String.[] = none
atoi (String.◌∷◌ c s) =
    if code c == b'-'
    then signed_digits opposite_of (2 ^ 63) s
    else if code c == b'+'
    then signed_digits positive (2 ^ 63 - 1) s
    else signed_digits positive (2 ^ 63 - 1) (String.◌∷◌ c s)

-- The digit of a number below ten.
abbrev pub digit : ℕ → Char
digit d =
    if d == 0
    then "0"
    else if d == 1
    then "1"
    else if d == 2
    then "2"
    else if d == 3
    then "3"
    else if d == 4
    then "4"
    else if d == 5
    then "5"
    else if d == 6
    then "6"
    else if d == 7
    then "7"
    else if d == 8
    then "8"
    else "9"

-- The digits of `n` before `s`; a number has fewer digits than its successor counts.
unfoldable pub digits_onto : ℕ → ℕ → String → String
digits_onto zero n s = s
digits_onto (suc fuel) n s =
    let longer = String.◌∷◌ (digit (n % 10)) s in
    let rest = digits_onto fuel (n / 10) longer in if n / 10 == 0 then longer else rest

-- A number in decimal: `fmt.Sprint`, `%d` and `strconv.Itoa`, not below zero.
unfoldable pub format_uint : ℕ → String
unfolding digits_onto
format_uint n = digits_onto (suc n) n ""

unfoldable pub format_int : ℤ → String
format_int (pos n) = format_uint n
format_int (negsuc n) = String.◌∷◌ "-" (format_uint (n + 1))
