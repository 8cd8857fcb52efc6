-- ===== src/Http/Inputs.antt =====
-- What a request is read as: `idParam` of backend/internal/handler/auth_handler.go, and the request id
-- of backend/internal/middleware/middleware.go.
use Prim.Native.Char.{Char, code}
use Prim.Native.String.{String, ◌++◌}
use gb_522_l7o.Prelude.{
  ℕ, zero, suc, ◌+◌, ◌*◌, ◌^◌, ◌<◌, ◌≤◌, ◌≡◌, refl, ap, ◌∙◌, true, false, not, ◌||◌, Bool-cases,
  some, Option-cases, List, [], ◌∷◌, length, ltb, ◌==◌, arith, inl, inr, ◌⊎◌, ◌&&◌, Bool, sym, All,
  if◌then◌else◌, ◌/◌, ◌%◌, ◌-◌,
}
use mathlib.Core.Option.{some-injective}
use gb_522_l7o.Strings.{
  is_space, is_empty, trim_right, trim_left, trim_space, is_digit, parse_digits, parse_uint,
  format_uint, byte_length,
}
use gb_522_l7o.Strings.Decimal.{parse_uint-format_uint}
use gb_522_l7o.Audit.{is_blank}
use gb_522_l7o.Http.{Program, Library, Server, Context, Handler, fail, id_param}
use gb_522_l7o.Http.Middleware.{has_text, hex_digit, char_at, hex_encode, choose_request_id}

-- The fields of a layout of `Time.Format` that are written with as many digits as they have: the year,
-- the month, the day, the hour, the minute and the second.
abbrev is_fixed_field : String → Bool
is_fixed_field s = has_text ("2006" ∷ "01" ∷ "02" ∷ "15" ∷ "04" ∷ "05" ∷ []) s

-- A text of the same form as another: a digit where that has a digit, else the same character.
abbrev pub SameForm : String → String → Type 0
SameForm String.[] String.[] = Unit
SameForm String.[] (String.◌∷◌ d t) = ⊥
SameForm (String.◌∷◌ c s) String.[] = ⊥
SameForm (String.◌∷◌ c s) (String.◌∷◌ d t) =
    (if is_digit c then is_digit d ≡ true else code c ≡ code d) × SameForm s t

abbrev joined : List String → String → String
joined [] rest = rest
joined (field ∷ fields) rest = field ++ joined fields rest

-- `rand.Read` fills its buffer or fails. `Time.Format` writes a layout of fixed fields and a fraction of
-- a second in the form of the layout.
pub record IsIdSource {F : Type 0} (library : Library F) : Type 0 where
  pub bytes :
      (size t : ℕ) (raw : List ℕ) → library.random_bytes size t ≡ some raw → length raw ≡ size
  pub stamp :
      (fields : List String) (t : ℕ)
      → All (λ field. is_fixed_field field ≡ true) fields
      → SameForm (joined fields ".000000") (library.format_timestamp (joined fields ".000000") t)

trim_right-cases : (s : String) → (is_empty (trim_right s) || not (is_blank (trim_right s))) ≡ true
unfolding is_blank
trim_right-cases String.[] = refl
trim_right-cases (String.◌∷◌ c s) = ground (arith, trim_right-cases s)

trim_space-is_blank :
    (s : String) → is_empty (trim_space s) ≡ false → is_blank (trim_space s) ≡ false
unfolding trim_space
trim_space-is_blank s h = ground (arith, trim_right-cases (trim_left s))

-- A hexadecimal digit is one byte and no space.
abbrev IsPlain : Char → Type 0
IsPlain c = (is_space (code c) ≡ false) × (ltb (code c) 0x80 ≡ true)

abbrev AllPlain : String → Type 0
AllPlain String.[] = Unit
AllPlain (String.◌∷◌ c s) = IsPlain c × AllPlain s

abbrev is_plain : String → Bool
is_plain String.[] = true
is_plain (String.◌∷◌ c s) = not (is_space (code c)) && (ltb (code c) 0x80 && is_plain s)

&&-true : (a b : Bool) → (a && b) ≡ true → (a ≡ true) × (b ≡ true)
&&-true true b h = (refl, h)
&&-true false b h = cc

not-true : (a : Bool) → not a ≡ true → a ≡ false
not-true true h = cc
not-true false h = refl

is_plain-AllPlain : (s : String) → is_plain s ≡ true → AllPlain s
is_plain-AllPlain String.[] h = tt
is_plain-AllPlain (String.◌∷◌ c s) h =
    let (first, rest) = &&-true (not (is_space (code c))) _ h in
    let (second, later) = &&-true (ltb (code c) 0x80) (is_plain s) rest in
    ((not-true (is_space (code c)) first, second), is_plain-AllPlain s later)

layout-AllPlain : AllPlain "20060102150405.000000"
layout-AllPlain = is_plain-AllPlain "20060102150405.000000" refl

char_at-IsPlain : (s : String) (i : ℕ) → AllPlain s → IsPlain (char_at s i)
char_at-IsPlain String.[] i h = (refl, refl)
char_at-IsPlain (String.◌∷◌ c s) zero h = h.0
char_at-IsPlain (String.◌∷◌ c s) (suc i) h = char_at-IsPlain s i h.1

hex_digit-IsPlain : (d : ℕ) → IsPlain (hex_digit d)
hex_digit-IsPlain d =
    char_at-IsPlain "0123456789abcdef" d (is_plain-AllPlain "0123456789abcdef" refl)

hex_encode-length : (raw : List ℕ) → byte_length (hex_encode raw) ≡ 2 * length raw
unfolding hex_encode
hex_encode-length [] = refl
hex_encode-length (b ∷ bs) =
    ground
      (arith, hex_encode-length bs, (hex_digit-IsPlain (b / 16)).1, (hex_digit-IsPlain (b % 16)).1)

hex_encode-is_blank : (raw : List ℕ) → 0 < length raw → is_blank (hex_encode raw) ≡ false
unfolding hex_encode is_blank
hex_encode-is_blank [] h = absurd (omega arith)
hex_encode-is_blank (b ∷ bs) h = ground (arith, (hex_digit-IsPlain (b / 16)).0)

-- The decimal digits 0 to 9, of codes 48 to 57, and the number that they are read as.
abbrev AllNumeric : String → Type 0
AllNumeric String.[] = Unit
AllNumeric (String.◌∷◌ c s) = (48 ≤ code c) × (code c ≤ 57) × AllNumeric s

abbrev value_from : ℕ → String → ℕ
value_from n String.[] = n
value_from n (String.◌∷◌ c s) = value_from (n * 10 + (code c - 48)) s

-- The text of an id: digits alone, at least one, that stand for a number from 1 to 2⁶⁴ - 1.
pub record IsIdText (s : String) (n : ℕ) : Type 0 where
  pub present : is_empty s ≡ false
  pub numeric : AllNumeric s
  pub value : value_from 0 s ≡ n
  pub positive : 0 < n
  pub small : n < 2 ^ 64

value_from-grows : (n : ℕ) (s : String) → n ≤ value_from n s
value_from-grows n String.[] = omega arith
value_from-grows n (String.◌∷◌ c s) = omega (arith, value_from-grows (n * 10 + (code c - 48)) s)

parse_digits-value :
    (largest n : ℕ) (s : String) (m : ℕ)
    → n ≤ largest
    → parse_digits largest n s ≡ some m
    → AllNumeric s × (value_from n s ≡ m) × (m ≤ largest)
unfolding parse_digits
parse_digits-value largest n String.[] m k h = (tt, ground arith, ground arith)
parse_digits-value largest n (String.◌∷◌ c s) m k h = elim (Bool-cases (is_digit c)) [
  | inl digit_next ↦ elim (Bool-cases (ltb largest (n * 10 + (code c - b'0')))) [
    | inl over ↦ absurd (ground arith)
    | inr within ↦
        let (rest, value, bound) =
          parse_digits-value largest (n * 10 + (code c - b'0')) s m (ground arith) (ground arith) in
        ((ground (arith, digit_next), ground (arith, digit_next), rest), value, bound)
  ]
  | inr other ↦ absurd (ground arith)
]

value_from-parse_digits :
    (largest n : ℕ) (s : String)
    → AllNumeric s
    → value_from n s ≤ largest
    → parse_digits largest n s ≡ some (value_from n s)
unfolding parse_digits
value_from-parse_digits largest n String.[] all k = refl
value_from-parse_digits largest n (String.◌∷◌ c s) (low, high, all) k =
    let next = n * 10 + (code c - 48) in
    ground
      (arith, low, high, value_from-grows next s, k, value_from-parse_digits largest next s all k)

-- A text of the same form has as many bytes as one of digits and points, and a digit is no blank.
SameForm-byte_length : (s t : String) → AllPlain s → SameForm s t → byte_length t ≡ byte_length s
SameForm-byte_length String.[] String.[] plain same = refl
SameForm-byte_length String.[] (String.◌∷◌ d t) plain same = absurd same
SameForm-byte_length (String.◌∷◌ c s) String.[] plain same = absurd same
SameForm-byte_length (String.◌∷◌ c s) (String.◌∷◌ d t) plain same =
    let first = same.0 in
    let small = plain.0.1 in
    let rest = SameForm-byte_length s t plain.1 same.1 in
    elim (Bool-cases (is_digit c)) [
      | inl digit_here ↦ let there = rw digit_here at first in ground (arith, small, rest, there)
      | inr other ↦ let there = rw other at first in ground (arith, small, rest, there)
    ]

SameForm-is_blank :
    (c : Char) (s t : String) → is_digit c ≡ true → SameForm (String.◌∷◌ c s) t → is_blank t ≡ false
unfolding is_blank
SameForm-is_blank c s String.[] digit_here same = absurd same
SameForm-is_blank c s (String.◌∷◌ d t) digit_here same =
    let first = same.0 in let there = rw digit_here at first in ground (arith, there)

-- The id of a request is never blank, so that no audit entry is refused for want of one, and it has at
-- most 80 bytes, the size of its column. The random bytes are as many as are asked for, and a time is
-- written in the form of its layout.
pub choose_request_id-IsPresent :
    {F : Type 0} (p : Program F) (sent : String) (t : ℕ)
    → IsIdSource p.library
    → (is_blank (choose_request_id p sent t) ≡ false)
      × (byte_length (choose_request_id p sent t) ≤ 80)
unfolding choose_request_id
choose_request_id-IsPresent p sent t source =
    let given = trim_space sent in
    elim (Bool-cases (is_empty given || ltb 80 (byte_length given))) [
      | inr used ↦ ground (arith, used, trim_space-is_blank sent (ground (arith, used)))
      | inl replaced ↦ elim (Option-cases (p.library.random_bytes 12 t)) [
        | inl none_read ↦
            let layout : String = "20060102150405.000000" in
            let form : SameForm layout (p.library.format_timestamp layout t) =
              source.stamp ("2006" ∷ "01" ∷ "02" ∷ "15" ∷ "04" ∷ "05" ∷ []) t
                (refl, (refl, (refl, (refl, (refl, (refl, tt)))))) in
            let shown =
              SameForm-is_blank "2" "0060102150405.000000" (p.library.format_timestamp layout t)
                refl form in
            let size = SameForm-byte_length layout _ layout-AllPlain form in
            ground (arith, replaced, none_read, shown, size)
        | inr (raw, read) ↦
            let full = source.bytes 12 t raw read in
            ground (
              arith,
              replaced,
              read,
              hex_encode-is_blank raw (omega (arith, full)),
              hex_encode-length raw,
              full,
            )
      ]
    ]

IsIdText-parse_uint : (s : String) (n : ℕ) → IsIdText s n → parse_uint s ≡ some n
unfolding parse_uint
IsIdText-parse_uint s n text =
    let bound = text.small in
    let value = text.value in
    let read =
      value_from-parse_digits (2 ^ 64 - 1) 0 s text.numeric (omega (arith, bound, value)) in
    rw text.present (read ∙ ap some value)

module _ {F : Type 0} where
  -- A handler with an id is run if the path's text is decimal digits alone that stand for a number from
  -- 1 to 2⁶⁴ - 1, and then on that number. The path of any other text, which is the text of no such
  -- number, is answered 400 and changes nothing.
  pub id_param-cases :
      (h : ℕ → Handler F) (c : Context) (s : Server F)
      → ((n : ℕ) × IsIdText c.id n × (id_param h c s ≡ h n c s))
        ⊎ (((n : ℕ) → ¬ IsIdText c.id n)
            × ((id_param h c s).0.status ≡ 400)
            × ((id_param h c s).1 ≡ s))
  unfolding id_param fail parse_uint
  id_param-cases h c s = elim (Option-cases (parse_uint c.id)) [
    | inl unread ↦ inr (
      λ n text. let read = IsIdText-parse_uint c.id n text in absurd (ground (arith, read, unread)),
      ground (arith, unread),
      ground (arith, unread),
    )
    | inr (n, read) ↦ elim (Bool-cases (n == 0)) [
      | inl zero_id ↦ inr (
        λ m text.
            let same : some m ≡ some n = sym (IsIdText-parse_uint c.id m text) ∙ read in
            let large = text.positive in
            absurd (ground (arith, some-injective m n same, zero_id, large)),
        ground (arith, read, zero_id),
        ground (arith, read, zero_id),
      )
      | inr positive ↦
          let present : is_empty c.id ≡ false = ground (arith, read) in
          let (all, value, bound) =
            parse_digits-value (2 ^ 64 - 1) 0 c.id n (omega arith) (ground (arith, read)) in
          inl (
            n,
            record {
              present = present;
              numeric = all;
              value = value;
              positive = ground (arith, positive);
              small = omega (arith, bound);
            },
            ground (arith, read, positive),
          )
    ]
  ]

  -- The path of a number from 1 to 2⁶⁴ - 1 is read as this number.
  pub id_param-format_uint :
      (h : ℕ → Handler F) (c : Context) (s : Server F) (n : ℕ)
      → c.id ≡ format_uint n
      → 0 < n
      → n < 2 ^ 64
      → id_param h c s ≡ h n c s
  unfolding id_param
  id_param-format_uint h c s n e positive small =
      let read : parse_uint c.id ≡ some n = ap parse_uint e ∙ parse_uint-format_uint n small in
      ground (arith, read)
