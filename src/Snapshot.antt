-- ===== src/Snapshot.antt =====
-- `snapshot` and `scrubSnapshot` of backend/internal/service/route_service.go, on the document that
-- `json.Marshal` and `json.Unmarshal` give for the value.
pub mod Redaction
use Prim.Native.Char.{code}
use Prim.Native.String.{String}
use gb_522_l7o.Prelude.{
  ℕ, ◌+◌, Bool, true, false, ◌&&◌, ◌||◌, List, [], ◌∷◌, map, if◌then◌else◌, leb, ltb, ◌==◌,
}
use gb_522_l7o.Strings.{codes}
use gb_522_l7o.Json.{Json, null, boolean, num, str, arr, obj, Items, nil, item, Fields, done, field}

abbrev is_prefix : List ℕ → List ℕ → Bool
is_prefix [] s = true
is_prefix (t ∷ token) [] = false
is_prefix (t ∷ token) (c ∷ s) = t == c && is_prefix token s

-- `strings.Contains`.
abbrev contains : List ℕ → List ℕ → Bool
contains [] token = is_prefix token []
contains (c ∷ s) token = is_prefix token (c ∷ s) || contains s token

-- The two `strings.ReplaceAll`.
abbrev underscored : ℕ → ℕ
underscored c = if c == b'-' || c == b' ' then b'_' else c

abbrev any_in : List ℕ → List String → Bool
any_in key [] = false
any_in key (t ∷ tokens) = contains key (codes t) || any_in key tokens

abbrev sensitive_tokens : List String
sensitive_tokens =
    "password" ∷ "passwd" ∷ "token" ∷ "authorization" ∷ "secret" ∷ "credential" ∷ "private_key"
    ∷ "apikey" ∷ "api_key" ∷ []

abbrev pub redacted : {F : Type 0} → Json F
redacted = str "[REDACTED]"

-- `lower_rune` is `unicode.ToLower`, outside ASCII.
module _ (lower_rune : ℕ → ℕ) where
  -- `strings.ToLower`, for one code point.
  unfoldable pub to_lower : ℕ → ℕ
  to_lower c = if leb b'A' c && leb c b'Z' then c + 32 else if ltb c 128 then c else lower_rune c

  unfoldable pub sensitive : String → Bool
  unfolding to_lower
  sensitive key = any_in (map (λ c. to_lower (underscored c)) (codes key)) sensitive_tokens

  module _ {F : Type 0} where
    unfoldable mutual
      -- `walk`.
      pub scrub : Json F → Json F
      scrub null = null
      scrub (boolean b) = boolean b
      scrub (num x) = num x
      scrub (str s) = str s
      scrub (arr xs) = arr (scrub_items xs)
      scrub (obj fs) = obj (scrub_fields fs)

      pub scrub_items : Items F → Items F
      scrub_items nil = nil
      scrub_items (item x xs) = item (scrub x) (scrub_items xs)

      pub scrub_fields : Fields F → Fields F
      scrub_fields done = done
      scrub_fields (field key child fs) =
          field key (if sensitive key then redacted else scrub child) (scrub_fields fs)
