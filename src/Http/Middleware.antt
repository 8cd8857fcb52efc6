-- ===== src/Http/Middleware.antt =====
-- The middleware of backend/internal/middleware/middleware.go. `c.Next()` is a call of the rest of the
-- chain. A panic is answered by `RecoveryMiddleware`.
use Prim.Native.Char.{Char}
use Prim.Native.String.{String, ◌++◌}
use package.text.Mathlib.Text.{◌==◌ as str_eq}
use gb_522_l7o.Prelude.{
  ℕ, zero, suc, ◌-◌, ◌/◌, ◌%◌, ◌++◌ as append, Bool, false, ◌||◌, Option, none, some, List, [], ◌∷◌,
  if◌then◌else◌, ltb,
}
use gb_522_l7o.Strings.{is_empty, trim_space, after_prefix, byte_length}
use gb_522_l7o.Errors.{auth_required, forbidden, internal_error, ok, err}
use gb_522_l7o.Auth.{Claims, second, parse}
use gb_522_l7o.Middleware.RateLimiter.{RateLimiter, lookup, renew, allow}
use gb_522_l7o.Http.{
  Program, Server, Context, Answer, AccessLine, Handler, empty, failed, code_text,
}

-- Membership in the map that a list of keys is made into.
abbrev pub has_text : List String → String → Bool
has_text [] s = false
has_text (t ∷ ts) s = str_eq t s || has_text ts s

-- The character of a table at an index in range.
abbrev pub char_at : String → ℕ → Char
char_at String.[] i = "0"
char_at (String.◌∷◌ c s) zero = c
char_at (String.◌∷◌ c s) (suc i) = char_at s i

abbrev pub hex_digit : ℕ → Char
hex_digit d = char_at "0123456789abcdef" d

-- `hex.EncodeToString`.
unfoldable pub hex_encode : List ℕ → String
hex_encode [] = ""
hex_encode (b ∷ bs) =
    String.◌∷◌ (hex_digit (b / 16)) (String.◌∷◌ (hex_digit (b % 16)) (hex_encode bs))

module _ {F : Type 0} (p : Program F) where
  -- The id of a request: the one that the client sends, unless it is empty or too long.
  unfoldable pub choose_request_id : String → ℕ → String
  choose_request_id sent now =
      let given = trim_space sent in
      if is_empty given || ltb 80 (byte_length given)
      then elim (p.library.random_bytes 12 now) [
        | none ↦ p.library.format_timestamp "20060102150405.000000" now
        | some raw ↦ hex_encode raw
      ]
      else given

  abbrev with_header : String → String → Answer F → Answer F
  with_header name value answer = record answer { headers = (name, value) ∷ answer.headers }

  -- `RequestIDMiddleware`.
  unfoldable pub request_id : Handler F → Handler F
  request_id next c s =
      let id = choose_request_id (c.header "X-Request-ID") s.world.clock in
      let (answer, s') = next (record c { request_id = id }) s in
      (with_header "X-Request-ID" id answer, s')

  -- The line of a request, from when it started to when it was answered.
  abbrev pub access_line : Context → Answer F → ℕ → ℕ → AccessLine
  access_line c answer started ended = record {
    method = c.method;
    path = c.path;
    status = answer.status;
    bytes = p.library.written_size answer;
    latency_ms = (ended - started) / 1_000_000;
    client_ip = c.client_ip;
    request_id = c.request_id;
  }

  -- `AccessLogMiddleware`.
  unfoldable pub access_log : Handler F → Handler F
  access_log next c s =
      let (answer, s') = next c s in
      let line = access_line c answer s.world.clock s'.world.clock in
      (answer, record s' { access_lines = append s'.access_lines (line ∷ []) })

  abbrev pub unauthorized : Context → String → Answer F
  unauthorized c message = failed c 401 (code_text auth_required) message

  -- The keys that `AuthMiddleware` sets.
  abbrev pub signed_in : Claims → Context → Context
  signed_in claims c = record c {
    user_id = some claims.user_id;
    username = some claims.username;
    role = some claims.role;
  }

  -- The token that a header carries.
  unfoldable pub bearer : String → Option String
  bearer header = after_prefix "Bearer " (trim_space header)

  -- `AuthMiddleware`.
  unfoldable pub authenticate : Handler F → Handler F
  authenticate next c s = elim (bearer (c.header "Authorization")) [
    | none ↦ (unauthorized c "bearer token is required", s)
    | some token ↦
        let (r, w) = parse p.crypto p.auth p.env (trim_space token) s.world in
        elim r [
          | err e ↦ (unauthorized c "access token is invalid or expired", record s { world = w })
          | ok claims ↦ next (signed_in claims c) (record s { world = w })
        ]
  ]

  -- `RecoveryMiddleware`, of a panic.
  abbrev pub panicked : Context → Answer F
  panicked c = failed c 500 (code_text internal_error) "unexpected server error"

  -- `RBACMiddleware`. The assertion that the role is a string panics where none is set.
  unfoldable pub permit : List String → Handler F → Handler F
  permit roles next c s = elim c.role [
    | none ↦ (panicked c, s)
    | some role ↦
        if has_text roles role
        then next c s
        else (failed c 403 (code_text forbidden) "role is not permitted for this operation", s)
  ]

  -- The wait that `Allow` returns when it refuses.
  abbrev wait : String → ℕ → RateLimiter → ℕ
  wait key now l = (renew l.window now (lookup key l.visitors)).expires_at - now

  -- `RateLimitMiddleware`, on one of the limiters of the server.
  unfoldable pub rate_limit :
      (Server F → RateLimiter)
      → (RateLimiter → Server F → Server F)
      → String
      → Handler F
      → Handler F
  rate_limit limiter put scope next c s =
      let key = scope ++ ":" ++ c.client_ip in
      let now = s.world.clock in
      let (allowed, l) = allow key now (limiter s) in
      let s' = put l s in
      let rest = next c s' in
      if allowed then rest else (
        with_header "Retry-After" (p.library.format_duration (wait key now l / second))
            (failed c 429 "RATE_LIMITED" "request rate limit exceeded"),
        s',
      )

  abbrev allow_origin : String → Answer F → Answer F
  allow_origin origin answer = with_header "Access-Control-Allow-Origin" origin (
      with_header "Vary" "Origin" (
        with_header "Access-Control-Allow-Headers" "Authorization, Content-Type, X-Request-ID"
          (with_header "Access-Control-Allow-Methods" "GET, POST, PATCH, PUT, OPTIONS" answer)))

  -- `CORSMiddleware`.
  unfoldable pub cors : Handler F → Handler F
  cors next c s =
      let origin = c.header "Origin" in
      let rest = next c s in
      let (answer, s') =
        if str_eq c.method "OPTIONS"
        then (record { status = 204; headers = []; body = empty }, s)
        else rest in
      (if has_text p.origins origin then allow_origin origin answer else answer, s')
