-- ===== src/Tests/Tokens.antt =====
-- Runs of the login and of the tokens on the database in memory, with a signature that knows one token.
use Prim.Native.String.{String}
use package.text.Mathlib.Text.{◌==◌ as str_eq}
use package.text.Mathlib.TextEquality.{eq_iff}
use gb_522_l7o.Prelude.{
  ℕ, ◌+◌, ◌*◌, ◌/◌, ◌<◌, ◌≤◌, ◌≡◌, refl, sym, subst, ap, Bool, true, false, ◌&&◌, none, some, [],
  ◌∷◌, if◌then◌else◌, ltb, ◌==◌, arith, Bool-cases, inl, inr,
}
use gb_522_l7o.Errors.{external, Result, ok, err}
use gb_522_l7o.Float.Fixed.{Fixed, fixed_float}
use gb_522_l7o.Model.{User}
use gb_522_l7o.Database.{World, ◌>>=◌, pure, on_error, lift, now, yield_to_others}
use gb_522_l7o.Auth.{
  Crypto, IsJwt, AuthService, Claims, SigningMethod, hs256, other_method, LoginRequest,
  LoginResponse, second, find_by_username, find_by_id, issue, login, token_claims, parse,
}
use gb_522_l7o.Strings.{format_uint, digits_onto}
use gb_522_l7o.Auth.Session.{IsAccepted, parse-IsAccepted, login-parse}
use gb_522_l7o.Algorithm.Detect.Pipeline.{Result-cases}
use gb_522_l7o.Tests.Store.{store, store-IsUserEnv}
use gb_522_l7o.Tests.Workflow.{settled, item_of}

abbrev the_claims : Claims
the_claims = record {
  user_id = 7;
  username = "rita";
  role = "reviewer";
  subject = "7";
  issued_at = 0;
  expires_at = 28_800_000_000_000;
  not_before = 0;
}

abbrev the_secret : String
the_secret = "a secret of at least thirty-two bytes"

abbrev is_the_claims : Claims → Bool
is_the_claims c =
    c.user_id == 7
    && str_eq c.username "rita"
    && str_eq c.role "reviewer"
    && str_eq c.subject "7"
    && c.issued_at == 0
    && c.expires_at == 28_800_000_000_000
    && c.not_before == 0

abbrev sign_one : SigningMethod → String → Claims → Result String
sign_one hs256 key c =
    if is_the_claims c && str_eq key the_secret then ok "tok" else err (external "key")
sign_one (other_method name) key c = err (external "method")

abbrev parse_one : ℕ → String → (SigningMethod → Result String) → Result (Bool × Claims)
parse_one t token key_for = elim (key_for hs256) [
  | err e ↦ err e
  | ok key ↦
      if str_eq token "tok" && str_eq key the_secret && ltb t 28_800_000_000_000
      then ok (true, the_claims)
      else err (external "signature")
]

abbrev is_signed_one : SigningMethod → String → String → Bool
is_signed_one hs256 key token = str_eq token "tok" && str_eq key the_secret
is_signed_one (other_method name) key token = false

abbrev pub crypto : Crypto
crypto = record {
  numeric_date = λ t. t / second * second;
  sign = sign_one;
  parse = parse_one;
  is_signed = is_signed_one;
  compare_hash = λ hash password. if str_eq hash password then none else some (external "mismatch");
}

is_the_claims-same : (c : Claims) → is_the_claims c ≡ true → c ≡ the_claims
is_the_claims-same c h =
    ground (arith, eq_iff c.username "rita", eq_iff c.role "reviewer", eq_iff c.subject "7")

sign_one-parse_one :
    (t : ℕ) (method : SigningMethod) (key token : String) (claims : Claims)
    (key_for : SigningMethod → Result String)
    → sign_one method key claims ≡ ok token
    → key_for method ≡ ok key
    → claims.not_before ≤ t
    → t < claims.expires_at
    → parse_one t token key_for ≡ ok (true, claims)
sign_one-parse_one t hs256 key token claims key_for signed k after before =
    elim (Bool-cases (is_the_claims claims && str_eq key the_secret)) [
      | inr bad ↦ absurd (ground arith)
      | inl good ↦
          let same = is_the_claims-same claims (ground arith) in
          let end : claims.expires_at ≡ 28_800_000_000_000 = ap (λ c. c.expires_at) same in
          subst (λ c. parse_one t token key_for ≡ ok (true, c)) (sym same)
            (ground (arith, k, end, eq_iff token "tok"))
    ]
sign_one-parse_one t (other_method name) key token claims key_for signed k after before =
    absurd (ground arith)

parse_one-verified :
    (t : ℕ) (token : String) (key_for : SigningMethod → Result String) (claims : Claims)
    → parse_one t token key_for ≡ ok (true, claims)
    → (method : SigningMethod) × (key : String) × (key_for method ≡ ok key)
      × (is_signed_one method key token ≡ true)
      × (claims.not_before ≤ t)
      × (t < claims.expires_at)
parse_one-verified t token key_for claims h = elim (Result-cases (key_for hs256)) [
  | inr (e, q) ↦ absurd (ground arith)
  | inl (key, k) ↦
      elim (Bool-cases (str_eq token "tok" && str_eq key the_secret && ltb t 28_800_000_000_000)) [
        | inr bad ↦ absurd (ground arith)
        | inl good ↦
            let same : the_claims ≡ claims = ground (arith, k, good) in
            (
              hs256,
              key,
              k,
              ground arith,
              subst (λ c. c.not_before ≤ t) same (omega arith),
              subst (λ c. t < c.expires_at) same (ground arith),
            )
      ]
]

pub crypto-IsJwt : IsJwt crypto
crypto-IsJwt = record {
  date_before = λ t. omega arith;
  date_after = λ t. omega arith;
  accepted = sign_one-parse_one;
  verified = parse_one-verified;
}

abbrev pub rita : User
rita = record {
  id = 7;
  username = "rita";
  password_hash = "password";
  display_name = "Rita";
  role = "reviewer";
  active = true;
  created_at = 0;
}

-- A case that is confirmed, at version 4, and a reviewer with an account.
abbrev pub staffed : World Fixed
staffed = record settled { users = rita ∷ [] }

abbrev pub service : AuthService
service = record { secret = the_secret; ttl = 28_800_000_000_000 }

abbrev login_request : LoginRequest
login_request = record { username = "rita"; password = "password" }

abbrev logged_in : Result LoginResponse × World Fixed
logged_in = login crypto service store login_request staffed

abbrev response : LoginResponse
response =
    item_of
      (record {
        token = "";
        expires_at = 0;
        user = record { id = 0; username = ""; display_name = ""; role = "" };
      })
      logged_in.0

login_done : logged_in.0 ≡ ok response
unfolding login issue find_by_username ◌>>=◌ pure on_error lift now yield_to_others format_uint
    digits_onto
login_done = refl

login_clock : logged_in.1.clock ≤ 1000
unfolding login issue find_by_username ◌>>=◌ pure on_error lift now yield_to_others format_uint
    digits_onto
login_clock = omega arith

login_end : 1000 + second ≤ response.expires_at
unfolding login issue find_by_username ◌>>=◌ pure on_error lift now yield_to_others format_uint
    digits_onto
login_end = omega arith

abbrev later : World Fixed
later = record staffed { clock = 1000 }

rita_found : (find_by_id store response.user.id (store.others later)).0 ≡ ok rita
unfolding login issue find_by_username find_by_id ◌>>=◌ pure on_error lift now yield_to_others
    format_uint digits_onto
rita_found = refl

login-parse_example :
    (claims : Claims) × ((parse crypto service store response.token later).0 ≡ ok claims)
    × (claims.user_id ≡ response.user.id)
    × (claims.username ≡ rita.username)
    × (claims.role ≡ rita.role)
login-parse_example =
    login-parse crypto service store login_request staffed later response rita crypto-IsJwt
      (λ v. omega arith) login_done login_clock login_end rita_found

parse_done : (parse crypto service store "tok" later).0 ≡ ok the_claims
unfolding parse token_claims find_by_id ◌>>=◌ pure on_error yield_to_others
parse_done = refl

parse-IsAccepted_example : IsAccepted crypto service store "tok" later the_claims
parse-IsAccepted_example =
    parse-IsAccepted crypto service store "tok" later the_claims crypto-IsJwt store-IsUserEnv
      parse_done
