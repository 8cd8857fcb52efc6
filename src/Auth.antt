-- ===== src/Auth.antt =====
-- Accounts: `AuthService` of backend/internal/service/auth_service.go and `UserRepository` of
-- backend/internal/repository/user_repository.go. What the packages jwt and bcrypt do is a parameter
-- (`Crypto`); `IsJwt` states what is relied on of signed tokens.
pub mod Session
pub mod Seed
pub mod Seeded
use Prim.Native.String.{String}
use package.text.Mathlib.Text.{◌==◌ as str_eq}
use gb_522_l7o.Prelude.{
  ℕ, ◌+◌, ◌*◌, ◌≤◌, ◌<◌, ◌≡◌, Bool, true, false, not, ◌&&◌, Option, none, some, List, [], ◌∷◌,
  if◌then◌else◌, ◌==◌,
}
use gb_522_l7o.Strings.{format_uint}
use gb_522_l7o.Errors.{
  Error, nil, text, wrap, not_found, app, auth_required, Result, ok, err, is_not_found,
  is_record_not_found, internal,
}
use gb_522_l7o.Model.{User}
use gb_522_l7o.Database.{
  World, Env, M, ◌>>=◌, ◌>>◌, pure, raise, on_error, attempt, now, lift, yield_to_others,
}

-- `dto.LoginRequest`, after binding and validation, `dto.UserView` and `dto.LoginResponse`.
pub record LoginRequest : Type 0 where
  pub username : String
  pub password : String

pub record UserView : Type 0 where
  pub id : ℕ
  pub username : String
  pub display_name : String
  pub role : String

pub record LoginResponse : Type 0 where
  pub token : String
  pub expires_at : ℕ
  pub user : UserView

-- `Claims`, with the registered claims that are set. Their dates are times.
pub record Claims : Type 0 where
  pub user_id : ℕ
  pub username : String
  pub role : String
  pub subject : String
  pub issued_at : ℕ
  pub expires_at : ℕ
  pub not_before : ℕ

-- The signing method that a token names.
pub data SigningMethod : Type 0 where
  hs256 : SigningMethod
  other_method : String → SigningMethod

-- `AuthService`, less its store.
pub record AuthService : Type 0 where
  pub secret : String
  pub ttl : ℕ

-- `jwt.NewNumericDate`; `SignedString`; `jwt.ParseWithClaims` at a time, with the function that gives
-- the key for a method: the token's `Valid` and its claims; whether a token carries a signature by a
-- method and a key; `bcrypt.CompareHashAndPassword` of a hash and a password, with nil as `none`.
pub record Crypto : Type 0 where
  pub numeric_date : ℕ → ℕ
  pub sign : SigningMethod → String → Claims → Result String
  pub parse : ℕ → String → (SigningMethod → Result String) → Result (Bool × Claims)
  pub is_signed : SigningMethod → String → String → Bool
  pub compare_hash : String → String → Option Error

abbrev pub second : ℕ
second = 1_000_000_000

-- A date is cut to the second. A token that was signed is parsed back with the same key from its
-- `nbf` on until its `exp`, and what is parsed as valid is signed with the key that was asked for and
-- within these times.
pub record IsJwt (crypto : Crypto) : Type 0 where
  pub date_before : (t : ℕ) → crypto.numeric_date t ≤ t
  pub date_after : (t : ℕ) → t < crypto.numeric_date t + second
  pub accepted :
      (t : ℕ) (method : SigningMethod) (key token : String) (claims : Claims)
      (key_for : SigningMethod → Result String)
      → crypto.sign method key claims ≡ ok token
      → key_for method ≡ ok key
      → claims.not_before ≤ t
      → t < claims.expires_at
      → crypto.parse t token key_for ≡ ok (true, claims)
  pub verified :
      (t : ℕ) (token : String) (key_for : SigningMethod → Result String) (claims : Claims)
      → crypto.parse t token key_for ≡ ok (true, claims)
      → (method : SigningMethod) × (key : String) × (key_for method ≡ ok key)
        × (crypto.is_signed method key token ≡ true)
        × (claims.not_before ≤ t)
        × (t < claims.expires_at)

abbrev unauthorized : String → Error → Error
unauthorized message e = app auth_required 401 message e

-- The function that `Parse` gives the key by.
abbrev pub key_of : AuthService → SigningMethod → Result String
key_of auth hs256 = ok auth.secret
key_of auth (other_method name) = err (text "unexpected signing method")

abbrev pub has_name : String → User → Bool
has_name username u = str_eq u.username username && u.active

abbrev pub has_id : ℕ → User → Bool
has_id id u = u.id == id && u.active

module _ {F : Type 0} (env : Env F) where
  -- `FindByUsername` and `FindByID`.
  unfoldable pub find_by_username : String → M F User
  find_by_username username w = elim (env.users.first w.clock (has_name username) w.users) [
    | err e ↦ (err (if is_record_not_found e then not_found else wrap "find user by username" e), w)
    | ok user ↦ (ok user, w)
  ]

  unfoldable pub find_by_id : ℕ → M F User
  find_by_id id w = elim (env.users.first w.clock (has_id id) w.users) [
    | err e ↦ (err (if is_record_not_found e then not_found else wrap "find user by id" e), w)
    | ok user ↦ (ok user, w)
  ]

-- What follows a comparison that returns nil.
abbrev pub if_right : {F A : Type 0} → Option Error → M F A → M F A
if_right (some e) m = raise (unauthorized "username or password is incorrect" e)
if_right none m = m

module _ {F : Type 0} (crypto : Crypto) (auth : AuthService) (env : Env F) where
  abbrev pub view_of : User → UserView
  view_of user = record {
    id = user.id;
    username = user.username;
    display_name = user.display_name;
    role = user.role;
  }

  abbrev pub new_claims : User → ℕ → ℕ → Claims
  new_claims user issued expires = record {
    user_id = user.id;
    username = user.username;
    role = user.role;
    subject = format_uint user.id;
    issued_at = crypto.numeric_date issued;
    expires_at = crypto.numeric_date expires;
    not_before = crypto.numeric_date issued;
  }

  abbrev pub lookup_failed : Error → Error
  lookup_failed e =
      if is_not_found e
      then unauthorized "username or password is incorrect" e
      else internal "authentication lookup failed" e

  -- `Login`, of a user whose password is right. The clock is read twice.
  unfoldable pub issue : User → M F LoginResponse
  issue user = do
    issued ← now
    yield_to_others env
    later ← now
    let expires = later + auth.ttl
    token ←
        on_error (internal "token signing failed")
          (lift (crypto.sign hs256 auth.secret (new_claims user issued expires)))
    pure (record { token = token; expires_at = expires; user = view_of user })

  unfoldable pub login : LoginRequest → M F LoginResponse
  login request = do
    yield_to_others env
    user ← on_error lookup_failed (find_by_username env request.username)
    if_right (crypto.compare_hash user.password_hash request.password) (issue user)

  -- The claims that a token carries, at the time of the call. They are the `*Claims` that the parser
  -- was given, so that the type assertion on them holds.
  unfoldable pub token_claims : String → M F Claims
  token_claims token w = elim (crypto.parse w.clock token (key_of auth)) [
    | err e ↦ (err (unauthorized "access token is invalid or expired" e), w)
    | ok (valid, claims) ↦
        if valid
        then (ok claims, w)
        else (err (unauthorized "access token is invalid or expired" nil), w)
  ]

  -- `Parse`.
  unfoldable pub parse : String → M F Claims
  parse token = do
    claims ← token_claims token
    yield_to_others env
    user ← on_error (unauthorized "account is inactive") (find_by_id env claims.user_id)
    pure (record claims { username = user.username; role = user.role })
