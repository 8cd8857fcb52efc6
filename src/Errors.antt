-- ===== src/Errors.antt =====
-- Go's `error` values and the application error of backend/internal/service/auth_service.go.
use Prim.Native.String.{String, ◌++◌}
use gb_522_l7o.Prelude.{ℕ, Bool, true, false}

-- The `Code…` constants.
pub data Code : Type 0 where
  invalid_input not_found_code state_conflict auth_required forbidden algorithm_input
        internal_error :
      Code

-- `nil` is Go's nil error, `text` an error of `fmt.Errorf` with no `%w`, `wrap` one with `%w`;
-- then come the sentinels of the repository and of gorm, and `external` is any other error that a
-- library returns. `app` is `AppError` with its code, status, message and cause.
pub data Error : Type 0 where
  nil : Error
  text : String → Error
  wrap : String → Error → Error
  not_found : Error
  record_not_found : Error
  invalid_transaction : Error
  external : String → Error
  app : Code → ℕ → String → Error → Error

-- A call that returns a value and an error, of which one is nil.
pub data Result {ℓ} (A : Type ℓ) : Type ℓ where
  ok : A → Result A
  err : Error → Result A

infixl 5 ◌>>=◌
abbrev pub ◌>>=◌ {ℓ κ} : {A : Type ℓ} {B : Type κ} → Result A → (A → Result B) → Result B
ok a >>= f = f a
err e >>= f = err e

-- `errors.Is(err, repository.ErrNotFound)`: the sentinel, or an error that unwraps to it.
unfoldable pub is_not_found : Error → Bool
is_not_found not_found = true
is_not_found (wrap m e) = is_not_found e
is_not_found (app c s m e) = is_not_found e
is_not_found _ = false

-- `errors.Is(err, gorm.ErrRecordNotFound)`.
unfoldable pub is_record_not_found : Error → Bool
is_record_not_found record_not_found = true
is_record_not_found (wrap m e) = is_record_not_found e
is_record_not_found (app c s m e) = is_record_not_found e
is_record_not_found _ = false

-- `invalid`, `notFound`, `conflict` and `internal`.
unfoldable pub invalid : String → Error → Error
invalid message e = app invalid_input 400 message e

unfoldable pub conflict : String → Error → Error
conflict message e = app state_conflict 409 message e

unfoldable pub internal : String → Error → Error
internal message e = app internal_error 500 message e

-- `notFound`.
unfoldable pub resource_not_found : String → Error
resource_not_found resource = app not_found_code 404 (resource ++ " does not exist") not_found

-- `Error()`. An `AppError` with no cause is its message.
unfoldable pub error_string : Error → String
error_string nil = ""
error_string (text s) = s
error_string (wrap m e) = m ++ ": " ++ error_string e
error_string not_found = "record not found"
error_string record_not_found = "record not found"
error_string invalid_transaction = "invalid transaction"
error_string (external s) = s
error_string (app c s m nil) = m
error_string (app c s m e) = m ++ ": " ++ error_string e

-- `errors.As(err, &appErr)`: whether the error is or unwraps to an `AppError`.
unfoldable pub is_app_error : Error → Bool
is_app_error (app c s m e) = true
is_app_error (wrap m e) = is_app_error e
is_app_error _ = false
