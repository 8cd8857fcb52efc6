-- ===== src/Middleware/RateLimiter.antt =====
-- `RateLimiter` of backend/internal/middleware/middleware.go. A time is a number of nanoseconds,
-- and 0 is Go's zero time; the mutex makes a call of `Allow` one step. The second result of
-- `Allow`, the wait until the window ends, is computed from the time at which it returns.
pub mod Sweep
pub mod Limit
pub mod Refinement
use Prim.Native.String.{String}
use text.Mathlib.Text.{◌==◌ as str_eq}
use gb_522_l7o.Prelude.{
  ℕ, ◌+◌, Bool, true, false, not, ◌||◌, Option, none, some, List, [], ◌∷◌, if◌then◌else◌, ltb, ◌==◌,
}
use gb_522_l7o.Prelude.Int.{ℤ, pos, leb_ℤ}

-- `visitor`.
pub record Visitor : Type 0 where
  pub count : ℕ
  pub expires_at : ℕ

-- The map `visitors`.
abbrev pub Visitors : Type 0
Visitors = List (String × Visitor)

pub record RateLimiter : Type 0 where
  pub limit : ℤ
  pub window : ℕ
  pub visitors : Visitors
  pub last_sweep : ℕ

unfoldable pub new_rate_limiter : ℤ → ℕ → ℕ → RateLimiter
new_rate_limiter limit window now = record {
  limit = limit;
  window = window;
  visitors = [];
  last_sweep = now;
}

-- `l.visitors[key]`: a missing key gives the zero visitor.
unfoldable pub lookup : String → Visitors → Visitor
lookup key [] = record { count = 0; expires_at = 0 }
lookup key ((k, v) ∷ visitors) = if str_eq k key then v else lookup key visitors

-- `l.visitors[key] = v`.
unfoldable pub insert : String → Visitor → Visitors → Visitors
insert key v [] = (key, v) ∷ []
insert key v ((k, w) ∷ visitors) =
    if str_eq k key then (key, v) ∷ visitors else (k, w) ∷ insert key v visitors

-- The loop that deletes what has expired.
unfoldable pub sweep : ℕ → Visitors → Visitors
sweep now [] = []
sweep now ((k, v) ∷ visitors) =
    let rest = sweep now visitors in if ltb v.expires_at now then rest else (k, v) ∷ rest

-- The visitor that a call at `now` counts on: a new one where there is none, or the window is over.
unfoldable pub renew : ℕ → ℕ → Visitor → Visitor
renew window now v =
    if v.expires_at == 0 || ltb v.expires_at now
    then record { count = 0; expires_at = now + window }
    else v

unfoldable pub allow : String → ℕ → RateLimiter → Bool × RateLimiter
allow key now l =
    let is_due = ltb (l.last_sweep + l.window) now in
    let visitors = if is_due then sweep now l.visitors else l.visitors in
    let last_sweep = if is_due then now else l.last_sweep in
    let swept : RateLimiter = record l { visitors = visitors; last_sweep = last_sweep } in
    let current = renew l.window now (lookup key visitors) in
    if leb_ℤ l.limit (pos current.count) then (false, swept) else (
      true,
      record swept {
        visitors =
            insert key (record { count = current.count + 1; expires_at = current.expires_at })
              visitors;
      },
    )
