-- ===== src/Tests/Serving.antt =====
-- Runs of the rate limiter and the redaction of the audit entries.
use gb_522_l7o.Prelude.{◌+◌, ◌≤◌, ◌≡◌, refl, [], ◌∷◌, arith}
use gb_522_l7o.Prelude.Int.{pos}
use gb_522_l7o.Float.Fixed.{Fixed, fixed}
use gb_522_l7o.Json.{Json, num, str, arr, obj, nil, item, done, field}
use gb_522_l7o.Snapshot.{scrub}
use gb_522_l7o.Snapshot.Redaction.{IsClean, scrub-IsClean}
use gb_522_l7o.Middleware.RateLimiter.{RateLimiter, allow, lookup, insert, sweep, renew}
use gb_522_l7o.Middleware.RateLimiter.Sweep.{view}
use gb_522_l7o.Middleware.RateLimiter.Limit.{Calls, count_allowed, count_allowed-le}

-- Two calls of a key in a window of 100 nanoseconds.
abbrev limiter : RateLimiter
limiter = record { limit = pos 2; window = 100; visitors = []; last_sweep = 5 }

abbrev calls : Calls
calls = ("a", 10) ∷ ("b", 20) ∷ ("a", 30) ∷ ("a", 40) ∷ []

two_let_through : count_allowed "a" calls limiter ≡ 2
unfolding count_allowed allow lookup insert sweep renew
two_let_through = refl

window_end : 110 ≤ (view 10 "a" limiter).expires_at
unfolding lookup renew
window_end = omega arith

window_count : (view 10 "a" limiter).count ≤ 2
unfolding lookup renew
window_count = omega arith

count_allowed-le_example : count_allowed "a" calls limiter + (view 10 "a" limiter).count ≤ 2
count_allowed-le_example =
    count_allowed-le "a" 2 10 110 calls limiter refl tt (omega arith) window_end
      (
        omega arith,
        omega arith,
        (omega arith, omega arith, (omega arith, omega arith, (omega arith, omega arith, tt))),
      )
      window_count

-- A password inside a list.
abbrev document : Json Fixed
document = obj (
    field "users" (arr (item (obj (field "Password" (str "x") done)) nil))
      (field "count" (num (fixed 1 0)) done))

scrub-IsClean_example :
    IsClean (λ c. c) (scrub (λ c. c) document)
    × (IsClean (λ c. c) document → scrub (λ c. c) document ≡ document)
    × (scrub (λ c. c) (scrub (λ c. c) document) ≡ scrub (λ c. c) document)
scrub-IsClean_example = scrub-IsClean (λ c. c) document
