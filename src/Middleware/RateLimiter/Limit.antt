-- ===== src/Middleware/RateLimiter/Limit.antt =====
-- `Allow` of middleware/middleware.go over a series of calls, for all keys: how many of one key a
-- window lets through.
use Prim.Native.String.{String}
use text.Mathlib.Text.{◌==◌ as str_eq}
use text.Mathlib.TextEquality.{eq_iff}
use gb_522_l7o.Prelude.{
  ℕ, suc, ◌+◌, ◌≤◌, ◌<◌, ◌≡◌, ap, ◌∙◌, true, false, ◌&&◌, List, [], ◌∷◌, if◌then◌else◌, arith,
  Bool-cases, inl, inr,
}
use gb_522_l7o.Prelude.Int.{pos, leb_ℤ}
use gb_522_l7o.Middleware.RateLimiter.{Visitor, RateLimiter, lookup, renew, allow}
use gb_522_l7o.Middleware.RateLimiter.Sweep.{IsMap, view, counted, allow-view}

-- The calls in their order, each with its key and its time.
abbrev pub Calls : Type 0
Calls = List (String × ℕ)

-- How many calls for `key` are let through.
unfoldable pub count_allowed : String → Calls → RateLimiter → ℕ
count_allowed key [] l = 0
count_allowed key ((j, t) ∷ calls) l =
    let rest = count_allowed key calls (allow j t l).1 in
    if str_eq j key && (allow j t l).0 then suc rest else rest

-- The times do not fall, from `from` on, and do not pass `end`.
abbrev pub IsWithin : ℕ → ℕ → Calls → Type 0
IsWithin from end [] = Unit
IsWithin from end ((j, t) ∷ calls) = (from ≤ t) × (t ≤ end) × IsWithin t end calls

pub allow-config :
    (key : String) (now : ℕ) (l : RateLimiter)
    → ((allow key now l).1.limit ≡ l.limit) × ((allow key now l).1.window ≡ l.window)
unfolding allow
allow-config key now l = ground arith

-- Inside a window a later look finds the same count, and a window that ends no earlier.
renew_later :
    (window from now end : ℕ) (v : Visitor)
    → 0 < from
    → from ≤ now
    → now ≤ end
    → end ≤ (renew window from v).expires_at
    → ((renew window now v).count ≡ (renew window from v).count)
      × (end ≤ (renew window now v).expires_at)
      × (now ≤ (renew window now v).expires_at)
unfolding renew
renew_later window from now end v p q r s = ground arith

renew_open : (window now : ℕ) (v : Visitor) → 0 < now → now ≤ v.expires_at → renew window now v ≡ v
unfolding renew
renew_open window now v p q = ground arith

-- Let the limit be `n`, and let calls be made at times that do not fall, up to the end of the
-- window that `key` is in (or would be given) at the first of these times. Then what is let through
-- for `key`, together with what the window had let through before, is at most `n`.
pub count_allowed-le :
    (key : String) (n from end : ℕ) (calls : Calls) (l : RateLimiter)
    → l.limit ≡ pos n
    → IsMap l.visitors
    → 0 < from
    → end ≤ (view from key l).expires_at
    → IsWithin from end calls
    → (view from key l).count ≤ n
    → count_allowed key calls l + (view from key l).count ≤ n
unfolding count_allowed
count_allowed-le key n from end [] l cap m p e w c = omega arith
count_allowed-le key n from end ((j, t) ∷ calls) l cap m p e w c =
    let (decision, m', views) = allow-view j t l m in
    let (same, ends, past) = renew_later l.window from t end (lookup key l.visitors) p w.0 w.1 e in
    let seen = views key t (omega arith) in
    let config = allow-config j t l in
    let ih = count_allowed-le key n t end calls (allow j t l).1 in
    elim (Bool-cases (str_eq j key && (allow j t l).0)) [
      | inl hit ↦
          let e' : str_eq j key ≡ true = ground arith in
          let now_seen : view t key (allow j t l).1 ≡ counted (view t key l) =
            rw hit at seen
            ∙ ap (λ (s : String). renew l.window t (counted (view t s l))) ((eq_iff j key).0 e')
            ∙ renew_open l.window t (counted (view t key l)) (omega arith) past in
          let below : leb_ℤ l.limit (pos (view t key l).count) ≡ false =
            ground (arith, ap (λ (s : String). (view t s l).count) ((eq_iff j key).0 e')) in
          rw hit (
            omega (
              arith,
              ih (config.0 ∙ cap) m' (omega arith) (rw now_seen ends) w.2
                  (rw now_seen (ground arith)),
              ap (λ (v : Visitor). v.count) now_seen,
              same,
            ))
      | inr miss ↦
          let now_seen : view t key (allow j t l).1 ≡ view t key l = rw miss at seen in
          rw miss (
            omega (
              arith,
              ih (config.0 ∙ cap) m' (omega arith) (rw now_seen ends) w.2
                  (rw now_seen (omega arith)),
              ap (λ (v : Visitor). v.count) now_seen,
              same,
            ))
    ]
