-- ===== src/Middleware/RateLimiter/Refinement.antt =====
-- What `RateLimiter` of backend/internal/middleware/middleware.go promises, with no sweeps: a window
-- for every key that was ever asked about.
use Prim.Native.String.{String}
use package.text.Mathlib.Text.{◌==◌ as str_eq}
use gb_522_l7o.Prelude.{
  ℕ, ◌≤◌, ◌≡◌, refl, ap, ◌∙◌, Bool, not, Bool-cases, List, [], ◌∷◌, if◌then◌else◌, arith, inl, inr,
}
use gb_522_l7o.Prelude.Int.{ℤ, pos, leb_ℤ}
use gb_522_l7o.Middleware.RateLimiter.{Visitor, RateLimiter, new_rate_limiter, lookup, renew, allow}
use gb_522_l7o.Middleware.RateLimiter.Limit.{Calls, allow-config}
use gb_522_l7o.Middleware.RateLimiter.Sweep.{IsMap, view, counted, allow-view}

-- The decisions of the limiter on calls for a key at a time.
unfoldable pub decisions : Calls → RateLimiter → List Bool
decisions [] l = []
decisions ((key, now) ∷ calls) l = let (done, l') = allow key now l in done ∷ decisions calls l'

-- The windows by key, as a function.
abbrev pub Windows : Type 0
Windows = String → Visitor

abbrev pub no_windows : Windows
no_windows key = record { count = 0; expires_at = 0 }

abbrev pub count_call : String → Visitor → Windows → Windows
count_call key v windows j = if str_eq key j then v else windows j

-- A call is let through exactly if its window has room, and is counted then.
unfoldable pub promised : ℤ → ℕ → Calls → Windows → List Bool
promised limit window [] windows = []
promised limit window ((key, now) ∷ calls) windows =
    let v = renew window now (windows key) in
    let full = leb_ℤ limit (pos v.count) in
    not full
    ∷ promised limit window calls (if full then windows else count_call key (counted v) windows)

-- Times that do not go back, from `t` on.
abbrev pub IsOrdered : ℕ → Calls → Type 0
IsOrdered t [] = Unit
IsOrdered t ((key, now) ∷ calls) = (t ≤ now) × IsOrdered now calls

-- From `t` on, the limiter looks like the windows.
record IsLike (t : ℕ) (l : RateLimiter) (windows : Windows) : Type 0 where
  map : IsMap l.visitors
  like : (j : String) (later : ℕ) → t ≤ later → view later j l ≡ renew l.window later (windows j)

allow-IsLike :
    (t : ℕ) (key : String) (now : ℕ) (l : RateLimiter) (windows : Windows)
    → t ≤ now
    → IsLike t l windows
    → let v = renew l.window now (windows key) in
      let full = leb_ℤ l.limit (pos v.count) in
      ((allow key now l).0 ≡ not full)
      × IsLike now
          (allow key now l).1
          (if full then windows else count_call key (counted v) windows)
allow-IsLike t key now l windows k h =
    let (decided, kept, looks) = allow-view key now l h.map in
    let same = h.like key now k in
    let v = renew l.window now (windows key) in
    let window = (allow-config key now l).1 in
    elim (Bool-cases (leb_ℤ l.limit (pos v.count))) [
      | inl full ↦ (
        rw (decided, same, full) refl,
        record {
          map = kept;
          like = λ j later k2. rw (full) (
              looks j later k2
              ∙ ground (arith, decided, same, full, h.like j later (omega (arith, k, k2)), window));
        },
      )
      | inr room ↦ (
        rw (decided, same, room) refl,
        record {
          map = kept;
          like = λ j later k2. rw (room) (
              looks j later k2
              ∙ ground (arith, decided, same, room, h.like j later (omega (arith, k, k2)), window));
        },
      )
    ]

decisions-promised :
    (t : ℕ) (calls : Calls) (l : RateLimiter) (windows : Windows)
    → IsOrdered t calls
    → IsLike t l windows
    → decisions calls l ≡ promised l.limit l.window calls windows
unfolding decisions promised
decisions-promised t [] l windows ordered h = refl
decisions-promised t ((key, now) ∷ calls) l windows ordered h =
    let (decided, next) = allow-IsLike t key now l windows ordered.0 h in
    let (limit, window) = allow-config key now l in
    let l' = (allow key now l).1 in
    let v = renew l.window now (windows key) in
    let full = leb_ℤ l.limit (pos v.count) in
    let windows' = if full then windows else count_call key (counted v) windows in
    let rest = decisions-promised now calls l' windows' ordered.1 next in
    let tail =
      rest
      ∙ ap (λ n. promised n l'.window calls windows') limit
      ∙ ap (λ n. promised l.limit n calls windows') window in
    ap (λ b. b ∷ decisions calls l') decided ∙ ap (λ bs. not full ∷ bs) tail

new-IsLike : (limit : ℤ) (window t : ℕ) → IsLike t (new_rate_limiter limit window t) no_windows
unfolding new_rate_limiter lookup
new-IsLike limit window t = record { map = tt; like = λ j later k. refl }

-- On any calls whose times do not go back, a new limiter decides as if it kept the window of every key
-- for ever: a call is let through exactly if fewer calls than the limit were let through in the window
-- of its key, and a window opens with the first call after the one before has ended. The sweeps show
-- in no decision.
pub new_rate_limiter-promised :
    (limit : ℤ) (window t : ℕ) (calls : Calls)
    → IsOrdered t calls
    → decisions calls (new_rate_limiter limit window t) ≡ promised limit window calls no_windows
unfolding new_rate_limiter
new_rate_limiter-promised limit window t calls ordered =
    decisions-promised t calls (new_rate_limiter limit window t) no_windows ordered
      (new-IsLike limit window t)
