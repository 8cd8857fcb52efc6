-- ===== src/Middleware/RateLimiter/Sweep.antt =====
-- `Allow` of middleware/middleware.go: one call, and its sweep of expired visitors.
use Prim.Native.String.{String}
use text.Mathlib.Text.{◌==◌ as str_eq}
use text.Mathlib.TextEquality.{eq_iff}
use gb_522_l7o.Prelude.{
  ℕ, ◌+◌, ◌≤◌, ◌≡◌, refl, subst, true, false, not, ◌&&◌, [], ◌∷◌, if◌then◌else◌, ltb, arith,
  Bool-cases, inl, inr,
}
use gb_522_l7o.Prelude.Int.{pos, leb_ℤ}
use gb_522_l7o.Middleware.RateLimiter.{
  Visitor, Visitors, RateLimiter, lookup, insert, sweep, renew, allow,
}

-- No key stands twice.
abbrev pub KeyFree : String → Visitors → Type 0
KeyFree key [] = Unit
KeyFree key ((k, v) ∷ visitors) = (str_eq k key ≡ false) × KeyFree key visitors

abbrev pub IsMap : Visitors → Type 0
IsMap [] = Unit
IsMap ((k, v) ∷ visitors) = KeyFree k visitors × IsMap visitors

pub str_eq_sym : (s t : String) → str_eq s t ≡ str_eq t s
str_eq_sym s t = ground (arith, eq_iff s t, eq_iff t s)

lookup-KeyFree :
    (key : String) (visitors : Visitors)
    → KeyFree key visitors
    → lookup key visitors ≡ record { count = 0; expires_at = 0 }
unfolding lookup
lookup-KeyFree key [] h = refl
lookup-KeyFree key ((k, v) ∷ visitors) h = rw h.0 (lookup-KeyFree key visitors h.1)

sweep-KeyFree :
    (key : String) (now : ℕ) (visitors : Visitors)
    → KeyFree key visitors
    → KeyFree key (sweep now visitors)
unfolding sweep
sweep-KeyFree key now [] h = tt
sweep-KeyFree key now ((k, v) ∷ visitors) h = ground (arith, sweep-KeyFree key now visitors h.1)

pub sweep-IsMap : (now : ℕ) (visitors : Visitors) → IsMap visitors → IsMap (sweep now visitors)
unfolding sweep
sweep-IsMap now [] h = tt
sweep-IsMap now ((k, v) ∷ visitors) h =
    ground (arith, sweep-IsMap now visitors h.1, sweep-KeyFree k now visitors h.0)

insert-KeyFree :
    (j key : String) (w : Visitor) (visitors : Visitors)
    → str_eq key j ≡ false
    → KeyFree j visitors
    → KeyFree j (insert key w visitors)
unfolding insert
insert-KeyFree j key w [] e h = (e, tt)
insert-KeyFree j key w ((k, v) ∷ visitors) e h =
    ground (arith, insert-KeyFree j key w visitors e h.1)

pub insert-IsMap :
    (key : String) (w : Visitor) (visitors : Visitors)
    → IsMap visitors
    → IsMap (insert key w visitors)
unfolding insert
insert-IsMap key w [] h = (tt, tt)
insert-IsMap key w ((k, v) ∷ visitors) h = elim (Bool-cases (str_eq k key)) [
  | inl e ↦ rw e (subst (λ s. KeyFree s visitors) ((eq_iff k key).0 e) h.0, h.1)
  | inr e ↦ rw e (
    insert-KeyFree k key w visitors (ground (arith, str_eq_sym k key)) h.0,
    insert-IsMap key w visitors h.1,
  )
]

-- A sweep at `now` and what a call at `now` or later counts on.
pub renew-sweep :
    (window now later : ℕ) (key : String) (visitors : Visitors)
    → IsMap visitors
    → now ≤ later
    → renew window later (lookup key (sweep now visitors))
      ≡ renew window later (lookup key visitors)
unfolding renew lookup sweep
renew-sweep window now later key [] m h = refl
renew-sweep window now later key ((k, v) ∷ visitors) m h = elim (Bool-cases (str_eq k key)) [
  | inl e ↦
      let free : KeyFree key visitors = subst (λ s. KeyFree s visitors) ((eq_iff k key).0 e) m.0 in
      ground (arith, lookup-KeyFree key (sweep now visitors) (sweep-KeyFree key now visitors free))
  | inr e ↦ ground (arith, renew-sweep window now later key visitors m.1 h)
]

pub lookup-insert :
    (j key : String) (w : Visitor) (visitors : Visitors)
    → lookup j (insert key w visitors) ≡ (if str_eq key j then w else lookup j visitors)
unfolding lookup insert
lookup-insert j key w [] = refl
lookup-insert j key w ((k, v) ∷ visitors) =
    ground (arith, eq_iff key j, eq_iff k key, eq_iff k j, lookup-insert j key w visitors)

-- What a call for `key` at `now` counts on: how many calls its window has let through, and when
-- the window ends.
abbrev pub view : ℕ → String → RateLimiter → Visitor
view now key l = renew l.window now (lookup key l.visitors)

-- The visitor after one more call that is let through.
abbrev pub counted : Visitor → Visitor
counted v = record { count = v.count + 1; expires_at = v.expires_at }

abbrev swept_visitors : ℕ → RateLimiter → Visitors
swept_visitors now l =
    if ltb (l.last_sweep + l.window) now then sweep now l.visitors else l.visitors

swept_visitors-IsMap : (now : ℕ) (l : RateLimiter) → IsMap l.visitors → IsMap (swept_visitors now l)
swept_visitors-IsMap now l m = ground (arith, sweep-IsMap now l.visitors m)

renew-swept_visitors :
    (now later : ℕ) (key : String) (l : RateLimiter)
    → IsMap l.visitors
    → now ≤ later
    → renew l.window later (lookup key (swept_visitors now l)) ≡ view later key l
renew-swept_visitors now later key l m h =
    ground (arith, renew-sweep l.window now later key l.visitors m h)

abbrev sweep_time : ℕ → RateLimiter → ℕ
sweep_time now l = if ltb (l.last_sweep + l.window) now then now else l.last_sweep

allow-refuses :
    (key : String) (now : ℕ) (l : RateLimiter)
    → IsMap l.visitors
    → leb_ℤ l.limit (pos (view now key l).count) ≡ true
    → allow key now l
      ≡ (false, record l { visitors = swept_visitors now l; last_sweep = sweep_time now l })
unfolding allow
allow-refuses key now l m e = rw (renew-swept_visitors now now key l m (omega arith), e)

allow-counts :
    (key : String) (now : ℕ) (l : RateLimiter)
    → IsMap l.visitors
    → leb_ℤ l.limit (pos (view now key l).count) ≡ false
    → allow key now l ≡ (
      true,
      record l {
        visitors = insert key (counted (view now key l)) (swept_visitors now l);
        last_sweep = sweep_time now l;
      },
    )
unfolding allow
allow-counts key now l m e = rw (renew-swept_visitors now now key l m (omega arith), e)

-- If no key stands twice in the map, `Allow` decides by the count of the key's current window
-- alone, whether it sweeps or not, and lets a call through exactly if the count is below the limit.
-- It keeps the map without double keys, and to any call at that time or later every other key
-- looks as before; the key itself looks as before if the call was refused, and as counted once
-- more if it was let through.
pub allow-view :
    (key : String) (now : ℕ) (l : RateLimiter)
    → IsMap l.visitors
    → let (done, l') = allow key now l in
      (done ≡ not (leb_ℤ l.limit (pos (view now key l).count)))
      × IsMap l'.visitors
      × ((j : String) (later : ℕ)
          → now ≤ later
          → view later j l' ≡ (
              if str_eq key j && done
              then renew l.window later (counted (view now key l))
              else view later j l))
allow-view key now l m = elim (Bool-cases (leb_ℤ l.limit (pos (view now key l).count))) [
  | inl e ↦ rw (allow-refuses key now l m e) (
    rw e,
    swept_visitors-IsMap now l m,
    λ j later h. ground (arith, renew-swept_visitors now later j l m h),
  )
  | inr e ↦ rw (allow-counts key now l m e) (
    rw e,
    insert-IsMap key (counted (view now key l)) (swept_visitors now l)
        (swept_visitors-IsMap now l m),
    λ j later h. ground (
      arith,
      lookup-insert j key (counted (view now key l)) (swept_visitors now l),
      renew-swept_visitors now later j l m h,
    ),
  )
]
