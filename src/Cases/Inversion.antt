-- ===== src/Cases/Inversion.antt =====
-- What a computation of Database.antt has done when it returns a value.
use gb_522_l7o.Prelude.{
  ◌≡◌, ◌≢◌, refl, sym, ap, ◌∙◌, Bool, true, false, if◌then◌else◌, arith, inl, inr,
}
use gb_522_l7o.Errors.{Error, Result, ok, err}
use gb_522_l7o.Database.{World, Env, M, ◌>>=◌, raise, on_error, transaction, pure}
use gb_522_l7o.Algorithm.Detect.Pipeline.{Result-cases}
use gb_522_l7o.Database.Preserves.{>>=-ok, >>=-err}

module _ {A : Type 0} where
  pub ok-injective : (a b : A) → ok a ≡ ok b → a ≡ b
  ok-injective a b e = cc

  pub err-not_ok : (e : Error) (a : A) → err e ≢ ok a
  err-not_ok e a h = cc

module _ {F A : Type 0} where
  pub >>=-inv :
      {B : Type 0} (m : M F B) (g : B → M F A) (w : World F) (a : A)
      → ((m >>= g) w).0 ≡ ok a
      → (b : B) × ((m w).0 ≡ ok b) × ((g b (m w).1).0 ≡ ok a) × (((m >>= g) w).1 ≡ (g b (m w).1).1)
  >>=-inv m g w a h = elim (Result-cases (m w).0) [
    | inl (b, e) ↦
        let step = >>=-ok m g w b e in (b, e, ap (λ p. p.0) (sym step) ∙ h, ap (λ p. p.1) step)
    | inr (e, q) ↦ absurd (err-not_ok e a (ap (λ p. p.0) (sym (>>=-err m g w e q)) ∙ h))
  ]

  pub raise-inv : (e : Error) (w : World F) (a : A) → (raise e w).0 ≢ ok a
  unfolding raise
  raise-inv e w a h = cc

  pub if_raise-inv :
      (b : Bool) (e : Error) (m : M F A) (w : World F) (a : A)
      → ((if b then raise e else m) w).0 ≡ ok a
      → (b ≡ false) × ((m w).0 ≡ ok a)
  if_raise-inv true e m w a h = absurd (raise-inv e w a h)
  if_raise-inv false e m w a h = (refl, h)

  pub on_error-inv :
      (g : Error → Error) (m : M F A) (w : World F) (a : A)
      → (on_error g m w).0 ≡ ok a
      → (m w).0 ≡ ok a
  unfolding on_error
  on_error-inv g m w a h = ground arith

  pub transaction-inv :
      (env : Env F) (m : M F A) (w : World F) (a : A)
      → (transaction env m w).0 ≡ ok a
      → ((m (env.others w)).0 ≡ ok a) × ((transaction env m w).1 ≡ (m (env.others w)).1)
  unfolding transaction
  transaction-inv env m w a h = ground arith

  pub if_raise-world :
      (b : Bool) (e : Error) (m : M F A) (w : World F)
      → b ≡ false
      → ((if b then raise e else m) w).1 ≡ (m w).1
  if_raise-world b e m w h = ground (arith, h)

  pub pure-ok : (a b : A) (w : World F) → (pure a w).0 ≡ ok b → a ≡ b
  unfolding pure
  pure-ok a b w h = cc

  pub pure-inv : (w : World F) (a b : A) → (pure a w).0 ≡ ok b → (a ≡ b) × ((pure a w).1 ≡ w)
  unfolding pure
  pure-inv w a b h = (cc, refl)

  -- A step that succeeds, and then the rest.
  pub >>=-run :
      {B : Type 0} (m : M F B) (g : B → M F A) (w w' : World F) (b : B) (r : Result A)
      → m w ≡ (ok b, w')
      → (g b w').0 ≡ r
      → ((m >>= g) w).0 ≡ r
  unfolding ◌>>=◌
  >>=-run m g w w' b r e h = ground (arith, e, h)
