-- ===== src/Database/Preserves.antt =====
-- What a computation on the tables does to them, whatever it is: a reflexive and transitive relation of
-- the tables before and after, and the rules by which the computations of Database keep it. The
-- relation looks at the tables alone, so that a rollback, which leaves the time as it is, is no change.
use gb_522_l7o.Prelude.{ℕ, ◌≡◌, Bool, true, false, if◌then◌else◌, arith, ◌⊎◌, inl, inr}
use gb_522_l7o.Errors.{Error, Result, ok, err}
use gb_522_l7o.Database.{
  World, Env, M, ◌>>=◌, pure, raise, on_error, now, yield_to_others, transaction, attempt, lift,
}
use gb_522_l7o.Algorithm.Detect.Pipeline.{Result-cases}

pub record Guarantee (F : Type 0) : Type 1 where
  pub Kept : World F → World F → Type 0
  pub same : (w : World F) → Kept w w
  pub chain : (u v w : World F) → Kept u v → Kept v w → Kept u w
  pub later : (w : World F) (t : ℕ) → Kept w (record w { clock = t })

-- The computation leads from tables to tables in this relation.
pub record Preserves {F A : Type 0} (g : Guarantee F) (m : M F A) : Type 0 where
  pub keeps : (w : World F) → g.Kept w (m w).1

module _ {F : Type 0} {A B : Type 0} where
  pub >>=-ok :
      (m : M F A) (g : A → M F B) (w : World F) (a : A) → (m w).0 ≡ ok a → (m >>= g) w ≡ g a (m w).1
  unfolding ◌>>=◌
  >>=-ok m g w a e = ground arith

  pub >>=-err :
      (m : M F A) (g : A → M F B) (w : World F) (e : Error)
      → (m w).0 ≡ err e
      → (m >>= g) w ≡ (err e, (m w).1)
  unfolding ◌>>=◌
  >>=-err m g w e h = ground arith

  pub Preserves-bind :
      (g : Guarantee F) (m : M F A) (k : A → M F B)
      → Preserves g m
      → ((a : A) → Preserves g (k a))
      → Preserves g (m >>= k)
  Preserves-bind g m k hm hk = record {
    keeps = λ w. elim (Result-cases (m w).0) [
      | inl (a, e) ↦
          rw (>>=-ok m k w a e)
            (g.chain w (m w).1 (k a (m w).1).1 (hm.keeps w) ((hk a).keeps (m w).1))
      | inr (e, h) ↦ rw (>>=-err m k w e h) (hm.keeps w)
    ];
  }

module _ {F A : Type 0} where
  pub on_error-world : (h : Error → Error) (m : M F A) (w : World F) → (on_error h m w).1 ≡ (m w).1
  unfolding on_error
  on_error-world h m w = ground arith

  transaction-world :
      (env : Env F) (m : M F A) (w : World F)
      → ((transaction env m w).1 ≡ (m (env.others w)).1)
        ⊎ ((transaction env m w).1 ≡ record (env.others w) { clock = (m (env.others w)).1.clock })
  unfolding transaction
  transaction-world env m w = ground arith

module _ {F : Type 0} {A : Type 0} (g : Guarantee F) where
  -- What writes no table keeps everything.
  pub Preserves-read : (m : M F A) → ((w : World F) → (m w).1 ≡ w) → Preserves g m
  Preserves-read m h = record { keeps = λ w. rw (h w) (g.same w) }

  pub Preserves-raise : (e : Error) → Preserves g (raise {A = A} e)
  unfolding raise
  Preserves-raise e = record { keeps = λ w. g.same w }

  pub Preserves-pure : (a : A) → Preserves g (pure a)
  unfolding pure
  Preserves-pure a = record { keeps = λ w. g.same w }

  pub Preserves-lift : (r : Result A) → Preserves g (lift r)
  unfolding lift
  Preserves-lift r = record { keeps = λ w. g.same w }

  pub Preserves-if :
      (b : Bool) (m k : M F A) → Preserves g m → Preserves g k → Preserves g (if b then m else k)
  Preserves-if true m k hm hk = hm
  Preserves-if false m k hm hk = hk

  pub Preserves-on_error :
      (h : Error → Error) (m : M F A) → Preserves g m → Preserves g (on_error h m)
  Preserves-on_error h m p = record { keeps = λ w. rw (on_error-world h m w) (p.keeps w) }

  pub Preserves-attempt : (m : M F A) → Preserves g m → Preserves g (attempt m)
  unfolding attempt
  Preserves-attempt m h = record { keeps = λ w. h.keeps w }

  -- A transaction ends in the tables that its body leaves, or in those that it began with.
  pub Preserves-transaction :
      (env : Env F) (m : M F A)
      → Preserves g (yield_to_others env)
      → Preserves g m
      → Preserves g (transaction env m)
  unfolding yield_to_others
  Preserves-transaction env m others h = record {
    keeps = λ w.
        let started = env.others w in
        elim (transaction-world env m w) [
          | inl e ↦ rw e (g.chain w started (m started).1 (others.keeps w) (h.keeps started))
          | inr e ↦
              rw e (g.chain w started _ (others.keeps w) (g.later started (m started).1.clock))
        ];
  }

pub Preserves-now : {F : Type 0} (g : Guarantee F) → Preserves g now
unfolding now
Preserves-now g = record { keeps = λ w. g.same w }
