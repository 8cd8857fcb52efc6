-- ===== src/Database/Atomic.antt =====
-- `Store.Transaction` of backend/internal/repository/user_repository.go: its two outcomes.
use gb_522_l7o.Prelude.{◌≡◌, arith, ◌⊎◌, inl, inr, Option-cases}
use gb_522_l7o.Errors.{Error, ok, err}
use gb_522_l7o.Algorithm.Detect.Pipeline.{Result-cases}
use gb_522_l7o.Database.{World, Env, M, transaction, rolled_back}

module _ {F A : Type 0} (env : Env F) (m : M F A) (w : World F) where
  -- A transaction either succeeds, and then its body has succeeded, and the tables are as the body
  -- leaves them; or it fails, and then every table is as the other requests left it before, whatever
  -- the body wrote and whether the body or the commit failed.
  pub transaction-atomic :
      ((a : A) × ((transaction env m w).0 ≡ ok a)
        × ((m (env.others w)).0 ≡ ok a)
        × ((transaction env m w).1 ≡ (m (env.others w)).1))
      ⊎ ((e : Error) × ((transaction env m w).0 ≡ err e)
          × ((transaction env m w).1 ≡ rolled_back (env.others w) (m (env.others w)).1))
  unfolding transaction
  transaction-atomic = elim (Result-cases (m (env.others w)).0) [
    | inl (a, e) ↦ elim (Option-cases (env.commit (m (env.others w)).1.clock)) [
      | inl c ↦ inl (a, ground arith, e, ground arith)
      | inr (failed, c) ↦ inr (failed, ground arith, ground arith)
    ]
    | inr (failed, e) ↦ inr (failed, ground arith, ground arith)
  ]
