-- ===== src/Auth/Seeded.antt =====
-- The accounts that are there after `MigrateAndSeed` of backend/internal/repository/user_repository.go.
use Prim.Native.String.{String}
use package.text.Mathlib.TextEquality.{eq_iff}
use gb_522_l7o.Prelude.{
  ℕ, length, ◌≡◌, refl, sym, subst, ap, ◌∙◌, true, Bool-cases, Option, some, List, [], ◌∷◌, ◌++◌,
  get_elem?, All, All-append, get_elem?-append, get_elem?-append_last, append_assoc, append_nil,
  arith, inl, inr, Option-cases,
}
use gb_522_l7o.Errors.{Error, Result, ok, is_record_not_found}
use gb_522_l7o.Model.{User}
use gb_522_l7o.Database.{World, Env, pure}
use gb_522_l7o.Cases.Inversion.{>>=-inv}
use gb_522_l7o.Algorithm.Detect.Pipeline.{Result-cases}
use gb_522_l7o.Auth.Session.{IsUserEnv}
use gb_522_l7o.Auth.Seed.{
  Account, accounts, new_user, named, create_user, seed_account, seed_accounts, migrate_and_seed,
}

abbrev pub HasAccount : List User → Account → Type 0
HasAccount users a =
    (i : ℕ) × (u : User) × (get_elem? users i ≡ some u) × (named a.username u ≡ true)

-- The users after: those before, then new ones that are active and have the seeded password.
pub record IsGrown (hash : String) (before after : List User) : Type 0 where
  pub new : List User
  pub rows : after ≡ before ++ new
  pub fresh : All (λ u. (u.active ≡ true) × (u.password_hash ≡ hash)) new

HasAccount-append :
    (users new : List User) (a : Account) → HasAccount users a → HasAccount (users ++ new) a
HasAccount-append users new a (i, u, at, is_named) =
    (i, u, get_elem?-append users new i u at, is_named)

HasAccount-All :
    (users new : List User) (l : List Account)
    → All (HasAccount users) l
    → All (HasAccount (users ++ new)) l
HasAccount-All users new [] h = tt
HasAccount-All users new (a ∷ l) h =
    (HasAccount-append users new a h.0, HasAccount-All users new l h.1)

IsGrown-refl : (hash : String) (users : List User) → IsGrown hash users users
IsGrown-refl hash users = record { new = []; rows = append_nil users; fresh = tt }

IsGrown-trans :
    {hash : String} {a b c : List User} → IsGrown hash a b → IsGrown hash b c → IsGrown hash a c
IsGrown-trans {a = a} g h = record {
  new = g.new ++ h.new;
  rows = h.rows ∙ ap (λ l. l ++ h.new) g.rows ∙ append_assoc a g.new h.new;
  fresh = All-append _ g.new h.new g.fresh h.fresh;
}

-- What one turn, or the loop over `l`, has made of the users.
abbrev IsSeeded : String → List Account → List User → List User → Type 0
IsSeeded hash l before after = IsGrown hash before after × All (HasAccount after) l

module _ {F : Type 0} (env : Env F) (migrate : ℕ → Option Error)
    (generate_hash : String → Result String) where
  create_user-IsSeeded :
      (hash : String) (a : Account) (w : World F)
      → IsUserEnv env
      → (create_user env migrate generate_hash a hash w).0 ≡ ok tt
      → IsSeeded hash (a ∷ []) w.users (create_user env migrate generate_hash a hash w).1.users
  unfolding create_user
  create_user-IsSeeded hash a w laws h =
      elim (Result-cases (env.users.create w.clock (new_user hash a) w.users)) [
        | inl ((user, rows), e) ↦
            let (n, stamped, fresh, added) =
              laws.create_ok w.clock (new_user hash a) w.users user rows e in
            let left : (create_user env migrate generate_hash a hash w).1.users
                ≡ w.users ++ (user ∷ []) =
              ground (arith, added) in
            subst (IsSeeded hash (a ∷ []) w.users) (sym left) (
              record {
                new = user ∷ [];
                rows = refl;
                fresh = ((ap (λ u. u.active) stamped, ap (λ u. u.password_hash) stamped), tt);
              },
              (
                (
                  length w.users,
                  user,
                  get_elem?-append_last w.users user,
                  (eq_iff user.username a.username).1 (ap (λ u. u.username) stamped),
                ),
                tt,
              ),
            )
        | inr (e, q) ↦ absurd (ground arith)
      ]

  seed_account-IsSeeded :
      (hash : String) (a : Account) (w : World F)
      → IsUserEnv env
      → (seed_account env migrate generate_hash hash a w).0 ≡ ok tt
      → IsSeeded hash (a ∷ []) w.users (seed_account env migrate generate_hash hash a w).1.users
  unfolding seed_account
  seed_account-IsSeeded hash a w laws h =
      elim (Result-cases (env.users.first w.clock (named a.username) w.users)) [
        | inl (found, e) ↦
            let (i, at, is_named) = laws.first_ok w.clock (named a.username) w.users found e in
            let left : (seed_account env migrate generate_hash hash a w).1.users ≡ w.users =
              ground (arith, e) in
            subst (IsSeeded hash (a ∷ []) w.users) (sym left)
              (IsGrown-refl hash w.users, ((i, found, at, is_named), tt))
        | inr (e, q) ↦ elim (Bool-cases (is_record_not_found e)) [
          | inl absent ↦
              let same : seed_account env migrate generate_hash hash a w
                  ≡ create_user env migrate generate_hash a hash w =
                ground (arith, q, absent) in
              subst (λ p. IsSeeded hash (a ∷ []) w.users p.1.users) (sym same)
                (create_user-IsSeeded hash a w laws (ap (λ p. p.0) (sym same) ∙ h))
          | inr other ↦ absurd (ground arith)
        ]
      ]

  seed_accounts-IsSeeded :
      (hash : String) (l : List Account) (w : World F)
      → IsUserEnv env
      → (seed_accounts env migrate generate_hash hash l w).0 ≡ ok tt
      → IsSeeded hash l w.users (seed_accounts env migrate generate_hash hash l w).1.users
  unfolding seed_accounts pure
  seed_accounts-IsSeeded hash [] w laws h = (IsGrown-refl hash w.users, tt)
  seed_accounts-IsSeeded hash (a ∷ l) w laws h =
      let (u, first, rest, left) =
        >>=-inv (seed_account env migrate generate_hash hash a) _ w tt h in
      let at = (seed_account env migrate generate_hash hash a w).1 in
      let (grown, has) = seed_account-IsSeeded hash a w laws first in
      let (grown2, all) = seed_accounts-IsSeeded hash l at laws rest in
      subst (λ v. IsSeeded hash (a ∷ l) w.users v.users) (sym left)
        (
          IsGrown-trans grown grown2,
          (
            subst (λ users. HasAccount users a) (sym grown2.rows)
                (HasAccount-append at.users grown2.new a has.0),
            all,
          ),
        )

  -- When migration and seeding succeed, each of the three accounts has a row under its name; the users
  -- that there were have kept their places, and any others are new, active and have the hash of the
  -- seed password.
  pub migrate_and_seed-IsSeeded :
      (w : World F)
      → IsUserEnv env
      → (migrate_and_seed env migrate generate_hash w).0 ≡ ok tt
      → (hash : String) × (generate_hash "DemoPass123!" ≡ ok hash)
        × IsGrown hash w.users (migrate_and_seed env migrate generate_hash w).1.users
        × All (HasAccount (migrate_and_seed env migrate generate_hash w).1.users) accounts
  unfolding migrate_and_seed
  migrate_and_seed-IsSeeded w laws h = elim (Option-cases (migrate w.clock)) [
    | inl fine ↦ elim (Result-cases (generate_hash "DemoPass123!")) [
      | inl (hash, e) ↦
          let same : migrate_and_seed env migrate generate_hash w
              ≡ seed_accounts env migrate generate_hash hash accounts w =
            ground (arith, fine, e) in
          subst
            (λ p.
              (hash : String) × (generate_hash "DemoPass123!" ≡ ok hash)
              × IsGrown hash w.users p.1.users
              × All (HasAccount p.1.users) accounts)
            (sym same)
            (let (grown, all) =
                seed_accounts-IsSeeded hash accounts w laws (ap (λ p. p.0) (sym same) ∙ h) in
              (hash, e, grown, all))
      | inr (e, q) ↦ absurd (ground arith)
    ]
    | inr (e, q) ↦ absurd (ground arith)
  ]
