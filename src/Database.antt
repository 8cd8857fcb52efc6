-- ===== src/Database.antt =====
-- What the repositories use of gorm and of the database behind it, neither of which is part of the
-- repository: the operations are a parameter of the model (`Table`, `Env`), and `IsTable` states
-- what is relied on. Any call may fail; the moment at which it runs is an argument, so that a call
-- may fail now and succeed later. Fixed rows of one table are a list.
pub mod Atomic
pub mod Preserves
pub mod Extends
pub mod Open
use Prim.Native.String.{String}
use gb_522_l7o.Prelude.{
  ℕ, suc, ◌+◌, ◌≡◌, ◌≢◌, Bool, true, false, Option, none, some, List, [], ◌∷◌, ◌++◌, map,
  if◌then◌else◌, get_elem?, count_if, filter_if, not, All,
}
use gb_522_l7o.Errors.{Error, Result, ok, err, is_record_not_found}
use gb_522_l7o.Prelude.Int.{ℤ}
use gb_522_l7o.Model.{User, FiberRoute, TraceCapture, EventMarker, LocalizationCase, AuditLog}

-- `First`, `Find` with an order, `Find` with an order, an offset and a limit, `Count`, `Create` of one row and of several, `Updates` and `Delete` under a `Where`.
pub record Table (R : Type 0) : Type 0 where
  pub first : ℕ → (R → Bool) → List R → Result R
  pub find : ℕ → (R → Bool) → (R → R → Bool) → List R → Result (List R)
  pub page : ℕ → (R → Bool) → (R → R → Bool) → ℤ → ℤ → List R → Result (List R)
  pub count : ℕ → (R → Bool) → List R → Result ℕ
  pub create : ℕ → R → List R → Result (R × List R)
  pub create_all : ℕ → List R → List R → Result (List R)
  pub update : ℕ → (R → Bool) → (R → R) → List R → Result (ℕ × List R)
  pub delete : ℕ → (R → Bool) → List R → Result (List R)

-- What an update writes: `g` where the condition holds, and the time of the update.
abbrev pub written : {R : Type 0} → (R → R) → (R → Bool) → (R → R) → List R → List R
written touch p g rows = map (λ r. if p r then touch (g r) else r) rows

-- `stamp n t` is what `Create` fills in, a new primary key `n` and the time `t`; `touch t` is the
-- time that `Updates` sets. A successful update reports as many rows as the condition selects, and
-- writes those alone; a successful insert adds a row with an unused key behind the others; a row
-- that is found is a row of the table and meets the condition.
pub record IsTable {R : Type 0} (table : Table R) (id : R → ℕ) (stamp : ℕ → ℕ → R → R)
    (touch : ℕ → R → R) : Type 0 where
  pub first_ok :
      (t : ℕ) (p : R → Bool) (rows : List R) (r : R)
      → table.first t p rows ≡ ok r
      → (i : ℕ) × (get_elem? rows i ≡ some r) × (p r ≡ true)
  pub create_ok :
      (t : ℕ) (r : R) (rows : List R) (r' : R) (rows' : List R)
      → table.create t r rows ≡ ok (r', rows')
      → (n : ℕ) × (r' ≡ stamp n t r) × All (λ q. id q ≢ n) rows × (rows' ≡ rows ++ (r' ∷ []))
  pub update_ok :
      (t : ℕ) (p : R → Bool) (g : R → R) (rows : List R) (n : ℕ) (rows' : List R)
      → table.update t p g rows ≡ ok (n, rows')
      → (n ≡ count_if p rows) × (rows' ≡ written (touch t) p g rows)

-- A successful delete leaves the rows that the condition does not select, and a successful insert of
-- several rows puts them, stamped, behind the others in their order.
abbrev pub IsStamped : {R : Type 0} → (ℕ → ℕ → R → R) → ℕ → List R → List R → Type 0
IsStamped stamp t [] [] = Unit
IsStamped stamp t (r ∷ rs) (s ∷ ss) = ((n : ℕ) × (s ≡ stamp n t r)) × IsStamped stamp t rs ss
IsStamped stamp t _ _ = ⊥

pub record IsReplacing {R : Type 0} (table : Table R) (stamp : ℕ → ℕ → R → R) : Type 0 where
  pub delete_ok :
      (t : ℕ) (p : R → Bool) (rows rows' : List R)
      → table.delete t p rows ≡ ok rows'
      → rows' ≡ filter_if (λ r. not (p r)) rows
  pub create_all_ok :
      (t : ℕ) (rs rows rows' : List R)
      → table.create_all t rs rows ≡ ok rows'
      → (new : List R) × (rows' ≡ rows ++ new) × IsStamped stamp t rs new

-- The tables, and the time.
pub record World (F : Type 0) : Type 0 where
  pub users : List User
  pub routes : List (FiberRoute F)
  pub traces : List (TraceCapture F)
  pub events : List (EventMarker F)
  pub cases : List (LocalizationCase F)
  pub audits : List (AuditLog F)
  pub clock : ℕ

-- What surrounds a request: the tables' operations, whether a commit or a ping fails at a moment, the
-- operator LIKE, what the
-- other requests and processes do between two steps of this one, the format of a time in JSON, and
-- `unicode.ToLower` outside ASCII.
pub record Env (F : Type 0) : Type 0 where
  pub users : Table User
  pub routes : Table (FiberRoute F)
  pub traces : Table (TraceCapture F)
  pub events : Table (EventMarker F)
  pub cases : Table (LocalizationCase F)
  pub audits : Table (AuditLog F)
  pub commit : ℕ → Option Error
  pub ping : ℕ → Option Error
  pub like : String → String → Bool
  pub others : World F → World F
  pub format_time : ℕ → String
  pub lower_rune : ℕ → ℕ

-- A computation on the world that may end in an error.
abbrev pub M : Type 0 → Type 0 → Type 0
M F A = World F → Result A × World F

module _ {F : Type 0} where
  infixl 5 ◌>>=◌ ◌>>◌
  unfoldable pub ◌>>=◌ : {A B : Type 0} → M F A → (A → M F B) → M F B
  ◌>>=◌ m g w = let (r, w') = m w in elim r [ ok a ↦ g a w' | err e ↦ (err e, w') ]

  abbrev pub ◌>>◌ : {A B : Type 0} → M F A → M F B → M F B
  m >> k = m >>= λ _. k

  unfoldable pub pure : {A : Type 0} → A → M F A
  pure a w = (ok a, w)

  unfoldable pub raise : {A : Type 0} → Error → M F A
  raise e w = (err e, w)

  -- The error of a call, replaced by what the caller makes of it.
  unfoldable pub on_error : {A : Type 0} → (Error → Error) → M F A → M F A
  on_error g m w = let (r, w') = m w in elim r [ ok a ↦ (ok a, w') | err e ↦ (err (g e), w') ]

  -- The outcome of a call that is looked at whether it fails or not.
  unfoldable pub attempt : {A : Type 0} → M F A → M F (Result A)
  attempt m w = let (r, w') = m w in (ok r, w')

  -- A plain result.
  unfoldable pub lift : {A : Type 0} → Result A → M F A
  lift r w = (r, w)

  -- `time.Now()`.
  unfoldable pub now : M F ℕ
  now w = (ok w.clock, w)

  -- The other requests go on.
  unfoldable pub yield_to_others : Env F → M F (Unit {0})
  yield_to_others env w = (ok tt, env.others w)

  -- After a rollback the tables are as they were; the time is not.
  abbrev pub rolled_back : World F → World F → World F
  rolled_back before after = record before { clock = after.clock }

  -- `Store.Transaction`: all of `m`, or nothing. What the other requests do stands before it.
  unfoldable pub transaction : {A : Type 0} → Env F → M F A → M F A
  transaction env m start =
      let w = env.others start in
      let (r, w') = m w in
      elim r [
        | err e ↦ (err e, rolled_back w w')
        | ok a ↦ elim (env.commit w'.clock) [
          | none ↦ (ok a, w')
          | some e ↦ (err e, rolled_back w w')
        ]
      ]
