-- ===== src/Cases/Guards.antt =====
-- What must have been so when a method of service/case_service.go succeeds.
use gb_522_l7o.Prelude.{ℕ, ◌≡◌, false, some, List, get_elem?}
use gb_522_l7o.Constants.{CaseStatus}
use gb_522_l7o.Float.{Float}
use gb_522_l7o.Model.{LocalizationCase}
use gb_522_l7o.Database.{World, Env}
use gb_522_l7o.Audit.{Actor, is_blank}
use gb_522_l7o.Cases.Repository
use gb_522_l7o.Cases.Rows.{RowsEvolve}

module _ {F : Type 0} where
  -- A row of the table with this key, version and status.
  pub record HasRow (id version : ℕ) (status : CaseStatus) (rows : List (LocalizationCase F))
      : Type 0 where
    pub index : ℕ
    pub row : LocalizationCase F
    pub present : get_elem? rows index ≡ some row
    pub keyed : row.id ≡ id
    pub versioned : row.version ≡ version
    pub in_status : row.case_status ≡ status

module _ {F : Type 0} ⦃f : Float F⦄ (env : Env F) where
  -- What a successful step of a case needs: the version that the caller has seen, the status that it
  -- starts from, and an id of the request for the entry.
  pub record IsGranted (id version : ℕ) (from : CaseStatus) (actor : Actor) (w : World F)
      : Type 0 where
    pub later : World F
    pub evolved : RowsEvolve w.cases later.cases
    pub row : HasRow id version from later.cases
    pub traced : is_blank actor.request_id ≡ false
