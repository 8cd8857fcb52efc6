-- ===== src/Snapshot/Redaction.antt =====
-- `scrubSnapshot` of service/route_service.go: what an audit entry may hold.
use gb_522_l7o.Prelude.{ℕ, ◌≡◌, refl, sym, ap, ap₂, true, Bool-cases, inl, inr}
use gb_522_l7o.Json.{Json, null, boolean, num, str, arr, obj, Items, nil, item, Fields, done, field}
use gb_522_l7o.Snapshot.{sensitive, redacted, scrub, scrub_items, scrub_fields}

module _ (lower_rune : ℕ → ℕ) {F : Type 0} where
  mutual
    -- Under a sensitive key stands the mark alone, at every depth.
    pub IsClean : Json F → Type 0
    IsClean (arr xs) = AreClean xs
    IsClean (obj fs) = FieldsClean fs
    IsClean null = Unit
    IsClean (boolean b) = Unit
    IsClean (num x) = Unit
    IsClean (str s) = Unit

    pub AreClean : Items F → Type 0
    AreClean nil = Unit
    AreClean (item x xs) = IsClean x × AreClean xs

    pub FieldsClean : Fields F → Type 0
    FieldsClean done = Unit
    FieldsClean (field key child fs) =
        (sensitive lower_rune key ≡ true → child ≡ redacted) × IsClean child × FieldsClean fs

  mutual
    unfolding scrub scrub_items scrub_fields IsClean AreClean FieldsClean

    IsClean-scrub : (j : Json F) → IsClean (scrub lower_rune j)
    IsClean-scrub null = tt
    IsClean-scrub (boolean b) = tt
    IsClean-scrub (num x) = tt
    IsClean-scrub (str s) = tt
    IsClean-scrub (arr xs) = AreClean-scrub_items xs
    IsClean-scrub (obj fs) = FieldsClean-scrub_fields fs

    AreClean-scrub_items : (xs : Items F) → AreClean (scrub_items lower_rune xs)
    AreClean-scrub_items nil = tt
    AreClean-scrub_items (item x xs) = (IsClean-scrub x, AreClean-scrub_items xs)

    FieldsClean-scrub_fields : (fs : Fields F) → FieldsClean (scrub_fields lower_rune fs)
    FieldsClean-scrub_fields done = tt
    FieldsClean-scrub_fields (field key child fs) =
        let below = IsClean-scrub child in
        let rest = FieldsClean-scrub_fields fs in
        elim (Bool-cases (sensitive lower_rune key)) [
          | inl e ↦ rw e (λ _. refl, tt, rest)
          | inr e ↦ rw e (λ h. cc, below, rest)
        ]

  mutual
    unfolding scrub scrub_items scrub_fields IsClean AreClean FieldsClean

    scrub-fixed : (j : Json F) → IsClean j → scrub lower_rune j ≡ j
    scrub-fixed null c = refl
    scrub-fixed (boolean b) c = refl
    scrub-fixed (num x) c = refl
    scrub-fixed (str s) c = refl
    scrub-fixed (arr xs) c = ap arr (scrub_items-fixed xs c)
    scrub-fixed (obj fs) c = ap obj (scrub_fields-fixed fs c)

    scrub_items-fixed : (xs : Items F) → AreClean xs → scrub_items lower_rune xs ≡ xs
    scrub_items-fixed nil c = refl
    scrub_items-fixed (item x xs) c = ap₂ item (scrub-fixed x c.0) (scrub_items-fixed xs c.1)

    scrub_fields-fixed : (fs : Fields F) → FieldsClean fs → scrub_fields lower_rune fs ≡ fs
    scrub_fields-fixed done c = refl
    scrub_fields-fixed (field key child fs) c =
        let below = scrub-fixed child c.1 in
        let rest = scrub_fields-fixed fs c.2 in
        elim (Bool-cases (sensitive lower_rune key)) [
          | inl e ↦ rw (e, rest) (ap (λ x. field key x fs) (sym (c.0 e)))
          | inr e ↦ rw (e, rest, below)
        ]

  -- Whatever is scrubbed, at every depth a sensitive key has the mark "[REDACTED]" for its value
  -- afterwards; and a document of which that holds already is left as it is, so that scrubbing
  -- twice is scrubbing once.
  pub scrub-IsClean :
      (j : Json F)
      → IsClean (scrub lower_rune j)
        × (IsClean j → scrub lower_rune j ≡ j)
        × (scrub lower_rune (scrub lower_rune j) ≡ scrub lower_rune j)
  scrub-IsClean j =
      (IsClean-scrub j, scrub-fixed j, scrub-fixed (scrub lower_rune j) (IsClean-scrub j))
