-- ===== src/Config/Bounds.antt =====
-- What `Load` of backend/internal/config/config.go lets through.
use Prim.Native.Char.{Char}
use Prim.Native.String.{String}
use package.text.Mathlib.Text.{◌==◌ as str_eq}
use gb_522_l7o.Prelude.{
  ℕ, ◌^◌, ◌≤◌, ◌<◌, ◌≡◌, refl, sym, subst, true, false, Bool-cases, not, ◌&&◌, ◌||◌, none, List, [],
  ◌∷◌, All, ltb, arith, inl, inr,
}
use gb_522_l7o.Prelude.Int.{ℤ, pos, negsuc, ltb_ℤ}
use gb_522_l7o.Strings.{
  is_empty, trim_space, split_commas, atoi, format_uint, format_int, byte_length,
}
use gb_522_l7o.Strings.Decimal.{atoi-format_uint}
use gb_522_l7o.Errors.{ok}
use gb_522_l7o.Config.{Config, check_config, trimmed_parts, env, env_int, read_config, load}

-- The bounds of the settings.
pub record IsConfig (c : Config) : Type 0 where
  pub secret : 32 ≤ byte_length c.jwt_secret
  pub driver : (str_eq c.db_driver "postgres" || str_eq c.db_driver "sqlite") ≡ true
  pub points : ℕ
  pub points_are : c.max_trace_points ≡ pos points
  pub bounds : (64 ≤ points) × (points ≤ 200000)
  pub origins : All (λ s. is_empty s ≡ false) c.cors_origins

trimmed_parts-All : (parts : List String) → All (λ s. is_empty s ≡ false) (trimmed_parts parts)
unfolding trimmed_parts
trimmed_parts-All [] = tt
trimmed_parts-All (part ∷ parts) = elim (Bool-cases (is_empty (trim_space part))) [
  | inl e ↦ rw e (trimmed_parts-All parts)
  | inr e ↦ rw e (e, trimmed_parts-All parts)
]

points-bounds :
    (z : ℤ)
    → (ltb_ℤ z (pos 64) || ltb_ℤ (pos 200000) z) ≡ false
    → (n : ℕ) × (z ≡ pos n) × (64 ≤ n) × (n ≤ 200000)
points-bounds (pos n) h = (n, refl, ground arith, ground arith)
points-bounds (negsuc n) h = absurd (ground arith)

check_config-inv :
    (quote : String → String) (c d : Config)
    → check_config quote c ≡ ok d
    → (d ≡ c)
      × (32 ≤ byte_length c.jwt_secret)
      × ((str_eq c.db_driver "postgres" || str_eq c.db_driver "sqlite") ≡ true)
      × ((ltb_ℤ c.max_trace_points (pos 64) || ltb_ℤ (pos 200000) c.max_trace_points) ≡ false)
unfolding check_config
check_config-inv quote c d h = elim (Bool-cases (ltb (byte_length c.jwt_secret) 32)) [
  | inl short ↦ absurd (ground arith)
  | inr long ↦
      elim (Bool-cases (not (str_eq c.db_driver "postgres") && not (str_eq c.db_driver "sqlite"))) [
        | inl unsupported ↦ absurd (ground arith)
        | inr known ↦
            elim (Bool-cases
              (ltb_ℤ c.max_trace_points (pos 64) || ltb_ℤ (pos 200000) c.max_trace_points)) [
                | inl outside ↦ absurd (ground arith)
                | inr within ↦ (ground arith, ground arith, ground arith, within)
              ]
      ]
]

atoi-empty : (s : String) → is_empty s ≡ true → atoi s ≡ none
unfolding atoi
atoi-empty String.[] h = refl
atoi-empty (String.◌∷◌ c s) h = absurd (ground arith)

module _ (getenv : String → String) where
  -- The settings that `Load` returns have a secret of at least 32 bytes, one of the two drivers, a
  -- limit of 64 to 200,000 samples, and no empty origin.
  pub load-IsConfig :
      (lower_rune : Char → Char) (quote : String → String) (c : Config)
      → load getenv lower_rune quote ≡ ok c
      → IsConfig c
  unfolding load read_config
  load-IsConfig lower_rune quote c h =
      let (same, long, driver, limit) =
        check_config-inv quote (read_config getenv lower_rune) c h in
      let (n, is_n, low, high) = points-bounds _ limit in
      subst IsConfig (sym same) (record {
        secret = long;
        driver = driver;
        points = n;
        points_are = is_n;
        bounds = (low, high);
        origins =
            trimmed_parts-All (split_commas (env getenv "CORS_ORIGINS" "http://localhost:18522"));
      })

  -- A number below 2⁶³ in the environment, with spaces around it or none, is the setting.
  pub env_int-format_uint :
      (key : String) (fallback : ℤ) (n : ℕ)
      → n < 2 ^ 63
      → trim_space (getenv key) ≡ format_uint n
      → env_int getenv key fallback ≡ pos n
  unfolding env_int env format_int
  env_int-format_uint key fallback n small e = elim (Bool-cases (is_empty (format_uint n))) [
    | inl blank ↦
        let unread = atoi-empty (format_uint n) blank in
        absurd (ground (arith, atoi-format_uint n small))
    | inr written ↦ ground (arith, e, atoi-format_uint n small)
  ]
