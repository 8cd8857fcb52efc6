-- ===== src/Json.antt =====
-- JSON documents, as `encoding/json` reads and writes them: the tree that a text stands for.
use Prim.Native.String.{String}
use gb_522_l7o.Prelude.{ℕ, Bool, Option, none, some}
use gb_522_l7o.Float.{Float}

mutual
  pub data Json (F : Type 0) : Type 0 where
    null : Json F
    boolean : Bool → Json F
    num : F → Json F
    str : String → Json F
    arr : Items F → Json F
    obj : Fields F → Json F

  pub data Items (F : Type 0) : Type 0 where
    nil : Items F
    item : Json F → Items F → Items F

  pub data Fields (F : Type 0) : Type 0 where
    done : Fields F
    field : String → Json F → Fields F → Fields F

-- A pointer that may be nil.
abbrev pub optional {ℓ} : {A : Type ℓ} {F : Type 0} → (A → Json F) → Option A → Json F
optional g none = null
optional g (some a) = g a

-- An integer, as the number that a decoder reads back.
abbrev pub nat : {F : Type 0} ⦃f : Float F⦄ → ℕ → Json F
nat ⦃f⦄ n = num (f.of_ℕ n)
