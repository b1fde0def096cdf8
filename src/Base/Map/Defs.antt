-- ===== src/Base/Map/Defs.antt =====
-- Ordered association lists. An insertion keeps the keys in order, so that a walk over a map
-- visits them in the order in which `BTreeMap` does.
use Prim.Native.Nat.{ℕ}
use mathlib.Core.Path.{◌≡◌}
use mathlib.Core.Logic.{◌↔◌}
use mathlib.Core.Bool.{Bool, true, ◌&&◌, ◌||◌}
use mathlib.Core.Option.{Option, none, some}
use mathlib.Core.List.{List, [], ◌∷◌}
use native.Mathlib.Omega.{arith}
use atria.Base.Tests.{ltb, ◌==◌, ==_iff, if◌then◌else◌, is_some}

-- `Ord` and `Eq` on keys.
pub record Key {ℓ} (K : Type ℓ) : Type ℓ where
  pub eqb : K → K → Bool
  pub lt : K → K → Bool
  pub eqb_iff : (a b : K) → (eqb a b ≡ true) ↔ (a ≡ b)

instance abbrev pub ℕ_key : Key ℕ
ℕ_key = record { eqb = ◌==◌; lt = ltb; eqb_iff = ==_iff }

-- The derived order of a pair is lexicographic.
abbrev pub pair_eqb {ℓ κ} : {A : Type ℓ} {B : Type κ} → Key A → Key B → A × B → A × B → Bool
pair_eqb ka kb (a, b) (c, d) = ka.eqb a c && kb.eqb b d

abbrev pub pair_lt {ℓ κ} : {A : Type ℓ} {B : Type κ} → Key A → Key B → A × B → A × B → Bool
pair_lt ka kb (a, b) (c, d) = ka.lt a c || ka.eqb a c && kb.lt b d

pub pair_eqb_iff {ℓ κ} :
    {A : Type ℓ} {B : Type κ} (ka : Key A) (kb : Key B) (p q : A × B)
    → (pair_eqb ka kb p q ≡ true) ↔ (p ≡ q)
pair_eqb_iff ka kb (a, b) (c, d) = ground (arith, ka.eqb_iff a c, kb.eqb_iff b d)

instance abbrev pub pair_key {ℓ κ} :
    {A : Type ℓ} {B : Type κ} ⦃ka : Key A⦄ ⦃kb : Key B⦄ → Key (A × B)
pair_key ⦃ka⦄ ⦃kb⦄ = record {
  eqb = pair_eqb ka kb;
  lt = pair_lt ka kb;
  eqb_iff = pair_eqb_iff ka kb;
}

abbrev pub Map {ℓ κ} : Type ℓ → Type κ → Type (ℓ ⊔ κ)
Map K V = List (K × V)

module _ {ℓ κ} {K : Type ℓ} ⦃o : Key K⦄ {V : Type κ} where
  unfoldable pub lookup : K → Map K V → Option V
  lookup k [] = none
  lookup k ((j, v) ∷ m) = if o.eqb j k then some v else lookup k m

  unfoldable pub insert : K → V → Map K V → Map K V
  insert k v [] = (k, v) ∷ []
  insert k v ((j, w) ∷ m) =
      if o.eqb j k
      then (k, v) ∷ m
      else (let rest = insert k v m in if o.lt k j then (k, v) ∷ (j, w) ∷ m else (j, w) ∷ rest)

  unfoldable pub remove : K → Map K V → Map K V
  remove k [] = []
  remove k ((j, v) ∷ m) = let rest = remove k m in if o.eqb j k then rest else (j, v) ∷ rest

  -- The value under a key through `get_mut`: changed in place, or nothing happens.
  unfoldable pub update : K → (V → V) → Map K V → Map K V
  update k f [] = []
  update k f ((j, v) ∷ m) = if o.eqb j k then (j, f v) ∷ m else (j, v) ∷ update k f m

  -- `BTreeMap::retain`.
  unfoldable pub retain : (K → V → Bool) → Map K V → Map K V
  retain p [] = []
  retain p ((j, v) ∷ m) = let rest = retain p m in if p j v then (j, v) ∷ rest else rest

  abbrev pub contains_key : K → Map K V → Bool
  contains_key k m = is_some (lookup k m)

module _ {ℓ κ} {K : Type ℓ} {V : Type κ} where
  abbrev pub keys : Map K V → List K
  keys [] = []
  keys ((k, v) ∷ m) = k ∷ keys m

  abbrev pub values : Map K V → List V
  values [] = []
  values ((k, v) ∷ m) = v ∷ values m
