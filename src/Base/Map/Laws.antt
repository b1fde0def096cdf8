-- ===== src/Base/Map/Laws.antt =====
-- The laws of the ordered association lists, in `if` form.
use mathlib.Core.Path.{◌≡◌, refl}
use mathlib.Core.Bool.{Bool, true, false, not, ◌||◌}
use mathlib.Core.Option.{Option, none, some}
use mathlib.Core.List.{[], ◌∷◌}
use native.Mathlib.Omega.{arith}
use atria.Base.Tests.{if◌then◌else◌}
use atria.Base.Map.Defs.{Key, Map, lookup, insert, remove, update, retain}
use mathlib.Core.Option

pub eqb_refl {ℓ} : {K : Type ℓ} ⦃o : Key K⦄ (k : K) → o.eqb k k ≡ true
eqb_refl ⦃o⦄ k = (o.eqb_iff k k).1 refl

module _ {ℓ κ} {K : Type ℓ} ⦃o : Key K⦄ {V : Type κ} where
  pub lookup-insert :
      (k j : K) (v : V) (m : Map K V)
      → lookup j (insert k v m) ≡ (if o.eqb k j then some v else lookup j m)
  unfolding lookup insert
  lookup-insert k j v [] = refl
  lookup-insert k j v ((i, w) ∷ m) =
      ground (arith, o.eqb_iff k j, o.eqb_iff i k, o.eqb_iff i j, lookup-insert k j v m)

  pub lookup-remove :
      (k j : K) (m : Map K V) → lookup j (remove k m) ≡ (if o.eqb k j then none else lookup j m)
  unfolding lookup remove
  lookup-remove k j [] = ground arith
  lookup-remove k j ((i, w) ∷ m) =
      ground (arith, o.eqb_iff k j, o.eqb_iff i k, o.eqb_iff i j, lookup-remove k j m)

  pub lookup-update :
      (k j : K) (f : V → V) (m : Map K V)
      → lookup j (update k f m) ≡ (if o.eqb k j then Option.map f (lookup j m) else lookup j m)
  unfolding lookup update
  lookup-update k j f [] = ground arith
  lookup-update k j f ((i, w) ∷ m) =
      ground (arith, o.eqb_iff k j, o.eqb_iff i k, o.eqb_iff i j, lookup-update k j f m)

-- Does any key with its value pass the test?
module _ {ℓ κ} {K : Type ℓ} {V : Type κ} where
  unfoldable pub any_entry : (K → V → Bool) → Map K V → Bool
  any_entry p [] = false
  any_entry p ((j, v) ∷ m) = p j v || any_entry p m

module _ {ℓ κ} {K : Type ℓ} ⦃o : Key K⦄ {V : Type κ} where
  pub any_entry-retain :
      (p q : K → V → Bool) (m : Map K V) → any_entry p m ≡ false → any_entry p (retain q m) ≡ false
  unfolding retain any_entry
  any_entry-retain p q [] h = refl
  any_entry-retain p q ((j, v) ∷ m) h = ground (arith, any_entry-retain p q m)

  pub any_entry-retain-not :
      (p : K → V → Bool) (m : Map K V) → any_entry p (retain (λ j v. not (p j v)) m) ≡ false
  unfolding retain any_entry
  any_entry-retain-not p [] = refl
  any_entry-retain-not p ((j, v) ∷ m) = ground (arith, any_entry-retain-not p m)
