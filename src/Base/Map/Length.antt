-- ===== src/Base/Map/Length.antt =====
-- How many entries a map has, and what is found in a map that has changed.
use mathlib.Core.Path.{◌≡◌, refl, sym, ◌∙◌}
use mathlib.Core.Bool.{Bool, true, false}
use mathlib.Core.Option.{Option, none, some}
use mathlib.Core.List.{List, [], ◌∷◌, map}
use mathlib.Core.Logic.{◌⊎◌, inl, inr}
use mathlib.Core.Option
use Prim.Native.Nat.{suc, ◌≤◌}
use native.Mathlib.Omega.{arith}
use atria.Base.Tests.{if◌then◌else◌}
use atria.Base.Lists.{length}
use atria.Base.Map.Defs.{Key, Map, lookup, insert, remove, update}
use atria.Base.Map.Laws.{lookup-insert, lookup-update, lookup-remove}

pub length-map {ℓ κ} :
    {A : Type ℓ} {B : Type κ} (f : A → B) (xs : List A) → length (map f xs) ≡ length xs
length-map f [] = refl
length-map f (x ∷ xs) = ground (arith, length-map f xs)

pub update-cases {κ} :
    {V : Type κ} (f : V → V) (w : V) (b : Bool) (found : Option V)
    → (if b then Option.map f found else found) ≡ some w
    → (v : V) × (found ≡ some v) × ((w ≡ v) ⊎ ((b ≡ true) × (w ≡ f v)))
update-cases f w true none h = ground (arith, h)
update-cases f w true (some v) h = (v, refl, inr (refl, ground (arith, h)))
update-cases f w false none h = ground (arith, h)
update-cases f w false (some v) h = (v, refl, inl (ground (arith, h)))

insert-cases {κ} :
    {V : Type κ} (b : Bool) (v w : V) (found : Option V)
    → (if b then some v else found) ≡ some w
    → (w ≡ v) ⊎ (found ≡ some w)
insert-cases true v w found h = inl (ground (arith, h))
insert-cases false v w found h = inr h

module _ {ℓ κ} {K : Type ℓ} ⦃o : Key K⦄ {V : Type κ} where
  pub length-insert : (k : K) (v : V) (m : Map K V) → length (insert k v m) ≤ suc (length m)
  unfolding insert
  length-insert k v [] = omega arith
  length-insert k v ((j, w) ∷ m) = ground (arith, length-insert k v m)

  pub length-update : (k : K) (f : V → V) (m : Map K V) → length (update k f m) ≡ length m
  unfolding update
  length-update k f [] = refl
  length-update k f ((j, w) ∷ m) = ground (arith, length-update k f m)

  pub length-remove : (k : K) (m : Map K V) → length (remove k m) ≤ length m
  unfolding remove
  length-remove k [] = omega arith
  length-remove k ((j, w) ∷ m) = ground (arith, length-remove k m)

  -- What is found after an update was there before, as it was or at the key.
  pub found-update :
      (k j : K) (f : V → V) (m : Map K V) (w : V)
      → lookup j (update k f m) ≡ some w
      → (v : V) × (lookup j m ≡ some v) × ((w ≡ v) ⊎ ((o.eqb k j ≡ true) × (w ≡ f v)))
  found-update k j f m w h =
      update-cases f w (o.eqb k j) (lookup j m) (sym (lookup-update k j f m) ∙ h)

  pub found-remove :
      (k j : K) (m : Map K V) (w : V) → lookup j (remove k m) ≡ some w → lookup j m ≡ some w
  found-remove k j m w h = ground (arith, lookup-remove k j m, h)

  pub found-insert :
      (k j : K) (v : V) (m : Map K V) (w : V)
      → lookup j (insert k v m) ≡ some w
      → (w ≡ v) ⊎ (lookup j m ≡ some w)
  found-insert k j v m w h =
      insert-cases (o.eqb k j) v w (lookup j m) (sym (lookup-insert k j v m) ∙ h)

  pub lookup-map :
      (f : V → V) (j : K) (m : Map K V)
      → lookup j (map (λ (e : K × V). (e.0, f e.1)) m) ≡ Option.map f (lookup j m)
  unfolding lookup
  lookup-map f j [] = ground arith
  lookup-map f j ((i, w) ∷ m) = ground (arith, lookup-map f j m)
