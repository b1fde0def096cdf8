-- ===== src/Compositor/Registry/Lifetime.antt =====
-- How long an identifier stays taken, and that nothing that lives is forgotten.
use atria.Base.{
  ℕ, ◌≡◌, refl, sym, subst, is_ok, ==_refl, if◌then◌else◌, Bool, true, false, ◌||◌, List, [], ◌∷◌,
  ◌++◌, ◌==◌, ==_iff, some, ok, err, arith, any,
}
use atria.Base.Map.{lookup, contains_key, ℕ_key, lookup-insert, lookup-remove}
use atria.Compositor.Model.{ObjectId, is_client_allocatable, ObjectKind}
use atria.Compositor.Error.{StateError}
use atria.Compositor.Registry.{ObjectRegistry, new, retire, allocate_client, remove_object, kind_of}

-- A step that the compositor takes on a registry.
pub data Step {T : Type 0} (r : ObjectRegistry T) (s : ObjectRegistry T) : Type 0 where
  allocates :
      (id : ObjectId) (k : ObjectKind) (value : T) → allocate_client id k value r ≡ ok s → Step r s
  removes : (id : ObjectId) → s ≡ (remove_object id r).0 → Step r s
  retires : (id : ObjectId) → s ≡ (retire id r).0 → Step r s

pub data Reach {T : Type 0} (r : ObjectRegistry T) : ObjectRegistry T → Type 0 where
  here : Reach r r
  next : {s t : ObjectRegistry T} → Reach r s → Step s t → Reach r t

-- What lives is taken, and is in the order of creation.
pub record IsTracked {T : Type 0} (r : ObjectRegistry T) : Type 0 where
  pub taken : (id : ObjectId) → contains_key id r.live ≡ true → contains_key id r.used ≡ true
  pub ordered :
      (id : ObjectId) → contains_key id r.live ≡ true → any (λ j. j == id) r.creation_order ≡ true

any-append : (p : ℕ → Bool) (xs ys : List ℕ) → any p (xs ++ ys) ≡ any p xs || any p ys
any-append p [] ys = refl
any-append p (x ∷ xs) ys = ground (arith, any-append p xs ys)

module _ {T : Type 0} where
  new-IsTracked : (value : T) → IsTracked (new value)
  unfolding new lookup
  new-IsTracked value = record { taken = λ id h. ground arith; ordered = λ id h. ground arith }

  allocate-IsTracked :
      (r s : ObjectRegistry T) (id : ObjectId) (k : ObjectKind) (value : T)
      → allocate_client id k value r ≡ ok s
      → IsTracked r
      → IsTracked s
  unfolding allocate_client
  allocate-IsTracked r s id k value h v = record {
    taken = λ j e. ground (
      arith,
      v.taken j,
      lookup-insert id j (record { kind = k; value = value }) r.live,
      lookup-insert id j tt r.used,
    );
    ordered = λ j e. ground (
      arith,
      v.ordered j,
      lookup-insert id j (record { kind = k; value = value }) r.live,
      any-append (λ i. i == j) r.creation_order (id ∷ []),
    );
  }

  remove-IsTracked :
      (r : ObjectRegistry T) (id : ObjectId) → IsTracked r → IsTracked (remove_object id r).0
  unfolding remove_object
  remove-IsTracked r id v = record {
    taken = λ j e. ground (arith, v.taken j, lookup-remove id j r.live);
    ordered = λ j e. ground (arith, v.ordered j, lookup-remove id j r.live);
  }

  retire-IsTracked :
      (r : ObjectRegistry T) (id : ObjectId) → IsTracked r → IsTracked (retire id r).0
  unfolding retire
  retire-IsTracked r id v = record {
    taken = λ j e. ground (arith, v.taken j, lookup-remove id j r.used, ==_iff id j);
    ordered = λ j e. ground (arith, v.ordered j);
  }

  pub Step-IsTracked : (r s : ObjectRegistry T) → Step r s → IsTracked r → IsTracked s
  Step-IsTracked r s (allocates id k value h) v = allocate-IsTracked r s id k value h v
  Step-IsTracked r s (removes id e) v = subst IsTracked (sym e) (remove-IsTracked r id v)
  Step-IsTracked r s (retires id e) v = subst IsTracked (sym e) (retire-IsTracked r id v)

  Reach-IsTracked : {r s : ObjectRegistry T} → Reach r s → IsTracked r → IsTracked s
  Reach-IsTracked here v = v
  Reach-IsTracked (next {s} {t} before step) v = Step-IsTracked s t step (Reach-IsTracked before v)

  -- After any sequence of allocations, removals and retirements on a new registry, every live
  -- object's identifier is taken and stands in the order of creation.
  pub Reach-new-IsTracked : (value : T) (r : ObjectRegistry T) → Reach (new value) r → IsTracked r
  Reach-new-IsTracked value r steps = Reach-IsTracked steps (new-IsTracked value)

  -- The life of an identifier that a client may allocate, in a registry that tracks its objects:
  -- while its object lives it can be neither allocated nor retired; with the object removed it still
  -- cannot be allocated; and once it is retired it can be, to any kind of object.
  pub identifier_lifetime :
      (r : ObjectRegistry T) (id : ObjectId) (k : ObjectKind) (value : T)
      → IsTracked r
      → contains_key id r.live ≡ true
      → is_client_allocatable id ≡ true
      → let gone = (remove_object id r).0 in
        (allocate_client id k value r ≡ err (StateError.object_id_already_used id))
        × ((retire id r).1 ≡ false)
        × (allocate_client id k value gone ≡ err (StateError.object_id_already_used id))
        × ((retire id gone).1 ≡ true)
        × (is_ok (allocate_client id k value (retire id gone).0) ≡ true)
  unfolding allocate_client retire remove_object
  identifier_lifetime r id k value v lives free =
      ground (
        arith,
        v.taken id lives,
        lookup-remove id id r.live,
        lookup-remove id id r.used,
        ==_refl id,
      )

  -- Allocation adds the object and touches no other: afterwards the new identifier has the kind
  -- that was asked for, and every other identifier the kind that it had.
  pub kind_of-allocate_client :
      (r s : ObjectRegistry T) (id : ObjectId) (k : ObjectKind) (value : T) (j : ObjectId)
      → allocate_client id k value r ≡ ok s
      → kind_of j s ≡ (if id == j then some k else kind_of j r)
  unfolding allocate_client kind_of
  kind_of-allocate_client r s id k value j h =
      ground (arith, lookup-insert id j (record { kind = k; value = value }) r.live)
