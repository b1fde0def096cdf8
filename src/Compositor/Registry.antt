-- ===== src/Compositor/Registry.antt =====
-- atria-compositor/src/registry.rs: one connection's objects. An identifier is taken from its
-- allocation until it is retired, which is later than the object's removal.
pub mod Lifetime
use atria.Base.{
  map, ℕ, ◌≤◌, Bool, true, false, not, ◌&&◌, Option, none, some, List, [], ◌∷◌, ◌++◌, reverse, ◌==◌,
  Result, ok, err, ◌>>=◌, ok_or, if◌then◌else◌, is_some, length, any, keep,
}
use atria.Base.Map.{Map, lookup, insert, remove, contains_key, keys, ℕ_key, update}
use atria.Compositor.Model.{ObjectId, display_id, is_client_allocatable, ObjectKind}
use atria.Compositor.Error.{StateError}

pub record RegistryEntry (T : Type 0) : Type 0 where
  pub kind : ObjectKind
  pub value : T

-- `used` is the set as a map to the unit type; `creation_order` runs from the oldest.
pub record ObjectRegistry (T : Type 0) : Type 0 where
  pub live : Map ObjectId (RegistryEntry T)
  pub used : Map ObjectId (Unit {0})
  pub creation_order : List ObjectId

module _ {T : Type 0} where
  unfoldable pub new : T → ObjectRegistry T
  new value = record {
    live = (display_id, record { kind = ObjectKind.display; value = value }) ∷ [];
    used = (display_id, tt) ∷ [];
    creation_order = display_id ∷ [];
  }

  unfoldable pub len : ObjectRegistry T → ℕ
  len r = length r.live

  -- The registry, and whether the identifier became free.
  unfoldable pub retire : ObjectId → ObjectRegistry T → ObjectRegistry T × Bool
  retire id r =
      if not (contains_key id r.live)
      then (record r { used = remove id r.used }, contains_key id r.used)
      else (r, false)

  unfoldable pub entry : ObjectId → ObjectRegistry T → Result StateError (RegistryEntry T)
  entry id r = ok_or (lookup id r.live) (StateError.invalid_object id)

  unfoldable pub kind_of : ObjectId → ObjectRegistry T → Option ObjectKind
  kind_of id r = elim (lookup id r.live) [ none ↦ none | some e ↦ some e.kind ]

  -- `ObjectRegistry::kind`.
  unfoldable pub kind : ObjectId → ObjectRegistry T → Result StateError ObjectKind
  unfolding entry
  kind id r = do e ← entry id r; ok e.kind

  unfoldable pub allocate :
      ObjectId → ObjectKind → T → ObjectRegistry T → Result StateError (ObjectRegistry T)
  allocate id k value r =
      if contains_key id r.used
      then err (StateError.object_id_already_used id)
      else ok (record {
        live = insert id (record { kind = k; value = value }) r.live;
        used = insert id tt r.used;
        creation_order = r.creation_order ++ id ∷ [];
      })

  unfoldable pub allocate_client :
      ObjectId → ObjectKind → T → ObjectRegistry T → Result StateError (ObjectRegistry T)
  unfolding allocate
  allocate_client id k value r =
      if is_client_allocatable id
      then allocate id k value r
      else err (StateError.invalid_object_id id)

  -- The registry without the object, and the object.
  unfoldable pub remove_object :
      ObjectId → ObjectRegistry T → ObjectRegistry T × Option (RegistryEntry T)
  remove_object id r = (record r { live = remove id r.live }, lookup id r.live)

  -- A write through `entry_mut`.
  unfoldable pub set_value : ObjectId → (T → T) → ObjectRegistry T → ObjectRegistry T
  set_value id f r = record r { live = update id (λ e. record e { value = f e.value }) r.live }

  -- A write to every live object, through `values_mut`.
  unfoldable pub set_values : (T → T) → ObjectRegistry T → ObjectRegistry T
  set_values f r = record r { live = map (λ e. (e.0, record (e.1) { value = f e.1.value })) r.live }

  unfoldable pub ids_reverse_creation : ObjectRegistry T → List ObjectId
  ids_reverse_creation r = reverse r.creation_order

  unfoldable pub ids : ObjectRegistry T → List ObjectId
  ids r = keys r.live
