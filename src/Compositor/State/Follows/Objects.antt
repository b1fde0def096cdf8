-- ===== src/Compositor/State/Follows/Objects.antt =====
-- That the end of an object is steps of `Follows`.
use atria.Base.{ℕ, zero, suc, refl, Option, none, some, List, [], ◌∷◌, if_intro}
use atria.Base.Map.{ℕ_key, pair_key}
use atria.Compositor.Request.{EventKind}
use atria.Compositor.Model.{
  ConnectionId, ObjectId, ToplevelHandle, SurfaceKey, chord_key, ObjectKind, BufferState,
}
use atria.Compositor.State.{CompositorState, Connection, Object}
use atria.Compositor.State.Access.{is_key, buffer, toplevel_handle, object_kind}
use atria.Compositor.State.Teardown.{Destroyed}
use atria.Compositor.State.Follows.{Follows, goes, changes, writes_all, removes, retires}
use atria.Compositor.State.Follows.Steps.{
  or_same-Follows, moved, push_event-Follows, tell_shells-Follows, set_buffer_state-Holds,
}
use atria.Compositor.Registry.{RegistryEntry, set_values, remove_object, retire}
use atria.Compositor.State.Destroy.{
  is_for, ids_on, release_buffers, unplaced, unfocused, untargeted, drop_surface, drop_buffer,
  drop_handle, undo_object, remove_found, remove_from, also_gone, destroy_each, destroy_kind,
  dependents, destroy_fuel, destroy_object,
}

module _ (start : CompositorState) where
  release_buffers-Follows :
      (key : SurfaceKey) (bs : List ObjectId) (s : CompositorState)
      → Follows start s
      → Follows start (release_buffers key bs s)
  unfolding release_buffers
  release_buffers-Follows (c, id) [] s p = p
  release_buffers-Follows (c, id) (b ∷ rest) s p =
      release_buffers-Follows (c, id) rest _
        (if_intro (Follows start) (is_for (c, id) (buffer s c b))
          (λ h. push_event-Follows start _ c b EventKind.buffer_release (
            or_same-Follows start s _ p
              (set_buffer_state-Holds start s c b BufferState.available p)))
          (λ h. p))

  unfocused-Follows :
      (key : SurfaceKey) (s : CompositorState) → Follows start s → Follows start (unfocused key s)
  unfolding unfocused
  unfocused-Follows (c, id) s p =
      if_intro (Follows start) (is_key s.keyboard_focus (c, id))
        (λ h.
          moved start (push_event-Follows start s c id EventKind.keyboard_leave p)
            (refl, refl, refl, refl))
        (λ h. p)

  untargeted-Follows :
      (key : SurfaceKey) (s : CompositorState) → Follows start s → Follows start (untargeted key s)
  unfolding untargeted
  untargeted-Follows key s p =
      if_intro (Follows start) (is_key s.pointer_target key)
        (λ h. moved start p (refl, refl, refl, refl)) (λ h. p)

  unplaced-Follows :
      (key : SurfaceKey) (s : CompositorState) → Follows start s → Follows start (unplaced key s)
  unfolding unplaced
  unplaced-Follows key s p = moved start p (refl, refl, refl, refl)

  drop_surface-Follows :
      (s : CompositorState) (key : SurfaceKey)
      → Follows start s
      → Follows start (drop_surface s key)
  unfolding drop_surface
  drop_surface-Follows s (c, id) p =
      untargeted-Follows (c, id) _
        (unfocused-Follows (c, id) _
          (unplaced-Follows (c, id) _ (release_buffers-Follows (c, id) (ids_on s c) s p)))

  drop_buffer-Follows :
      (s : CompositorState) (c : ConnectionId) (b : ObjectId)
      → Follows start s
      → Follows start (drop_buffer s c b)
  unfolding drop_buffer
  drop_buffer-Follows s c b p = goes p (changes c (set_values _) (λ r. writes_all _ refl) refl)

  drop_handle-Follows :
      (s : CompositorState) (h : Option ToplevelHandle)
      → Follows start s
      → Follows start (drop_handle s h)
  unfolding drop_handle
  drop_handle-Follows s none p = p
  drop_handle-Follows s (some h) p =
      tell_shells-Follows start _ (EventKind.shell_toplevel_gone h)
        (moved start p (refl, refl, refl, refl))

  undo_object-Follows :
      (s : CompositorState) (c : ConnectionId) (id : ObjectId) (k : ObjectKind)
      → Follows start s
      → Follows start (undo_object s c id k)
  unfolding undo_object
  undo_object-Follows s c id ObjectKind.surface p = drop_surface-Follows s (c, id) p
  undo_object-Follows s c id ObjectKind.buffer p = drop_buffer-Follows s c id p
  undo_object-Follows s c id ObjectKind.toplevel p =
      drop_handle-Follows s (toplevel_handle s c id) p
  undo_object-Follows s c id _ p = p

  remove_found-Follows :
      (s : CompositorState) (c : ConnectionId) (id : ObjectId) (k : ObjectKind)
      (e : Option (RegistryEntry Object))
      → Follows start s
      → Follows start (remove_found s c id k e).0
  unfolding remove_found
  remove_found-Follows s c id k none p = p
  remove_found-Follows s c id k (some e) p =
      let removed = goes p (changes c (λ r. (remove_object id r).0) (λ r. removes id refl) refl) in
      goes
        (push_event-Follows start _ c id EventKind.id_retired
          (push_event-Follows start _ c id (EventKind.object_destroyed k) removed))
        (changes c (λ r. (retire id r).0) (λ r. retires id refl) refl)

  remove_from-Follows :
      (s : CompositorState) (c : ConnectionId) (id : ObjectId) (k : ObjectKind)
      (client : Option Connection)
      → Follows start s
      → Follows start (remove_from s c id k client).0
  unfolding remove_from
  remove_from-Follows s c id k none p = p
  remove_from-Follows s c id k (some client) p = remove_found-Follows s c id k _ p

  module _ (destroy : CompositorState → ConnectionId → ObjectId → CompositorState × Destroyed)
      (kept : (s : CompositorState) (c : ConnectionId) (id : ObjectId)
        → Follows start s
        → Follows start (destroy s c id).0) where
    destroy_each-Follows :
        (s : CompositorState) (c : ConnectionId) (ids : List ObjectId)
        → Follows start s
        → Follows start (destroy_each destroy s c ids).0
    unfolding destroy_each also_gone
    destroy_each-Follows s c [] p = p
    destroy_each-Follows s c (id ∷ rest) p =
        destroy_each-Follows (destroy s c id).0 c rest (kept s c id p)

    destroy_kind-Follows :
        (s : CompositorState) (c : ConnectionId) (id : ObjectId) (k : Option ObjectKind)
        → Follows start s
        → Follows start (destroy_kind destroy s c id k).0
    unfolding destroy_kind also_gone
    destroy_kind-Follows s c id none p = p
    destroy_kind-Follows s c id (some k) p =
        remove_from-Follows _ c id k _
          (undo_object-Follows _ c id k (destroy_each-Follows s c (dependents s c id k) p))

  destroy_fuel-Follows :
      (fuel : ℕ) (s : CompositorState) (c : ConnectionId) (id : ObjectId)
      → Follows start s
      → Follows start (destroy_fuel fuel s c id).0
  unfolding destroy_fuel
  destroy_fuel-Follows zero s c id p = p
  destroy_fuel-Follows (suc fuel) s c id p =
      destroy_kind-Follows (destroy_fuel fuel) (destroy_fuel-Follows fuel) s c id
        (object_kind s c id) p

  pub destroy_object-Follows :
      (s : CompositorState) (c : ConnectionId) (id : ObjectId)
      → Follows start s
      → Follows start (destroy_object s c id).0
  unfolding destroy_object
  destroy_object-Follows s c id p = destroy_fuel-Follows 3 s c id p
