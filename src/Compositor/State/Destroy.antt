-- ===== src/Compositor/State/Destroy.antt =====
-- `destroy_object` and `revoke_capability` of atria-compositor/src/state/mod.rs. Destroying an object
-- destroys what cannot stand without it: a seat takes its sessions, a session its surfaces, and a
-- fence the surfaces that wait for it. A surface takes nothing more, so that three rounds of fuel
-- are as deep as it goes.
use atria.Base.{
  ℕ, zero, suc, Bool, true, false, ◌&&◌, ◌||◌, Option, none, some, List, [], ◌∷◌, ◌++◌, ◌==◌,
  if◌then◌else◌, keep, Result, ok, err, ◌>>=◌,
}
use atria.Base.Map.{lookup, remove, ℕ_key, pair_key}
use atria.Protocol.Capability.{Capability, without_capability}
use atria.Compositor.Error.{StateError}
use atria.Compositor.Request.{EventKind}
use atria.Compositor.Model.{
  ConnectionId, ObjectId, display_id, ToplevelHandle, SurfaceKey, chord_key, ObjectKind,
  BufferState, transport_capability,
}
use atria.Compositor.State.{
  CompositorState, Connection, Object, SurfaceState, SessionState, BufferObject, PendingAttachment,
}
use atria.Compositor.State.Access.{
  kind_eqb, key_eqb, is_key, is_id, surface, buffer, session, modify_connection, set_buffer_state,
  toplevel_handle, object_kind,
}
use atria.Compositor.State.Teardown.{push_event, tell_shells, Destroyed}
use atria.Protocol.Capability.SetLaws.{same}
use atria.Compositor.State.Access.{connection, in_surface}
use atria.Compositor.Registry.{
  RegistryEntry, ids, ids_reverse_creation, remove_object, retire, set_values,
}
use atria.Compositor.State.Surface.{unstack}
use atria.Compositor.State.Outcome.{or_same}

-- Does the surface belong to the session?
belongs_to : ObjectId → Result StateError SurfaceState → Bool
belongs_to id (err e) = false
belongs_to id (ok v) = v.session == id

sits_at : ObjectId → Result StateError SessionState → Bool
unfolding is_id
sits_at id (err e) = false
sits_at id (ok v) = is_id v.seat id

-- Does the surface wait for the fence, with what is pending or with what is shown?
waits_for : ObjectId → Result StateError SurfaceState → Bool
unfolding is_id
waits_for id (err e) = false
waits_for id (ok v) =
    is_id v.pending.acquire_fence id
    || (elim v.current [ none ↦ false | some u ↦ is_id u.snapshot.acquire_fence id ])

-- The identifiers of a connection, from the newest, and from the least.
newest_first : CompositorState → ConnectionId → List ObjectId
newest_first s c = elim (lookup c s.connections) [
  | none ↦ []
  | some v ↦ ids_reverse_creation v.registry
]

unfoldable pub ids_on : CompositorState → ConnectionId → List ObjectId
ids_on s c = elim (lookup c s.connections) [ none ↦ [] | some v ↦ ids v.registry ]

-- What goes with an object of this kind.
unfoldable pub dependents : CompositorState → ConnectionId → ObjectId → ObjectKind → List ObjectId
unfolding belongs_to sits_at waits_for newest_first surface session
dependents s c id ObjectKind.session = keep (λ i. belongs_to id (surface s c i)) (newest_first s c)
dependents s c id ObjectKind.seat = keep (λ i. sits_at id (session s c i)) (newest_first s c)
dependents s c id ObjectKind.fence = keep (λ i. waits_for id (surface s c i)) (newest_first s c)
dependents s c id _ = []

-- Is the buffer pending on the surface, or held for it?
unfoldable pub is_for : SurfaceKey → Result StateError BufferObject → Bool
unfolding key_eqb
is_for key (err e) = false
is_for key (ok x) = elim x.state [
  | BufferState.available ↦ false
  | BufferState.pending k ↦ key_eqb k key
  | BufferState.compositor_held k commit ↦ key_eqb k key
]

unfoldable pub release_buffers : SurfaceKey → List ObjectId → CompositorState → CompositorState
unfolding is_for buffer set_buffer_state push_event
release_buffers (c, id) [] s = s
release_buffers (c, id) (b ∷ rest) s =
    release_buffers (c, id) rest
      (if is_for (c, id) (buffer s c b)
        then push_event (or_same s (set_buffer_state s c b BufferState.available)) c b
            EventKind.buffer_release
        else s)

unfoldable pub unplaced : SurfaceKey → CompositorState → CompositorState
unplaced key s = record s {
  scene = record { positions = remove key s.scene.positions; stack = unstack key s.scene.stack };
}

unfoldable pub unfocused : SurfaceKey → CompositorState → CompositorState
unfolding is_key push_event
unfocused (c, id) s =
    if is_key s.keyboard_focus (c, id)
    then record (push_event s c id EventKind.keyboard_leave) { keyboard_focus = none }
    else s

unfoldable pub untargeted : SurfaceKey → CompositorState → CompositorState
unfolding is_key
untargeted key s = if is_key s.pointer_target key then record s { pointer_target = none } else s

-- A surface leaves the scene, and its buffers go back to the client.
unfoldable pub drop_surface : CompositorState → SurfaceKey → CompositorState
unfolding ids_on release_buffers unplaced unfocused untargeted
drop_surface s (c, id) =
    untargeted (c, id)
      (unfocused (c, id) (unplaced (c, id) (release_buffers (c, id) (ids_on s c) s)))

without_buffer : ObjectId → SurfaceState → SurfaceState
unfolding is_id
without_buffer b v = record v {
  pending = record v.pending {
    attachment = elim v.pending.attachment [
      | PendingAttachment.unchanged ↦ PendingAttachment.unchanged
      | PendingAttachment.set_buffer i offset ↦
          if i == b then PendingAttachment.unchanged else PendingAttachment.set_buffer i offset
      | PendingAttachment.detach ↦ PendingAttachment.detach
    ];
  };
  current = elim v.current [
    | none ↦ none
    | some u ↦ if u.snapshot.buffer == b then none else some u
  ];
}

-- Every surface of the connection lets go of the buffer, attached or shown.
unfoldable pub drop_buffer : CompositorState → ConnectionId → ObjectId → CompositorState
unfolding modify_connection set_values in_surface without_buffer
drop_buffer s c b =
    modify_connection c
      (λ v. record v { registry = set_values (in_surface (without_buffer b)) v.registry }) s

-- A window's handle is retired, and the shells are told.
unfoldable pub drop_handle : CompositorState → Option ToplevelHandle → CompositorState
unfolding tell_shells
drop_handle s none = s
drop_handle s (some h) =
    tell_shells (record s { toplevels = remove h s.toplevels }) (EventKind.shell_toplevel_gone h)

-- What the end of an object of this kind does to the rest of the state.
unfoldable pub undo_object :
    CompositorState → ConnectionId → ObjectId → ObjectKind → CompositorState
unfolding drop_surface drop_buffer drop_handle toplevel_handle
undo_object s c id ObjectKind.surface = drop_surface s (c, id)
undo_object s c id ObjectKind.buffer = drop_buffer s c id
undo_object s c id ObjectKind.toplevel = drop_handle s (toplevel_handle s c id)
undo_object s c id _ = s

-- The object leaves the registry; the client is told that it went, then that the number is free.
unfoldable pub remove_found :
    CompositorState
    → ConnectionId
    → ObjectId
    → ObjectKind
    → Option (RegistryEntry Object)
    → CompositorState × Destroyed
unfolding modify_connection push_event
remove_found s c id k none = (s, [])
remove_found s c id k (some e) = (
  modify_connection c (λ v. record v { registry = (retire id v.registry).0 })
      (push_event
        (push_event
          (modify_connection c (λ v. record v { registry = (remove_object id v.registry).0 }) s) c
          id (EventKind.object_destroyed k))
        c id EventKind.id_retired),
  (id, k) ∷ [],
)

unfoldable pub remove_from :
    CompositorState
    → ConnectionId
    → ObjectId
    → ObjectKind
    → Option Connection
    → CompositorState × Destroyed
unfolding remove_found
remove_from s c id k none = (s, [])
remove_from s c id k (some client) = remove_found s c id k (remove_object id client.registry).1

unfoldable pub also_gone : Destroyed → CompositorState × Destroyed → CompositorState × Destroyed
also_gone before (s, later) = (s, before ++ later)

module _ (destroy : CompositorState → ConnectionId → ObjectId → CompositorState × Destroyed) where
  unfoldable pub destroy_each :
      CompositorState → ConnectionId → List ObjectId → CompositorState × Destroyed
  unfolding also_gone
  destroy_each s c [] = (s, [])
  destroy_each s c (id ∷ rest) =
      let (t, gone) = destroy s c id in also_gone gone (destroy_each t c rest)

  unfoldable pub destroy_kind :
      CompositorState → ConnectionId → ObjectId → Option ObjectKind → CompositorState × Destroyed
  unfolding dependents undo_object also_gone remove_from
  destroy_kind s c id none = (s, [])
  destroy_kind s c id (some k) =
      let (t, gone) = destroy_each s c (dependents s c id k) in
      let undone = undo_object t c id k in
      also_gone gone (remove_from undone c id k (lookup c undone.connections))

unfoldable pub destroy_fuel :
    ℕ → CompositorState → ConnectionId → ObjectId → CompositorState × Destroyed
unfolding destroy_kind object_kind
destroy_fuel zero s c id = (s, [])
destroy_fuel (suc fuel) s c id = destroy_kind (destroy_fuel fuel) s c id (object_kind s c id)

unfoldable pub destroy_object :
    CompositorState → ConnectionId → ObjectId → CompositorState × Destroyed
unfolding destroy_fuel
destroy_object = destroy_fuel 3

-- Does the object stand on the capability?
unfoldable pub kind_requires : ObjectKind → Capability → Bool
kind_requires ObjectKind.surface Capability.surface_create = true
kind_requires ObjectKind.buffer Capability.buffer_import = true
kind_requires ObjectKind.fence Capability.explicit_gpu_fence = true
kind_requires ObjectKind.input_stream Capability.extended_input = true
kind_requires ObjectKind.session Capability.privileged_session = true
kind_requires ObjectKind.seat Capability.revocable_seat = true
kind_requires _ _ = false

transport_is : Capability → Result StateError BufferObject → Bool
unfolding transport_capability
transport_is k (err e) = false
transport_is k (ok x) = same (transport_capability x.descriptor.transport) k

unfoldable pub object_requires : CompositorState → ConnectionId → ObjectId → Capability → Bool
unfolding kind_requires object_kind transport_is buffer kind_eqb
object_requires s c id capability = elim (object_kind s c id) [
  | none ↦ false
  | some k ↦
      kind_requires k capability
      || kind_eqb k ObjectKind.buffer && transport_is capability (buffer s c id)
]

unfoldable pub destroy_required :
    CompositorState → ConnectionId → Capability → List ObjectId → CompositorState × Destroyed
unfolding object_requires destroy_object also_gone
destroy_required s c capability [] = (s, [])
destroy_required s c capability (id ∷ rest) =
    let (t, gone) = if object_requires s c id capability then destroy_object s c id else (s, []) in
    also_gone gone (destroy_required t c capability rest)

-- The client is told before anything goes.
unfoldable pub revoke_capability :
    CompositorState → ConnectionId → Capability → Result StateError (CompositorState × Destroyed)
unfolding connection modify_connection push_event destroy_required
revoke_capability s c capability = do
  client ← connection s c
  ok (
      destroy_required
        (push_event
          (modify_connection c
            (λ v. record v { capabilities = without_capability v.capabilities capability }) s)
          c display_id (EventKind.capability_revoked capability))
        c capability (ids_reverse_creation client.registry))
