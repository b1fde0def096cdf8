-- ===== src/Compositor/State/Access.antt =====
-- The look-ups of atria-compositor/src/state/mod.rs. A function of the source that returns a
-- mutable reference is here the test that finds the object and `modify_object`, which writes it.
use atria.Base.{
  ℕ, Bool, false, not, ◌&&◌, Option, none, some, List, [], ◌∷◌, ◌++◌, map, ◌==◌, Result, ok, err,
  ◌>>=◌, ◌>>◌, ok_or, guard, leb, min, keep, length,
}
use atria.Base.Map.{Map, lookup, update, ℕ_key, pair_key, values}
use atria.Protocol.Capability.{Capability, CapabilitySet, contains}
use atria.Compositor.Model.{
  ConnectionId, ObjectId, display_id, ObjectKind, SurfaceKey, BufferState, SharedMemory,
  ToplevelHandle,
}
use atria.Compositor.Error.{StateError}
use atria.Compositor.Request.{SurfaceSnapshot}
use atria.Compositor.Registry.{ObjectRegistry, RegistryEntry, entry, kind_of, set_value, len, ids}
use atria.Compositor.Registry
use atria.Compositor.State.{
  CompositorState, Connection, Object, SurfaceState, BufferObject, SessionState, SeatState,
  ToplevelState, FenceState,
}

-- The derived equality of `ObjectKind`, by the constructor's place.
kind_index : ObjectKind → ℕ
kind_index ObjectKind.display = 0
kind_index ObjectKind.registry = 1
kind_index ObjectKind.compositor = 2
kind_index ObjectKind.shm = 3
kind_index ObjectKind.shell = 4
kind_index ObjectKind.toplevel = 5
kind_index ObjectKind.shm_pool = 6
kind_index ObjectKind.seat = 7
kind_index ObjectKind.session = 8
kind_index ObjectKind.surface = 9
kind_index ObjectKind.buffer = 10
kind_index ObjectKind.fence = 11
kind_index ObjectKind.input_stream = 12
kind_index ObjectKind.shell_control = 13
kind_index ObjectKind.pointer = 14
kind_index ObjectKind.keyboard = 15
kind_index ObjectKind.shortcuts = 16
kind_index ObjectKind.text_input = 17
kind_index ObjectKind.input_method = 18
kind_index ObjectKind.output = 19

unfoldable pub kind_eqb : ObjectKind → ObjectKind → Bool
unfolding kind_index
kind_eqb a b = kind_index a == kind_index b

unfoldable pub key_eqb : SurfaceKey → SurfaceKey → Bool
key_eqb a b = a.0 == b.0 && a.1 == b.1

-- Is the option this key?
unfoldable pub is_key : Option SurfaceKey → SurfaceKey → Bool
unfolding key_eqb
is_key none k = false
is_key (some j) k = key_eqb j k

unfoldable pub is_id : Option ObjectId → ObjectId → Bool
is_id none i = false
is_id (some j) i = j == i

unfoldable pub connection : CompositorState → ConnectionId → Result StateError Connection
connection s c = ok_or (lookup c s.connections) StateError.connection_closed

unfoldable pub object_entry :
    CompositorState → ConnectionId → ObjectId → Result StateError (RegistryEntry Object)
unfolding connection entry
object_entry s c id = do client ← connection s c; entry id client.registry

-- `CompositorState::object` and `object_mut`.
unfoldable pub object :
    CompositorState → ConnectionId → ObjectId → ObjectKind → Result StateError Object
unfolding object_entry kind_eqb
object s c id expected = do
  e ← object_entry s c id
  guard (kind_eqb e.kind expected) (StateError.wrong_object_type id expected e.kind)
  ok e.value

unfoldable pub expect_any : CompositorState → ConnectionId → ObjectId → Result StateError (Unit {0})
unfolding object_entry
expect_any s c id = do e ← object_entry s c id; ok tt

unfoldable pub expect_kind :
    CompositorState → ConnectionId → ObjectId → ObjectKind → Result StateError (Unit {0})
unfolding object
expect_kind s c id expected = do o ← object s c id expected; ok tt

unfoldable pub as_surface : ObjectId → Object → Result StateError SurfaceState
as_surface id (Object.surface x) = ok x
as_surface id _ = err (StateError.invalid_state id)

-- `surface` and `surface_mut`.
unfoldable pub surface : CompositorState → ConnectionId → ObjectId → Result StateError SurfaceState
unfolding object as_surface
surface s c id = do o ← object s c id ObjectKind.surface; as_surface id o

unfoldable pub as_buffer : ObjectId → Object → Result StateError BufferObject
as_buffer id (Object.buffer x) = ok x
as_buffer id _ = err (StateError.invalid_state id)

unfoldable pub buffer : CompositorState → ConnectionId → ObjectId → Result StateError BufferObject
unfolding object as_buffer
buffer s c id = do o ← object s c id ObjectKind.buffer; as_buffer id o

as_session : ObjectId → Object → Result StateError SessionState
as_session id (Object.session x) = ok x
as_session id _ = err (StateError.invalid_state id)

unfoldable pub session : CompositorState → ConnectionId → ObjectId → Result StateError SessionState
unfolding object as_session
session s c id = do o ← object s c id ObjectKind.session; as_session id o

as_seat : ObjectId → Object → Result StateError SeatState
as_seat id (Object.seat x) = ok x
as_seat id _ = err (StateError.invalid_state id)

unfoldable pub seat : CompositorState → ConnectionId → ObjectId → Result StateError SeatState
unfolding object as_seat
seat s c id = do o ← object s c id ObjectKind.seat; as_seat id o

as_fence : ObjectId → Object → Result StateError FenceState
as_fence id (Object.fence x) = ok x
as_fence id _ = err (StateError.invalid_state id)

unfoldable pub fence : CompositorState → ConnectionId → ObjectId → Result StateError FenceState
unfolding object as_fence
fence s c id = do o ← object s c id ObjectKind.fence; as_fence id o

-- An object is a toplevel by its value, whatever its entry says.
as_toplevel : Object → Option ToplevelState
as_toplevel (Object.toplevel t) = some t
as_toplevel _ = none

unfoldable pub toplevel : CompositorState → ConnectionId → ObjectId → Option ToplevelState
unfolding object_entry as_toplevel
toplevel s c id = elim (object_entry s c id) [ ok e ↦ as_toplevel e.value | err x ↦ none ]

unfoldable pub toplevel_mut :
    CompositorState → ConnectionId → ObjectId → Result StateError ToplevelState
unfolding object_entry as_toplevel
toplevel_mut s c id = do
  e ← object_entry s c id
  ok_or (as_toplevel e.value) (StateError.wrong_object_type id ObjectKind.toplevel e.kind)

-- A write to one connection, or to one object of it.
unfoldable pub modify_connection :
    ConnectionId → (Connection → Connection) → CompositorState → CompositorState
modify_connection c f s = record s { connections = update c f s.connections }

unfoldable pub modify_object :
    ConnectionId → ObjectId → (Object → Object) → CompositorState → CompositorState
unfolding modify_connection set_value
modify_object c id f =
    modify_connection c λ client. record client { registry = set_value id f client.registry }

unfoldable pub in_surface : (SurfaceState → SurfaceState) → Object → Object
in_surface f (Object.surface x) = Object.surface (f x)
in_surface f o = o

unfoldable pub modify_surface :
    ConnectionId → ObjectId → (SurfaceState → SurfaceState) → CompositorState → CompositorState
unfolding modify_object in_surface
modify_surface c id f = modify_object c id (in_surface f)

unfoldable pub with_buffer_state : BufferState → Object → Object
with_buffer_state b (Object.buffer x) = Object.buffer (record x { state = b })
with_buffer_state b o = o

unfoldable pub set_buffer_state :
    CompositorState → ConnectionId → ObjectId → BufferState → Result StateError CompositorState
unfolding buffer modify_object with_buffer_state
set_buffer_state s c id b = do x ← buffer s c id; ok (modify_object c id (with_buffer_state b) s)

unfoldable pub surface_snapshot : CompositorState → ConnectionId → ObjectId → Option SurfaceSnapshot
unfolding surface
surface_snapshot s c id = elim (surface s c id) [
  | err x ↦ none
  | ok v ↦ elim v.current [ none ↦ none | some u ↦ some u.snapshot ]
]

unfoldable pub capabilities : CompositorState → ConnectionId → Option CapabilitySet
capabilities s c = elim (lookup c s.connections) [ none ↦ none | some v ↦ some v.capabilities ]

-- `self.capabilities(connection).is_some_and(|held| held.contains(capability))`.
unfoldable pub holds : CompositorState → ConnectionId → Capability → Bool
unfolding capabilities
holds s c capability = elim (capabilities s c) [ none ↦ false | some h ↦ contains h capability ]

unfoldable pub require_capability :
    CompositorState → ConnectionId → ObjectId → Capability → Result StateError (Unit {0})
unfolding connection
require_capability s c id capability = do
  client ← connection s c
  guard (contains client.capabilities capability) (StateError.unsupported_capability id capability)

unfoldable pub session_of : CompositorState → ConnectionId → Option ObjectId
session_of s c = elim (lookup c s.connections) [ none ↦ none | some v ↦ v.session ]

-- `session_state.seat` is active, if the session has one.
seat_is_active :
    CompositorState → ConnectionId → ObjectId → Option ObjectId → Result StateError (Unit {0})
unfolding seat
seat_is_active s c owner none = ok tt
seat_is_active s c owner (some id) = do
  v ← seat s c id
  guard v.active (StateError.invalid_state owner)

unfoldable pub expect_active_session :
    CompositorState → ConnectionId → ObjectId → Result StateError (Unit {0})
unfolding session seat_is_active
expect_active_session s c id = do
  v ← session s c id
  guard v.active (StateError.invalid_state id)
  seat_is_active s c id v.seat

maximum_of : CompositorState → ObjectKind → ℕ
maximum_of s ObjectKind.surface = s.limits.max_surfaces
maximum_of s ObjectKind.buffer = min s.limits.max_buffers s.limits.max_imported_handles
maximum_of s ObjectKind.shm_pool = s.limits.max_imported_handles
maximum_of s ObjectKind.toplevel = s.limits.max_surfaces
maximum_of s _ = s.limits.max_objects

unfoldable pub count_kind : ObjectKind → List (RegistryEntry Object) → ℕ
unfolding kind_eqb
count_kind k es = length (keep (λ e. kind_eqb e.kind k) es)

unfoldable pub check_kind_quota :
    CompositorState → ConnectionId → ObjectKind → Result StateError (Unit {0})
unfolding connection maximum_of count_kind
check_kind_quota s c k = do
  client ← connection s c
  guard (not (leb (maximum_of s k) (count_kind k (values client.registry.live))))
      (StateError.quota_exceeded display_id)

unfoldable pub allocate_client :
    CompositorState
    → ConnectionId
    → ObjectId
    → ObjectKind
    → Object
    → Result StateError CompositorState
unfolding connection modify_connection
allocate_client s c id k value = do
  client ← connection s c
  guard (not (leb s.limits.max_objects (len client.registry))) (StateError.quota_exceeded id)
  registry ← Registry.allocate_client id k value client.registry
  ok (modify_connection c (λ v. record v { registry = registry }) s)

-- The objects of a kind that a connection holds, in the order of their identifiers.
unfoldable pub ids_of_kind : ObjectKind → Connection → List ObjectId
unfolding kind_eqb
ids_of_kind k client =
    keep (λ id. elim (kind_of id client.registry) [ none ↦ false | some j ↦ kind_eqb j k ])
      (ids client.registry)

-- The objects of a kind on every connection.
unfoldable pub bound_of_kind :
    ObjectKind → Map ConnectionId Connection → List (ConnectionId × ObjectId)
unfolding ids_of_kind
bound_of_kind k [] = []
bound_of_kind k ((c, client) ∷ rest) =
    map (λ id. (c, id)) (ids_of_kind k client) ++ bound_of_kind k rest

-- `toplevel_handle`, `toplevel_surface` and `pool_memory`.
unfoldable pub toplevel_handle : CompositorState → ConnectionId → ObjectId → Option ToplevelHandle
unfolding toplevel
toplevel_handle s c id = elim (toplevel s c id) [ none ↦ none | some t ↦ some t.handle ]

unfoldable pub toplevel_surface : CompositorState → ConnectionId → ObjectId → Option ObjectId
unfolding toplevel
toplevel_surface s c id = elim (toplevel s c id) [ none ↦ none | some t ↦ some t.surface ]

as_pool : Object → Option SharedMemory
as_pool (Object.shm_pool m) = some m
as_pool _ = none

unfoldable pub pool_memory : CompositorState → ConnectionId → ObjectId → Option SharedMemory
unfolding object_entry as_pool
pool_memory s c id = elim (object_entry s c id) [ ok e ↦ as_pool e.value | err x ↦ none ]

unfoldable pub object_kind : CompositorState → ConnectionId → ObjectId → Option ObjectKind
object_kind s c id = elim (lookup c s.connections) [ none ↦ none | some v ↦ kind_of id v.registry ]
