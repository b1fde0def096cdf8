-- ===== src/Compositor/State/Follows.antt =====
-- What a step of the compositor may do to its connections, as a relation on states: an independent
-- description of what the requests of atria-compositor/src/state/mod.rs are to implement. No step of it
-- gives a connection a capability, a session or a number, or more than its quota.
pub mod Steps
pub mod Surfaces
pub mod Objects
pub mod Windows
pub mod Input
pub mod Keys
pub mod Shells
pub mod Globals
pub mod Requests
pub mod Sound
pub mod Grants
pub mod Life
use atria.Base.{
  ℕ, zero, suc, ◌+◌, ◌-◌, ◌*◌, ◌^◌, ◌%◌, ◌≡◌, ◌≢◌, ◌↔◌, refl, ap, sym, subst, ◌∙◌, ◌≤◌, ◌<◌, ◌⊎◌,
  inl, inr, min, bit_and, bit_or, Bool, true, false, not, ◌&&◌, ◌||◌, Option, none, some, List, [],
  ◌∷◌, ◌++◌, ◌==◌, leb, ltb, if◌then◌else◌, is_some, map, reverse, keep, any, length, Result, ok,
  err, ◌>>=◌, ◌>>◌, guard, ok_or, is_ok, word_end, checked_add, checked_mul, arith, if_intro,
  Bool-cases, Option-cases, Result-cases, ==_iff, ==_refl,
}
use atria.Base.Int.{ℤ, pos, negsuc, i32_checked_add, i32_saturating_sub}
use atria.Base.Map.{
  Map, lookup, insert, remove, update, retain, contains_key, keys, values, ℕ_key, pair_key,
}
use atria.Protocol.Capability.{
  Capability, CapabilitySet, contains, with_capability, without_capability,
}
use atria.Compositor.Error.{StateError, ShellError, SceneFault, error_category, error_object_id}
use atria.Compositor.Request.{ClientRequest, EventKind, Event, FocusEvent, SurfaceSnapshot}
use atria.Compositor.Model.{
  ConnectionId, ObjectId, null_id, display_id, CommitId, SeatId, ToplevelHandle, SurfaceKey, Chord,
  chord_key, accepts, ObjectKind, Point, origin, Size, Rect, empty_rect, rect_contains, Damage,
  BufferDescriptor, BufferTransport, BufferState, transport_capability, is_structurally_valid,
  pixel_format_is_known, SeatCapabilities, no_seat_capabilities, TextPurpose, admits_composition,
  SharedMemory, TitleText, TextBuffer, IdentitySource,
}
use atria.Compositor.State.{
  CompositorState, Connection, Object, ToplevelState, SurfaceState, SeatState, SessionState,
  BufferObject, BufferSource, CurrentSurface, PendingAttachment, PendingSurface, nothing_pending,
  FenceState, TextField, ShortcutClaim, Global, KeyboardRouting, PointerRouting, SeatRouting, Scene,
  max_held_keys, max_shortcuts, max_text_fields,
}
use atria.Compositor.State.Access.{
  kind_eqb, key_eqb, is_key, is_id, object_entry, object, expect_any, expect_kind, surface, buffer,
  session, seat, fence, toplevel, toplevel_mut, modify_connection, modify_object, modify_surface,
  set_buffer_state, surface_snapshot, capabilities, holds, require_capability, session_of,
  expect_active_session, check_kind_quota, allocate_client, ids_of_kind, bound_of_kind,
  toplevel_handle, toplevel_surface, pool_memory, object_kind,
}
use atria.Compositor.State.Teardown.{
  push_event, push_all, tell_shells, refresh_composition, close_connection, Destroyed,
}
use atria.Compositor.Registry.{ObjectRegistry, set_value, set_values, remove_object, retire, len}
use atria.Compositor.Registry
use atria.Compositor.State.Teardown.{detach_connection}
use atria.Compositor.State.Teardown.Induction.{send}

-- What happens to the objects of one connection, apart from an allocation.
pub data Write (r s : ObjectRegistry Object) : Type 0 where
  writes : (id : ObjectId) (f : Object → Object) → s ≡ set_value id f r → Write r s
  writes_all : (f : Object → Object) → s ≡ set_values f r → Write r s
  removes : (id : ObjectId) → s ≡ (remove_object id r).0 → Write r s
  retires : (id : ObjectId) → s ≡ (retire id r).0 → Write r s

-- The connections, and what bounds them, are as they were.
abbrev pub IsElsewhere : CompositorState → CompositorState → Type 0
IsElsewhere s t =
    (t.connections ≡ s.connections)
    × (t.limits ≡ s.limits)
    × (t.max_connections ≡ s.max_connections)
    × (t.next_connection ≡ s.next_connection)

abbrev pub with_registry : (ObjectRegistry Object → ObjectRegistry Object) → Connection → Connection
with_registry f v = record v { registry = f v.registry }

pub data Step (s t : CompositorState) : Type 0 where
  -- An event for a connection with room for it.
  sends :
      (c : ConnectionId) (id : ObjectId) (kind : EventKind) (client : Connection)
      → lookup c s.connections ≡ some client
      → leb s.limits.max_pending_events client.pending_events ≡ false
      → t ≡ send c id kind s
      → Step s t
  -- The end of a connection.
  closes : (c : ConnectionId) → t ≡ detach_connection c s → Step s t
  -- A change to the objects of a connection.
  changes :
      (c : ConnectionId) (f : ObjectRegistry Object → ObjectRegistry Object)
      → ((r : ObjectRegistry Object) → Write r (f r))
      → t ≡ modify_connection c (with_registry f) s
      → Step s t
  -- An object more, where the connection has fewer than it may have.
  allocates :
      (c : ConnectionId) (client : Connection) (id : ObjectId) (k : ObjectKind) (value : Object)
      (r : ObjectRegistry Object)
      → lookup c s.connections ≡ some client
      → leb s.limits.max_objects (len client.registry) ≡ false
      → Registry.allocate_client id k value client.registry ≡ ok r
      → t ≡ modify_connection c (with_registry (λ old. r)) s
      → Step s t
  -- A change that leaves the connections alone.
  elsewhere : IsElsewhere s t → Step s t

-- Any number of steps.
pub data Follows (s : CompositorState) : CompositorState → Type 0 where
  stays : Follows s s
  goes : {t u : CompositorState} → Follows s t → Step t u → Follows s u
