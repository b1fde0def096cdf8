-- ===== src/Compositor/State/Toplevels.antt =====
-- Buffers carved from pools, and windows, of atria-compositor/src/state/mod.rs.
pub mod Carving
use atria.Base.{
  ℕ, zero, suc, ◌+◌, ◌-◌, ◌*◌, ◌^◌, ◌%◌, ◌≡◌, ◌≢◌, ◌↔◌, refl, ap, sym, subst, ◌∙◌, ◌≤◌, ◌<◌, ◌⊎◌,
  inl, inr, min, bit_and, bit_or, Bool, true, false, not, ◌&&◌, ◌||◌, Option, none, some, List, [],
  ◌∷◌, ◌++◌, ◌==◌, leb, ltb, if◌then◌else◌, is_some, map, reverse, keep, any, length, Result, ok,
  err, ◌>>=◌, ◌>>◌, guard, ok_or, is_ok, word_end, checked_add, checked_mul, arith, if_intro,
  Bool-cases, Option-cases, Result-cases, ==_iff, ==_refl,
}
use atria.Base.Int.{ℤ, pos, negsuc, i32_checked_add, i32_saturating_sub}
use atria.Base.Map.{
  Map, lookup, insert, remove, update, retain, contains_key, keys, values, ℕ_key, pair_key,
}
use atria.Protocol.Capability.{
  Capability, CapabilitySet, contains, with_capability, without_capability,
}
use atria.Compositor.Error.{StateError, ShellError, SceneFault, error_category, error_object_id}
use atria.Compositor.Request.{ClientRequest, EventKind, Event, FocusEvent, SurfaceSnapshot}
use atria.Compositor.Model.{
  ConnectionId, ObjectId, null_id, display_id, CommitId, SeatId, ToplevelHandle, SurfaceKey, Chord,
  chord_key, accepts, ObjectKind, Point, origin, Size, Rect, empty_rect, rect_contains, Damage,
  BufferDescriptor, BufferTransport, BufferState, transport_capability, is_structurally_valid,
  pixel_format_is_known, SeatCapabilities, no_seat_capabilities, TextPurpose, admits_composition,
  SharedMemory, TitleText, TextBuffer, IdentitySource,
}
use atria.Compositor.State.{
  CompositorState, Connection, Object, ToplevelState, SurfaceState, SeatState, SessionState,
  BufferObject, BufferSource, CurrentSurface, PendingAttachment, PendingSurface, nothing_pending,
  FenceState, TextField, ShortcutClaim, Global, KeyboardRouting, PointerRouting, SeatRouting, Scene,
  max_held_keys, max_shortcuts, max_text_fields,
}
use atria.Compositor.State.Access.{
  kind_eqb, key_eqb, is_key, is_id, object_entry, object, expect_any, expect_kind, surface, buffer,
  session, seat, fence, toplevel, toplevel_mut, modify_connection, modify_object, modify_surface,
  set_buffer_state, surface_snapshot, capabilities, holds, require_capability, session_of,
  expect_active_session, check_kind_quota, allocate_client, ids_of_kind, bound_of_kind,
  toplevel_handle, toplevel_surface, pool_memory, object_kind,
}
use atria.Compositor.State.Teardown.{
  push_event, push_all, tell_shells, refresh_composition, close_connection, Destroyed,
}
use atria.Compositor.Registry.{RegistryEntry}
use atria.Compositor.State.Push.{u32_next}
use atria.Compositor.State.Outcome.{Outcome, after}

unfoldable pub pool_kind : CompositorState → ConnectionId → ObjectId → StateError
unfolding object_kind
pool_kind s c pool = elim (object_kind s c pool) [
  | none ↦ StateError.invalid_object pool
  | some k ↦ StateError.wrong_object_type pool ObjectKind.shm_pool k
]

-- `u64::saturating_mul`.
unfoldable pub saturating_mul : ℕ → ℕ → ℕ
saturating_mul a b = min (a * b) (word_end - 1)

unfoldable pub carved : Size → ℕ → BufferDescriptor
unfolding saturating_mul
carved size stride = record {
  transport = BufferTransport.software_shm;
  size = size;
  stride = stride;
  byte_len = saturating_mul stride size.height;
}

unfoldable pub create_buffer :
    CompositorState
    → ConnectionId
    → ObjectId
    → ObjectId
    → ℕ
    → Size
    → ℕ
    → ℕ
    → Result StateError CompositorState
unfolding require_capability pool_memory pool_kind carved is_structurally_valid
    pixel_format_is_known check_kind_quota allocate_client
create_buffer s c id pool offset size stride format = do
  require_capability s c id Capability.buffer_import
  memory ← ok_or (pool_memory s c pool) (pool_kind s c pool)
  let descriptor = carved size stride
  guard (is_structurally_valid descriptor && pixel_format_is_known format)
      (StateError.invalid_state id)
  end ← ok_or (checked_add offset descriptor.byte_len) (StateError.invalid_state id)
  guard (leb end memory.size) (StateError.invalid_state id)
  check_kind_quota s c ObjectKind.buffer
  allocate_client s c id ObjectKind.buffer (
      Object.buffer (record {
        descriptor = descriptor;
        state = BufferState.available;
        source = some (record { memory = memory; offset = offset; descriptor = descriptor });
      }))

covers : ObjectId → Object → Bool
covers id (Object.toplevel t) = t.surface == id
covers id _ = false

find_role : ObjectId → List (ObjectId × RegistryEntry Object) → Option ObjectId
unfolding covers
find_role id [] = none
find_role id ((j, e) ∷ rest) =
    let later = find_role id rest in if covers id e.value then some j else later

unfoldable pub role_of : CompositorState → ConnectionId → ObjectId → Option ObjectId
unfolding find_role
role_of s c id = elim (lookup c s.connections) [
  | none ↦ none
  | some v ↦ find_role id v.registry.live
]

-- What `get_toplevel` asks for before it mints a handle.
unfoldable pub may_get_toplevel :
    CompositorState → ConnectionId → ObjectId → Result StateError (Unit {0})
unfolding expect_kind role_of check_kind_quota
may_get_toplevel s c id = do
  expect_kind s c id ObjectKind.surface
  guard (not (is_some (role_of s c id))) (StateError.invalid_state id)
  check_kind_quota s c ObjectKind.toplevel

abbrev pub new_toplevel : ObjectId → ToplevelHandle → ToplevelState
new_toplevel id h = record {
  surface = id;
  title = [];
  minimum = none;
  maximum = none;
  last_configure = 0;
  configured = none;
  handle = h;
}

unfoldable pub announce_toplevel :
    CompositorState → ConnectionId → ObjectId → ToplevelHandle → CompositorState
unfolding tell_shells
announce_toplevel s c new_id h =
    tell_shells (record s { toplevels = insert h (c, new_id) s.toplevels })
      (EventKind.shell_toplevel h [])

-- A handle is used up even where the object is refused.
unfoldable pub get_toplevel :
    CompositorState → ConnectionId → ObjectId → ObjectId → Outcome (Unit {0})
unfolding may_get_toplevel allocate_client announce_toplevel
get_toplevel s c id new_id = after s (may_get_toplevel s c id) λ x.
    after s (ok_or (checked_add s.next_handle 1) (StateError.quota_exceeded new_id)) λ next.
      let minted : CompositorState = record s { next_handle = next } in
      after minted
        (allocate_client minted c new_id ObjectKind.toplevel
          (Object.toplevel (new_toplevel id s.next_handle)))
        (λ t. (announce_toplevel t c new_id s.next_handle, ok tt))

in_toplevel : (ToplevelState → ToplevelState) → Object → Object
in_toplevel f (Object.toplevel t) = Object.toplevel (f t)
in_toplevel f o = o

-- A write through `toplevel_mut`.
unfoldable pub modify_toplevel :
    ConnectionId → ObjectId → (ToplevelState → ToplevelState) → CompositorState → CompositorState
unfolding modify_object in_toplevel
modify_toplevel c id f = modify_object c id (in_toplevel f)

unfoldable pub toplevel_title : CompositorState → ConnectionId → ObjectId → Option TitleText
unfolding toplevel
toplevel_title s c id = elim (toplevel s c id) [ none ↦ none | some t ↦ some t.title ]

-- Nine states are defined: `state & !VALID_V1 == 0`.
abbrev pub valid_v1 : ℕ
valid_v1 = 511

-- The serial is used up even where there is no such window.
unfoldable pub configure_toplevel : CompositorState → ConnectionId → ObjectId → Size → ℕ → Outcome ℕ
unfolding toplevel_mut modify_toplevel push_event
configure_toplevel s c id size state =
    if not (bit_and state valid_v1 == state)
    then (s, err (StateError.invalid_state id))
    else (let serial = s.next_configure in
        let counted : CompositorState = record s { next_configure = u32_next serial } in
        after counted (toplevel_mut counted c id) λ v. (
          push_event
              (modify_toplevel c id
                (λ t. record t { last_configure = serial; configured = some size }) counted)
              c id (EventKind.configure serial size state),
          ok serial,
        ))

unfoldable pub close_toplevel :
    CompositorState → ConnectionId → ObjectId → Result StateError CompositorState
unfolding expect_kind push_event
close_toplevel s c id = do
  expect_kind s c id ObjectKind.toplevel
  ok (push_event s c id EventKind.close)

source_of : Object → Option BufferSource
source_of (Object.buffer x) = x.source
source_of _ = none

unfoldable pub buffer_source : CompositorState → ConnectionId → ObjectId → Option BufferSource
unfolding object_entry source_of
buffer_source s c id = elim (object_entry s c id) [ err e ↦ none | ok e ↦ source_of e.value ]

-- `SetTitle`: the shells hear of it by the event that announced the window.
unfoldable pub set_title :
    CompositorState → ConnectionId → ObjectId → TitleText → Result StateError CompositorState
unfolding toplevel_mut modify_toplevel tell_shells
set_title s c id title = do
  v ← toplevel_mut s c id
  ok (
      tell_shells (modify_toplevel c id (λ t. record t { title = title }) s)
        (EventKind.shell_toplevel v.handle title))

unfoldable pub set_min_size :
    CompositorState → ConnectionId → ObjectId → Size → Result StateError CompositorState
unfolding toplevel_mut modify_toplevel
set_min_size s c id size = do
  v ← toplevel_mut s c id
  ok (modify_toplevel c id (λ t. record t { minimum = some size }) s)

unfoldable pub set_max_size :
    CompositorState → ConnectionId → ObjectId → Size → Result StateError CompositorState
unfolding toplevel_mut modify_toplevel
set_max_size s c id size = do
  v ← toplevel_mut s c id
  ok (modify_toplevel c id (λ t. record t { maximum = some size }) s)
