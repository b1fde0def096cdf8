-- ===== src/Compositor/State/Dispatch.antt =====
-- `dispatch` of atria-compositor/src/state/mod.rs: a client's request, and what an error costs the client.
pub mod Penalty
use atria.Base.{
  ℕ, zero, suc, ◌+◌, ◌-◌, ◌*◌, ◌^◌, ◌%◌, ◌≡◌, ◌≢◌, ◌↔◌, refl, ap, sym, subst, ◌∙◌, ◌≤◌, ◌<◌, ◌⊎◌,
  inl, inr, min, bit_and, bit_or, Bool, true, false, not, ◌&&◌, ◌||◌, Option, none, some, List, [],
  ◌∷◌, ◌++◌, ◌==◌, leb, ltb, if◌then◌else◌, is_some, map, reverse, keep, any, length, Result, ok,
  err, ◌>>=◌, ◌>>◌, guard, ok_or, is_ok, word_end, checked_add, checked_mul, arith, if_intro,
  Bool-cases, Option-cases, Result-cases, ==_iff, ==_refl,
}
use atria.Base.Int.{ℤ, pos, negsuc, i32_checked_add, i32_saturating_sub}
use atria.Base.Map.{
  Map, lookup, insert, remove, update, retain, contains_key, keys, values, ℕ_key, pair_key,
}
use atria.Protocol.Capability.{
  Capability, CapabilitySet, contains, with_capability, without_capability,
}
use atria.Compositor.Error.{StateError, ShellError, SceneFault, error_category, error_object_id}
use atria.Compositor.Request.{ClientRequest, EventKind, Event, FocusEvent, SurfaceSnapshot}
use atria.Compositor.Model.{
  ConnectionId, ObjectId, null_id, display_id, CommitId, SeatId, ToplevelHandle, SurfaceKey, Chord,
  chord_key, accepts, ObjectKind, Point, origin, Size, Rect, empty_rect, rect_contains, Damage,
  BufferDescriptor, BufferTransport, BufferState, transport_capability, is_structurally_valid,
  pixel_format_is_known, SeatCapabilities, no_seat_capabilities, TextPurpose, admits_composition,
  SharedMemory, TitleText, TextBuffer, IdentitySource,
}
use atria.Compositor.State.{
  CompositorState, Connection, Object, ToplevelState, SurfaceState, SeatState, SessionState,
  BufferObject, BufferSource, CurrentSurface, PendingAttachment, PendingSurface, nothing_pending,
  FenceState, TextField, ShortcutClaim, Global, KeyboardRouting, PointerRouting, SeatRouting, Scene,
  max_held_keys, max_shortcuts, max_text_fields,
}
use atria.Compositor.State.Access.{
  kind_eqb, key_eqb, is_key, is_id, object_entry, object, expect_any, expect_kind, surface, buffer,
  session, seat, fence, toplevel, toplevel_mut, modify_connection, modify_object, modify_surface,
  set_buffer_state, surface_snapshot, capabilities, holds, require_capability, session_of,
  expect_active_session, check_kind_quota, allocate_client, ids_of_kind, bound_of_kind,
  toplevel_handle, toplevel_surface, pool_memory, object_kind,
}
use atria.Compositor.State.Teardown.{
  push_event, push_all, tell_shells, refresh_composition, close_connection, Destroyed,
}
use atria.Protocol.Error.{ErrorCategory}
use atria.Compositor.State.Access.{connection}
use atria.Compositor.State.Surface.{is_available, attach, damage, commit}
use atria.Compositor.State.Frame.{set_role, request_frame, set_refresh_range}
use atria.Compositor.State.Outcome.{Outcome, settle, after}
use atria.Compositor.State.Destroy.{destroy_object}
use atria.Compositor.State.Globals.{announce_globals}
use atria.Compositor.State.Toplevels.{
  create_buffer, get_toplevel, set_title, set_min_size, set_max_size,
}
use atria.Compositor.State.Bind.{bind_global}
use atria.Compositor.State.Shell.{
  shell_configure, shell_place, shell_raise, shell_focus, shell_close, shell_grab, refused,
}
use atria.Compositor.State.Keyboard.{register_shortcut, unregister_shortcut}
use atria.Compositor.State.Text.{
  enable_text, disable_text, set_cursor_area, set_preedit, commit_text, text_done,
}

-- `GetPointer` and `GetKeyboard`.
unfoldable pub get_device :
    CompositorState
    → ConnectionId
    → ObjectId
    → ObjectId
    → ObjectKind
    → Result StateError CompositorState
unfolding expect_kind allocate_client
get_device s c id new_id k = do
  expect_kind s c id ObjectKind.seat
  allocate_client s c new_id k Object.global

-- A registry hears of every global when it is made.
unfoldable pub create_registry :
    CompositorState → ConnectionId → ObjectId → Result StateError CompositorState
unfolding allocate_client announce_globals
create_registry s c new_id = do
  t ← allocate_client s c new_id ObjectKind.registry Object.registry
  ok (announce_globals c new_id t.globals t)

unfoldable pub create_pool :
    CompositorState → ConnectionId → ObjectId → SharedMemory → Result StateError CompositorState
unfolding require_capability check_kind_quota allocate_client
create_pool s c new_id memory = do
  require_capability s c new_id Capability.buffer_import
  check_kind_quota s c ObjectKind.shm_pool
  allocate_client s c new_id ObjectKind.shm_pool (Object.shm_pool memory)

abbrev pub new_surface : ObjectId → SurfaceState
new_surface owner = record {
  session = owner;
  role = none;
  pending = nothing_pending;
  current = none;
  frame_requested = false;
  frame_serial = 0;
  consecutive_deadline_misses = 0;
}

unfoldable pub create_surface :
    CompositorState → ConnectionId → ObjectId → Result StateError CompositorState
unfolding require_capability session_of expect_active_session check_kind_quota allocate_client
create_surface s c new_id = do
  require_capability s c new_id Capability.surface_create
  owner ← ok_or (session_of s c) (StateError.invalid_state new_id)
  expect_active_session s c owner
  check_kind_quota s c ObjectKind.surface
  allocate_client s c new_id ObjectKind.surface (Object.surface (new_surface owner))

unfoldable pub import_buffer :
    CompositorState → ConnectionId → ObjectId → BufferDescriptor → Result StateError CompositorState
unfolding require_capability transport_capability is_structurally_valid check_kind_quota
    allocate_client
import_buffer s c new_id d = do
  require_capability s c new_id Capability.buffer_import
  require_capability s c new_id (transport_capability d.transport)
  guard (is_structurally_valid d) (StateError.invalid_state new_id)
  check_kind_quota s c ObjectKind.buffer
  allocate_client s c new_id ObjectKind.buffer
      (Object.buffer (record { descriptor = d; state = BufferState.available; source = none }))

unfoldable pub in_use : Result StateError BufferObject → Bool
unfolding is_available
in_use (err e) = false
in_use (ok x) = not (is_available x.state)

-- A buffer is not destroyed before it is released.
unfoldable pub destroy :
    CompositorState → ConnectionId → ObjectId → Result StateError CompositorState
unfolding expect_any in_use buffer destroy_object
destroy s c id = do
  guard (not (id == display_id)) (StateError.invalid_state id)
  expect_any s c id
  guard (not (in_use (buffer s c id))) (StateError.invalid_state id)
  ok (destroy_object s c id).0

unfoldable pub unknown_request :
    CompositorState → ConnectionId → ObjectId → ℕ → Result StateError CompositorState
unfolding expect_any
unknown_request s c id opcode = do expect_any s c id; err (StateError.unknown_opcode id opcode)

-- The requests that a shell may make of any window.
unfoldable pub dispatch_shell : CompositorState → ConnectionId → ClientRequest → Outcome (Unit {0})
unfolding refused shell_configure shell_place shell_raise shell_focus shell_close shell_grab
dispatch_shell s c (ClientRequest.shell_configure control h size state) =
    refused control (shell_configure s c h size state)
dispatch_shell s c (ClientRequest.shell_place control h position) =
    refused control (shell_place s c h position)
dispatch_shell s c (ClientRequest.shell_raise control h) = refused control (shell_raise s c h)
dispatch_shell s c (ClientRequest.shell_focus control seat_id h) =
    refused control (shell_focus s c seat_id h)
dispatch_shell s c (ClientRequest.shell_close control h) = refused control (shell_close s c h)
dispatch_shell s c (ClientRequest.shell_grab control seat_id h) =
    refused control (shell_grab s c seat_id h control)
dispatch_shell s c _ = (s, ok tt)

-- The requests for the objects of the connection itself.
unfoldable pub dispatch_object :
    CompositorState → ConnectionId → ClientRequest → Result StateError CompositorState
unfolding get_device create_registry create_pool create_surface import_buffer create_buffer
    register_shortcut unregister_shortcut enable_text disable_text set_cursor_area set_preedit
    commit_text text_done set_title set_min_size set_max_size attach damage set_role request_frame
    set_refresh_range destroy unknown_request
dispatch_object s c (ClientRequest.create_registry new_id) = create_registry s c new_id
dispatch_object s c (ClientRequest.create_pool new_id memory) = create_pool s c new_id memory
dispatch_object s c (ClientRequest.create_buffer new_id pool offset size stride format) =
    create_buffer s c new_id pool offset size stride format
dispatch_object s c (ClientRequest.create_surface new_id) = create_surface s c new_id
dispatch_object s c (ClientRequest.import_buffer new_id d) = import_buffer s c new_id d
dispatch_object s c (ClientRequest.get_pointer id new_id) =
    get_device s c id new_id ObjectKind.pointer
dispatch_object s c (ClientRequest.get_keyboard id new_id) =
    get_device s c id new_id ObjectKind.keyboard
dispatch_object s c (ClientRequest.register_shortcut manager n seat_id chord) =
    register_shortcut s c manager n seat_id chord
dispatch_object s c (ClientRequest.unregister_shortcut manager n) =
    unregister_shortcut s c manager n
dispatch_object s c (ClientRequest.enable_text id purpose) = enable_text s c id purpose
dispatch_object s c (ClientRequest.disable_text id) = disable_text s c id
dispatch_object s c (ClientRequest.set_cursor_area id r) = set_cursor_area s c id r
dispatch_object s c (ClientRequest.set_preedit id n text begin end) =
    set_preedit s c id n text begin end
dispatch_object s c (ClientRequest.commit_text id n text) = commit_text s c id n text
dispatch_object s c (ClientRequest.text_done id n serial) = text_done s c id n serial
dispatch_object s c (ClientRequest.set_title id title) = set_title s c id title
dispatch_object s c (ClientRequest.set_min_size id size) = set_min_size s c id size
dispatch_object s c (ClientRequest.set_max_size id size) = set_max_size s c id size
dispatch_object s c (ClientRequest.attach id b offset f) = attach s c id b offset f
dispatch_object s c (ClientRequest.damage id r) = damage s c id r
dispatch_object s c (ClientRequest.set_role id role) = set_role s c id role
dispatch_object s c (ClientRequest.request_frame id serial) = request_frame s c id serial
dispatch_object s c (ClientRequest.set_refresh_range id min_hz max_hz) =
    set_refresh_range s c id min_hz max_hz
dispatch_object s c (ClientRequest.destroy id) = destroy s c id
dispatch_object s c (ClientRequest.unknown id opcode) = unknown_request s c id opcode
dispatch_object s c _ = ok s

unfoldable pub is_shell_request : ClientRequest → Bool
is_shell_request (ClientRequest.shell_configure _ _ _ _) = true
is_shell_request (ClientRequest.shell_place _ _ _) = true
is_shell_request (ClientRequest.shell_raise _ _) = true
is_shell_request (ClientRequest.shell_focus _ _ _) = true
is_shell_request (ClientRequest.shell_close _ _) = true
is_shell_request (ClientRequest.shell_grab _ _ _) = true
is_shell_request _ = false

-- Of the requests for the connection's own objects, three may change the state even where they fail.
unfoldable pub dispatch_own : CompositorState → ConnectionId → ClientRequest → Outcome (Unit {0})
unfolding bind_global get_toplevel commit dispatch_object
dispatch_own s c (ClientRequest.bind name version new_id) = bind_global s c name version new_id
dispatch_own s c (ClientRequest.get_toplevel id new_id) = get_toplevel s c id new_id
dispatch_own s c (ClientRequest.commit id) = commit s c id
dispatch_own s c request = settle s (dispatch_object s c request)

unfoldable pub dispatch_checked :
    CompositorState → ConnectionId → ClientRequest → Outcome (Unit {0})
unfolding is_shell_request dispatch_shell dispatch_own
dispatch_checked s c request =
    if is_shell_request request then dispatch_shell s c request else dispatch_own s c request

-- What an error costs, by its category.
unfoldable pub penalize :
    CompositorState → ConnectionId → ObjectId → ErrorCategory → CompositorState
unfolding close_connection destroy_object
penalize s c id ErrorCategory.protocol = (close_connection s c).0
penalize s c id ErrorCategory.object = (destroy_object s c id).0
penalize s c id ErrorCategory.resource = s
penalize s c id ErrorCategory.compositor = s

-- The client is told of the error first.
unfoldable pub answer : ConnectionId → Outcome (Unit {0}) → Outcome (Unit {0})
unfolding penalize push_event error_object_id error_category
answer c (s, ok x) = (s, ok x)
answer c (s, err e) = (
  penalize (push_event s c (error_object_id e) (EventKind.error e)) c (error_object_id e)
      (error_category e),
  err e,
)

unfoldable pub dispatch : CompositorState → ConnectionId → ClientRequest → Outcome (Unit {0})
unfolding connection dispatch_checked answer
dispatch s c request = after s (connection s c) (λ client. answer c (dispatch_checked s c request))
