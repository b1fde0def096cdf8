-- ===== src/Compositor/State/Shell.antt =====
-- What a shell does to windows it did not create, of atria-compositor/src/state/shell.rs.
pub mod Refusals
use atria.Base.{
  ℕ, zero, suc, ◌+◌, ◌-◌, ◌*◌, ◌^◌, ◌%◌, ◌≡◌, ◌≢◌, ◌↔◌, refl, ap, sym, subst, ◌∙◌, ◌≤◌, ◌<◌, ◌⊎◌,
  inl, inr, min, bit_and, bit_or, Bool, true, false, not, ◌&&◌, ◌||◌, Option, none, some, List, [],
  ◌∷◌, ◌++◌, ◌==◌, leb, ltb, if◌then◌else◌, is_some, map, reverse, keep, any, length, Result, ok,
  err, ◌>>=◌, ◌>>◌, guard, ok_or, is_ok, word_end, checked_add, checked_mul, arith, if_intro,
  Bool-cases, Option-cases, Result-cases, ==_iff, ==_refl,
}
use atria.Base.Int.{ℤ, pos, negsuc, i32_checked_add, i32_saturating_sub}
use atria.Base.Map.{
  Map, lookup, insert, remove, update, retain, contains_key, keys, values, ℕ_key, pair_key,
}
use atria.Protocol.Capability.{
  Capability, CapabilitySet, contains, with_capability, without_capability,
}
use atria.Compositor.Error.{StateError, ShellError, SceneFault, error_category, error_object_id}
use atria.Compositor.Request.{ClientRequest, EventKind, Event, FocusEvent, SurfaceSnapshot}
use atria.Compositor.Model.{
  ConnectionId, ObjectId, null_id, display_id, CommitId, SeatId, ToplevelHandle, SurfaceKey, Chord,
  chord_key, accepts, ObjectKind, Point, origin, Size, Rect, empty_rect, rect_contains, Damage,
  BufferDescriptor, BufferTransport, BufferState, transport_capability, is_structurally_valid,
  pixel_format_is_known, SeatCapabilities, no_seat_capabilities, TextPurpose, admits_composition,
  SharedMemory, TitleText, TextBuffer, IdentitySource,
}
use atria.Compositor.State.{
  CompositorState, Connection, Object, ToplevelState, SurfaceState, SeatState, SessionState,
  BufferObject, BufferSource, CurrentSurface, PendingAttachment, PendingSurface, nothing_pending,
  FenceState, TextField, ShortcutClaim, Global, KeyboardRouting, PointerRouting, SeatRouting, Scene,
  max_held_keys, max_shortcuts, max_text_fields,
}
use atria.Compositor.State.Access.{
  kind_eqb, key_eqb, is_key, is_id, object_entry, object, expect_any, expect_kind, surface, buffer,
  session, seat, fence, toplevel, toplevel_mut, modify_connection, modify_object, modify_surface,
  set_buffer_state, surface_snapshot, capabilities, holds, require_capability, session_of,
  expect_active_session, check_kind_quota, allocate_client, ids_of_kind, bound_of_kind,
  toplevel_handle, toplevel_surface, pool_memory, object_kind,
}
use atria.Compositor.State.Teardown.{
  push_event, push_all, tell_shells, refresh_composition, close_connection, Destroyed,
}
use atria.Compositor.State.Focus.{set_keyboard_focus}
use atria.Compositor.State.Stacking.{place_surface, raise_surface}
use atria.Compositor.State.Toplevels.{configure_toplevel, close_toplevel}
use atria.Compositor.State.Pointer.{send_pointer_leave}
use atria.Compositor.State.Outcome.{Outcome, settle}

abbrev pub ShellOutcome : Type 0
ShellOutcome = CompositorState × Result ShellError (Unit {0})

-- The grant is asked for before the handle is looked up.
unfoldable pub shell_target :
    CompositorState → ConnectionId → ToplevelHandle → Result ShellError (ConnectionId × ObjectId)
unfolding holds
shell_target s shell h = do
  guard (holds s shell Capability.shell_control) ShellError.not_granted
  ok_or (lookup h s.toplevels) (ShellError.unknown_handle h)

-- A method's own error is told as a handle that is not known.
unfoldable pub hide_error {ℓ} :
    {A : Type ℓ}
    → ToplevelHandle
    → CompositorState × Result StateError A
    → CompositorState × Result ShellError (Unit {0})
hide_error h (s, ok a) = (s, ok tt)
hide_error h (s, err e) = (s, err (ShellError.unknown_handle h))

unfoldable pub at_target :
    CompositorState
    → Result ShellError (ConnectionId × ObjectId)
    → (ConnectionId → ObjectId → ShellOutcome)
    → ShellOutcome
at_target s (err e) f = (s, err e)
at_target s (ok (c, id)) f = f c id

-- The surface of the window.
unfoldable pub at_surface :
    CompositorState
    → ToplevelHandle
    → ConnectionId
    → Option ObjectId
    → (SurfaceKey → ShellOutcome)
    → ShellOutcome
at_surface s h c none f = (s, err (ShellError.unknown_handle h))
at_surface s h c (some id) f = f (c, id)

unfoldable pub shell_configure :
    CompositorState → ConnectionId → ToplevelHandle → Size → ℕ → ShellOutcome
unfolding at_target shell_target hide_error configure_toplevel
shell_configure s shell h size state =
    at_target s (shell_target s shell h)
      (λ c id. hide_error h (configure_toplevel s c id size state))

unfoldable pub shell_close : CompositorState → ConnectionId → ToplevelHandle → ShellOutcome
unfolding at_target shell_target hide_error close_toplevel
shell_close s shell h =
    at_target s (shell_target s shell h) (λ c id. hide_error h (settle s (close_toplevel s c id)))

unfoldable pub shell_place : CompositorState → ConnectionId → ToplevelHandle → Point → ShellOutcome
unfolding at_target shell_target at_surface toplevel_surface hide_error place_surface
shell_place s shell h position = at_target s (shell_target s shell h) (λ c id.
    at_surface s h c (toplevel_surface s c id)
      (λ key. hide_error h (settle s (place_surface s key position))))

unfoldable pub shell_raise : CompositorState → ConnectionId → ToplevelHandle → ShellOutcome
unfolding at_target shell_target at_surface toplevel_surface hide_error raise_surface
shell_raise s shell h = at_target s (shell_target s shell h) (λ c id.
    at_surface s h c (toplevel_surface s c id)
      (λ key. hide_error h (settle s (raise_surface s key))))

-- The one seat is 1.
unfoldable pub known_seat : SeatId → Result ShellError (Unit {0})
known_seat seat_id = guard (seat_id == 1) (ShellError.unknown_seat seat_id)

unfoldable pub focus_moved :
    CompositorState
    → Result StateError (CompositorState × List FocusEvent)
    → CompositorState × Result StateError (Unit {0})
focus_moved s (ok (t, events)) = (t, ok tt)
focus_moved s (err e) = (s, err e)

unfoldable pub shell_focus : CompositorState → ConnectionId → SeatId → ToplevelHandle → ShellOutcome
unfolding known_seat at_target shell_target at_surface toplevel_surface hide_error focus_moved
    set_keyboard_focus
shell_focus s shell seat_id h = at_target s (known_seat seat_id >> shell_target s shell h) (λ c id.
    at_surface s h c (toplevel_surface s c id)
      (λ key. hide_error h (focus_moved s (set_keyboard_focus s (some key)))))

-- The client under the pointer stops seeing it.
unfoldable pub let_go : CompositorState → Option SurfaceKey → CompositorState
unfolding send_pointer_leave
let_go s none = s
let_go s (some key) =
    send_pointer_leave
      (record s { seat = record s.seat { pointer = record s.seat.pointer { target = none } } }) key

-- A grab lasts until the button that started it comes up.
unfoldable pub shell_grab :
    CompositorState → ConnectionId → SeatId → ToplevelHandle → ObjectId → ShellOutcome
unfolding known_seat at_target shell_target let_go
shell_grab s shell seat_id h control =
    at_target s (known_seat seat_id >> shell_target s shell h) λ c id.
      if s.seat.pointer.buttons_held == 0
      then (s, err (ShellError.unknown_handle h))
      else (let left = let_go s s.seat.pointer.target in
          (
            record left {
              seat = record left.seat {
                pointer = record left.seat.pointer { shell_grab = some (shell, control) };
              };
            },
            ok tt,
          ))

unfoldable pub shell_refusal : ShellError → ObjectId → StateError
shell_refusal ShellError.not_granted id =
    StateError.unsupported_capability id Capability.shell_control
shell_refusal _ id = StateError.invalid_state id

-- What the connection is told of a refusal.
unfoldable pub refused : ObjectId → ShellOutcome → Outcome (Unit {0})
unfolding shell_refusal
refused control (s, ok x) = (s, ok tt)
refused control (s, err e) = (s, err (shell_refusal e control))
