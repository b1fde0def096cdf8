-- ===== src/Compositor/State/Focus.antt =====
-- The keyboard focus and the activity of seats and sessions, of atria-compositor/src/state/mod.rs, with
-- `send_to_keyboards` of state/input.rs.
use atria.Base.{
  ℕ, Bool, true, false, ◌&&◌, Option, none, some, List, [], ◌∷◌, ◌==◌, if◌then◌else◌, map, Result,
  ok, err, ◌>>=◌, ◌>>◌,
}
use atria.Base.Map.{lookup, keys, ℕ_key, pair_key}
use atria.Compositor.Error.{StateError}
use atria.Compositor.Request.{EventKind, FocusEvent}
use atria.Compositor.Model.{
  ConnectionId, ObjectId, ToplevelHandle, SurfaceKey, chord_key, ObjectKind, SeatCapabilities,
}
use atria.Compositor.State.{CompositorState, Object}
use atria.Compositor.State.Access.{
  key_eqb, is_id, surface, session, seat, modify_object, ids_of_kind, toplevel_surface,
}
use atria.Compositor.State.Teardown.{push_event, push_all, tell_shells, refresh_composition}
use atria.Compositor.State.Push.{u32_next}
use atria.Compositor.State.Stacking.{focusable}

-- The objects of a kind that a connection holds, each to be told.
unfoldable pub held_by :
    CompositorState → ConnectionId → ObjectKind → List (ConnectionId × ObjectId)
unfolding ids_of_kind
held_by s c k = elim (lookup c s.connections) [
  | none ↦ []
  | some client ↦ map (λ id. (c, id)) (ids_of_kind k client)
]

unfoldable pub send_to_keyboards : CompositorState → ConnectionId → EventKind → CompositorState
unfolding push_all held_by
send_to_keyboards s c kind = push_all s (held_by s c ObjectKind.keyboard) kind

unfoldable pub find_handle :
    CompositorState
    → SurfaceKey
    → List (ToplevelHandle × (ConnectionId × ObjectId))
    → Option ToplevelHandle
unfolding toplevel_surface is_id
find_handle s key [] = none
find_handle s key ((h, (c, id)) ∷ rest) =
    let later = find_handle s key rest in
    if c == key.0 && is_id (toplevel_surface s c id) key.1 then some h else later

-- The window of a surface, as shells name it.
unfoldable pub handle_of_surface : CompositorState → SurfaceKey → Option ToplevelHandle
unfolding find_handle
handle_of_surface s key = find_handle s key s.toplevels

-- 0 names no window.
unfoldable pub focused_handle : CompositorState → Option SurfaceKey → ToplevelHandle
unfolding handle_of_surface
focused_handle s none = 0
focused_handle s (some key) = elim (handle_of_surface s key) [ none ↦ 0 | some h ↦ h ]

unfoldable pub same_focus : Option SurfaceKey → Option SurfaceKey → Bool
unfolding key_eqb
same_focus none none = true
same_focus (some a) (some b) = key_eqb a b
same_focus _ _ = false

unfoldable pub leave_focus : ℕ → ℕ → Option SurfaceKey → CompositorState → CompositorState
unfolding push_event send_to_keyboards
leave_focus serial epoch none s = s
leave_focus serial epoch (some (c, id)) s =
    send_to_keyboards (push_event s c id EventKind.keyboard_leave) c
      (EventKind.key_focus_lost serial id epoch)

-- What is held travels with the focus.
unfoldable pub enter_focus :
    ℕ → ℕ → ℕ → List ℕ → Option SurfaceKey → CompositorState → CompositorState
unfolding push_event send_to_keyboards
enter_focus serial epoch modifiers held none s = s
enter_focus serial epoch modifiers held (some (c, id)) s =
    send_to_keyboards (push_event s c id EventKind.keyboard_enter) c
      (EventKind.key_focus_gained serial id modifiers epoch held)

unfoldable pub focus_events : Option SurfaceKey → Option SurfaceKey → List FocusEvent
focus_events none none = []
focus_events none (some new) = FocusEvent.keyboard_enter new ∷ []
focus_events (some old) none = FocusEvent.keyboard_leave old ∷ []
focus_events (some old) (some new) =
    FocusEvent.keyboard_leave old ∷ FocusEvent.keyboard_enter new ∷ []

unfoldable pub may_focus : CompositorState → Option SurfaceKey → Result StateError (Unit {0})
unfolding focusable
may_focus s none = ok tt
may_focus s (some key) = focusable s key

-- The focus moves: the old surface is told first, and the composition and the shells last.
unfoldable pub move_focus : CompositorState → Option SurfaceKey → CompositorState
unfolding leave_focus enter_focus refresh_composition tell_shells focused_handle
move_focus s new =
    let serial = u32_next s.seat.serial in
    let started : CompositorState = record s { seat = record s.seat { serial = serial } } in
    let left = leave_focus serial s.seat.epoch s.keyboard_focus started in
    let entered =
      enter_focus serial s.seat.epoch s.seat.keyboard.modifiers (keys s.seat.keyboard.held) new
        left in
    let composed = refresh_composition (record entered { keyboard_focus = new }) in
    tell_shells composed (EventKind.shell_focus_changed 1 (focused_handle composed new))

unfoldable pub set_keyboard_focus :
    CompositorState → Option SurfaceKey → Result StateError (CompositorState × List FocusEvent)
unfolding may_focus same_focus move_focus focus_events
set_keyboard_focus s new = do
  may_focus s new
  ok (
      if same_focus s.keyboard_focus new
      then (s, [])
      else (move_focus s new, focus_events s.keyboard_focus new))

-- Is the key one of the session's surfaces, of this connection?
unfoldable pub in_session : CompositorState → ConnectionId → ObjectId → Option SurfaceKey → Bool
unfolding surface
in_session s c id none = false
in_session s c id (some key) = elim (surface s key.0 key.1) [
  | err e ↦ false
  | ok v ↦ key.0 == c && v.session == id
]

set_active : Bool → Object → Object
set_active b (Object.session v) = Object.session (record v { active = b })
set_active b (Object.seat v) = Object.seat (record v { active = b })
set_active b o = o

-- The focus of a session that is put to rest is taken away.
unfoldable pub drop_focus : CompositorState → Option SurfaceKey → CompositorState × List FocusEvent
unfolding push_event
drop_focus s none = (record s { keyboard_focus = none }, [])
drop_focus s (some (c, id)) = (
  record (push_event s c id EventKind.keyboard_leave) { keyboard_focus = none },
  FocusEvent.keyboard_leave (c, id) ∷ [],
)

drop_target :
    ConnectionId → ObjectId → CompositorState × List FocusEvent → CompositorState × List FocusEvent
unfolding in_session
drop_target c id (s, events) =
    (if in_session s c id s.pointer_target then record s { pointer_target = none } else s, events)

unfoldable pub rest_session :
    CompositorState → ConnectionId → ObjectId → CompositorState × List FocusEvent
unfolding in_session drop_focus drop_target
rest_session s c id =
    drop_target c id
      (if in_session s c id s.keyboard_focus then drop_focus s s.keyboard_focus else (s, []))

unfoldable pub set_session_active :
    CompositorState
    → ConnectionId
    → ObjectId
    → Bool
    → Result StateError (CompositorState × List FocusEvent)
unfolding session modify_object set_active rest_session
set_session_active s c id active = do
  v ← session s c id
  let changed = modify_object c id (set_active active) s
  ok (if active then (changed, []) else rest_session changed c id)

unfoldable pub set_seat_active :
    CompositorState → ConnectionId → ObjectId → Bool → Result StateError CompositorState
unfolding seat modify_object set_active
set_seat_active s c id active = do v ← seat s c id; ok (modify_object c id (set_active active) s)

with_seat_capabilities : SeatCapabilities → Object → Object
with_seat_capabilities b (Object.seat v) = Object.seat (record v { capabilities = b })
with_seat_capabilities b o = o

unfoldable pub set_seat_capabilities :
    CompositorState → ConnectionId → ObjectId → SeatCapabilities → Result StateError CompositorState
unfolding seat modify_object with_seat_capabilities
set_seat_capabilities s c id b = do
  v ← seat s c id
  ok (modify_object c id (with_seat_capabilities b) s)
