-- ===== src/Compositor/State/Bind.antt =====
-- `bind_global` of atria-compositor/src/state/mod.rs: a client takes what the registry advertises.
use atria.Base.{
  ℕ, true, not, ◌||◌, Option, none, some, List, [], ◌∷◌, ◌==◌, ltb, if◌then◌else◌, is_some, map,
  Result, ok, err, ◌>>=◌, ◌>>◌, guard, ok_or,
}
use atria.Base.Map.{lookup, ℕ_key, pair_key}
use atria.Protocol.Capability.{Capability}
use atria.Compositor.Error.{StateError}
use atria.Compositor.Request.{EventKind}
use atria.Compositor.Model.{
  ConnectionId, ObjectId, ToplevelHandle, chord_key, ObjectKind, Size, no_seat_capabilities,
  TitleText,
}
use atria.Compositor.State.{CompositorState, Object, Global}
use atria.Compositor.State.Access.{toplevel, modify_object, holds, allocate_client}
use atria.Compositor.State.Teardown.{push_event, refresh_composition}
use atria.Compositor.State.Focus.{focused_handle}
use atria.Compositor.State.Globals.{push_each, describe_output}
use atria.Compositor.State.Outcome.{Outcome, after}

-- A window as shells refer to it.
pub record ToplevelRecord : Type 0 where
  pub handle : ToplevelHandle
  pub connection : ConnectionId
  pub object_id : ObjectId
  pub title : TitleText
  pub configured : Option Size

toplevel_records :
    CompositorState → List (ToplevelHandle × (ConnectionId × ObjectId)) → List ToplevelRecord
unfolding toplevel
toplevel_records s [] = []
toplevel_records s ((h, (c, id)) ∷ rest) =
    let others = toplevel_records s rest in
    elim (toplevel s c id) [
      | none ↦ others
      | some t ↦
          record {
            handle = h;
            connection = c;
            object_id = id;
            title = t.title;
            configured = t.configured;
          }
          ∷ others
    ]

unfoldable pub shell_toplevels : CompositorState → List ToplevelRecord
unfolding toplevel_records
shell_toplevels s = toplevel_records s s.toplevels

-- The world as it stands, then that the telling is over.
unfoldable pub snapshot_for_shell : CompositorState → ConnectionId → ObjectId → CompositorState
unfolding push_each shell_toplevels focused_handle push_event
snapshot_for_shell s c control =
    let told =
      push_each c control
        (map (λ (r : ToplevelRecord). EventKind.shell_toplevel r.handle r.title)
          (shell_toplevels s))
        s in
    push_event
      (push_event told c control
        (EventKind.shell_focus_changed 1 (focused_handle told told.keyboard_focus)))
      c control EventKind.shell_snapshot_done

-- The grant that a global's objects stand on, if they do.
unfoldable pub bind_needs : ObjectKind → Option Capability
bind_needs ObjectKind.shell_control = some Capability.shell_control
bind_needs ObjectKind.shortcuts = some Capability.shortcut_control
bind_needs ObjectKind.input_method = some Capability.input_method
bind_needs _ = none

unfoldable pub may_hold :
    CompositorState → ConnectionId → ObjectId → Option Capability → Result StateError (Unit {0})
unfolding holds
may_hold s c id none = ok tt
may_hold s c id (some capability) =
    guard (holds s c capability) (StateError.unsupported_capability id capability)

-- The tests before anything changes: the global is there, the version is one of its own, and the
-- connection has the grant.
unfoldable pub bindable :
    CompositorState → ConnectionId → ℕ → ℕ → ObjectId → Result StateError Global
unfolding may_hold bind_needs
bindable s c name version id = do
  g ← ok_or (lookup name s.globals) (StateError.invalid_state id)
  guard (not (version == 0 || ltb g.version version)) (StateError.invalid_state id)
  may_hold s c id (bind_needs g.kind)
  ok g

-- One input method at a time. It is taken before the object is allocated.
unfoldable pub take_method :
    CompositorState → ConnectionId → ObjectId → ObjectKind → Outcome (Unit {0})
unfolding refresh_composition
take_method s c id ObjectKind.input_method =
    if is_some s.method
    then (s, err (StateError.invalid_state id))
    else (refresh_composition (record s { method = some (c, id) }), ok tt)
take_method s c id _ = (s, ok tt)

as_seat : Object → Object
as_seat _ = Object.seat (record { capabilities = no_seat_capabilities; active = true })

-- What a client that binds this kind is told, or gets, at once.
unfoldable pub describe_bound :
    CompositorState → ConnectionId → ObjectId → ℕ → ObjectKind → CompositorState
unfolding describe_output snapshot_for_shell modify_object as_seat
describe_bound s c id name ObjectKind.output = describe_output name c id s
describe_bound s c id name ObjectKind.shell_control = snapshot_for_shell s c id
describe_bound s c id name ObjectKind.seat = modify_object c id as_seat s
describe_bound s c id name _ = s

unfoldable pub bind_taken :
    ConnectionId → ObjectId → ℕ → ObjectKind → Outcome (Unit {0}) → Outcome (Unit {0})
unfolding allocate_client describe_bound
bind_taken c id name k (s, err e) = (s, err e)
bind_taken c id name k (s, ok x) =
    after s (allocate_client s c id k Object.global) (λ t. (describe_bound t c id name k, ok tt))

unfoldable pub bind_global : CompositorState → ConnectionId → ℕ → ℕ → ObjectId → Outcome (Unit {0})
unfolding bindable bind_taken take_method
bind_global s c name version id =
    after s (bindable s c name version id)
      λ (g : Global). bind_taken c id name g.kind (take_method s c id g.kind)
