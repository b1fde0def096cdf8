-- ===== src/Compositor/State/Globals.antt =====
-- What the registry advertises, of atria-compositor/src/state/mod.rs: globals, the displays behind
-- them, and `bind_global`.
use atria.Base.{
  ℕ, ◌+◌, ◌^◌, Bool, true, false, Option, none, some, List, [], ◌∷◌, ◌++◌, ltb, if◌then◌else◌,
  is_some,
}
use atria.Base.Map.{lookup, insert, remove, contains_key, ℕ_key, pair_key}
use atria.Compositor.Request.{EventKind}
use atria.Compositor.Model.{
  ConnectionId, ObjectId, chord_key, ObjectKind, Point, origin, IdentitySource,
}
use atria.Compositor.State.{CompositorState, Global}
use atria.Compositor.State.Access.{is_id, bound_of_kind}
use atria.Compositor.State.Teardown.{push_event, push_all}
use atria.Protocol.Interface.{Interface}
use atria.Compositor.Output.{
  OutputIdentity, OutputSet, Listed, TopologyDelta, apply, place, info, source, area,
}

unfoldable pub interface_of : ObjectKind → Option Interface
interface_of ObjectKind.display = some Interface.display
interface_of ObjectKind.registry = some Interface.registry
interface_of ObjectKind.surface = some Interface.surface
interface_of ObjectKind.buffer = some Interface.buffer
interface_of ObjectKind.compositor = some Interface.compositor
interface_of ObjectKind.shm = some Interface.shm
interface_of ObjectKind.shell = some Interface.shell
interface_of ObjectKind.toplevel = some Interface.toplevel
interface_of ObjectKind.shm_pool = some Interface.shm_pool
interface_of ObjectKind.output = some Interface.output
interface_of ObjectKind.shell_control = some Interface.shell_control
interface_of ObjectKind.pointer = some Interface.pointer
interface_of ObjectKind.keyboard = some Interface.keyboard
interface_of ObjectKind.shortcuts = some Interface.shortcuts
interface_of ObjectKind.text_input = some Interface.text_input
interface_of ObjectKind.input_method = some Interface.input_method
interface_of ObjectKind.seat = some Interface.seat
interface_of _ = none

-- A global that is advertised for a display, or for none.
unfoldable pub advertise_as :
    Option OutputIdentity
    → CompositorState
    → ObjectKind
    → ℕ
    → Option Interface
    → CompositorState × Option ℕ
advertise_as display s k version none = (s, none)
advertise_as display s k version (some interface) =
    if ltb (s.next_global + 1) (2 ^ 32)
    then (
      record s {
        next_global = s.next_global + 1;
        globals =
            insert s.next_global
              (record { interface = interface; kind = k; version = version; output = display })
              s.globals;
      },
      some s.next_global,
    )
    else (s, none)

unfoldable pub advertise_global : CompositorState → ObjectKind → ℕ → CompositorState × Option ℕ
unfolding advertise_as interface_of
advertise_global s k version = advertise_as none s k version (interface_of k)

unfoldable pub global_event : ℕ → Global → EventKind
global_event name g = EventKind.global name g.interface g.version

-- Every registry of every connection.
unfoldable pub tell_registries : CompositorState → EventKind → CompositorState
unfolding push_all bound_of_kind
tell_registries s kind = push_all s (bound_of_kind ObjectKind.registry s.connections) kind

unfoldable pub announce_global : CompositorState → ℕ → CompositorState
unfolding tell_registries global_event
announce_global s name = elim (lookup name s.globals) [
  | none ↦ s
  | some g ↦ tell_registries s (global_event name g)
]

unfoldable pub withdraw_global : CompositorState → ℕ → CompositorState × Bool
unfolding tell_registries
withdraw_global s name =
    if contains_key name s.globals
    then (
      tell_registries (record s { globals = remove name s.globals }) (EventKind.global_remove name),
      true,
    )
    else (s, false)

-- A fresh registry hears of every global.
unfoldable pub announce_globals :
    ConnectionId → ObjectId → List (ℕ × Global) → CompositorState → CompositorState
unfolding push_event global_event
announce_globals c registry [] s = s
announce_globals c registry ((name, g) ∷ rest) s =
    announce_globals c registry rest (push_event s c registry (global_event name g))

-- Events to one object, in turn.
unfoldable pub push_each :
    ConnectionId → ObjectId → List EventKind → CompositorState → CompositorState
unfolding push_event
push_each c id [] s = s
push_each c id (k ∷ ks) s = push_each c id ks (push_event s c id k)

find_display : OutputIdentity → List (ℕ × Global) → Option ℕ
unfolding is_id
find_display identity [] = none
find_display identity ((name, g) ∷ rest) =
    let later = find_display identity rest in if is_id g.output identity then some name else later

unfoldable pub global_for_output : CompositorState → OutputIdentity → Option ℕ
unfolding find_display
global_for_output s identity = find_display identity s.globals

unfoldable pub display_of : Option Global → Option OutputIdentity
display_of none = none
display_of (some g) = g.output

-- The properties of a display, then `done`.
unfoldable pub description : OutputSet → OutputIdentity → List EventKind
unfolding info source area
description outputs identity = elim (info identity outputs) [
  | none ↦ []
  | some i ↦
      let position : Point = elim (area identity outputs) [
        | none ↦ origin
        | some r ↦ record { x = r.x; y = r.y }
      ] in
      let known : IdentitySource = elim (source identity outputs) [
        | none ↦ IdentitySource.position
        | some x ↦ x
      ] in
      EventKind.output_identity identity
      ∷ EventKind.output_geometry position i.physical_millimetres known
      ∷ EventKind.output_mode i.size i.refresh_millihertz
      ∷ EventKind.output_scale i.scale_numerator i.scale_denominator
      ∷ EventKind.output_done
      ∷ []
]

unfoldable pub describe_output : ℕ → ConnectionId → ObjectId → CompositorState → CompositorState
unfolding description push_each display_of
describe_output name c id s = elim (display_of (lookup name s.globals)) [
  | none ↦ s
  | some identity ↦ push_each c id (description s.outputs identity) s
]

unfoldable pub describe_to : ℕ → List (ConnectionId × ObjectId) → CompositorState → CompositorState
unfolding describe_output
describe_to name [] s = s
describe_to name ((c, id) ∷ rest) s = describe_to name rest (describe_output name c id s)

-- Every bound display, of whichever global, is described as this one.
unfoldable pub redescribe_output : CompositorState → ℕ → CompositorState
unfolding describe_to bound_of_kind
redescribe_output s name = describe_to name (bound_of_kind ObjectKind.output s.connections) s

unfoldable pub announce_advertised : CompositorState × Option ℕ → CompositorState
unfolding announce_global
announce_advertised (s, none) = s
announce_advertised (s, some name) = announce_global s name

-- A display that arrived or returned gains a global.
unfoldable pub announce_arrived : ℕ → List OutputIdentity → CompositorState → CompositorState
unfolding global_for_output announce_advertised advertise_as
announce_arrived version [] s = s
announce_arrived version (identity ∷ rest) s = announce_arrived version rest (
    if is_some (global_for_output s identity)
    then s
    else announce_advertised
        (advertise_as (some identity) s ObjectKind.output version (some Interface.output)))

unfoldable pub withdraw_named : CompositorState → Option ℕ → CompositorState
unfolding withdraw_global
withdraw_named s none = s
withdraw_named s (some name) = (withdraw_global s name).0

-- One that departed loses its own.
unfoldable pub withdraw_departed : List OutputIdentity → CompositorState → CompositorState
unfolding withdraw_named global_for_output
withdraw_departed [] s = s
withdraw_departed (identity ∷ rest) s =
    withdraw_departed rest (withdraw_named s (global_for_output s identity))

unfoldable pub apply_topology : CompositorState → List Listed → ℕ → CompositorState × TopologyDelta
unfolding apply announce_arrived withdraw_departed
apply_topology s present version =
    let (outputs, delta) = apply present s.outputs in
    let arrived =
      announce_arrived version (delta.arrived ++ delta.returned) (record s { outputs = outputs }) in
    (withdraw_departed delta.departed arrived, delta)

unfoldable pub redescribe_named : CompositorState → Option ℕ → CompositorState
unfolding redescribe_output
redescribe_named s none = s
redescribe_named s (some name) = redescribe_output s name

unfoldable pub place_output : CompositorState → OutputIdentity → Point → CompositorState × Bool
unfolding place redescribe_named global_for_output
place_output s identity position =
    let (outputs, known) = place identity position s.outputs in
    if known
    then (let placed : CompositorState = record s { outputs = outputs } in
        (redescribe_named placed (global_for_output placed identity), true))
    else (s, false)
