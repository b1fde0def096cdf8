-- ===== src/Compositor/State/Teardown.antt =====
-- `push_event`, `close_connection` and what they call, of atria-compositor/src/state/mod.rs and
-- state/text.rs. An event for a connection whose queue is full closes that connection, and closing
-- one sends events to others: the functions of this file take the call of `close_connection` as
-- an argument, and `close_connection` ties the knot on fuel. Each close removes a connection before
-- it sends anything, so as many rounds as there are connections are enough.
pub mod Induction
pub mod Bounds
pub mod Gone
pub mod Agreement
pub mod Fuel
pub mod Delivery
use atria.Base.{
  ℕ, zero, suc, ◌+◌, ◌%◌, ◌^◌, Bool, true, false, not, ◌&&◌, Option, none, some, List, [], ◌∷◌,
  ◌++◌, ◌==◌, leb, if◌then◌else◌, keep, length, Result, ok, err,
}
use atria.Base.Int.{ℤ, negsuc}
use atria.Base.Map.{Map, lookup, remove, retain, values, keys, ℕ_key, pair_key}
use atria.Compositor.Model.{
  ConnectionId, ObjectId, null_id, display_id, ObjectKind, SurfaceKey, ToplevelHandle, TextPurpose,
  admits_composition,
}
use atria.Compositor.Error.{StateError}
use atria.Compositor.Request.{Event, EventKind}
use atria.Compositor.Registry.{ObjectRegistry, ids_reverse_creation, remove_object}
use atria.Compositor.State.{CompositorState, Connection, Object, TextField}
use atria.Compositor.State.Access.{modify_connection, bound_of_kind}
use atria.Compositor.Model.{SeatId, Chord, chord_key}
use atria.Compositor.State.Push.{
  queue, u32_next, push_by, push_all_by, tell_shells_by, push_method_by,
}
use atria.Compositor.State.Composition.{refresh_by, minus_one}

abbrev pub Destroyed : Type 0
Destroyed = List (ObjectId × ObjectKind)

module _ (close : CompositorState → ConnectionId → CompositorState) where
  -- The composition that goes with its method.
  unfoldable pub drop_composition : CompositorState → Option TextField → CompositorState
  unfolding push_by
  drop_composition s none = record s { method = none }
  drop_composition s (some field) =
      let next = u32_next s.composition in
      let a =
        push_by close (record s { method = none; composing = none; composition = next })
          field.connection field.object (EventKind.text_preedit next [] minus_one minus_one) in
      push_by close a field.connection field.object (EventKind.text_leave null_id)

  -- The input method goes with its connection, and takes the composition along.
  unfoldable pub drop_method :
      CompositorState → ConnectionId → Option (ConnectionId × ObjectId) → CompositorState
  unfolding drop_composition
  drop_method s c none = s
  drop_method s c (some (owner, id)) = if owner == c then drop_composition s s.composing else s

  unfoldable pub tell_all_gone : CompositorState → List ToplevelHandle → CompositorState
  tell_all_gone s [] = s
  tell_all_gone s (h ∷ hs) =
      tell_all_gone (tell_shells_by close s (EventKind.shell_toplevel_gone h)) hs

-- Is the key, or the field, the connection's?
abbrev pub owned_key : ConnectionId → Option SurfaceKey → Bool
owned_key c none = false
owned_key c (some key) = key.0 == c

abbrev pub owned_field : ConnectionId → Option TextField → Bool
owned_field c none = false
owned_field c (some f) = f.connection == c

-- The windows of a connection, as shells name them.
unfoldable pub retired_handles :
    ConnectionId → Map ToplevelHandle (ConnectionId × ObjectId) → List ToplevelHandle
retired_handles c [] = []
retired_handles c ((h, (owner, id)) ∷ rest) =
    let others = retired_handles c rest in if owner == c then h ∷ others else others

-- Every object of a registry in the given order, each once.
unfoldable pub drain : List ObjectId → ObjectRegistry Object → Destroyed
drain [] r = []
drain (id ∷ rest) r =
    let (r', removed) = remove_object id r in
    let others = drain rest r' in elim removed [ none ↦ others | some e ↦ (id, e.kind) ∷ others ]

-- The state without the connection and without what named it, before anyone is told.
unfoldable pub detach_connection : ConnectionId → CompositorState → CompositorState
detach_connection c s = record s {
  connections = remove c s.connections;
  toplevels = retain (λ h owner. not (owner.0 == c)) s.toplevels;
  scene = record {
    positions = retain (λ key p. not (key.0 == c)) s.scene.positions;
    stack = keep (λ key. not (key.0 == c)) s.scene.stack;
  };
  keyboard_focus = if owned_key c s.keyboard_focus then none else s.keyboard_focus;
  pointer_target = if owned_key c s.pointer_target then none else s.pointer_target;
  shortcuts = retain (λ chord claim. not (claim.holder == c)) s.shortcuts;
  fields = retain (λ key f. not (key.0 == c)) s.fields;
}

unfoldable pub forget_composing : ConnectionId → CompositorState → CompositorState
forget_composing c s = record s {
  composing = if owned_field c s.composing then none else s.composing;
}

module _ (close : CompositorState → ConnectionId → CompositorState) where
  unfoldable pub close_found :
      CompositorState → ConnectionId → Option Connection → CompositorState × Destroyed
  unfolding drain detach_connection drop_method forget_composing refresh_by tell_all_gone
      retired_handles
  close_found s c none = (s, [])
  close_found s c (some client) =
      let detached = detach_connection c s in
      let silent = forget_composing c (drop_method close detached c detached.method) in
      (
        tell_all_gone close (refresh_by close silent) (retired_handles c s.toplevels),
        drain (ids_reverse_creation client.registry) client.registry,
      )

  -- `close_connection`, over the closes that its own events bring about.
  unfoldable pub close_by : CompositorState → ConnectionId → CompositorState × Destroyed
  unfolding close_found
  close_by s c = close_found s c (lookup c s.connections)

unfoldable pub close_fuel : ℕ → CompositorState → ConnectionId → CompositorState × Destroyed
unfolding close_by
close_fuel zero s c = (s, [])
close_fuel (suc fuel) s c = close_by (λ t d. (close_fuel fuel t d).0) s c

unfoldable pub close_connection : CompositorState → ConnectionId → CompositorState × Destroyed
unfolding close_fuel
close_connection s c = close_fuel (length s.connections) s c

abbrev pub closed : CompositorState → ConnectionId → CompositorState
closed s c = (close_connection s c).0

unfoldable pub push_event : CompositorState → ConnectionId → ObjectId → EventKind → CompositorState
unfolding push_by
push_event = push_by closed

unfoldable pub push_all :
    CompositorState → List (ConnectionId × ObjectId) → EventKind → CompositorState
unfolding push_all_by
push_all = push_all_by closed

unfoldable pub tell_shells : CompositorState → EventKind → CompositorState
unfolding tell_shells_by
tell_shells = tell_shells_by closed

unfoldable pub refresh_composition : CompositorState → CompositorState
unfolding refresh_by
refresh_composition = refresh_by closed
