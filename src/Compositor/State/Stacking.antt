-- ===== src/Compositor/State/Stacking.antt =====
-- The scene, of atria-compositor/src/state/mod.rs: placing and raising a surface, what may have the
-- focus, what is wrong with the scene, and the events that are taken.
pub mod Effects
pub mod Sound
pub mod Operations
pub mod Commit
pub mod Faults
use atria.Base.{
  ℕ, Bool, true, false, not, ◌&&◌, Option, none, some, List, [], ◌∷◌, ◌++◌, ◌==◌, if◌then◌else◌,
  is_some, map, keep, Result, ok, err, ◌>>=◌, ◌>>◌, guard,
}
use atria.Base.Map.{Map, lookup, insert, contains_key, keys, ℕ_key, pair_key}
use atria.Compositor.Model.{ConnectionId, ObjectId, ObjectKind, SurfaceKey, Point}
use atria.Compositor.Error.{StateError, SceneFault}
use atria.Compositor.Request.{Event}
use atria.Compositor.Registry.{kind_of}
use atria.Compositor.State.{CompositorState, Connection}
use atria.Compositor.State.Access.{
  surface, surface_snapshot, expect_active_session, kind_eqb, modify_connection,
}
use atria.Compositor.State.Surface.{stacked, unstack}

-- Placing says where; only content says whether.
unfoldable pub place_surface :
    CompositorState → SurfaceKey → Point → Result StateError CompositorState
unfolding surface surface_snapshot
place_surface s (c, id) position = do
  v ← surface s c id
  let placed : CompositorState = record s {
    scene = record s.scene { positions = insert (c, id) position s.scene.positions };
  }
  ok (
      if is_some (surface_snapshot s c id) && not (stacked (c, id) s.scene.stack)
      then record placed {
        scene = record placed.scene { stack = placed.scene.stack ++ (c, id) ∷ [] };
      }
      else placed)

unfoldable pub raise_surface : CompositorState → SurfaceKey → Result StateError CompositorState
unfolding surface surface_snapshot
raise_surface s (c, id) = do
  v ← surface s c id
  ok (
      if is_some (surface_snapshot s c id)
      then record s {
        scene = record s.scene { stack = unstack (c, id) s.scene.stack ++ (c, id) ∷ [] };
      }
      else s)

unfoldable pub focusable : CompositorState → SurfaceKey → Result StateError (Unit {0})
unfolding surface expect_active_session
focusable s (c, id) = do
  v ← surface s c id
  guard (is_some v.current && contains_key (c, id) s.scene.positions) (StateError.invalid_state id)
  expect_active_session s c v.session

-- What is wrong with one entry of the stack.
unfoldable pub kind_fault : SurfaceKey → Option ObjectKind → Result SceneFault (Unit {0})
unfolding kind_eqb
kind_fault key none = err (SceneFault.object_gone key)
kind_fault key (some k) =
    if kind_eqb k ObjectKind.surface then ok tt else err (SceneFault.not_a_surface key)

unfoldable pub connection_fault : SurfaceKey → Option Connection → Result SceneFault (Unit {0})
unfolding kind_fault
connection_fault key none = err (SceneFault.connection_gone key)
connection_fault key (some client) = kind_fault key (kind_of key.1 client.registry)

unfoldable pub entry_fault : CompositorState → SurfaceKey → Result SceneFault (Unit {0})
unfolding connection_fault surface_snapshot
entry_fault s key = do
  connection_fault key (lookup key.0 s.connections)
  guard (is_some (surface_snapshot s key.0 key.1)) (SceneFault.no_content key)
  guard (contains_key key s.scene.positions) (SceneFault.no_position key)

unfoldable pub stack_faults : CompositorState → List SurfaceKey → Result SceneFault (Unit {0})
unfolding entry_fault
stack_faults s [] = ok tt
stack_faults s (key ∷ rest) = do entry_fault s key; stack_faults s rest

unfoldable pub position_faults : CompositorState → List SurfaceKey → Result SceneFault (Unit {0})
position_faults s [] = ok tt
position_faults s (key ∷ rest) = do
  guard (contains_key key.0 s.connections) (SceneFault.connection_gone key)
  position_faults s rest

unfoldable pub scene_faults : CompositorState → Result SceneFault (Unit {0})
unfolding stack_faults position_faults
scene_faults s = do stack_faults s s.scene.stack; position_faults s (keys s.scene.positions)

unfoldable pub drained : Connection → Connection
drained client = record client { pending_events = 0 }

unfoldable pub take_events : CompositorState → CompositorState × List Event
unfolding drained
take_events s =
    (record s { connections = map (λ e. (e.0, drained e.1)) s.connections; events = [] }, s.events)

-- One connection's events, and everyone else's stay.
unfoldable pub take_events_for : CompositorState → ConnectionId → CompositorState × List Event
unfolding drained modify_connection
take_events_for s c = (
  modify_connection c drained (record s { events = keep (λ e. not (e.connection == c)) s.events }),
  keep (λ e. e.connection == c) s.events,
)
