-- ===== src/Compositor/State/Inspect.antt =====
-- The look-ups that atria-compositor/src/state/mod.rs offers to the rest of the program.
use atria.Base.{ℕ, Bool, Option, none, some, ok, err}
use atria.Base.Map.{lookup, contains_key, ℕ_key, pair_key}
use atria.Compositor.Model.{
  ConnectionId, ObjectId, SurfaceKey, chord_key, Point, BufferDescriptor, BufferState,
  SeatCapabilities,
}
use atria.Compositor.State.{CompositorState}
use atria.Compositor.State.Access.{surface, buffer, session, seat}

pub record SessionSnapshot : Type 0 where
  pub seat : Option ObjectId
  pub active : Bool

pub record SeatSnapshot : Type 0 where
  pub capabilities : SeatCapabilities
  pub active : Bool

unfoldable pub is_connected : CompositorState → ConnectionId → Bool
is_connected s c = contains_key c s.connections

unfoldable pub surface_position : CompositorState → SurfaceKey → Option Point
surface_position s key = lookup key s.scene.positions

unfoldable pub surface_role : CompositorState → ConnectionId → ObjectId → Option ℕ
unfolding surface
surface_role s c id = elim (surface s c id) [ err e ↦ none | ok v ↦ v.role ]

unfoldable pub session_snapshot : CompositorState → ConnectionId → ObjectId → Option SessionSnapshot
unfolding session
session_snapshot s c id = elim (session s c id) [
  | err e ↦ none
  | ok v ↦ some (record { seat = v.seat; active = v.active })
]

unfoldable pub seat_snapshot : CompositorState → ConnectionId → ObjectId → Option SeatSnapshot
unfolding seat
seat_snapshot s c id = elim (seat s c id) [
  | err e ↦ none
  | ok v ↦ some (record { capabilities = v.capabilities; active = v.active })
]

unfoldable pub buffer_state : CompositorState → ConnectionId → ObjectId → Option BufferState
unfolding buffer
buffer_state s c id = elim (buffer s c id) [ err e ↦ none | ok x ↦ some x.state ]

unfoldable pub buffer_descriptor :
    CompositorState → ConnectionId → ObjectId → Option BufferDescriptor
unfolding buffer
buffer_descriptor s c id = elim (buffer s c id) [ err e ↦ none | ok x ↦ some x.descriptor ]
