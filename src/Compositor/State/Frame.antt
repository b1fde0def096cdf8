-- ===== src/Compositor/State/Frame.antt =====
-- Roles, frames, fences and the release of buffers, of atria-compositor/src/state/mod.rs.
use atria.Base.{
  ℕ, ◌+◌, ◌-◌, ◌^◌, Bool, true, false, not, ◌||◌, Option, none, some, ◌==◌, ltb, if◌then◌else◌,
  Result, ok, err, ◌>>=◌, ◌>>◌, guard, ok_or, min,
}
use atria.Protocol.Capability.{Capability}
use atria.Compositor.Model.{ConnectionId, ObjectId, ObjectKind, SurfaceKey, BufferState}
use atria.Compositor.Error.{StateError}
use atria.Compositor.Request.{EventKind}
use atria.Compositor.State.{CompositorState, Object}
use atria.Compositor.State.Access.{
  expect_kind, surface, buffer, fence, set_buffer_state, modify_surface, modify_object,
  require_capability,
}
use atria.Compositor.State.Teardown.{push_event}

-- A first role is taken; the same role again is no change; another is refused.
unfoldable pub set_role_over :
    CompositorState → ConnectionId → ObjectId → ℕ → Option ℕ → Result StateError CompositorState
unfolding modify_surface
set_role_over s c id role none = ok (modify_surface c id (λ v. record v { role = some role }) s)
set_role_over s c id role (some existing) =
    if existing == role then ok s else err (StateError.invalid_state id)

unfoldable pub set_role :
    CompositorState → ConnectionId → ObjectId → ℕ → Result StateError CompositorState
unfolding surface set_role_over
set_role s c id role = do v ← surface s c id; set_role_over s c id role v.role

unfoldable pub request_frame :
    CompositorState → ConnectionId → ObjectId → ℕ → Result StateError CompositorState
unfolding surface modify_surface
request_frame s c id serial = do
  v ← surface s c id
  guard (not v.frame_requested) (StateError.invalid_state id)
  ok (modify_surface c id (λ v. record v { frame_requested = true; frame_serial = serial }) s)

unfoldable pub set_refresh_range :
    CompositorState → ConnectionId → ObjectId → ℕ → ℕ → Result StateError CompositorState
unfolding surface modify_surface
set_refresh_range s c id min_hz max_hz = do
  guard (not (min_hz == 0 || ltb max_hz min_hz)) (StateError.invalid_state id)
  v ← surface s c id
  ok (
      modify_surface c id
        (λ v. record v { pending = record v.pending { refresh_range = some (min_hz, max_hz) } }) s)

signaled : Object → Object
signaled (Object.fence f) = Object.fence (record f { signaled = true })
signaled o = o

unfoldable pub signal_fence :
    CompositorState → ConnectionId → ObjectId → Result StateError CompositorState
unfolding fence modify_object signaled
signal_fence s c id = do f ← fence s c id; ok (modify_object c id signaled s)

ready_fence : CompositorState → ConnectionId → Option ObjectId → Result StateError Bool
unfolding fence
ready_fence s c none = ok true
ready_fence s c (some id) = do f ← fence s c id; ok f.signaled

unfoldable pub commit_ready : CompositorState → SurfaceKey → Result StateError Bool
unfolding surface ready_fence
commit_ready s (c, id) = do
  v ← surface s c id
  shown ← ok_or v.current (StateError.invalid_state id)
  ready_fence s c shown.snapshot.acquire_fence

is_held : BufferState → Bool
is_held (BufferState.compositor_held _ _) = true
is_held _ = false

-- A held buffer becomes available again, and the client is told by the event.
release_by :
    CompositorState → ConnectionId → ObjectId → EventKind → Result StateError CompositorState
unfolding buffer is_held set_buffer_state push_event
release_by s c b kind = do
  held ← buffer s c b
  guard (is_held held.state) (StateError.invalid_state b)
  t ← set_buffer_state s c b BufferState.available
  ok (push_event t c b kind)

unfoldable pub release_buffer :
    CompositorState → ConnectionId → ObjectId → Result StateError CompositorState
unfolding release_by
release_buffer s c b = release_by s c b EventKind.buffer_release

unfoldable pub release_buffer_with_fence :
    CompositorState → ConnectionId → ObjectId → ObjectId → Result StateError CompositorState
unfolding release_by require_capability expect_kind
release_buffer_with_fence s c b f = do
  require_capability s c b Capability.explicit_gpu_fence
  expect_kind s c f ObjectKind.fence
  release_by s c b (EventKind.buffer_release_with_fence f)

unfoldable pub set_frame_deadline :
    CompositorState → SurfaceKey → ℕ → ℕ → Result StateError CompositorState
unfolding surface push_event
set_frame_deadline s (c, id) deadline interval = do
  v ← surface s c id
  guard (not (interval == 0)) (StateError.invalid_state id)
  ok (push_event s c id (EventKind.frame_deadline deadline interval))

-- The count is a saturating byte; its second miss in a row is told.
unfoldable pub record_deadline_miss :
    CompositorState → SurfaceKey → Result StateError CompositorState
unfolding surface modify_surface push_event
record_deadline_miss s (c, id) = do
  v ← surface s c id
  let misses = min (v.consecutive_deadline_misses + 1) (2 ^ 8 - 1)
  let counted = modify_surface c id (λ v. record v { consecutive_deadline_misses = misses }) s
  ok (if misses == 2 then push_event counted c id EventKind.frame_late else counted)
