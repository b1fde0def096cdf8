-- ===== src/Compositor/State/Surface.antt =====
-- The operations on surfaces and their buffers, of atria-compositor/src/state/mod.rs. An operation
-- whose error leaves the state as it was returns a `Result`; `detach` and `commit`, which may fail
-- after a change, return the state beside it.
pub mod Attachment
use atria.Base.{
  ℕ, ◌+◌, ◌-◌, Bool, true, false, not, ◌||◌, Option, none, some, List, [], ◌∷◌, ◌++◌, ◌==◌, leb,
  if◌then◌else◌, keep, any, length, Result, ok, err, ◌>>=◌, ◌>>◌, guard, word_end,
}
use atria.Base.Map.{insert, contains_key, ℕ_key, pair_key}
use atria.Protocol.Capability.{Capability}
use atria.Compositor.Model.{
  ConnectionId, ObjectId, null_id, ObjectKind, SurfaceKey, Point, origin, Rect, Damage, BufferState,
  CommitId,
}
use atria.Compositor.Error.{StateError}
use atria.Compositor.Request.{EventKind, SurfaceSnapshot}
use atria.Compositor.State.{
  CompositorState, SurfaceState, CurrentSurface, PendingAttachment, nothing_pending,
}
use atria.Compositor.State.Access.{
  expect_kind, surface, buffer, set_buffer_state, modify_surface, require_capability,
  surface_snapshot, key_eqb,
}
use atria.Compositor.State.Teardown.{push_event}

unfoldable pub is_unchanged : PendingAttachment → Bool
is_unchanged PendingAttachment.unchanged = true
is_unchanged _ = false

unfoldable pub is_available : BufferState → Bool
is_available BufferState.available = true
is_available _ = false

abbrev pub stacked : SurfaceKey → List SurfaceKey → Bool
stacked key stack = any (λ k. key_eqb k key) stack

abbrev pub unstack : SurfaceKey → List SurfaceKey → List SurfaceKey
unstack key stack = keep (λ k. not (key_eqb k key)) stack

-- A fence is there, and the connection may use it.
unfoldable pub expect_fence :
    CompositorState → ConnectionId → ObjectId → Option ObjectId → Result StateError (Unit {0})
unfolding require_capability expect_kind
expect_fence s c id none = ok tt
expect_fence s c id (some f) = do
  require_capability s c id Capability.explicit_gpu_fence
  expect_kind s c f ObjectKind.fence

-- A null buffer asks to show nothing.
unfoldable pub attach_null :
    CompositorState → ConnectionId → ObjectId → Option ObjectId → Result StateError CompositorState
unfolding modify_surface
attach_null s c id (some f) = err (StateError.invalid_state id)
attach_null s c id none = ok (
    modify_surface c id
      (λ v. record v { pending = record v.pending { attachment = PendingAttachment.detach } }) s)

unfoldable pub attach_buffer :
    CompositorState
    → ConnectionId
    → ObjectId
    → ObjectId
    → Point
    → Option ObjectId
    → Result StateError CompositorState
unfolding expect_kind expect_fence buffer is_available set_buffer_state modify_surface
attach_buffer s c id b offset f = do
  expect_kind s c b ObjectKind.buffer
  expect_fence s c id f
  held ← buffer s c b
  guard (is_available held.state) (StateError.invalid_state b)
  t ← set_buffer_state s c b (BufferState.pending (c, id))
  ok (
      modify_surface c id
        (λ v. record v {
          pending = record v.pending {
            attachment = PendingAttachment.set_buffer b offset;
            acquire_fence = f;
          };
        })
        t)

unfoldable pub attach :
    CompositorState
    → ConnectionId
    → ObjectId
    → ObjectId
    → Point
    → Option ObjectId
    → Result StateError CompositorState
unfolding surface is_unchanged attach_null attach_buffer
attach s c id b offset f = do
  v ← surface s c id
  guard (is_unchanged v.pending.attachment) (StateError.invalid_state id)
  (if b == null_id then attach_null s c id f else attach_buffer s c id b offset f)

unfoldable pub damage :
    CompositorState → ConnectionId → ObjectId → Rect → Result StateError CompositorState
unfolding surface modify_surface
damage s c id rect = do
  guard (not (rect.width == 0 || rect.height == 0)) (StateError.invalid_state id)
  v ← surface s c id
  guard (not (leb s.limits.max_damage_rects_per_commit (length v.pending.damage)))
      (StateError.quota_exceeded id)
  ok (
      modify_surface c id
        (λ v. record v {
          pending = record v.pending { damage = v.pending.damage ++ Damage.rect rect ∷ [] };
        })
        s)

-- The content goes, unless the surface went with its connection when the release was told.
unfoldable pub detach_told :
    CompositorState
    → SurfaceKey
    → Result StateError SurfaceState
    → CompositorState × Result StateError (Unit {0})
unfolding modify_surface
detach_told told (c, id) (err e) = (told, err e)
detach_told told (c, id) (ok v) =
    let bare = modify_surface c id (λ v. record v { current = none }) told in
    (record bare { scene = record bare.scene { stack = unstack (c, id) bare.scene.stack } }, ok tt)

-- The buffer is released.
unfoldable pub detach_freed :
    CompositorState
    → SurfaceKey
    → ObjectId
    → Result StateError CompositorState
    → CompositorState × Result StateError (Unit {0})
unfolding detach_told push_event surface
detach_freed s (c, id) b (err e) = (s, err e)
detach_freed s (c, id) b (ok freed) =
    let told = push_event freed c b EventKind.buffer_release in
    detach_told told (c, id) (surface told c id)

-- The content goes and the buffer is released; the position stays.
unfoldable pub detach_held :
    CompositorState
    → SurfaceKey
    → Option SurfaceSnapshot
    → CompositorState × Result StateError (Unit {0})
unfolding set_buffer_state detach_freed
detach_held s key none = (s, ok tt)
detach_held s (c, id) (some shown) =
    detach_freed s (c, id) shown.buffer (set_buffer_state s c shown.buffer BufferState.available)

unfoldable pub detach :
    CompositorState → SurfaceKey → CompositorState × Result StateError (Unit {0})
unfolding detach_held surface_snapshot
detach s (c, id) = detach_held s (c, id) (surface_snapshot s c id)

-- `map`: a surface with content joins the scene on top, at the position it has or at the origin.
unfoldable pub map : SurfaceKey → CompositorState → CompositorState
map key s = if stacked key s.scene.stack then s else record s {
  scene = record {
    positions =
        if contains_key key s.scene.positions
        then s.scene.positions
        else insert key origin s.scene.positions;
    stack = s.scene.stack ++ key ∷ [];
  };
}

-- What a commit shows: the buffer that was attached, or the one that is shown already.
unfoldable pub carried_by : PendingAttachment → Option SurfaceSnapshot → Option (ObjectId × Point)
carried_by (PendingAttachment.set_buffer b offset) shown = some (b, offset)
carried_by PendingAttachment.unchanged none = none
carried_by PendingAttachment.unchanged (some shown) = some (shown.buffer, shown.offset)
carried_by PendingAttachment.detach shown = none

unfoldable pub is_detach : PendingAttachment → Bool
is_detach PendingAttachment.detach = true
is_detach _ = false

damage_or_full : List Damage → List Damage
damage_or_full [] = Damage.full ∷ []
damage_or_full (d ∷ ds) = d ∷ ds

refresh_of : Option (ℕ × ℕ) → Option CurrentSurface → Option (ℕ × ℕ)
refresh_of (some range) current = some range
refresh_of none none = none
refresh_of none (some current) = current.snapshot.refresh_range

-- The surface with what it had pending taken from it.
unfoldable pub taken : SurfaceState → SurfaceState
taken v = record v { pending = nothing_pending; frame_requested = false }

-- The content that a commit gives a surface.
unfoldable pub committed : SurfaceState → ObjectId → Point → CommitId → CurrentSurface
unfolding damage_or_full refresh_of
committed v b offset commit = record {
  snapshot = record {
    role = v.role;
    buffer = b;
    offset = offset;
    damage = damage_or_full v.pending.damage;
    commit = commit;
    refresh_range = refresh_of v.pending.refresh_range v.current;
    acquire_fence = v.pending.acquire_fence;
  };
  frame_callback = v.frame_requested;
  frame_serial = v.frame_serial;
}

-- The buffer is held, and the surface shows it.
unfoldable pub commit_held :
    CompositorState
    → ConnectionId
    → ObjectId
    → CurrentSurface
    → Result StateError CompositorState
    → CompositorState × Result StateError (Unit {0})
unfolding map modify_surface
commit_held numbered c id u (err e) = (numbered, err e)
commit_held numbered c id u (ok held) =
    (map (c, id) (modify_surface c id (λ w. record w { current = some u }) held), ok tt)

-- A commit that shows the buffer.
unfoldable pub commit_content :
    CompositorState
    → ConnectionId
    → ObjectId
    → SurfaceState
    → ObjectId
    → Point
    → CompositorState × Result StateError (Unit {0})
unfolding modify_surface taken set_buffer_state committed commit_held
commit_content s c id v b offset =
    let number = s.next_commit in
    let numbered : CompositorState = record (modify_surface c id taken s) {
      next_commit = number + 1;
    } in
    commit_held numbered c id (committed v b offset number)
      (set_buffer_state numbered c b (BufferState.compositor_held (c, id) number))

-- A commit with nothing to show forgets what is pending.
unfoldable pub commit_over :
    CompositorState
    → ConnectionId
    → ObjectId
    → Result StateError SurfaceState
    → CompositorState × Result StateError (Unit {0})
unfolding modify_surface
commit_over s c id (err e) = (s, err e)
commit_over s c id (ok v) =
    (modify_surface c id (λ w. record w { pending = nothing_pending }) s, ok tt)

-- After `detach`, whose error ends the commit.
unfoldable pub commit_detached :
    ConnectionId
    → ObjectId
    → CompositorState × Result StateError (Unit {0})
    → CompositorState × Result StateError (Unit {0})
unfolding commit_over surface
commit_detached c id (s, err e) = (s, err e)
commit_detached c id (s, ok x) = commit_over s c id (surface s c id)

unfoldable pub commit_carried :
    CompositorState
    → ConnectionId
    → ObjectId
    → SurfaceState
    → Option (ObjectId × Point)
    → CompositorState × Result StateError (Unit {0})
unfolding commit_content commit_detached is_detach detach
commit_carried s c id v (some (b, offset)) = commit_content s c id v b offset
commit_carried s c id v none =
    commit_detached c id (if is_detach v.pending.attachment then detach s (c, id) else (s, ok tt))

unfoldable pub commit_found :
    CompositorState
    → ConnectionId
    → ObjectId
    → Result StateError SurfaceState
    → CompositorState × Result StateError (Unit {0})
unfolding carried_by commit_carried surface_snapshot
commit_found s c id (err e) = (s, err e)
commit_found s c id (ok v) =
    commit_carried s c id v (carried_by v.pending.attachment (surface_snapshot s c id))

unfoldable pub commit :
    CompositorState → ConnectionId → ObjectId → CompositorState × Result StateError (Unit {0})
unfolding surface commit_found
commit s c id =
    if s.next_commit == word_end - 1
    then (s, err (StateError.quota_exceeded id))
    else commit_found s c id (surface s c id)
