-- ===== src/Compositor/State/Present.antt =====
-- `present` of atria-compositor/src/state/mod.rs: the commit on screen is acknowledged, and the buffers
-- of older ones are released.
use atria.Base.{
  ℕ, Bool, false, ◌&&◌, Option, none, some, List, [], ◌∷◌, ltb, if◌then◌else◌, Result, ok, err,
  ◌>>=◌, ◌>>◌, guard, ok_or,
}
use atria.Base.Map.{ℕ_key, pair_key}
use atria.Compositor.Error.{StateError}
use atria.Compositor.Request.{EventKind}
use atria.Compositor.Model.{ObjectId, CommitId, SurfaceKey, chord_key, BufferState}
use atria.Compositor.State.{CompositorState, Connection, SurfaceState, BufferObject, CurrentSurface}
use atria.Compositor.State.Access.{
  key_eqb, surface, buffer, fence, modify_surface, set_buffer_state,
}
use atria.Compositor.State.Teardown.{push_event}
use atria.Compositor.State.Access.{connection}
use atria.Compositor.Registry.{ids}
use atria.Compositor.State.Outcome.{Outcome, after}

-- Is the buffer held for this surface by an older commit?
unfoldable pub is_older : SurfaceKey → CommitId → BufferState → Bool
unfolding key_eqb
is_older key commit (BufferState.compositor_held surface held) =
    key_eqb surface key && ltb held commit
is_older key commit _ = false

unfoldable pub release_older :
    SurfaceKey
    → CommitId
    → ObjectId
    → Result StateError BufferObject
    → CompositorState
    → Outcome (Unit {0})
unfolding is_older set_buffer_state push_event
release_older (c, id) commit b (err e) s = (s, ok tt)
release_older (c, id) commit b (ok x) s =
    if is_older (c, id) commit x.state
    then (after s (set_buffer_state s c b BufferState.available)
        (λ t. (push_event t c b EventKind.buffer_release, ok tt)))
    else (s, ok tt)

-- The loop over the identifiers that the connection had at its start.
unfoldable pub release_all_older :
    SurfaceKey → CommitId → List ObjectId → Outcome (Unit {0}) → Outcome (Unit {0})
unfolding release_older buffer
release_all_older (c, id) commit [] done = done
release_all_older (c, id) commit (b ∷ rest) (s, err e) = (s, err e)
release_all_older (c, id) commit (b ∷ rest) (s, ok x) =
    release_all_older (c, id) commit rest (release_older (c, id) commit b (buffer s c b) s)

-- The fence that the commit waits for, if it does, is there and signaled.
unfoldable pub fence_passed :
    CompositorState → SurfaceKey → Option ObjectId → Result StateError (Unit {0})
unfolding fence
fence_passed s (c, id) none = ok tt
fence_passed s (c, id) (some f) = do x ← fence s c f; guard x.signaled (StateError.invalid_state id)

called_back : SurfaceState → SurfaceState
called_back v = record v {
  current = elim v.current [ none ↦ none | some u ↦ some (record u { frame_callback = false }) ];
}

unmissed : SurfaceState → SurfaceState
unmissed v = record v { consecutive_deadline_misses = 0 }

-- The frame callback, if one was asked for, is told and forgotten.
unfoldable pub call_back : SurfaceKey → CurrentSurface → ℕ → CompositorState → Outcome (Unit {0})
unfolding push_event surface modify_surface called_back
call_back (c, id) u time s =
    if u.frame_callback
    then (let told = push_event s c id (EventKind.frame_done u.frame_serial time) in
        after told (surface told c id) (λ v. (modify_surface c id called_back told, ok tt)))
    else (s, ok tt)

unfoldable pub present_last : SurfaceKey → CommitId → Outcome (Unit {0}) → Outcome CommitId
unfolding surface modify_surface unmissed
present_last (c, id) commit (s, err e) = (s, err e)
present_last (c, id) commit (s, ok x) =
    after s (surface s c id) (λ v. (modify_surface c id unmissed s, ok commit))

unfoldable pub present_released :
    SurfaceKey → CurrentSurface → ℕ → Outcome (Unit {0}) → Outcome CommitId
unfolding call_back present_last
present_released key u time (s, err e) = (s, err e)
present_released key u time (s, ok x) = present_last key u.snapshot.commit (call_back key u time s)

-- What `present` needs: the content of the surface and its connection.
unfoldable pub presentable :
    CompositorState → SurfaceKey → Result StateError (CurrentSurface × Connection)
unfolding surface fence_passed connection
presentable s (c, id) = do
  v ← surface s c id
  u ← ok_or v.current (StateError.invalid_state id)
  fence_passed s (c, id) u.snapshot.acquire_fence
  client ← connection s c
  ok (u, client)

unfoldable pub present : CompositorState → SurfaceKey → ℕ → Outcome CommitId
unfolding presentable release_all_older present_released ids
present s key time = after s (presentable s key) λ found.
    present_released key found.0 time
      (release_all_older key found.0.snapshot.commit (ids found.1.registry) (s, ok tt))
