-- ===== src/Compositor/State/Stacking/Commit.antt =====
-- `commit`, `place_surface`, `raise_surface` and the end of a connection keep the scene without a
-- fault.
use atria.Base.{
  ◌+◌, ◌-◌, ◌≡◌, refl, ◌∙◌, true, Option, none, some, ◌==◌, Result, ok, err, if_intro, word_end,
}
use atria.Base.Map.{contains_key, ℕ_key, pair_key}
use atria.Compositor.Model.{ConnectionId, ObjectId, SurfaceKey, BufferState, Point}
use atria.Compositor.Error.{StateError}
use atria.Compositor.Request.{EventKind, SurfaceSnapshot}
use atria.Compositor.State.{CompositorState, SurfaceState, CurrentSurface, nothing_pending}
use atria.Compositor.State.Access.{
  modify_surface, in_surface, surface, set_buffer_state, surface_snapshot,
}
use atria.Compositor.State.Teardown.Induction.{push_event-kept}
use atria.Compositor.State.Surface.{
  detach, detach_told, detach_freed, detach_held, commit, commit_held, commit_content, commit_over,
  commit_detached, commit_carried, commit_found, taken, committed, is_detach,
}
use atria.Compositor.State.Stacking.Effects.{
  entry_of, surface_of, surface-surface_of, surface_of-modify_object,
}
use atria.Compositor.State.Stacking.Sound.{IsComposed, IsComposed-kept}
use atria.Compositor.State.Stacking.Operations.{
  write-IsComposed, in_surface-content, in_surface-is_surface, set_buffer-surface_of,
  set_buffer-IsComposed, shown-IsComposed, bare-IsComposed, modify_surface-connected,
}

told-IsComposed :
    (s : CompositorState) (key : SurfaceKey) (r : Result StateError SurfaceState)
    → IsComposed s
    → IsComposed (detach_told s key r).0
unfolding detach_told
told-IsComposed s (c, id) (err e) p = p
told-IsComposed s (c, id) (ok v) p = bare-IsComposed s c id p

freed-IsComposed :
    (s : CompositorState) (key : SurfaceKey) (b : ObjectId) (r : Result StateError CompositorState)
    → set_buffer_state s key.0 b BufferState.available ≡ r
    → IsComposed s
    → IsComposed (detach_freed s key b r).0
unfolding detach_freed
freed-IsComposed s (c, id) b (err e) h p = p
freed-IsComposed s (c, id) b (ok t) h p =
    told-IsComposed _ (c, id) _
      (push_event-kept (λ u. IsComposed u) IsComposed-kept t c b EventKind.buffer_release
        (set_buffer-IsComposed s t c b BufferState.available h p))

held-IsComposed :
    (s : CompositorState) (key : SurfaceKey) (shown : Option SurfaceSnapshot)
    → IsComposed s
    → IsComposed (detach_held s key shown).0
unfolding detach_held
held-IsComposed s (c, id) none p = p
held-IsComposed s (c, id) (some u) p = freed-IsComposed s (c, id) u.buffer _ refl p

pub detach-IsComposed :
    (s : CompositorState) (key : SurfaceKey) → IsComposed s → IsComposed (detach s key).0
unfolding detach
detach-IsComposed s (c, id) p = held-IsComposed s (c, id) (surface_snapshot s c id) p

-- The buffer is held and the surface shows it.
commit_held-IsComposed :
    (s : CompositorState) (c : ConnectionId) (id b : ObjectId) (u : CurrentSurface)
    (x : BufferState) (r : Result StateError CompositorState)
    → set_buffer_state s c b x ≡ r
    → surface_of (entry_of s c id) ≡ true
    → contains_key c s.connections ≡ true
    → IsComposed s
    → IsComposed (commit_held s c id u r).0
unfolding commit_held
commit_held-IsComposed s c id b u x (err e) h there here p = p
commit_held-IsComposed s c id b u x (ok t) h there here p =
    let (same, connected) = set_buffer-surface_of s t c b x c id h in
    shown-IsComposed t c id u (same ∙ there) (connected ∙ here)
      (set_buffer-IsComposed s t c b x h p)

content-IsComposed :
    (s : CompositorState) (c : ConnectionId) (id : ObjectId) (v : SurfaceState) (b : ObjectId)
    (offset : Point)
    → surface s c id ≡ ok v
    → IsComposed s
    → IsComposed (commit_content s c id v b offset).0
unfolding commit_content modify_surface entry_of taken
content-IsComposed s c id v b offset h p =
    let (there, here) = surface-surface_of s c id v h in
    let held = BufferState.compositor_held (c, id) s.next_commit in
    let numbered : CompositorState = record (modify_surface c id taken s) {
      next_commit = s.next_commit + 1;
    } in
    commit_held-IsComposed numbered c id b (committed v b offset s.next_commit) held
      (set_buffer_state numbered c b held) refl
      (surface_of-modify_object c id (in_surface taken) s c id (in_surface-is_surface taken)
        ∙ there)
      (modify_surface-connected s c id taken c ∙ here)
      (write-IsComposed s c id (in_surface taken) (in_surface-content taken (λ v. refl)) p)

over-IsComposed :
    (s : CompositorState) (c : ConnectionId) (id : ObjectId) (r : Result StateError SurfaceState)
    → IsComposed s
    → IsComposed (commit_over s c id r).0
unfolding commit_over modify_surface
over-IsComposed s c id (err e) p = p
over-IsComposed s c id (ok v) p =
    let forget : SurfaceState → SurfaceState = λ w. record w { pending = nothing_pending } in
    write-IsComposed s c id (in_surface forget) (in_surface-content forget (λ w. refl)) p

detached-IsComposed :
    (c : ConnectionId) (id : ObjectId) (done : CompositorState × Result StateError (Unit {0}))
    → IsComposed done.0
    → IsComposed (commit_detached c id done).0
unfolding commit_detached
detached-IsComposed c id (s, err e) p = p
detached-IsComposed c id (s, ok x) p = over-IsComposed s c id (surface s c id) p

carried-IsComposed :
    (s : CompositorState) (c : ConnectionId) (id : ObjectId) (v : SurfaceState)
    (carried : Option (ObjectId × Point))
    → surface s c id ≡ ok v
    → IsComposed s
    → IsComposed (commit_carried s c id v carried).0
unfolding commit_carried
carried-IsComposed s c id v (some (b, offset)) h p = content-IsComposed s c id v b offset h p
carried-IsComposed s c id v none h p = detached-IsComposed c id _ (
    if_intro (λ (t : CompositorState × Result StateError (Unit {0})). IsComposed t.0)
      (is_detach v.pending.attachment) (λ go. detach-IsComposed s (c, id) p) (λ stay. p))

found-IsComposed :
    (s : CompositorState) (c : ConnectionId) (id : ObjectId) (r : Result StateError SurfaceState)
    → surface s c id ≡ r
    → IsComposed s
    → IsComposed (commit_found s c id r).0
unfolding commit_found
found-IsComposed s c id (err e) h p = p
found-IsComposed s c id (ok v) h p = carried-IsComposed s c id v _ h p

-- A commit, on every branch and whatever the release of the old buffer closes, leaves a scene in
-- which just the surfaces with content are stacked, each with a position on a connection, if it was
-- so before.
pub commit-IsComposed :
    (s : CompositorState) (c : ConnectionId) (id : ObjectId)
    → IsComposed s
    → IsComposed (commit s c id).0
unfolding commit
commit-IsComposed s c id p =
    if_intro (λ (t : CompositorState × Result StateError (Unit {0})). IsComposed t.0)
      (s.next_commit == word_end - 1) (λ last. p)
      (λ more. found-IsComposed s c id (surface s c id) refl p)
