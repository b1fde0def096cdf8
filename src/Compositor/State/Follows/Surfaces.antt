-- ===== src/Compositor/State/Follows/Surfaces.antt =====
-- That the requests for surfaces are steps of `Follows`.
use atria.Base.{
  ℕ, ◌+◌, ◌-◌, refl, not, ◌&&◌, ◌||◌, Option, none, some, ◌==◌, leb, ltb, is_some, length, Result,
  ok, err, guard, word_end, if_intro,
}
use atria.Base.Map.{ℕ_key, pair_key}
use atria.Compositor.Error.{StateError}
use atria.Compositor.Request.{EventKind, SurfaceSnapshot}
use atria.Compositor.Model.{
  ConnectionId, ObjectId, null_id, SurfaceKey, chord_key, ObjectKind, Point, Rect, BufferState,
}
use atria.Compositor.State.{CompositorState, SurfaceState, CurrentSurface}
use atria.Compositor.State.Access.{
  expect_kind, surface, buffer, modify_surface, set_buffer_state, surface_snapshot,
}
use atria.Compositor.State.Follows.{Follows}
use atria.Compositor.State.Follows.Steps.{
  Holds, bind-Holds, bind_state-Holds, moved, push_event-Follows, modify_surface-Follows,
  set_buffer_state-Holds,
}
use atria.Compositor.State.Outcome.{Outcome}
use atria.Compositor.State.Surface.{
  is_unchanged, is_available, stacked, expect_fence, attach_null, attach_buffer, attach, damage,
  detach_told, detach_freed, detach_held, detach, map, is_detach, taken, commit_held,
  commit_content, commit_over, commit_detached, commit_carried, commit_found, commit,
}
use atria.Compositor.State.Frame.{set_role_over, set_role, request_frame, set_refresh_range}
use atria.Compositor.State.Stacking.{place_surface, raise_surface}

module _ (start : CompositorState) where
  attach_null-Holds :
      (s : CompositorState) (c : ConnectionId) (id : ObjectId) (f : Option ObjectId)
      → Follows start s
      → Holds start (attach_null s c id f)
  unfolding attach_null Holds
  attach_null-Holds s c id none p = modify_surface-Follows start s c id _ p
  attach_null-Holds s c id (some f) p = tt

  attach_buffer-Holds :
      (s : CompositorState) (c : ConnectionId) (id b : ObjectId) (offset : Point)
      (f : Option ObjectId)
      → Follows start s
      → Holds start (attach_buffer s c id b offset f)
  unfolding attach_buffer Holds
  attach_buffer-Holds s c id b offset f p =
      bind-Holds start (expect_kind s c b ObjectKind.buffer) _ λ x e.
        bind-Holds start (expect_fence s c id f) _ λ x e.
          bind-Holds start (buffer s c b) _ λ held e.
            bind-Holds start (guard (is_available held.state) (StateError.invalid_state b)) _ λ x e.
              bind_state-Holds start (set_buffer_state s c b (BufferState.pending (c, id))) _
                (set_buffer_state-Holds start s c b _ p)
                λ t q. modify_surface-Follows start t c id _ q

  pub attach-Holds :
      (s : CompositorState) (c : ConnectionId) (id b : ObjectId) (offset : Point)
      (f : Option ObjectId)
      → Follows start s
      → Holds start (attach s c id b offset f)
  unfolding attach
  attach-Holds s c id b offset f p = bind-Holds start (surface s c id) _ λ v e.
      bind-Holds start (guard (is_unchanged v.pending.attachment) (StateError.invalid_state id)) _
        λ x e.
          if_intro (Holds start) (b == null_id) (λ h. attach_null-Holds s c id f p)
            (λ h. attach_buffer-Holds s c id b offset f p)

  pub damage-Holds :
      (s : CompositorState) (c : ConnectionId) (id : ObjectId) (r : Rect)
      → Follows start s
      → Holds start (damage s c id r)
  unfolding damage Holds
  damage-Holds s c id r p =
      bind-Holds start (guard (not (r.width == 0 || r.height == 0)) (StateError.invalid_state id)) _
        λ x e. bind-Holds start (surface s c id) _ λ v e.
          bind-Holds start
            (guard (not (leb s.limits.max_damage_rects_per_commit (length v.pending.damage)))
              (StateError.quota_exceeded id))
            _ λ x e. modify_surface-Follows start s c id _ p

  set_role_over-Holds :
      (s : CompositorState) (c : ConnectionId) (id : ObjectId) (role : ℕ) (existing : Option ℕ)
      → Follows start s
      → Holds start (set_role_over s c id role existing)
  unfolding set_role_over Holds
  set_role_over-Holds s c id role none p = modify_surface-Follows start s c id _ p
  set_role_over-Holds s c id role (some k) p = if_intro (Holds start) (k == role) (λ h. p) (λ h. tt)

  pub set_role-Holds :
      (s : CompositorState) (c : ConnectionId) (id : ObjectId) (role : ℕ)
      → Follows start s
      → Holds start (set_role s c id role)
  unfolding set_role
  set_role-Holds s c id role p =
      bind-Holds start (surface s c id) _ λ v e. set_role_over-Holds s c id role v.role p

  pub request_frame-Holds :
      (s : CompositorState) (c : ConnectionId) (id : ObjectId) (serial : ℕ)
      → Follows start s
      → Holds start (request_frame s c id serial)
  unfolding request_frame Holds
  request_frame-Holds s c id serial p = bind-Holds start (surface s c id) _ λ v e.
      bind-Holds start (guard (not v.frame_requested) (StateError.invalid_state id)) _
        λ x e. modify_surface-Follows start s c id _ p

  pub set_refresh_range-Holds :
      (s : CompositorState) (c : ConnectionId) (id : ObjectId) (a b : ℕ)
      → Follows start s
      → Holds start (set_refresh_range s c id a b)
  unfolding set_refresh_range Holds
  set_refresh_range-Holds s c id a b p =
      bind-Holds start (guard (not (a == 0 || ltb b a)) (StateError.invalid_state id)) _
        λ x e. bind-Holds start (surface s c id) _ λ v e. modify_surface-Follows start s c id _ p

  pub place_surface-Holds :
      (s : CompositorState) (key : SurfaceKey) (position : Point)
      → Follows start s
      → Holds start (place_surface s key position)
  unfolding place_surface Holds
  place_surface-Holds s (c, id) position p = bind-Holds start (surface s c id) _ λ v e.
      if_intro (Follows start)
        (is_some (surface_snapshot s c id) && not (stacked (c, id) s.scene.stack))
        (λ h. moved start p (refl, refl, refl, refl)) (λ h. moved start p (refl, refl, refl, refl))

  pub raise_surface-Holds :
      (s : CompositorState) (key : SurfaceKey) → Follows start s → Holds start (raise_surface s key)
  unfolding raise_surface Holds
  raise_surface-Holds s (c, id) p = bind-Holds start (surface s c id) _ λ v e.
      if_intro (Follows start) (is_some (surface_snapshot s c id))
        (λ h. moved start p (refl, refl, refl, refl)) (λ h. p)

  detach_told-Follows :
      (s : CompositorState) (key : SurfaceKey) (v : Result StateError SurfaceState)
      → Follows start s
      → Follows start (detach_told s key v).0
  unfolding detach_told
  detach_told-Follows s (c, id) (err e) p = p
  detach_told-Follows s (c, id) (ok v) p =
      moved start (modify_surface-Follows start s c id (λ v. record v { current = none }) p)
        (refl, refl, refl, refl)

  detach_freed-Follows :
      (s : CompositorState) (key : SurfaceKey) (b : ObjectId)
      (r : Result StateError CompositorState)
      → Follows start s
      → Holds start r
      → Follows start (detach_freed s key b r).0
  unfolding detach_freed Holds
  detach_freed-Follows s (c, id) b (err e) p h = p
  detach_freed-Follows s (c, id) b (ok freed) p h =
      detach_told-Follows _ (c, id) _
        (push_event-Follows start freed c b EventKind.buffer_release h)

  detach_held-Follows :
      (s : CompositorState) (key : SurfaceKey) (shown : Option SurfaceSnapshot)
      → Follows start s
      → Follows start (detach_held s key shown).0
  unfolding detach_held
  detach_held-Follows s key none p = p
  detach_held-Follows s (c, id) (some shown) p =
      detach_freed-Follows s (c, id) shown.buffer _ p
        (set_buffer_state-Holds start s c shown.buffer _ p)

  map-Follows :
      (s : CompositorState) (key : SurfaceKey) → Follows start s → Follows start (map key s)
  unfolding map
  map-Follows s key p =
      if_intro (Follows start) (stacked key s.scene.stack) (λ h. p)
        (λ h. moved start p (refl, refl, refl, refl))

  commit_held-Follows :
      (s : CompositorState) (c : ConnectionId) (id : ObjectId) (u : CurrentSurface)
      (r : Result StateError CompositorState)
      → Follows start s
      → Holds start r
      → Follows start (commit_held s c id u r).0
  unfolding commit_held Holds
  commit_held-Follows s c id u (err e) p h = p
  commit_held-Follows s c id u (ok held) p h =
      map-Follows _ (c, id) (modify_surface-Follows start held c id _ h)

  commit_content-Follows :
      (s : CompositorState) (c : ConnectionId) (id : ObjectId) (v : SurfaceState) (b : ObjectId)
      (offset : Point)
      → Follows start s
      → Follows start (commit_content s c id v b offset).0
  unfolding commit_content
  commit_content-Follows s c id v b offset p =
      let numbered : Follows start
          (record (modify_surface c id taken s) { next_commit = s.next_commit + 1 }) =
        moved start (modify_surface-Follows start s c id taken p) (refl, refl, refl, refl) in
      commit_held-Follows _ c id _ _ numbered (set_buffer_state-Holds start _ c b _ numbered)

  commit_over-Follows :
      (s : CompositorState) (c : ConnectionId) (id : ObjectId) (r : Result StateError SurfaceState)
      → Follows start s
      → Follows start (commit_over s c id r).0
  unfolding commit_over
  commit_over-Follows s c id (err e) p = p
  commit_over-Follows s c id (ok v) p = modify_surface-Follows start s c id _ p

  commit_detached-Follows :
      (c : ConnectionId) (id : ObjectId) (r : Outcome (Unit {0}))
      → Follows start r.0
      → Follows start (commit_detached c id r).0
  unfolding commit_detached
  commit_detached-Follows c id (s, err e) p = p
  commit_detached-Follows c id (s, ok x) p = commit_over-Follows s c id (surface s c id) p

  commit_carried-Follows :
      (s : CompositorState) (c : ConnectionId) (id : ObjectId) (v : SurfaceState)
      (carried : Option (ObjectId × Point))
      → Follows start s
      → Follows start (commit_carried s c id v carried).0
  unfolding commit_carried detach
  commit_carried-Follows s c id v (some (b, offset)) p = commit_content-Follows s c id v b offset p
  commit_carried-Follows s c id v none p = commit_detached-Follows c id _ (
      if_intro (λ (r : Outcome (Unit {0})). Follows start r.0) (is_detach v.pending.attachment)
        (λ h. detach_held-Follows s (c, id) (surface_snapshot s c id) p) (λ h. p))

  commit_found-Follows :
      (s : CompositorState) (c : ConnectionId) (id : ObjectId) (r : Result StateError SurfaceState)
      → Follows start s
      → Follows start (commit_found s c id r).0
  unfolding commit_found
  commit_found-Follows s c id (err e) p = p
  commit_found-Follows s c id (ok v) p = commit_carried-Follows s c id v _ p

  pub commit-Follows :
      (s : CompositorState) (c : ConnectionId) (id : ObjectId)
      → Follows start s
      → Follows start (commit s c id).0
  unfolding commit
  commit-Follows s c id p =
      if_intro (λ (r : Outcome (Unit {0})). Follows start r.0) (s.next_commit == word_end - 1)
        (λ h. p) (λ h. commit_found-Follows s c id (surface s c id) p)
