-- ===== src/Compositor/State/Follows/Windows.antt =====
-- That the requests for windows and the keyboard focus are steps of `Follows`.
use atria.Base.{
  ℕ, refl, bit_and, not, ◌&&◌, Option, none, some, List, [], ◌==◌, leb, guard, ok_or, checked_add,
  if_intro,
}
use atria.Base.Map.{keys, ℕ_key, pair_key}
use atria.Protocol.Capability.{Capability}
use atria.Compositor.Error.{StateError}
use atria.Compositor.Request.{EventKind}
use atria.Compositor.Model.{
  ConnectionId, ObjectId, ToplevelHandle, SurfaceKey, chord_key, ObjectKind, Size,
  is_structurally_valid, pixel_format_is_known, TitleText,
}
use atria.Compositor.State.{CompositorState, Object, ToplevelState}
use atria.Compositor.State.Access.{
  expect_kind, toplevel_mut, require_capability, check_kind_quota, allocate_client, pool_memory,
}
use atria.Compositor.State.Teardown.{refresh_composition}
use atria.Compositor.State.Follows.{Follows}
use atria.Compositor.State.Follows.Steps.{
  Holds, bind-Holds, after-Follows, after_state-Follows, moved, push_event-Follows,
  push_all-Follows, tell_shells-Follows, refresh_composition-Follows, modify_object-Follows,
  allocate_client-Holds,
}
use atria.Compositor.State.Outcome.{Outcome}
use atria.Compositor.State.Push.{u32_next}
use atria.Compositor.State.Toplevels.{
  pool_kind, carved, create_buffer, may_get_toplevel, new_toplevel, announce_toplevel, get_toplevel,
  modify_toplevel, valid_v1, configure_toplevel, close_toplevel, set_title, set_min_size,
  set_max_size,
}
use atria.Compositor.State.Focus.{
  held_by, send_to_keyboards, leave_focus, enter_focus, focused_handle, move_focus,
}

module _ (start : CompositorState) where
  pub create_buffer-Holds :
      (s : CompositorState) (c : ConnectionId) (id pool : ObjectId) (offset : ℕ) (size : Size)
      (stride format : ℕ)
      → Follows start s
      → Holds start (create_buffer s c id pool offset size stride format)
  unfolding create_buffer
  create_buffer-Holds s c id pool offset size stride format p =
      let descriptor = carved size stride in
      bind-Holds start (require_capability s c id Capability.buffer_import) _ λ x e.
        bind-Holds start (ok_or (pool_memory s c pool) (pool_kind s c pool)) _ λ memory e.
          bind-Holds start
            (guard (is_structurally_valid descriptor && pixel_format_is_known format)
              (StateError.invalid_state id))
            _
            λ x e.
              bind-Holds start
                (ok_or (checked_add offset descriptor.byte_len) (StateError.invalid_state id)) _
                λ end e.
                  bind-Holds start (guard (leb end memory.size) (StateError.invalid_state id)) _
                    λ x e.
                      bind-Holds start (check_kind_quota s c ObjectKind.buffer) _
                        λ x e. allocate_client-Holds start s c id ObjectKind.buffer _ p

  announce_toplevel-Follows :
      (s : CompositorState) (c : ConnectionId) (id : ObjectId) (h : ToplevelHandle)
      → Follows start s
      → Follows start (announce_toplevel s c id h)
  unfolding announce_toplevel
  announce_toplevel-Follows s c id h p =
      tell_shells-Follows start _ (EventKind.shell_toplevel h [])
        (moved start p (refl, refl, refl, refl))

  pub get_toplevel-Follows :
      (s : CompositorState) (c : ConnectionId) (id new_id : ObjectId)
      → Follows start s
      → Follows start (get_toplevel s c id new_id).0
  unfolding get_toplevel
  get_toplevel-Follows s c id new_id p = after-Follows start s (may_get_toplevel s c id) _ p λ x.
      after-Follows start s (ok_or (checked_add s.next_handle 1) (StateError.quota_exceeded new_id))
        _ p
        λ next.
          let minted : CompositorState = record s { next_handle = next } in
          let q : Follows start minted = moved start p (refl, refl, refl, refl) in
          after_state-Follows start minted
            (allocate_client minted c new_id ObjectKind.toplevel
              (Object.toplevel (new_toplevel id s.next_handle)))
            _ q (allocate_client-Holds start minted c new_id _ _ q)
            λ t r. announce_toplevel-Follows t c new_id s.next_handle r

  pub modify_toplevel-Follows :
      (s : CompositorState) (c : ConnectionId) (id : ObjectId) (f : ToplevelState → ToplevelState)
      → Follows start s
      → Follows start (modify_toplevel c id f s)
  unfolding modify_toplevel
  modify_toplevel-Follows s c id f p = modify_object-Follows start s c id _ p

  pub configure_toplevel-Follows :
      (s : CompositorState) (c : ConnectionId) (id : ObjectId) (size : Size) (state : ℕ)
      → Follows start s
      → Follows start (configure_toplevel s c id size state).0
  unfolding configure_toplevel
  configure_toplevel-Follows s c id size state p =
      let counted : CompositorState = record s { next_configure = u32_next s.next_configure } in
      let q : Follows start counted = moved start p (refl, refl, refl, refl) in
      if_intro (λ (r : Outcome ℕ). Follows start r.0) (not (bit_and state valid_v1 == state))
        (λ h. p)
        λ h.
          after-Follows start counted (toplevel_mut counted c id) _ q
            λ v. push_event-Follows start _ c id _ (modify_toplevel-Follows counted c id _ q)

  pub close_toplevel-Holds :
      (s : CompositorState) (c : ConnectionId) (id : ObjectId)
      → Follows start s
      → Holds start (close_toplevel s c id)
  unfolding close_toplevel Holds
  close_toplevel-Holds s c id p =
      bind-Holds start (expect_kind s c id ObjectKind.toplevel) _
        λ x e. push_event-Follows start s c id EventKind.close p

  pub set_title-Holds :
      (s : CompositorState) (c : ConnectionId) (id : ObjectId) (title : TitleText)
      → Follows start s
      → Holds start (set_title s c id title)
  unfolding set_title Holds
  set_title-Holds s c id title p =
      bind-Holds start (toplevel_mut s c id) _
        λ v e. tell_shells-Follows start _ _ (modify_toplevel-Follows s c id _ p)

  pub set_min_size-Holds :
      (s : CompositorState) (c : ConnectionId) (id : ObjectId) (size : Size)
      → Follows start s
      → Holds start (set_min_size s c id size)
  unfolding set_min_size Holds
  set_min_size-Holds s c id size p =
      bind-Holds start (toplevel_mut s c id) _ λ v e. modify_toplevel-Follows s c id _ p

  pub set_max_size-Holds :
      (s : CompositorState) (c : ConnectionId) (id : ObjectId) (size : Size)
      → Follows start s
      → Holds start (set_max_size s c id size)
  unfolding set_max_size Holds
  set_max_size-Holds s c id size p =
      bind-Holds start (toplevel_mut s c id) _ λ v e. modify_toplevel-Follows s c id _ p

  pub send_to_keyboards-Follows :
      (s : CompositorState) (c : ConnectionId) (kind : EventKind)
      → Follows start s
      → Follows start (send_to_keyboards s c kind)
  unfolding send_to_keyboards
  send_to_keyboards-Follows s c kind p =
      push_all-Follows start s (held_by s c ObjectKind.keyboard) kind p

  leave_focus-Follows :
      (serial epoch : ℕ) (key : Option SurfaceKey) (s : CompositorState)
      → Follows start s
      → Follows start (leave_focus serial epoch key s)
  unfolding leave_focus
  leave_focus-Follows serial epoch none s p = p
  leave_focus-Follows serial epoch (some (c, id)) s p =
      send_to_keyboards-Follows _ c _ (push_event-Follows start s c id EventKind.keyboard_leave p)

  enter_focus-Follows :
      (serial epoch modifiers : ℕ) (held : List ℕ) (key : Option SurfaceKey) (s : CompositorState)
      → Follows start s
      → Follows start (enter_focus serial epoch modifiers held key s)
  unfolding enter_focus
  enter_focus-Follows serial epoch modifiers held none s p = p
  enter_focus-Follows serial epoch modifiers held (some (c, id)) s p =
      send_to_keyboards-Follows _ c _ (push_event-Follows start s c id EventKind.keyboard_enter p)

  pub move_focus-Follows :
      (s : CompositorState) (key : Option SurfaceKey)
      → Follows start s
      → Follows start (move_focus s key)
  unfolding move_focus
  move_focus-Follows s key p =
      let serial = u32_next s.seat.serial in
      let started : CompositorState = record s { seat = record s.seat { serial = serial } } in
      let begun : Follows start started = moved start p (refl, refl, refl, refl) in
      let left = leave_focus serial s.seat.epoch s.keyboard_focus started in
      let gone = leave_focus-Follows serial s.seat.epoch s.keyboard_focus started begun in
      let entered =
        enter_focus serial s.seat.epoch s.seat.keyboard.modifiers (keys s.seat.keyboard.held) key
          left in
      let come =
        enter_focus-Follows serial s.seat.epoch s.seat.keyboard.modifiers
          (keys s.seat.keyboard.held) key left gone in
      let focused : CompositorState = record entered { keyboard_focus = key } in
      let there : Follows start focused = moved start come (refl, refl, refl, refl) in
      let composed = refresh_composition focused in
      tell_shells-Follows start composed
        (EventKind.shell_focus_changed 1 (focused_handle composed key))
        (refresh_composition-Follows start focused there)
