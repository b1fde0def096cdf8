-- ===== src/Compositor/State/Follows/Shells.antt =====
-- That the requests of shells are steps of `Follows`.
use atria.Base.{
  ℕ, ◌≡◌, refl, Option, none, some, List, ◌==◌, Result, ok, err, ◌>>◌, arith, if_intro,
}
use atria.Base.Map.{ℕ_key, pair_key}
use atria.Compositor.Error.{StateError, ShellError}
use atria.Compositor.Request.{ClientRequest, FocusEvent}
use atria.Compositor.Model.{
  ConnectionId, ObjectId, SeatId, ToplevelHandle, SurfaceKey, chord_key, Point, Size,
}
use atria.Compositor.State.{CompositorState}
use atria.Compositor.State.Access.{toplevel_surface}
use atria.Compositor.State.Follows.{Follows}
use atria.Compositor.State.Follows.Steps.{settle-Follows, moved}
use atria.Compositor.State.Follows.Input.{send_pointer_leave-Follows}
use atria.Compositor.State.Focus.{set_keyboard_focus}
use atria.Compositor.State.Shell.{
  ShellOutcome, shell_target, hide_error, at_target, at_surface, shell_configure, shell_close,
  shell_place, shell_raise, known_seat, focus_moved, shell_focus, let_go, shell_grab, refused,
}
use atria.Compositor.State.Dispatch.{dispatch_shell}
use atria.Compositor.State.Follows.Windows.{
  configure_toplevel-Follows, close_toplevel-Holds, move_focus-Follows,
}
use atria.Compositor.State.Follows.Surfaces.{place_surface-Holds, raise_surface-Holds}

abbrev Shelled : CompositorState → ShellOutcome → Type 0
Shelled start r = Follows start r.0

module _ (start : CompositorState) where
  let_go-Follows :
      (s : CompositorState) (key : Option SurfaceKey)
      → Follows start s
      → Follows start (let_go s key)
  unfolding let_go
  let_go-Follows s none p = p
  let_go-Follows s (some key) p =
      send_pointer_leave-Follows start _ key (moved start p (refl, refl, refl, refl))

  hide_error-Follows {ℓ} :
      {A : Type ℓ} (h : ToplevelHandle) (r : CompositorState × Result StateError A)
      → Follows start r.0
      → Follows start (hide_error h r).0
  unfolding hide_error
  hide_error-Follows h (s, ok a) p = p
  hide_error-Follows h (s, err e) p = p

  at_target-Follows :
      (s : CompositorState) (r : Result ShellError (ConnectionId × ObjectId))
      (f : ConnectionId → ObjectId → ShellOutcome)
      → Follows start s
      → ((c : ConnectionId) (id : ObjectId) → Follows start (f c id).0)
      → Follows start (at_target s r f).0
  unfolding at_target
  at_target-Follows s (err e) f p h = p
  at_target-Follows s (ok (c, id)) f p h = h c id

  at_surface-Follows :
      (s : CompositorState) (h : ToplevelHandle) (c : ConnectionId) (id : Option ObjectId)
      (f : SurfaceKey → ShellOutcome)
      → Follows start s
      → ((key : SurfaceKey) → Follows start (f key).0)
      → Follows start (at_surface s h c id f).0
  unfolding at_surface
  at_surface-Follows s h c none f p k = p
  at_surface-Follows s h c (some id) f p k = k (c, id)

  focus_moved-Follows :
      (s : CompositorState) (r : Result StateError (CompositorState × List FocusEvent))
      → Follows start s
      → ((t : CompositorState × List FocusEvent) → r ≡ ok t → Follows start t.0)
      → Follows start (focus_moved s r).0
  unfolding focus_moved
  focus_moved-Follows s (ok t) p h = h t refl
  focus_moved-Follows s (err e) p h = p

  pub set_keyboard_focus-Follows :
      (s : CompositorState) (key : Option SurfaceKey) (t : CompositorState × List FocusEvent)
      → Follows start s
      → set_keyboard_focus s key ≡ ok t
      → Follows start t.0
  unfolding set_keyboard_focus
  set_keyboard_focus-Follows s key t p h = ground (arith, h, move_focus-Follows start s key p, p)

  shell_configure-Follows :
      (s : CompositorState) (shell : ConnectionId) (h : ToplevelHandle) (size : Size) (state : ℕ)
      → Follows start s
      → Follows start (shell_configure s shell h size state).0
  unfolding shell_configure
  shell_configure-Follows s shell h size state p =
      at_target-Follows s (shell_target s shell h) _ p
        λ c id. hide_error-Follows h _ (configure_toplevel-Follows start s c id size state p)

  shell_close-Follows :
      (s : CompositorState) (shell : ConnectionId) (h : ToplevelHandle)
      → Follows start s
      → Follows start (shell_close s shell h).0
  unfolding shell_close
  shell_close-Follows s shell h p = at_target-Follows s (shell_target s shell h) _ p λ c id.
      hide_error-Follows h _ (settle-Follows start s _ p (close_toplevel-Holds start s c id p))

  shell_place-Follows :
      (s : CompositorState) (shell : ConnectionId) (h : ToplevelHandle) (position : Point)
      → Follows start s
      → Follows start (shell_place s shell h position).0
  unfolding shell_place
  shell_place-Follows s shell h position p =
      at_target-Follows s (shell_target s shell h) _ p λ c id.
        at_surface-Follows s h c (toplevel_surface s c id) _ p λ key.
          hide_error-Follows h _
            (settle-Follows start s _ p (place_surface-Holds start s key position p))

  shell_raise-Follows :
      (s : CompositorState) (shell : ConnectionId) (h : ToplevelHandle)
      → Follows start s
      → Follows start (shell_raise s shell h).0
  unfolding shell_raise
  shell_raise-Follows s shell h p = at_target-Follows s (shell_target s shell h) _ p λ c id.
      at_surface-Follows s h c (toplevel_surface s c id) _ p λ key.
        hide_error-Follows h _ (settle-Follows start s _ p (raise_surface-Holds start s key p))

  shell_focus-Follows :
      (s : CompositorState) (shell : ConnectionId) (seat_id : SeatId) (h : ToplevelHandle)
      → Follows start s
      → Follows start (shell_focus s shell seat_id h).0
  unfolding shell_focus
  shell_focus-Follows s shell seat_id h p =
      at_target-Follows s (known_seat seat_id >> shell_target s shell h) _ p λ c id.
        at_surface-Follows s h c (toplevel_surface s c id) _ p λ key. hide_error-Follows h _ (
          focus_moved-Follows s (set_keyboard_focus s (some key)) p
            λ t e. set_keyboard_focus-Follows s (some key) t p e)

  shell_grab-Follows :
      (s : CompositorState) (shell : ConnectionId) (seat_id : SeatId) (h : ToplevelHandle)
      (control : ObjectId)
      → Follows start s
      → Follows start (shell_grab s shell seat_id h control).0
  unfolding shell_grab
  shell_grab-Follows s shell seat_id h control p =
      at_target-Follows s (known_seat seat_id >> shell_target s shell h) _ p λ c id.
        if_intro (Shelled start) (s.seat.pointer.buttons_held == 0) (λ e. p)
          λ e. moved start (let_go-Follows s s.seat.pointer.target p) (refl, refl, refl, refl)

  refused-Follows :
      (control : ObjectId) (r : ShellOutcome)
      → Follows start r.0
      → Follows start (refused control r).0
  unfolding refused
  refused-Follows control (s, ok x) p = p
  refused-Follows control (s, err e) p = p

  pub dispatch_shell-Follows :
      (s : CompositorState) (c : ConnectionId) (request : ClientRequest)
      → Follows start s
      → Follows start (dispatch_shell s c request).0
  unfolding dispatch_shell
  dispatch_shell-Follows s c (ClientRequest.shell_configure control h size state) p =
      refused-Follows control _ (shell_configure-Follows s c h size state p)
  dispatch_shell-Follows s c (ClientRequest.shell_place control h position) p =
      refused-Follows control _ (shell_place-Follows s c h position p)
  dispatch_shell-Follows s c (ClientRequest.shell_raise control h) p =
      refused-Follows control _ (shell_raise-Follows s c h p)
  dispatch_shell-Follows s c (ClientRequest.shell_focus control seat_id h) p =
      refused-Follows control _ (shell_focus-Follows s c seat_id h p)
  dispatch_shell-Follows s c (ClientRequest.shell_close control h) p =
      refused-Follows control _ (shell_close-Follows s c h p)
  dispatch_shell-Follows s c (ClientRequest.shell_grab control seat_id h) p =
      refused-Follows control _ (shell_grab-Follows s c seat_id h control p)
  dispatch_shell-Follows s c _ p = p
