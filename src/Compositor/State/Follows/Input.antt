-- ===== src/Compositor/State/Follows/Input.antt =====
-- That the events of the pointer and of the keyboard are steps of `Follows`.
use atria.Base.{ℕ, refl, Bool, true, false, ◌&&◌, Option, none, some, ◌==◌, if◌then◌else◌, if_intro}
use atria.Base.Map.{ℕ_key, pair_key}
use atria.Compositor.Request.{EventKind}
use atria.Compositor.Model.{
  ConnectionId, ObjectId, ToplevelHandle, SurfaceKey, chord_key, ObjectKind, Point,
}
use atria.Compositor.State.{CompositorState, PointerRouting}
use atria.Compositor.State.Follows.{Follows}
use atria.Compositor.State.Follows.Steps.{
  moved, push_event-Follows, push_all-Follows, tell_shells-Follows,
}
use atria.Compositor.State.Focus.{held_by}
use atria.Compositor.State.Pointer.{
  send_to_pointers, next_serial, send_pointer_enter, send_pointer_leave, send_pointer_motion,
  in_pointer, entering, leaving, moving, retarget, same_target, surface_under, move_free,
  move_grabbed, move_pointer, one_more, one_less, button_grabbed, tell_interaction, button_sent,
  button_at, button_routed, pointer_button,
}

module _ (start : CompositorState) where
  pub next_serial-Follows : (s : CompositorState) → Follows start s → Follows start (next_serial s)
  unfolding next_serial
  next_serial-Follows s p = moved start p (refl, refl, refl, refl)

  in_pointer-Follows :
      (f : PointerRouting → PointerRouting) (s : CompositorState)
      → Follows start s
      → Follows start (in_pointer f s)
  unfolding in_pointer
  in_pointer-Follows f s p = moved start p (refl, refl, refl, refl)

  send_to_pointers-Follows :
      (s : CompositorState) (c : ConnectionId) (kind : EventKind)
      → Follows start s
      → Follows start (send_to_pointers s c kind)
  unfolding send_to_pointers
  send_to_pointers-Follows s c kind p =
      push_all-Follows start s (held_by s c ObjectKind.pointer) kind p

  send_pointer_enter-Follows :
      (s : CompositorState) (key : SurfaceKey) (position : Point)
      → Follows start s
      → Follows start (send_pointer_enter s key position)
  unfolding send_pointer_enter
  send_pointer_enter-Follows s (c, id) position p =
      send_to_pointers-Follows (next_serial s) c _ (next_serial-Follows s p)

  pub send_pointer_leave-Follows :
      (s : CompositorState) (key : SurfaceKey)
      → Follows start s
      → Follows start (send_pointer_leave s key)
  unfolding send_pointer_leave
  send_pointer_leave-Follows s (c, id) p =
      send_to_pointers-Follows (next_serial s) c _ (next_serial-Follows s p)

  moving-Follows :
      (s : CompositorState) (position : Point) (time : ℕ) (key : Option SurfaceKey)
      → Follows start s
      → Follows start (moving s position time key)
  unfolding moving send_pointer_motion
  moving-Follows s position time none p = p
  moving-Follows s position time (some (c, id)) p = send_to_pointers-Follows s c _ p

  entering-Follows :
      (s : CompositorState) (key : Option SurfaceKey)
      → Follows start s
      → Follows start (entering s key)
  unfolding entering
  entering-Follows s none p = p
  entering-Follows s (some key) p = send_pointer_enter-Follows s key _ p

  leaving-Follows :
      (s : CompositorState) (key : Option SurfaceKey)
      → Follows start s
      → Follows start (leaving s key)
  unfolding leaving
  leaving-Follows s none p = p
  leaving-Follows s (some key) p = send_pointer_leave-Follows s key p

  retarget-Follows :
      (s : CompositorState) (key : Option SurfaceKey)
      → Follows start s
      → Follows start (retarget s key)
  unfolding retarget
  retarget-Follows s key p =
      entering-Follows _ key (in_pointer-Follows (λ v. record v { target = key }) s p)

  move_free-Follows :
      (s : CompositorState) (position : Point) (time : ℕ)
      → Follows start s
      → Follows start (move_free s position time)
  unfolding move_free
  move_free-Follows s position time p = moving-Follows _ position time _ (
      if_intro (Follows start) (same_target (surface_under s position) s.seat.pointer.target)
        (λ e. p) (λ e. retarget-Follows _ _ (leaving-Follows s s.seat.pointer.target p)))

  move_grabbed-Follows :
      (s : CompositorState) (position : Point) (time : ℕ) (grab : Option (ConnectionId × ObjectId))
      → Follows start s
      → Follows start (move_grabbed s position time grab)
  unfolding move_grabbed
  move_grabbed-Follows s position time (some (c, control)) p =
      push_event-Follows start s c control _ p
  move_grabbed-Follows s position time none p =
      if_intro (Follows start) (s.seat.pointer.buttons_held == 0)
        (λ e. move_free-Follows s position time p) (λ e. moving-Follows s position time _ p)

  pub move_pointer-Follows :
      (s : CompositorState) (position : Point) (time : ℕ)
      → Follows start s
      → Follows start (move_pointer s position time)
  unfolding move_pointer
  move_pointer-Follows s position time p =
      move_grabbed-Follows _ position time _
        (in_pointer-Follows (λ v. record v { position = position }) s p)

  button_grabbed-Follows :
      (s : CompositorState) (c : ConnectionId) (control : ObjectId) (pressed : Bool)
      → Follows start s
      → Follows start (button_grabbed s c control pressed)
  unfolding button_grabbed
  button_grabbed-Follows s c control true p = in_pointer-Follows one_more s p
  button_grabbed-Follows s c control false p =
      if_intro (Follows start) ((in_pointer one_less s).seat.pointer.buttons_held == 0)
        (λ e. retarget-Follows _ _ (
          push_event-Follows start _ c control (EventKind.shell_grab_end 1) (
            in_pointer-Follows (λ v. record v { shell_grab = none }) _
              (in_pointer-Follows one_less s p))))
        (λ e. in_pointer-Follows one_less s p)

  tell_interaction-Follows :
      (s : CompositorState) (key : SurfaceKey) (serial : ℕ) (h : Option ToplevelHandle)
      → Follows start s
      → Follows start (tell_interaction s key serial h)
  unfolding tell_interaction
  tell_interaction-Follows s key serial none p = p
  tell_interaction-Follows s key serial (some h) p = tell_shells-Follows start s _ p

  button_sent-Follows :
      (s : CompositorState) (key : SurfaceKey) (serial : ℕ) (pressed : Bool)
      → Follows start s
      → Follows start (button_sent s key serial pressed)
  unfolding button_sent
  button_sent-Follows s key serial true p =
      tell_interaction-Follows _ key serial _ (in_pointer-Follows one_more s p)
  button_sent-Follows s key serial false p =
      let t = in_pointer one_less s in
      let q = in_pointer-Follows one_less s p in
      if_intro (Follows start) (t.seat.pointer.buttons_held == 0)
        (λ e.
          if_intro (Follows start)
            (same_target (surface_under t t.seat.pointer.position) (some key)) (λ e. q)
            (λ e. retarget-Follows _ _ (leaving-Follows t (some key) q)))
        (λ e. q)

  button_at-Follows :
      (s : CompositorState) (button : ℕ) (pressed : Bool) (time : ℕ) (key : Option SurfaceKey)
      → Follows start s
      → Follows start (button_at s button pressed time key)
  unfolding button_at
  button_at-Follows s button pressed time none p = p
  button_at-Follows s button pressed time (some (c, id)) p =
      button_sent-Follows _ (c, id) _ pressed
        (send_to_pointers-Follows (next_serial s) c _ (next_serial-Follows s p))

  button_routed-Follows :
      (s : CompositorState) (button : ℕ) (pressed : Bool) (time : ℕ)
      (grab : Option (ConnectionId × ObjectId))
      → Follows start s
      → Follows start (button_routed s button pressed time grab)
  unfolding button_routed
  button_routed-Follows s button pressed time (some (c, control)) p =
      button_grabbed-Follows s c control pressed p
  button_routed-Follows s button pressed time none p = button_at-Follows s button pressed time _ p

  pub pointer_button-Follows :
      (s : CompositorState) (button : ℕ) (pressed : Bool) (time : ℕ)
      → Follows start s
      → Follows start (pointer_button s button pressed time)
  unfolding pointer_button
  pointer_button-Follows s button pressed time p =
      let t =
        if pressed && s.seat.pointer.buttons_held == 0
        then retarget s (surface_under s s.seat.pointer.position)
        else s in
      let q : Follows start t =
        if_intro (Follows start) (pressed && s.seat.pointer.buttons_held == 0)
          (λ e. retarget-Follows s _ p) (λ e. p) in
      button_routed-Follows t button pressed time t.seat.pointer.shell_grab q
