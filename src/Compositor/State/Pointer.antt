-- ===== src/Compositor/State/Pointer.antt =====
-- Where the pointer goes, of atria-compositor/src/state/input.rs and state/mod.rs.
use atria.Base.{
  ℕ, ◌+◌, ◌-◌, ◌^◌, min, Bool, true, false, ◌&&◌, Option, none, some, List, [], ◌∷◌, ◌==◌,
  if◌then◌else◌, reverse, Result, ok, err,
}
use atria.Base.Int.{i32_checked_add, i32_saturating_sub}
use atria.Base.Map.{lookup, ℕ_key, pair_key}
use atria.Compositor.Error.{StateError}
use atria.Compositor.Request.{EventKind}
use atria.Compositor.Model.{
  ConnectionId, ObjectId, ToplevelHandle, SurfaceKey, chord_key, ObjectKind, Point, Rect,
  rect_contains,
}
use atria.Compositor.State.{CompositorState, BufferObject, CurrentSurface, PointerRouting}
use atria.Compositor.State.Access.{key_eqb, surface, buffer}
use atria.Compositor.State.Teardown.{push_event, push_all, tell_shells}
use atria.Compositor.State.Push.{u32_next}
use atria.Compositor.State.Focus.{held_by, handle_of_surface}

-- Where a surface is on screen, and how big.
placed_area : Option Point → CurrentSurface → Result StateError BufferObject → Option Rect
placed_area none u x = none
placed_area (some p) u (err e) = none
placed_area (some p) u (ok b) = elim (i32_checked_add p.x u.snapshot.offset.x) [
  | none ↦ none
  | some x ↦ elim (i32_checked_add p.y u.snapshot.offset.y) [
    | none ↦ none
    | some y ↦ some (record {
      x = x;
      y = y;
      width = b.descriptor.size.width;
      height = b.descriptor.size.height;
    })
  ]
]

content_area : CompositorState → SurfaceKey → Option CurrentSurface → Option Rect
unfolding placed_area buffer
content_area s key none = none
content_area s key (some u) =
    placed_area (lookup key s.scene.positions) u (buffer s key.0 u.snapshot.buffer)

unfoldable pub surface_area : CompositorState → SurfaceKey → Option Rect
unfolding content_area surface
surface_area s key = elim (surface s key.0 key.1) [
  | err e ↦ none
  | ok v ↦ content_area s key v.current
]

unfoldable pub covers_point : CompositorState → Point → SurfaceKey → Bool
unfolding surface_area rect_contains
covers_point s p key = elim (surface_area s key) [ none ↦ false | some r ↦ rect_contains r p ]

-- The first, from the top.
unfoldable pub find_first : (SurfaceKey → Bool) → List SurfaceKey → Option SurfaceKey
find_first p [] = none
find_first p (k ∷ ks) = let later = find_first p ks in if p k then some k else later

unfoldable pub surface_under : CompositorState → Point → Option SurfaceKey
unfolding find_first covers_point
surface_under s p = find_first (covers_point s p) (reverse s.scene.stack)

-- `update_pointer_target` of state/mod.rs, which tells nobody.
unfoldable pub update_pointer_target : CompositorState → Point → CompositorState × Option SurfaceKey
unfolding surface_under
update_pointer_target s p =
    let found = surface_under s p in (record s { pointer_target = found }, found)

unfoldable pub surface_local : CompositorState → SurfaceKey → Point → Point
unfolding surface_area
surface_local s key p = elim (surface_area s key) [
  | none ↦ p
  | some r ↦ record { x = i32_saturating_sub p.x r.x; y = i32_saturating_sub p.y r.y }
]

unfoldable pub send_to_pointers : CompositorState → ConnectionId → EventKind → CompositorState
unfolding push_all held_by
send_to_pointers s c kind = push_all s (held_by s c ObjectKind.pointer) kind

unfoldable pub next_serial : CompositorState → CompositorState
next_serial s = record s { seat = record s.seat { serial = u32_next s.seat.serial } }

unfoldable pub send_pointer_enter : CompositorState → SurfaceKey → Point → CompositorState
unfolding next_serial surface_local send_to_pointers
send_pointer_enter s (c, id) p =
    let t = next_serial s in
    send_to_pointers t c
      (EventKind.pointer_enter t.seat.serial id (surface_local t (c, id) p) t.seat.epoch)

unfoldable pub send_pointer_leave : CompositorState → SurfaceKey → CompositorState
unfolding next_serial send_to_pointers
send_pointer_leave s (c, id) =
    let t = next_serial s in
    send_to_pointers t c (EventKind.pointer_leave t.seat.serial id t.seat.epoch)

unfoldable pub send_pointer_motion : CompositorState → SurfaceKey → Point → ℕ → CompositorState
unfolding surface_local send_to_pointers
send_pointer_motion s (c, id) p time =
    send_to_pointers s c (EventKind.pointer_motion time (surface_local s (c, id) p) s.seat.epoch)

-- A write to the pointer's own part of the seat.
unfoldable pub in_pointer : (PointerRouting → PointerRouting) → CompositorState → CompositorState
in_pointer f s = record s { seat = record s.seat { pointer = f s.seat.pointer } }

unfoldable pub entering : CompositorState → Option SurfaceKey → CompositorState
unfolding send_pointer_enter
entering s none = s
entering s (some key) = send_pointer_enter s key s.seat.pointer.position

unfoldable pub leaving : CompositorState → Option SurfaceKey → CompositorState
unfolding send_pointer_leave
leaving s none = s
leaving s (some key) = send_pointer_leave s key

unfoldable pub moving : CompositorState → Point → ℕ → Option SurfaceKey → CompositorState
unfolding send_pointer_motion
moving s p time none = s
moving s p time (some key) = send_pointer_motion s key p time

unfoldable pub retarget : CompositorState → Option SurfaceKey → CompositorState
unfolding in_pointer entering
retarget s found = entering (in_pointer (λ v. record v { target = found }) s) found

unfoldable pub same_target : Option SurfaceKey → Option SurfaceKey → Bool
unfolding key_eqb
same_target none none = true
same_target (some a) (some b) = key_eqb a b
same_target _ _ = false

unfoldable pub move_free : CompositorState → Point → ℕ → CompositorState
unfolding surface_under same_target leaving retarget moving
move_free s p time =
    let found = surface_under s p in
    let t =
      if same_target found s.seat.pointer.target
      then s
      else retarget (leaving s s.seat.pointer.target) found in
    moving t p time t.seat.pointer.target

unfoldable pub move_grabbed :
    CompositorState → Point → ℕ → Option (ConnectionId × ObjectId) → CompositorState
unfolding push_event moving move_free
move_grabbed s p time (some (c, control)) = push_event s c control (EventKind.shell_grab_motion 1 p)
move_grabbed s p time none =
    if s.seat.pointer.buttons_held == 0
    then move_free s p time
    else moving s p time s.seat.pointer.target

unfoldable pub move_pointer : CompositorState → Point → ℕ → CompositorState
unfolding in_pointer move_grabbed
move_pointer s p time =
    let t = in_pointer (λ v. record v { position = p }) s in
    move_grabbed t p time t.seat.pointer.shell_grab

-- `saturating_add` and `saturating_sub` on 32 bits.
abbrev pub one_more : PointerRouting → PointerRouting
one_more v = record v { buttons_held = min (v.buttons_held + 1) (2 ^ 32 - 1) }

abbrev pub one_less : PointerRouting → PointerRouting
one_less v = record v { buttons_held = v.buttons_held - 1 }

-- The last release ends the grab, and the pointer goes to what is under it.
unfoldable pub button_grabbed : CompositorState → ConnectionId → ObjectId → Bool → CompositorState
unfolding in_pointer push_event retarget surface_under
button_grabbed s c control true = in_pointer one_more s
button_grabbed s c control false =
    let t = in_pointer one_less s in
    if t.seat.pointer.buttons_held == 0
    then (let freed =
          push_event (in_pointer (λ v. record v { shell_grab = none }) t) c control
            (EventKind.shell_grab_end 1) in
        retarget freed (surface_under freed freed.seat.pointer.position))
    else t

unfoldable pub tell_interaction :
    CompositorState → SurfaceKey → ℕ → Option ToplevelHandle → CompositorState
unfolding tell_shells surface_local
tell_interaction s key serial none = s
tell_interaction s key serial (some h) =
    tell_shells s
      (EventKind.shell_interaction 1 h serial (surface_local s key s.seat.pointer.position))

-- The button of a surface, with no grab by a shell.
unfoldable pub button_sent : CompositorState → SurfaceKey → ℕ → Bool → CompositorState
unfolding in_pointer tell_interaction handle_of_surface surface_under same_target leaving retarget
button_sent s key serial true =
    let t = in_pointer one_more s in tell_interaction t key serial (handle_of_surface t key)
button_sent s key serial false =
    let t = in_pointer one_less s in
    if t.seat.pointer.buttons_held == 0
    then (let under = surface_under t t.seat.pointer.position in
        if same_target under (some key) then t else retarget (leaving t (some key)) under)
    else t

unfoldable pub button_at : CompositorState → ℕ → Bool → ℕ → Option SurfaceKey → CompositorState
unfolding next_serial send_to_pointers button_sent
button_at s button pressed time none = s
button_at s button pressed time (some (c, id)) =
    let t = next_serial s in
    button_sent
      (send_to_pointers t c
        (EventKind.pointer_button t.seat.serial time button pressed t.seat.epoch))
      (c, id) t.seat.serial pressed

unfoldable pub button_routed :
    CompositorState → ℕ → Bool → ℕ → Option (ConnectionId × ObjectId) → CompositorState
unfolding button_grabbed button_at
button_routed s button pressed time (some (c, control)) = button_grabbed s c control pressed
button_routed s button pressed time none = button_at s button pressed time s.seat.pointer.target

-- The first press looks for what is under the pointer.
unfoldable pub pointer_button : CompositorState → ℕ → Bool → ℕ → CompositorState
unfolding retarget surface_under button_routed
pointer_button s button pressed time =
    let t =
      if pressed && s.seat.pointer.buttons_held == 0
      then retarget s (surface_under s s.seat.pointer.position)
      else s in
    button_routed t button pressed time t.seat.pointer.shell_grab

unfoldable pub end_grab : CompositorState → Option (ConnectionId × ObjectId) → CompositorState
unfolding push_event
end_grab s none = s
end_grab s (some (c, control)) = push_event s c control (EventKind.shell_grab_end 1)

-- Everything that the seat holds is let go of, and the epoch is a new one.
unfoldable pub reset_input : CompositorState → CompositorState
unfolding leaving in_pointer end_grab
reset_input s =
    let left = leaving (in_pointer (λ v. record v { target = none }) s) s.seat.pointer.target in
    let freed =
      end_grab (in_pointer (λ v. record v { shell_grab = none }) left)
        left.seat.pointer.shell_grab in
    record freed {
      seat = record freed.seat {
        epoch = u32_next freed.seat.epoch;
        pointer = record freed.seat.pointer { buttons_held = 0 };
        keyboard = record { modifiers = 0; held = []; consumed = [] };
      };
    }
