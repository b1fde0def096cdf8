-- ===== src/Compositor/State/Follows/Keys.antt =====
-- That a key is steps of `Follows`.
use atria.Base.{ℕ, refl, Bool, true, false, Option, none, some, is_some, if_intro}
use atria.Base.Map.{Map, insert, remove, contains_key, ℕ_key, pair_key}
use atria.Compositor.Model.{ConnectionId, ObjectId, SurfaceKey, chord_key}
use atria.Compositor.State.{CompositorState, ShortcutClaim, KeyboardRouting}
use atria.Compositor.State.Follows.{Follows}
use atria.Compositor.State.Follows.Steps.{moved, push_event-Follows}
use atria.Compositor.State.Keyboard.{
  modifier_of, turn_modifier, with_keyboard, count_serial, trigger, key_event, key_focused,
  key_delivered, key_released, key_pressed, key_changed, key,
}
use atria.Compositor.State.Follows.Windows.{send_to_keyboards-Follows}

module _ (start : CompositorState) where
  with_keyboard-Follows :
      (f : KeyboardRouting → KeyboardRouting) (s : CompositorState)
      → Follows start s
      → Follows start (with_keyboard f s)
  unfolding with_keyboard
  with_keyboard-Follows f s p = moved start p (refl, refl, refl, refl)

  count_serial-Follows : (s : CompositorState) → Follows start s → Follows start (count_serial s)
  unfolding count_serial
  count_serial-Follows s p = moved start p (refl, refl, refl, refl)

  trigger-Follows :
      (s : CompositorState) (k time : ℕ) (claim : ShortcutClaim)
      → Follows start s
      → Follows start (trigger s k time claim)
  unfolding trigger
  trigger-Follows s k time claim p = push_event-Follows start _ claim.holder claim.manager _ (
      count_serial-Follows _
        (with_keyboard-Follows (λ v. record v { consumed = insert k tt v.consumed }) s p))

  key_focused-Follows :
      (s : CompositorState) (k : ℕ) (pressed : Bool) (time : ℕ) (target : Option SurfaceKey)
      → Follows start s
      → Follows start (key_focused s k pressed time target)
  unfolding key_focused
  key_focused-Follows s k pressed time none p = p
  key_focused-Follows s k pressed time (some target) p =
      let sent =
        send_to_keyboards-Follows start (count_serial s) target.0
          (key_event (count_serial s) k pressed time) (count_serial-Follows s p) in
      if_intro (Follows start) (is_some (modifier_of k))
        (λ e. send_to_keyboards-Follows start _ target.0 _ sent) (λ e. sent)

  key_delivered-Follows :
      (s : CompositorState) (k : ℕ) (pressed : Bool) (time : ℕ)
      (method : Option (ConnectionId × ObjectId))
      → Follows start s
      → Follows start (key_delivered s k pressed time method)
  unfolding key_delivered
  key_delivered-Follows s k pressed time none p =
      key_focused-Follows s k pressed time s.keyboard_focus p
  key_delivered-Follows s k pressed time (some (c, id)) p =
      if_intro (Follows start) (is_some s.composing)
        (λ e. push_event-Follows start (count_serial s) c id _ (count_serial-Follows s p))
        (λ e. key_focused-Follows s k pressed time s.keyboard_focus p)

  key_released-Follows :
      (s : CompositorState) (k time : ℕ) → Follows start s → Follows start (key_released s k time)
  unfolding key_released
  key_released-Follows s k time p =
      if_intro (Follows start) (contains_key k s.seat.keyboard.consumed)
        (λ e. with_keyboard-Follows (λ v. record v { consumed = remove k v.consumed }) s p)
        (λ e. key_delivered-Follows s k false time s.method p)

  key_pressed-Follows :
      (s : CompositorState) (k time : ℕ) (claim : Option ShortcutClaim)
      → Follows start s
      → Follows start (key_pressed s k time claim)
  unfolding key_pressed
  key_pressed-Follows s k time none p = key_delivered-Follows s k true time s.method p
  key_pressed-Follows s k time (some claim) p = trigger-Follows s k time claim p

  key_changed-Follows :
      (s : CompositorState) (k : ℕ) (pressed : Bool) (time : ℕ) (held : Option (Map ℕ (Unit {0})))
      → Follows start s
      → Follows start (key_changed s k pressed time held)
  unfolding key_changed
  key_changed-Follows s k pressed time none p = p
  key_changed-Follows s k pressed time (some held) p =
      let q =
        with_keyboard-Follows
          (λ v. record v {
            held = held;
            modifiers = turn_modifier (modifier_of k) pressed v.modifiers;
          })
          s p in
      if_intro (Follows start) pressed (λ e. key_pressed-Follows _ k time _ q)
        (λ e. key_released-Follows _ k time q)

  pub key-Follows :
      (s : CompositorState) (k : ℕ) (pressed : Bool) (time : ℕ)
      → Follows start s
      → Follows start (key s k pressed time)
  unfolding key
  key-Follows s k pressed time p = key_changed-Follows s k pressed time _ p
