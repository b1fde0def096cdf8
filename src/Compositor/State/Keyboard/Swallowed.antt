-- ===== src/Compositor/State/Keyboard/Swallowed.antt =====
-- What a claimed chord takes from everyone but its holder.
use atria.Base.{
  ℕ, ◌≡◌, refl, ap, ◌∙◌, ◌<◌, true, false, not, ◌&&◌, none, some, ltb, if◌then◌else◌, length, arith,
  ==_refl,
}
use atria.Base.Map.{Map, insert, remove, contains_key, ℕ_key, pair_key}
use atria.Compositor.Model.{chord_key}
use atria.Compositor.State.{CompositorState, ShortcutClaim, KeyboardRouting, max_held_keys}
use atria.Compositor.State.Access.{modify_connection}
use atria.Base.Map.{lookup-insert}
use atria.Compositor.State.Keyboard.{
  modifier_of, turn_modifier, hold_key, with_keyboard, key_delivered, claimed, count_serial,
  trigger, key_pressed, key_released, key_changed, key,
}
use atria.Compositor.Request.{EventKind}
use atria.Compositor.State.Push.{queue, u32_next}
use atria.Compositor.State.Teardown.{detach_connection, push_event}
use atria.Compositor.State.Teardown.Induction.{send, IsKept, push_event-kept}

-- The keyboard is as given.
unfoldable pub HasKeyboard : KeyboardRouting → CompositorState → Type 0
HasKeyboard keyboard s = s.seat.keyboard ≡ keyboard

HasKeyboard-kept : (keyboard : KeyboardRouting) → IsKept (HasKeyboard keyboard)
unfolding HasKeyboard send queue detach_connection modify_connection
HasKeyboard-kept keyboard = record {
  sent = λ s c id kind client e room p. p;
  overflowed = λ s c kind p. p;
  detached = λ s c p. p;
  composed = λ s method composing n p. p;
}

-- The keyboard without the key, pressed or swallowed.
abbrev pub without_key : ℕ → KeyboardRouting → KeyboardRouting
without_key k v = record {
  modifiers = turn_modifier (modifier_of k) false v.modifiers;
  held = remove k v.held;
  consumed = remove k v.consumed;
}

release-swallowed :
    (u : CompositorState) (k time : ℕ)
    → contains_key k u.seat.keyboard.held ≡ true
    → contains_key k u.seat.keyboard.consumed ≡ true
    → key u k false time ≡ with_keyboard (without_key k) u
unfolding key hold_key key_changed key_released with_keyboard
release-swallowed u k time down swallowed =
    let turned =
      with_keyboard
        (λ v. record v {
          held = remove k v.held;
          modifiers = turn_modifier (modifier_of k) false v.modifiers;
        })
        u in
    ap (λ b. key_changed u k false time (if b then some (remove k u.seat.keyboard.held) else none))
      down
    ∙ ap
        (λ b.
          if b
          then with_keyboard (λ v. record v { consumed = remove k v.consumed }) turned
          else key_delivered turned k false time turned.method)
        swallowed

insert-contains : (k : ℕ) (m : Map ℕ (Unit {0})) → contains_key k (insert k tt m) ≡ true
insert-contains k m = ground (arith, lookup-insert k k tt m, ==_refl k)

-- The keyboard with the key pressed.
abbrev pub with_key : ℕ → KeyboardRouting → KeyboardRouting
with_key k v = record v {
  held = insert k tt v.held;
  modifiers = turn_modifier (modifier_of k) true v.modifiers;
}

pressed-triggers :
    (s : CompositorState) (k time : ℕ) (claim : ShortcutClaim)
    → contains_key k s.seat.keyboard.held ≡ false
    → length s.seat.keyboard.held < max_held_keys
    → claimed (with_keyboard (with_key k) s) k ≡ some claim
    → key s k true time ≡ trigger (with_keyboard (with_key k) s) k time claim
unfolding key hold_key key_changed key_pressed with_keyboard
pressed-triggers s k time claim up few own =
    let held = s.seat.keyboard.held in
    let fits : ltb (length held) max_held_keys && not (contains_key k held) ≡ true =
      ground (arith, up, few) in
    ap (λ b. key_changed s k true time (if b then some (insert k tt held) else none)) fits
    ∙ ap (key_pressed (with_keyboard (with_key k) s) k time) own

-- The state in which the holder is told: the key is down and swallowed, and the serial is counted.
abbrev pub swallowing : CompositorState → ℕ → CompositorState
swallowing s k = record s {
  seat = record s.seat {
    serial = u32_next s.seat.serial;
    keyboard = record s.seat.keyboard {
      held = insert k tt s.seat.keyboard.held;
      modifiers = turn_modifier (modifier_of k) true s.seat.keyboard.modifiers;
      consumed = insert k tt s.seat.keyboard.consumed;
    };
  };
}

triggered :
    (s : CompositorState) (k time : ℕ) (claim : ShortcutClaim)
    → trigger (with_keyboard (with_key k) s) k time claim
      ≡ push_event
          (swallowing s k)
          claim.holder
          claim.manager
          (EventKind.shortcut_triggered claim.shortcut 1 (u32_next s.seat.serial) time s.seat.epoch)
unfolding trigger with_keyboard count_serial
triggered s k time claim = refl

told-keyboard :
    (s : CompositorState) (k time : ℕ) (claim : ShortcutClaim)
    → HasKeyboard (swallowing s k).seat.keyboard (
        push_event (swallowing s k) claim.holder claim.manager (
          EventKind.shortcut_triggered claim.shortcut 1 (u32_next s.seat.serial) time s.seat.epoch))
unfolding HasKeyboard
told-keyboard s k time claim =
    push_event-kept (HasKeyboard _) (HasKeyboard-kept _) _ claim.holder claim.manager _ refl

-- A key that is up and that completes a claimed chord, with fewer keys down than there may be: its
-- press counts the serial, notes the key as down and as swallowed, and is one event for the holder of
-- the chord, `shortcut_triggered` with that serial, and nothing else; its release afterwards, whatever
-- the event has closed, tells nobody anything: it only takes the key out of the keyboard's own sets.
pub key-swallowed :
    (s : CompositorState) (k time later : ℕ) (claim : ShortcutClaim)
    → contains_key k s.seat.keyboard.held ≡ false
    → length s.seat.keyboard.held < max_held_keys
    → claimed (with_keyboard (with_key k) s) k ≡ some claim
    → (key s k true time
        ≡ push_event (swallowing s k) claim.holder claim.manager (
            EventKind.shortcut_triggered claim.shortcut 1
              (u32_next s.seat.serial)
              time
              s.seat.epoch))
      × (key (key s k true time) k false later ≡ with_keyboard (without_key k) (key s k true time))
unfolding HasKeyboard with_keyboard
key-swallowed s k time later claim up few own =
    let pressed = pressed-triggers s k time claim up few own ∙ triggered s k time claim in
    let keyboard =
      ap (λ (u : CompositorState). u.seat.keyboard) pressed ∙ told-keyboard s k time claim in
    (
      pressed,
      release-swallowed (key s k true time) k later
          (ap (λ (v : KeyboardRouting). contains_key k v.held) keyboard
            ∙ insert-contains k s.seat.keyboard.held)
          (ap (λ (v : KeyboardRouting). contains_key k v.consumed) keyboard
            ∙ insert-contains k s.seat.keyboard.consumed),
    )
