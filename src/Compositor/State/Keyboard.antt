-- ===== src/Compositor/State/Keyboard.antt =====
-- The keys of atria-compositor/src/state/input.rs: who a key is for, and the chords that shells claim.
-- `modifier_of` is `Modifiers::of` of atria-protocol/src/key.rs.
pub mod Swallowed
pub mod Exclusive
use atria.Base.{
  ℕ, zero, suc, ◌+◌, ◌-◌, ◌*◌, ◌^◌, ◌%◌, ◌≡◌, ◌≢◌, ◌↔◌, refl, ap, sym, subst, ◌∙◌, ◌≤◌, ◌<◌, ◌⊎◌,
  inl, inr, min, bit_and, bit_or, Bool, true, false, not, ◌&&◌, ◌||◌, Option, none, some, List, [],
  ◌∷◌, ◌++◌, ◌==◌, leb, ltb, if◌then◌else◌, is_some, map, reverse, keep, any, length, Result, ok,
  err, ◌>>=◌, ◌>>◌, guard, ok_or, is_ok, word_end, checked_add, checked_mul, arith, if_intro,
  Bool-cases, Option-cases, Result-cases, ==_iff, ==_refl,
}
use atria.Base.Int.{ℤ, pos, negsuc, i32_checked_add, i32_saturating_sub}
use atria.Base.Map.{
  Map, lookup, insert, remove, update, retain, contains_key, keys, values, ℕ_key, pair_key,
}
use atria.Protocol.Capability.{
  Capability, CapabilitySet, contains, with_capability, without_capability,
}
use atria.Compositor.Error.{StateError, ShellError, SceneFault, error_category, error_object_id}
use atria.Compositor.Request.{ClientRequest, EventKind, Event, FocusEvent, SurfaceSnapshot}
use atria.Compositor.Model.{
  ConnectionId, ObjectId, null_id, display_id, CommitId, SeatId, ToplevelHandle, SurfaceKey, Chord,
  chord_key, accepts, ObjectKind, Point, origin, Size, Rect, empty_rect, rect_contains, Damage,
  BufferDescriptor, BufferTransport, BufferState, transport_capability, is_structurally_valid,
  pixel_format_is_known, SeatCapabilities, no_seat_capabilities, TextPurpose, admits_composition,
  SharedMemory, TitleText, TextBuffer, IdentitySource,
}
use atria.Compositor.State.{
  CompositorState, Connection, Object, ToplevelState, SurfaceState, SeatState, SessionState,
  BufferObject, BufferSource, CurrentSurface, PendingAttachment, PendingSurface, nothing_pending,
  FenceState, TextField, ShortcutClaim, Global, KeyboardRouting, PointerRouting, SeatRouting, Scene,
  max_held_keys, max_shortcuts, max_text_fields,
}
use atria.Compositor.State.Access.{
  kind_eqb, key_eqb, is_key, is_id, object_entry, object, expect_any, expect_kind, surface, buffer,
  session, seat, fence, toplevel, toplevel_mut, modify_connection, modify_object, modify_surface,
  set_buffer_state, surface_snapshot, capabilities, holds, require_capability, session_of,
  expect_active_session, check_kind_quota, allocate_client, ids_of_kind, bound_of_kind,
  toplevel_handle, toplevel_surface, pool_memory, object_kind,
}
use atria.Compositor.State.Teardown.{
  push_event, push_all, tell_shells, refresh_composition, close_connection, Destroyed,
}
use atria.Compositor.State.Push.{u32_next}
use atria.Compositor.State.Focus.{send_to_keyboards}

-- The bit a key contributes: its left and its right key share one.
unfoldable pub modifier_of : ℕ → Option ℕ
modifier_of k =
    if k == 224 || k == 228
    then some 1
    else (if k == 225 || k == 229
        then some 2
        else (if k == 226 || k == 230
            then some 4
            else (if k == 227 || k == 231 then some 8 else none)))

-- `Modifiers::with` and `Modifiers::without`.
unfoldable pub with_modifier : ℕ → Bool → ℕ → ℕ
with_modifier m pressed modifiers =
    if pressed then bit_or modifiers m else bit_and modifiers (2 ^ 32 - 1 - m)

-- The press or the release, where it changes what is held.
unfoldable pub hold_key : ℕ → Bool → Map ℕ (Unit {0}) → Option (Map ℕ (Unit {0}))
hold_key k true held =
    if ltb (length held) max_held_keys && not (contains_key k held)
    then some (insert k tt held)
    else none
hold_key k false held = if contains_key k held then some (remove k held) else none

unfoldable pub turn_modifier : Option ℕ → Bool → ℕ → ℕ
unfolding with_modifier
turn_modifier none pressed modifiers = modifiers
turn_modifier (some m) pressed modifiers = with_modifier m pressed modifiers

unfoldable pub with_keyboard :
    (KeyboardRouting → KeyboardRouting) → CompositorState → CompositorState
with_keyboard f s = record s { seat = record s.seat { keyboard = f s.seat.keyboard } }

-- The first claim, in the order of the map, that the key completes.
unfoldable pub find_claim : ℕ → ℕ → List ((SeatId × Chord) × ShortcutClaim) → Option ShortcutClaim
unfolding accepts
find_claim modifiers k [] = none
find_claim modifiers k (((id, chord), claim) ∷ rest) =
    let later = find_claim modifiers k rest in
    if id == 1 && (chord.trigger == k && accepts chord modifiers) then some claim else later

unfoldable pub claimed : CompositorState → ℕ → Option ShortcutClaim
unfolding find_claim
claimed s k = find_claim s.seat.keyboard.modifiers k s.shortcuts

unfoldable pub count_serial : CompositorState → CompositorState
count_serial s = record s { seat = record s.seat { serial = u32_next s.seat.serial } }

unfoldable pub trigger : CompositorState → ℕ → ℕ → ShortcutClaim → CompositorState
unfolding with_keyboard count_serial push_event
trigger s k time claim =
    let counted =
      count_serial (with_keyboard (λ v. record v { consumed = insert k tt v.consumed }) s) in
    push_event counted claim.holder claim.manager
      (EventKind.shortcut_triggered claim.shortcut 1 counted.seat.serial time counted.seat.epoch)

unfoldable pub key_event : CompositorState → ℕ → Bool → ℕ → EventKind
key_event s k pressed time = EventKind.key s.seat.serial time k pressed s.seat.epoch

unfoldable pub key_focused : CompositorState → ℕ → Bool → ℕ → Option SurfaceKey → CompositorState
unfolding count_serial send_to_keyboards key_event modifier_of
key_focused s k pressed time none = s
key_focused s k pressed time (some target) =
    let counted = count_serial s in
    let sent = send_to_keyboards counted target.0 (key_event counted k pressed time) in
    if is_some (modifier_of k)
    then send_to_keyboards sent target.0
        (EventKind.key_modifiers s.seat.keyboard.modifiers s.seat.epoch)
    else sent

-- While an input method composes, the keys are its own.
unfoldable pub key_delivered :
    CompositorState → ℕ → Bool → ℕ → Option (ConnectionId × ObjectId) → CompositorState
unfolding key_focused count_serial key_event push_event
key_delivered s k pressed time none = key_focused s k pressed time s.keyboard_focus
key_delivered s k pressed time (some (c, id)) =
    if is_some s.composing
    then (let counted = count_serial s in
        push_event counted c id (key_event counted k pressed time))
    else key_focused s k pressed time s.keyboard_focus

-- A press that was swallowed takes its release with it.
unfoldable pub key_released : CompositorState → ℕ → ℕ → CompositorState
unfolding with_keyboard key_delivered
key_released s k time =
    if contains_key k s.seat.keyboard.consumed
    then with_keyboard (λ v. record v { consumed = remove k v.consumed }) s
    else key_delivered s k false time s.method

-- A claimed chord goes to its holder, and to no one else.
unfoldable pub key_pressed : CompositorState → ℕ → ℕ → Option ShortcutClaim → CompositorState
unfolding trigger key_delivered
key_pressed s k time none = key_delivered s k true time s.method
key_pressed s k time (some claim) = trigger s k time claim

unfoldable pub key_changed :
    CompositorState → ℕ → Bool → ℕ → Option (Map ℕ (Unit {0})) → CompositorState
unfolding with_keyboard turn_modifier modifier_of key_pressed key_released claimed
key_changed s k pressed time none = s
key_changed s k pressed time (some held) =
    let turned =
      with_keyboard
        (λ v. record v {
          held = held;
          modifiers = turn_modifier (modifier_of k) pressed v.modifiers;
        })
        s in
    if pressed then key_pressed turned k time (claimed turned k) else key_released turned k time

unfoldable pub key : CompositorState → ℕ → Bool → ℕ → CompositorState
unfolding key_changed hold_key
key s k pressed time = key_changed s k pressed time (hold_key k pressed s.seat.keyboard.held)

-- One holder for a chord on a seat.
unfoldable pub register_shortcut :
    CompositorState
    → ConnectionId
    → ObjectId
    → ℕ
    → SeatId
    → Chord
    → Result StateError CompositorState
unfolding expect_kind
register_shortcut s c manager shortcut seat_id chord = do
  expect_kind s c manager ObjectKind.shortcuts
  guard (not (leb max_shortcuts (length s.shortcuts))) (StateError.quota_exceeded manager)
  guard (not (contains_key (seat_id, chord) s.shortcuts)) (StateError.invalid_state manager)
  ok (record s {
    shortcuts =
        insert (seat_id, chord) (record { holder = c; manager = manager; shortcut = shortcut })
          s.shortcuts;
  })

-- `UnregisterShortcut`.
unfoldable pub unregister_shortcut :
    CompositorState → ConnectionId → ObjectId → ℕ → Result StateError CompositorState
unfolding expect_kind
unregister_shortcut s c manager shortcut = do
  expect_kind s c manager ObjectKind.shortcuts
  ok (record s {
    shortcuts =
        retain (λ chord claim. not (claim.holder == c && claim.shortcut == shortcut)) s.shortcuts;
  })
