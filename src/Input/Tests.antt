-- ===== src/Input/Tests.antt =====
-- The theorems on input at concrete records.
use atria.Base.{ℕ, ◌≡◌, refl, false, List, [], ◌∷◌, ok, ◌==◌}
use atria.Base.Int.{pos}
use atria.Base.Map.{lookup, ℕ_key}
use atria.Input.Key.{
  RawInputEvent, KeyCode, KeyEvent, KeyAction, KeyNormalizer, index, from_evdev, timestamp_ns,
  key_action, turn_as, turn, normalize_key, normalize_one, normalize, suppress_held, set,
  is_released,
}
use atria.Input.Key.Replay.{visible, replay, normalize-replays}

-- Enter was down before the epoch; it comes up, and goes down again.
abbrev enter_held : KeyNormalizer
enter_held = record { down = λ i. i == 1; suppressed = λ i. i == 1 }

abbrev raw_enter : ℕ → RawInputEvent
raw_enter v = record {
  seconds = pos 1;
  microseconds = pos 2;
  event_type = 1;
  code = 28;
  value = pos v;
}

abbrev enter_pressed : KeyEvent
enter_pressed = record {
  timestamp_ns = 1000002000;
  code = KeyCode.key_enter;
  action = KeyAction.pressed;
  epoch = 4;
}

abbrev enter_released : KeyEvent
enter_released = record enter_pressed { action = KeyAction.released }

abbrev after_enter : KeyNormalizer × List KeyEvent
after_enter = ((turn (turn enter_held enter_released).0 enter_pressed).0, enter_pressed ∷ [])

enter_again : normalize enter_held 4 (raw_enter 0 ∷ raw_enter 1 ∷ []) ≡ ok after_enter
unfolding normalize normalize_one normalize_key from_evdev lookup key_action timestamp_ns turn
    turn_as index set is_released
enter_again = refl

normalize-replays_example :
    ((i : ℕ) → visible (after_enter.0) i ≡ replay (after_enter.1) (visible enter_held) i)
    × ((i : ℕ) → visible (suppress_held (after_enter.0)) i ≡ false)
normalize-replays_example =
    normalize-replays enter_held 4 (raw_enter 0 ∷ raw_enter 1 ∷ []) after_enter enter_again
