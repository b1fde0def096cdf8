-- ===== src/Vnc/Tests.antt =====
-- The theorems on the queue at concrete input.
use atria.Base.{refl, [], ◌∷◌, true, false, inl, arith}
use atria.Vnc.Queue.{Input, InputQueue, pointer_event, key_event, is_pointer}
use atria.Vnc.Queue.Transitions.{IsKept, reported, transitions, queue-IsKept}

-- A key is down and the pointer has moved; the viewer has the first button down.
abbrev busy : InputQueue
busy = record {
  events = Input.key 4 true ∷ Input.pointer 10 20 ∷ [];
  buttons = 1;
  overflowed = false;
  stale = false;
}

busy-IsKept : IsKept (Input.key 4 true ∷ []) busy
unfolding IsKept transitions is_pointer
busy-IsKept = (omega arith, inl refl)

queue-IsKept_example :
    IsKept
      (Input.key 4 true ∷ reported busy (6 ∷ 0 ∷ 30 ∷ 0 ∷ 40 ∷ []))
      (pointer_event busy (6 ∷ 0 ∷ 30 ∷ 0 ∷ 40 ∷ []))
    × IsKept (Input.key 4 true ∷ Input.key 4 false ∷ []) (key_event busy 4 false)
queue-IsKept_example =
    queue-IsKept busy (Input.key 4 true ∷ []) (6 ∷ 0 ∷ 30 ∷ 0 ∷ 40 ∷ []) 4 false busy-IsKept
