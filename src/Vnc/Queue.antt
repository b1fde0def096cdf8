-- ===== src/Vnc/Queue.antt =====
-- atria-vnc/src/input.rs: the queue of a viewer's input. A run of pointer positions collapses to its
-- last; a button or a key is a transition, which is kept or reported as lost.
pub mod Transitions
use atria.Base.{
  ℕ, ◌+◌, ◌*◌, ◌^◌, Bool, true, false, not, Option, none, some, List, [], ◌∷◌, ◌++◌, ◌==◌, leb,
  if◌then◌else◌, length, bit_and, bit_xor, ◌&&◌,
}

pub data Input : Type 0 where
  -- Where the pointer is.
  pointer : ℕ → ℕ → Input
  -- A button, counted from 1, and whether it is pressed.
  button : ℕ → Bool → Input
  key : ℕ → Bool → Input

abbrev pub max_pending : ℕ
max_pending = 256

pub record InputQueue : Type 0 where
  pub events : List Input
  pub buttons : ℕ
  pub overflowed : Bool
  pub stale : Bool

abbrev pub new_queue : InputQueue
new_queue = record { events = []; buttons = 0; overflowed = false; stale = false }

unfoldable pub is_pointer : Input → Bool
is_pointer (Input.pointer x y) = true
is_pointer _ = false

-- Is the newest a pointer's position?
unfoldable pub ends_in_pointer : List Input → Bool
unfolding is_pointer
ends_in_pointer [] = false
ends_in_pointer (x ∷ []) = is_pointer x
ends_in_pointer (x ∷ y ∷ rest) = ends_in_pointer (y ∷ rest)

-- The newest is taken away.
unfoldable pub pop : List Input → List Input
pop [] = []
pop (x ∷ []) = []
pop (x ∷ y ∷ rest) = x ∷ pop (y ∷ rest)

unfoldable pub push : InputQueue → Input → InputQueue
unfolding is_pointer ends_in_pointer pop
push q input =
    if is_pointer input && ends_in_pointer q.events
    then record q { events = pop q.events ++ input ∷ [] }
    else (if leb max_pending (length q.events)
        then record q { overflowed = true }
        else record q { events = q.events ++ input ∷ [] })

-- Is the bit set in a byte?
abbrev pub has_bit : ℕ → ℕ → Bool
has_bit mask i = not (bit_and mask (2 ^ i) == 0)

-- The transitions of the buttons whose bits changed.
unfoldable pub push_buttons : ℕ → ℕ → List ℕ → InputQueue → InputQueue
unfolding push
push_buttons changed mask [] q = q
push_buttons changed mask (i ∷ rest) q =
    push_buttons changed mask rest
      (if has_bit changed i then push q (Input.button (i + 1) (has_bit mask i)) else q)

abbrev pub eight_bits : List ℕ
eight_bits = 0 ∷ 1 ∷ 2 ∷ 3 ∷ 4 ∷ 5 ∷ 6 ∷ 7 ∷ []

-- A `PointerEvent` body: a mask of buttons, then x and y from the high byte.
unfoldable pub pointer_event : InputQueue → List ℕ → InputQueue
unfolding push push_buttons
pointer_event q (mask ∷ a ∷ b ∷ c ∷ d ∷ rest) =
    let moved = push q (Input.pointer (256 * a + b) (256 * c + d)) in
    push_buttons (bit_xor q.buttons mask) mask eight_bits (record moved { buttons = mask })
pointer_event q _ = q

unfoldable pub key_event : InputQueue → ℕ → Bool → InputQueue
unfolding push
key_event q usage pressed = push q (Input.key usage pressed)

-- `take`, `is_stale` and `overflowed` give what was there and leave nothing.
unfoldable pub take : InputQueue → InputQueue × List Input
take q = (record q { events = [] }, q.events)

unfoldable pub forget_held : InputQueue → InputQueue
forget_held q = record q { stale = true; buttons = 0 }

unfoldable pub is_stale : InputQueue → InputQueue × Bool
is_stale q = (record q { stale = false }, q.stale)

unfoldable pub overflowed : InputQueue → InputQueue × Bool
overflowed q = (record q { overflowed = false }, q.overflowed)
