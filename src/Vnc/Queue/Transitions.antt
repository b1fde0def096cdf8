-- ===== src/Vnc/Queue/Transitions.antt =====
-- That no transition of a viewer is lost without a word.
use atria.Base.{
  ℕ, ◌*◌, ◌+◌, ◌≤◌, ◌≡◌, refl, ap, sym, ◌∙◌, subst, Bool, true, false, not, ◌&&◌, List, [], ◌∷◌,
  ◌++◌, append-nil, append_assoc, leb, if◌then◌else◌, length, keep, arith, inl, inr, ◌⊎◌, if_intro,
  bit_xor,
}
use atria.Vnc.Queue.{
  Input, InputQueue, max_pending, is_pointer, ends_in_pointer, pop, push, has_bit, push_buttons,
  eight_bits, pointer_event, key_event,
}

-- The buttons and keys among the input, in order.
unfoldable pub transitions : List Input → List Input
unfolding is_pointer
transitions xs = keep (λ x. not (is_pointer x)) xs

transitions-append :
    (xs ys : List Input) → transitions (xs ++ ys) ≡ transitions xs ++ transitions ys
unfolding transitions
transitions-append [] ys = refl
transitions-append (x ∷ xs) ys = ground (arith, transitions-append xs ys)

transitions-pop :
    (xs : List Input) → ends_in_pointer xs ≡ true → transitions (pop xs) ≡ transitions xs
unfolding transitions pop ends_in_pointer
transitions-pop [] h = refl
transitions-pop (x ∷ []) h = ground (arith, h)
transitions-pop (x ∷ y ∷ rest) h = let later = transitions-pop (y ∷ rest) h in ground (arith, later)

-- The queue has kept all of these transitions and these new ones, and is no longer than it may be;
-- or else it says that it has lost one.
unfoldable pub IsKept : List Input → InputQueue → Type 0
IsKept xs q =
    (length q.events ≤ max_pending) × ((transitions q.events ≡ xs) ⊎ (q.overflowed ≡ true))

length-pop : (xs : List Input) → ends_in_pointer xs ≡ true → length (pop xs) + 1 ≡ length xs
unfolding pop ends_in_pointer
length-pop [] h = ground (arith, h)
length-pop (x ∷ []) h = refl
length-pop (x ∷ y ∷ rest) h = let later = length-pop (y ∷ rest) h in omega (arith, later)

length-snoc : (xs : List Input) (x : Input) → length (xs ++ x ∷ []) ≡ length xs + 1
length-snoc [] x = refl
length-snoc (y ∷ xs) x = omega (arith, length-snoc xs x)

-- The list that ends with the input has the same transitions as before, with those of the input.
snoc-kept :
    (ys zs xs : List Input) (input : Input) (lost : Bool)
    → transitions ys ≡ transitions zs
    → (transitions zs ≡ xs) ⊎ (lost ≡ true)
    → (transitions (ys ++ input ∷ []) ≡ xs ++ transitions (input ∷ [])) ⊎ (lost ≡ true)
snoc-kept ys zs xs input lost same (inl e) =
    inl (transitions-append ys (input ∷ []) ∙ ap (λ l. l ++ transitions (input ∷ [])) (same ∙ e))
snoc-kept ys zs xs input lost same (inr o) = inr o

push-IsKept :
    (q : InputQueue) (xs : List Input) (input : Input)
    → IsKept xs q
    → IsKept (xs ++ transitions (input ∷ [])) (push q input)
unfolding IsKept push
push-IsKept q xs input (short, kept) =
    if_intro (IsKept (xs ++ transitions (input ∷ [])))
      (is_pointer input && ends_in_pointer q.events)
      (λ h.
        let last : ends_in_pointer q.events ≡ true = ground (arith, h) in
        (
          omega (arith, short, length-snoc (pop q.events) input, length-pop q.events last),
          snoc-kept (pop q.events) q.events xs input q.overflowed (transitions-pop q.events last)
              kept,
        ))
      (λ h.
        if_intro (IsKept (xs ++ transitions (input ∷ []))) (leb max_pending (length q.events))
          (λ full. (short, inr refl))
          (λ room. (
            ground (arith, room, length-snoc q.events input),
            snoc-kept q.events q.events xs input q.overflowed refl kept,
          )))

-- The transitions of the buttons whose bits changed.
unfoldable pub button_transitions : ℕ → ℕ → List ℕ → List Input
button_transitions changed mask [] = []
button_transitions changed mask (i ∷ rest) =
    let later = button_transitions changed mask rest in
    if has_bit changed i then Input.button (i + 1) (has_bit mask i) ∷ later else later

-- One bit, over what the rest of them keeps.
bit-IsKept :
    (b : Bool) (n : ℕ) (pressed : Bool) (q : InputQueue) (xs later : List Input)
    (rest : InputQueue → InputQueue)
    → ((r : InputQueue) (ys : List Input) → IsKept ys r → IsKept (ys ++ later) (rest r))
    → IsKept xs q
    → IsKept
        (xs ++ (if b then Input.button n pressed ∷ later else later))
        (rest (if b then push q (Input.button n pressed) else q))
unfolding transitions is_pointer
bit-IsKept true n pressed q xs later rest keeps p =
    subst (λ l. IsKept l (rest (push q (Input.button n pressed))))
      (append_assoc xs (Input.button n pressed ∷ []) later)
      (keeps _ _ (push-IsKept q xs (Input.button n pressed) p))
bit-IsKept false n pressed q xs later rest keeps p = keeps q xs p

buttons-IsKept :
    (changed mask : ℕ) (bits : List ℕ) (q : InputQueue) (xs : List Input)
    → IsKept xs q
    → IsKept (xs ++ button_transitions changed mask bits) (push_buttons changed mask bits q)
unfolding push_buttons button_transitions
buttons-IsKept changed mask [] q xs p = subst (λ l. IsKept l q) (sym (append-nil xs)) p
buttons-IsKept changed mask (i ∷ rest) q xs p =
    bit-IsKept (has_bit changed i) (i + 1) (has_bit mask i) q xs
      (button_transitions changed mask rest) (push_buttons changed mask rest)
      (λ r ys kept. buttons-IsKept changed mask rest r ys kept) p

-- The buttons that a report of the pointer presses and releases: those whose bits differ from the
-- mask that the viewer reported last.
unfoldable pub reported : InputQueue → List ℕ → List Input
unfolding button_transitions
reported q (mask ∷ a ∷ b ∷ c ∷ d ∷ rest) =
    button_transitions (bit_xor q.buttons mask) mask eight_bits
reported q _ = []

pointer-IsKept :
    (q : InputQueue) (xs : List Input) (x y : ℕ)
    → IsKept xs q
    → IsKept xs (push q (Input.pointer x y))
unfolding transitions is_pointer
pointer-IsKept q xs x y p =
    subst (λ l. IsKept l (push q (Input.pointer x y))) (append-nil xs)
      (push-IsKept q xs (Input.pointer x y) p)

body-IsKept :
    (q : InputQueue) (xs : List Input) (body : List ℕ)
    → IsKept xs q
    → IsKept (xs ++ reported q body) (pointer_event q body)
unfolding reported pointer_event IsKept
body-IsKept q xs (mask ∷ a ∷ b ∷ c ∷ d ∷ rest) p =
    buttons-IsKept (bit_xor q.buttons mask) mask eight_bits
      (record (push q (Input.pointer (256 * a + b) (256 * c + d))) { buttons = mask }) xs
      (pointer-IsKept q xs (256 * a + b) (256 * c + d) p)
body-IsKept q xs [] p = subst (λ l. IsKept l q) (sym (append-nil xs)) p
body-IsKept q xs (a ∷ []) p = subst (λ l. IsKept l q) (sym (append-nil xs)) p
body-IsKept q xs (a ∷ b ∷ []) p = subst (λ l. IsKept l q) (sym (append-nil xs)) p
body-IsKept q xs (a ∷ b ∷ c ∷ []) p = subst (λ l. IsKept l q) (sym (append-nil xs)) p
body-IsKept q xs (a ∷ b ∷ c ∷ d ∷ []) p = subst (λ l. IsKept l q) (sym (append-nil xs)) p

-- A queue that has at most `max_pending` entries and has kept the buttons and keys so far, in their
-- order, or has reported a loss, stays one after any report of the pointer and after any key: it
-- keeps each button whose bit changed and the key behind them, or it reports the loss, however many
-- pointer positions collapse in between.
pub queue-IsKept :
    (q : InputQueue) (xs : List Input) (body : List ℕ) (usage : ℕ) (pressed : Bool)
    → IsKept xs q
    → IsKept (xs ++ reported q body) (pointer_event q body)
      × IsKept (xs ++ Input.key usage pressed ∷ []) (key_event q usage pressed)
unfolding key_event transitions is_pointer
queue-IsKept q xs body usage pressed p =
    (body-IsKept q xs body p, push-IsKept q xs (Input.key usage pressed) p)
