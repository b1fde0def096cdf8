-- ===== src/Compositor/State/Keyboard/Exclusive.antt =====
-- One holder for a chord.
use atria.Base.{
  ℕ, ◌≡◌, refl, ap, sym, ◌∙◌, Bool, true, false, not, Option, none, some, leb, if◌then◌else◌,
  is_some, length, Result, ok, err, ◌>>=◌, ◌>>◌, guard, is_ok, arith,
}
use atria.Base.Map.{Map, lookup, contains_key, ℕ_key, pair_key}
use atria.Compositor.Error.{StateError}
use atria.Compositor.Model.{ConnectionId, ObjectId, SeatId, Chord, chord_key, ObjectKind}
use atria.Compositor.State.{CompositorState, ShortcutClaim, max_shortcuts}
use atria.Compositor.State.Access.{expect_kind}
use atria.Base.{bind-ok, guard-ok}
use atria.Base.Map.{lookup-insert, eqb_refl}
use atria.Compositor.State.Keyboard.{register_shortcut}

shortcuts_of :
    Result StateError CompositorState → CompositorState → Map (SeatId × Chord) ShortcutClaim
shortcuts_of (ok t) s = t.shortcuts
shortcuts_of (err e) s = s.shortcuts

absent : (o : Option ShortcutClaim) → not (is_some o) ≡ true → o ≡ none
absent none h = refl
absent (some x) h = ground (arith, h)

bind-fails :
    {A B : Type 0} (r : Result StateError A) (f : A → Result StateError B)
    → ((a : A) → is_ok (f a) ≡ false)
    → is_ok (r >>= f) ≡ false
bind-fails (ok a) f h = h a
bind-fails (err e) f h = refl

guard-fails :
    {B : Type 0} (b : Bool) (e : StateError) (rest : Result StateError B)
    → b ≡ false
    → is_ok (guard b e >> rest) ≡ false
guard-fails true e rest h = ground (arith, h)
guard-fails false e rest h = refl

refused_claim :
    (t : CompositorState) (d : ConnectionId) (other : ObjectId) (m : ℕ) (seat_id : SeatId)
    (chord : Chord) (claim : ShortcutClaim)
    → lookup (seat_id, chord) t.shortcuts ≡ some claim
    → is_ok (register_shortcut t d other m seat_id chord) ≡ false
unfolding register_shortcut
refused_claim t d other m seat_id chord claim stands =
    bind-fails (expect_kind t d other ObjectKind.shortcuts) _ λ x.
      bind-fails
        (guard (not (leb max_shortcuts (length t.shortcuts))) (StateError.quota_exceeded other)) _
        λ x.
          guard-fails (not (contains_key (seat_id, chord) t.shortcuts))
            (StateError.invalid_state other) _ (ap (λ o. not (is_some o)) stands)

-- Once a chord is claimed on a seat, a claim of it by anyone, through any manager and under any
-- number, is refused, and the claim that stands is the one that was made.
pub register_shortcut-exclusive :
    (s t : CompositorState) (c d : ConnectionId) (manager other : ObjectId) (n m : ℕ)
    (seat_id : SeatId) (chord : Chord)
    → register_shortcut s c manager n seat_id chord ≡ ok t
    → (lookup (seat_id, chord) t.shortcuts
        ≡ some (record { holder = c; manager = manager; shortcut = n }))
      × (lookup (seat_id, chord) s.shortcuts ≡ none)
      × (is_ok (register_shortcut t d other m seat_id chord) ≡ false)
unfolding register_shortcut shortcuts_of
register_shortcut-exclusive s t c d manager other n m seat_id chord h =
    let (x, e1, h) = bind-ok (expect_kind s c manager ObjectKind.shortcuts) _ t h in
    let (x, e2, h) =
      bind-ok
        (guard (not (leb max_shortcuts (length s.shortcuts))) (StateError.quota_exceeded manager)) _
        t h in
    let (x, e3, h) =
      bind-ok
        (guard (not (contains_key (seat_id, chord) s.shortcuts)) (StateError.invalid_state manager))
        _ t h in
    let claim : ShortcutClaim = record { holder = c; manager = manager; shortcut = n } in
    let stands : lookup (seat_id, chord) t.shortcuts ≡ some claim =
      ap (λ r. lookup (seat_id, chord) (shortcuts_of r s)) (sym h)
      ∙ lookup-insert (seat_id, chord) (seat_id, chord) claim s.shortcuts
      ∙ ap (λ b. if b then some claim else lookup (seat_id, chord) s.shortcuts)
          (eqb_refl {K = SeatId × Chord} (seat_id, chord)) in
    (
      stands,
      absent (lookup (seat_id, chord) s.shortcuts) (guard-ok _ _ tt e3),
      refused_claim t d other m seat_id chord claim stands,
    )
