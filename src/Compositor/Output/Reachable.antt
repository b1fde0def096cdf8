-- ===== src/Compositor/Output/Reachable.antt =====
-- `nearest_reachable` of atria-compositor/src/output.rs: a window is never left where nobody can
-- reach it.
use atria.Base.{
  ℕ, ◌<◌, ◌≡◌, ◌↔◌, subst, Bool, true, ◌&&◌, none, some, List, [], ◌∷◌, ◌++◌, All, if◌then◌else◌,
  any, arith, append_assoc, refl, false, ◌⊎◌, inl, inr, Bool-cases, ◌-◌,
}
use atria.Base.Int.{
  ℤ, pos, ◌+ℤ◌, ◌≤ℤ◌, ◌<ℤ◌, ltb_ℤ, i32_saturate, i32_max, i32_min, i32_saturating_add_unsigned,
  +ℤ_parts, IsI32,
}
use atria.Compositor.Model.{Point, Rect}
use atria.Compositor.Output.{
  Output, OutputSet, output_area, overlaps, clamp_into, is_reachable, nearest_reachable, nearest,
  nearest_of, clamped, screens, distance,
}

-- A rectangle with an area, whose edges are coordinates.
pub record IsOnGrid (r : Rect) : Type 0 where
  pub wide : 0 < r.width
  pub high : 0 < r.height
  pub left : i32_min ≤ℤ r.x
  pub top : i32_min ≤ℤ r.y
  pub right : r.x +ℤ pos r.width ≤ℤ i32_max
  pub bottom : r.y +ℤ pos r.height ≤ℤ i32_max

-- The rectangle moved to a point.
abbrev pub moved : Rect → Point → Rect
moved r p = record r { x = p.x; y = p.y }

-- One axis: a screen from `s` of length `n`, a window at `a` of length `m`.
clamp_axis : ℤ → ℕ → ℤ → ℕ → ℤ
clamp_axis s n a m =
    let most = i32_saturating_add_unsigned s (n - m) in
    if ltb_ℤ a s then s else (if ltb_ℤ most a then most else a)

i32_saturate-id : (z : ℤ) → IsI32 z → i32_saturate z ≡ z
i32_saturate-id z h = ground arith

-- A saturated sum is the sum or the greatest coordinate.
saturating_add-gt :
    (c s : ℤ) (m : ℕ) → s <ℤ i32_max → s <ℤ c +ℤ pos m → s <ℤ i32_saturating_add_unsigned c m
saturating_add-gt c s m h k = ground arith

clamp_axis-within :
    (s a : ℤ) (n m : ℕ)
    → 0 < n
    → 0 < m
    → i32_min ≤ℤ s
    → s +ℤ pos n ≤ℤ i32_max
    → (s ≤ℤ clamp_axis s n a m) × (clamp_axis s n a m <ℤ s +ℤ pos n)
unfolding clamp_axis
clamp_axis-within s a n m hn hm lo hi =
    let top = i32_saturate-id (s +ℤ pos (n - m)) in
    ground (arith, +ℤ_parts s (pos (n - m)), +ℤ_parts s (pos n), top)

clamp_axis-meets :
    (s a : ℤ) (n m : ℕ)
    → 0 < n
    → 0 < m
    → i32_min ≤ℤ s
    → s +ℤ pos n ≤ℤ i32_max
    → (ltb_ℤ s (i32_saturating_add_unsigned (clamp_axis s n a m) m) ≡ true)
      × (ltb_ℤ (clamp_axis s n a m) (i32_saturating_add_unsigned s n) ≡ true)
clamp_axis-meets s a n m hn hm lo hi =
    let c = clamp_axis s n a m in
    let (low, high) = clamp_axis-within s a n m hn hm lo hi in
    (
      ltb_ℤ-true s (i32_saturating_add_unsigned c m) (
          saturating_add-gt c s m (omega (arith, +ℤ_parts s (pos n)))
            (omega (arith, +ℤ_parts c (pos m)))),
      ltb_ℤ-true c (i32_saturating_add_unsigned s n)
          (saturating_add-gt s c n (omega (arith, +ℤ_parts s (pos n))) high),
    )
  where
    ltb_ℤ-true : (a b : ℤ) → a <ℤ b → ltb_ℤ a b ≡ true
    ltb_ℤ-true a b h = ground arith

clamp_into-overlaps :
    (screen r : Rect)
    → IsOnGrid screen
    → 0 < r.width
    → 0 < r.height
    → overlaps screen (moved r (clamp_into screen r)) ≡ true
unfolding overlaps clamp_into clamp_axis
clamp_into-overlaps screen r g hw hh =
    let (a, b) = clamp_axis-meets screen.x r.x screen.width r.width g.wide hw g.left g.right in
    let (c, d) = clamp_axis-meets screen.y r.y screen.height r.height g.high hh g.top g.bottom in
    both a b c d
  where
    both : {p q s t : Bool} → p ≡ true → q ≡ true → s ≡ true → t ≡ true → (p && q && s && t) ≡ true
    both a b c d = ground arith

nearest-All :
    (P : Point → Type 0) (r : Rect) (best : Point) (ps : List Point)
    → P best
    → All P ps
    → P (nearest r best ps)
unfolding nearest
nearest-All P r best [] h hs = h
nearest-All P r best (p ∷ ps) h hs = elim (Bool-cases (ltb_ℤ (distance r p) (distance r best))) [
  | inl closer ↦ rw closer (nearest-All P r p ps hs.0 hs.1)
  | inr not_closer ↦ rw not_closer (nearest-All P r best ps h hs.1)
]

any-middle :
    (f : Rect → Bool) (before after : List Rect) (s : Rect)
    → f s ≡ true
    → any f (before ++ s ∷ after) ≡ true
any-middle f [] after s h = ground arith
any-middle f (x ∷ before) after s h = ground (arith, any-middle f before after s h)

-- A window moved to this point meets a screen of the list.
abbrev Meets : Rect → List Rect → Point → Type 0
Meets r all p = any (λ screen. overlaps screen (moved r p)) all ≡ true

clamped-Meets :
    (r : Rect) (before after : List Rect)
    → 0 < r.width
    → 0 < r.height
    → All IsOnGrid after
    → All (Meets r (before ++ after)) (clamped r after)
unfolding clamped
clamped-Meets r before [] hw hh g = tt
clamped-Meets r before (s ∷ after) hw hh g = (
  any-middle (λ screen. overlaps screen (moved r (clamp_into s r))) before after s
      (clamp_into-overlaps s r g.0 hw hh),
  subst (λ all. All (Meets r all) (clamped r after)) (append_assoc before (s ∷ []) after)
      (clamped-Meets r (before ++ s ∷ []) after hw hh g.1),
)

nearest_of-Meets :
    (r : Rect) (all : List Rect) (ps : List Point) (p : Point)
    → All (Meets r all) ps
    → nearest_of r ps ≡ some p
    → Meets r all p
unfolding nearest_of
nearest_of-Meets r all [] p h e = cc
nearest_of-Meets r all (q ∷ ps) p h e =
    let found : nearest r q ps ≡ p = ground arith in
    subst (Meets r all) found (nearest-All (Meets r all) r q ps h.0 h.1)

-- Where an attached and placed display has an area within the coordinates, a window that has an
-- area can be moved to where `nearest_reachable` says, and it is reachable there.
pub nearest_reachable-reachable :
    (r : Rect) (outputs : OutputSet) (p : Point)
    → 0 < r.width
    → 0 < r.height
    → All IsOnGrid (screens outputs)
    → nearest_reachable r outputs ≡ some p
    → is_reachable (moved r p) outputs ≡ true
unfolding nearest_reachable is_reachable
nearest_reachable-reachable r outputs p hw hh g e = elim (Bool-cases (is_reachable r outputs)) [
  | inl already ↦ ground arith
  | inr lost ↦
      nearest_of-Meets r (screens outputs) (clamped r (screens outputs)) p
        (clamped-Meets r [] (screens outputs) hw hh g) (ground arith)
]

-- Not attached, or not placed.
abbrev pub IsAway : Output → Type 0
IsAway o = (o.present ≡ false) ⊎ (o.position ≡ none)

screens-none_iff : (outputs : OutputSet) → (screens outputs ≡ []) ↔ All (λ e. IsAway e.1) outputs
unfolding screens output_area
screens-none_iff [] = ((λ h. tt), (λ h. refl))
screens-none_iff ((identity, output) ∷ rest) = ground (arith, screens-none_iff rest)

-- No point is given exactly when every display that is known is detached or has no place.
pub nearest_reachable-none_iff :
    (r : Rect) (outputs : OutputSet)
    → (nearest_reachable r outputs ≡ none) ↔ All (λ e. IsAway e.1) outputs
unfolding nearest_reachable is_reachable nearest_of clamped
nearest_reachable-none_iff r outputs =
    let empty : (nearest_reachable r outputs ≡ none) ↔ (screens outputs ≡ []) = ground arith in
    let away = screens-none_iff outputs in ((λ h. away.0 (empty.0 h)), (λ h. empty.1 (away.1 h)))
