-- ===== src/Software/Copy/Over.antt =====
-- What `blit_surface` makes of each pixel of a frame.
use atria.Base.{
  ℕ, ◌+◌, ◌-◌, ◌*◌, ◌<◌, ◌≡◌, refl, ap, ◌⊎◌, inl, inr, some, none, List, ok, arith, get_elem?,
  Option, Bool-cases, leb, ltb, ◌&&◌, if◌then◌else◌,
}
use atria.Base.Int.{ℤ, pos_part, neg_part, ◌+ℤ◌}
use atria.Compositor.Model.{SurfaceKey, Size, Point}
use atria.Software.Buffer.{Frame}
use atria.Software.Copy.{Copied, blit_surface}
use atria.Software.Copy.Clipping.{first_in, last_in}
use atria.Software.Copy.Drawing.{
  IsDrawable, IsOff, one-sign, hidden-part, part-IsDrawn, covered, uncovered,
}

-- Where an extent at an origin has a column, or a row, of the frame: in its own coordinates, if it does.
abbrev pub offset_in : ℤ → ℕ → ℕ → Option ℕ
offset_in o extent c =
    if leb (pos_part o) (c + neg_part o) && ltb (c + neg_part o) (pos_part o + extent)
    then some (c + neg_part o - pos_part o)
    else none

offset-cases :
    (o : ℤ) (extent c : ℕ)
    → ((a : ℕ) × (offset_in o extent c ≡ some a) × (a < extent) × (pos_part o + a ≡ c + neg_part o))
      ⊎ ((offset_in o extent c ≡ none) × IsOff o extent c)
offset-cases o extent c =
    elim (Bool-cases
      (leb (pos_part o) (c + neg_part o) && ltb (c + neg_part o) (pos_part o + extent))) [
        | inl h ↦ inl (c + neg_part o - pos_part o, rw h refl, ground (arith, h), ground (arith, h))
        | inr h ↦ inr (rw h refl, ground (arith, h))
      ]

-- One byte of a pixel as it is to be: the surface's over the frame's, at the surface's own column and
-- row, where the surface has them.
abbrev pub over : Size → List ℕ → Frame → ℕ → ℕ → ℕ → Option ℕ → Option ℕ → Option ℕ
over size source frame column row k (some a) (some b) =
    get_elem? source
      (b * (size.width * frame.layout.bytes_per_pixel) + (a * frame.layout.bytes_per_pixel + k))
over size source frame column row k x y =
    get_elem? frame.bytes (row * frame.stride + (column * frame.layout.bytes_per_pixel + k))

module _ (surface : SurfaceKey) (size : Size) (source : List ℕ) (position offset : Point)
    (frame : Frame) (p : IsDrawable size source position offset frame) where
  abbrev after : Copied
  after = blit_surface surface size source position offset frame

  abbrev x0 : ℤ
  x0 = position.x +ℤ offset.x

  abbrev y0 : ℤ
  y0 = position.y +ℤ offset.y

  abbrev wide : ℕ
  wide = last_in x0 size.width frame.size.width - first_in x0 size.width

  abbrev high : ℕ
  high = last_in y0 size.height frame.size.height - first_in y0 size.height

  -- Something is visible, or nothing.
  seen-cases : ((0 < wide) × (0 < high)) ⊎ ((wide ≡ 0) ⊎ (high ≡ 0))
  seen-cases = either wide high
    where
      either : (a b : ℕ) → ((0 < a) × (0 < b)) ⊎ ((a ≡ 0) ⊎ (b ≡ 0))
      either a b = omega arith

  blit-succeeds : after.1 ≡ ok tt
  blit-succeeds = elim seen-cases [
    | inl h ↦
        (part-IsDrawn surface size source position offset frame p (omega (arith, h.0))
          (omega (arith, h.1))).0
    | inr h ↦ (hidden-part surface size source position offset frame p (omega (arith, h))).0
  ]

  unchanged :
      (column row k : ℕ)
      → column < frame.size.width
      → row < frame.size.height
      → k < frame.layout.bytes_per_pixel
      → IsOff x0 size.width column ⊎ IsOff y0 size.height row
      → get_elem? after.0 (row * frame.stride + (column * frame.layout.bytes_per_pixel + k))
        ≡ get_elem? frame.bytes (row * frame.stride + (column * frame.layout.bytes_per_pixel + k))
  unchanged column row k in_frame below inside off = elim seen-cases [
    | inl h ↦
        uncovered surface size source position offset frame p column row k (omega (arith, h.0))
          (omega (arith, h.1)) in_frame below inside off
    | inr h ↦
        ap
          (λ bytes.
            get_elem? bytes (row * frame.stride + (column * frame.layout.bytes_per_pixel + k)))
          (hidden-part surface size source position offset frame p (omega (arith, h))).1
  ]

-- Where a frame has the bytes of its pixels and a surface's image those of its own, numbered in 64 bits,
-- a pixel has fewer than 256 bytes, sizes are below 2^32 and positions of 32 bits: `blit_surface`
-- succeeds, wherever the surface lies, on the frame, across its edges or off it, and each byte of each
-- pixel of the frame is then the surface's, at the column and row of the surface that lie there, or, where
-- the surface has none there, as it was.
pub blit_surface-over :
    (surface : SurfaceKey) (size : Size) (source : List ℕ) (position offset : Point) (frame : Frame)
    (column row k : ℕ)
    → IsDrawable size source position offset frame
    → column < frame.size.width
    → row < frame.size.height
    → k < frame.layout.bytes_per_pixel
    → let after = blit_surface surface size source position offset frame in
      (after.1 ≡ ok tt)
      × (get_elem? after.0 (row * frame.stride + (column * frame.layout.bytes_per_pixel + k))
          ≡ over size source frame column row k
              (offset_in (position.x +ℤ offset.x) size.width column)
              (offset_in (position.y +ℤ offset.y) size.height row))
blit_surface-over surface size source position offset frame column row k p in_frame below inside =
    let ox = position.x +ℤ offset.x in
    let oy = position.y +ℤ offset.y in
    let sign_x = one-sign ox in
    let sign_y = one-sign oy in
    let kept =
      unchanged surface size source position offset frame p column row k in_frame below inside in
    (
      blit-succeeds surface size source position offset frame p,
      elim (offset-cases ox size.width column) [
        | inr (none_x, off) ↦ rw none_x (kept (inl off))
        | inl (a, some_x, in_width, parts_x) ↦ elim (offset-cases oy size.height row) [
          | inr (none_y, off) ↦ rw some_x (rw none_y (kept (inr off)))
          | inl (b, some_y, in_height, parts_y) ↦ rw some_x (
              rw some_y (
                covered surface size source position offset frame p a b column row k
                  (omega (arith, sign_x, parts_x, in_width, in_frame))
                  (omega (arith, sign_y, parts_y, in_height, below)) in_width in_height in_frame
                  below inside parts_x parts_y))
        ]
      ],
    )
