-- ===== src/Software/Copy/Clipping.antt =====
-- What of a surface `blit_surface` takes to lie on the frame.
use atria.Base.{
  ℕ, ◌+◌, ◌-◌, ◌*◌, ◌^◌, ◌≤◌, ◌<◌, ◌≡◌, refl, ◌⊎◌, none, some, ◌||◌, min, ok, arith, true,
}
use atria.Base.Int.{ℤ, pos, negsuc, pos_part, neg_part, ◌+ℤ◌, ◌-ℤ◌, leb_ℤ}
use atria.Compositor.Model.{SurfaceKey, Size}
use atria.Software.Copy.{i64_fitting, clamp, span, scaled, u64_of, count_of, Visible, visible_part}

-- The first column or row of an extent at an origin that is at 0 or past it, and the first past a limit.
abbrev pub first_in : ℤ → ℕ → ℕ
first_in origin extent = min (neg_part origin) extent

abbrev pub last_in : ℤ → ℕ → ℕ → ℕ
last_in origin extent limit = min (limit + neg_part origin - pos_part origin) extent

abbrev pub IsSmall : ℤ → Type 0
IsSmall z = pos_part z + neg_part z < 2 ^ 33

pub span-total :
    (origin : ℤ) (extent limit : ℕ)
    → IsSmall origin
    → limit < 2 ^ 32
    → span origin extent limit
      ≡ some (pos (first_in origin extent), pos (last_in origin extent limit))
unfolding span i64_fitting clamp ◌-ℤ◌
span-total (pos n) extent limit near small = ground arith
span-total (negsuc n) extent limit near small = ground arith

product-word : (m n : ℕ) → m < 2 ^ 34 → n < 2 ^ 8 → m * n < 2 ^ 64
product-word m n a b = grind (arith, a, b)

scaled-total : (m n : ℕ) → m < 2 ^ 34 → n < 2 ^ 8 → scaled (some (pos m)) n ≡ some (m * n)
unfolding scaled u64_of
scaled-total m n a b = ground (arith, product-word m n a b)

difference : (a b : ℕ) → a ≤ b → pos b -ℤ pos a ≡ pos (b - a)
unfolding ◌-ℤ◌
difference a b h = ground arith

-- Past the part before 0, an origin is where the first column or row is on the frame.
pub origin-first :
    (origin : ℤ) (extent : ℕ)
    → neg_part origin < extent
    → origin +ℤ pos (first_in origin extent) ≡ pos (pos_part origin)
unfolding ◌+ℤ◌
origin-first (pos n) extent h = ground arith
origin-first (negsuc n) extent h = ground arith

fitting-small : (n : ℕ) → n < 2 ^ 63 → i64_fitting (pos n) ≡ some (pos n)
unfolding i64_fitting
fitting-small n h = ground arith

count_of-total : (a b : ℕ) → a ≤ b → count_of (pos a) (pos b) ≡ b - a
unfolding count_of u64_of
count_of-total a b h = ground (arith, difference a b h)

module _ (surface : SurfaceKey) (size frame : Size) (origin_x origin_y : ℤ) (bpp : ℕ) where
  abbrev pub left : ℕ
  left = first_in origin_x size.width

  abbrev pub right : ℕ
  right = last_in origin_x size.width frame.width

  abbrev pub top : ℕ
  top = first_in origin_y size.height

  abbrev pub bottom : ℕ
  bottom = last_in origin_y size.height frame.height

  -- What is visible, where something is.
  abbrev pub shown : Visible
  shown = record {
    row_bytes = (right - left) * bpp;
    source_x = left * bpp;
    destination_x = pos_part origin_x * bpp;
    first_row = pos top;
    rows = bottom - top;
  }

  pub visible_part-shown :
      IsSmall origin_x
      → IsSmall origin_y
      → size.width < 2 ^ 32
      → frame.width < 2 ^ 32
      → frame.height < 2 ^ 32
      → bpp < 2 ^ 8
      → left < right
      → top < bottom
      → visible_part surface size origin_x origin_y frame bpp ≡ ok (some shown)
  unfolding visible_part
  visible_part-shown near_x near_y narrow frame_narrow frame_short word wide high = ground (
    arith,
    span-total origin_x size.width frame.width near_x frame_narrow,
    span-total origin_y size.height frame.height near_y frame_short,
    difference left right,
    origin-first origin_x size.width,
    fitting-small (pos_part origin_x),
    count_of-total top bottom,
    scaled-total (right - left) bpp,
    scaled-total left bpp,
    scaled-total (pos_part origin_x) bpp,
  )

  pub visible_part-hidden :
      IsSmall origin_x
      → IsSmall origin_y
      → frame.width < 2 ^ 32
      → frame.height < 2 ^ 32
      → (right ≤ left) ⊎ (bottom ≤ top)
      → visible_part surface size origin_x origin_y frame bpp ≡ ok none
  unfolding visible_part
  visible_part-hidden near_x near_y frame_narrow frame_short hidden =
      let empty : (leb_ℤ (pos right) (pos left) || leb_ℤ (pos bottom) (pos top)) ≡ true =
        nothing right left bottom top hidden in
      rw (span-total origin_x size.width frame.width near_x frame_narrow)
        (rw (span-total origin_y size.height frame.height near_y frame_short) (rw empty refl))
    where
      nothing :
          (a b c d : ℕ)
          → (a ≤ b) ⊎ (c ≤ d)
          → (leb_ℤ (pos a) (pos b) || leb_ℤ (pos c) (pos d)) ≡ true
      nothing a b c d h = ground arith
