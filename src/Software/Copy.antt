-- ===== src/Software/Copy.antt =====
-- The geometry and the copying of pixels of atria-software-output/src/output.rs. Where a copy fails part
-- way, the bytes it has written stay: they are beside the result.
pub mod Pixels
pub mod Clipping
pub mod Blit
pub mod Drawing
pub mod Over
use atria.Base.{
  ℕ, zero, suc, ◌+◌, ◌^◌, Bool, false, ◌&&◌, ◌||◌, Option, none, some, List, [], ◌∷◌, ◌++◌, leb,
  ltb, if◌then◌else◌, length, take, drop, Result, ok, err, ◌>>=◌, ◌>>◌, guard, ok_or, checked_add,
  checked_mul,
}
use atria.Base.Int.{ℤ, pos, negsuc, ◌+ℤ◌, ◌-ℤ◌, ltb_ℤ, leb_ℤ}
use atria.Compositor.Model.{SurfaceKey, CommitId, Size, Point, Rect, Damage, BufferDescriptor}
use atria.Software.Buffer.{ValidationError, PixelLayout, Frame, BufferKey, validate_descriptor}

pub data ComposeError : Type 0 where
  invalid_output : ValidationError → ComposeError
  missing_surface_state missing_surface_position : SurfaceKey → ComposeError
  missing_buffer missing_buffer_descriptor buffer_descriptor_mismatch : BufferKey → ComposeError
  -- A buffer, the layout expected and its own.
  pixel_layout_mismatch : BufferKey → PixelLayout → PixelLayout → ComposeError
  buffer_not_held : BufferKey → SurfaceKey → CommitId → ComposeError
  commit_not_ready : SurfaceKey → ComposeError
  invalid_buffer : BufferKey → ValidationError → ComposeError
  damage_rectangle_outside_surface : SurfaceKey → Rect → ComposeError
  geometry_overflow state_changed : SurfaceKey → ComposeError

abbrev overflowed : ComposeError
overflowed = ComposeError.invalid_output ValidationError.arithmetic_overflow

-- The same tests as those of a new buffer, in the same order.
unfoldable pub validate_for_layout :
    BufferDescriptor → PixelLayout → ℕ → Result ValidationError (Unit {0})
unfolding validate_descriptor
validate_for_layout d layout backing = validate_descriptor d layout backing

-- From 0, and within an extent.
side_inside : ℤ → ℕ → ℕ → Bool
side_inside (negsuc n) extent limit = false
side_inside (pos n) extent limit = leb (n + extent) limit

unfoldable pub damage_inside : Size → Rect → Bool
unfolding side_inside
damage_inside size r = side_inside r.x r.width size.width && side_inside r.y r.height size.height

unfoldable pub validate_damage : SurfaceKey → Size → List Damage → Result ComposeError (Unit {0})
unfolding damage_inside
validate_damage surface size [] = ok tt
validate_damage surface size (Damage.rect r ∷ rest) = do
  guard (damage_inside size r) (ComposeError.damage_rectangle_outside_surface surface r)
  validate_damage surface size rest
validate_damage surface size (Damage.full ∷ rest) = validate_damage surface size rest

unfoldable pub tight_stride : Size → PixelLayout → Result ComposeError ℕ
tight_stride size layout = do
  stride ← ok_or (checked_mul size.width layout.bytes_per_pixel) overflowed
  guard (ltb stride (2 ^ 32)) overflowed
  ok stride

unfoldable pub tight_byte_len : Size → PixelLayout → Result ValidationError ℕ
tight_byte_len size layout = do
  stride ← ok_or (checked_mul size.width layout.bytes_per_pixel) ValidationError.arithmetic_overflow
  byte_len ← ok_or (checked_mul stride size.height) ValidationError.arithmetic_overflow
  guard (ltb byte_len (2 ^ 63)) ValidationError.arithmetic_overflow
  ok byte_len

-- `destination[start..start + length].copy_from_slice(&source[from..from + length])`.
unfoldable pub copied : List ℕ → ℕ → List ℕ → ℕ → ℕ → List ℕ
copied source from destination start n =
    take start destination ++ take n (drop from source) ++ drop (start + n) destination

unfoldable pub copy_range : List ℕ → ℕ → List ℕ → ℕ → ℕ → Result ComposeError (List ℕ)
unfolding copied
copy_range source from destination start n = do
  end ← ok_or (checked_add from n) overflowed
  last ← ok_or (checked_add start n) overflowed
  guard (leb end (length source)) (
      ComposeError.invalid_output
        (ValidationError.buffer_too_small_for_declared_geometry (length source) end))
  guard (leb last (length destination)) overflowed
  ok (copied source from destination start n)

abbrev pub Copied : Type 0
Copied = List ℕ × Result ComposeError (Unit {0})

-- The place of a row's first byte: `(y + row) * stride + x * pixel_bytes`.
unfoldable pub row_start : ℕ → ℕ → ℕ → ℕ → ℕ → Option ℕ
row_start x y row stride pixel_bytes = elim (checked_add y row) [
  | none ↦ none
  | some line ↦ elim (checked_mul line stride) [
    | none ↦ none
    | some offset ↦ elim (checked_mul x pixel_bytes) [
      | none ↦ none
      | some column ↦ checked_add offset column
    ]
  ]
]

unfoldable copy_row : List ℕ → List ℕ → Option ℕ → Option ℕ → ℕ → Result ComposeError (List ℕ)
unfolding copy_range
copy_row source destination from start n = do
  a ← ok_or from overflowed
  b ← ok_or start overflowed
  copy_range source a destination b n

-- A row that is copied, and then the others.
unfoldable pub go_on : List ℕ → Result ComposeError (List ℕ) → (List ℕ → Copied) → Copied
go_on destination (err e) rest = (destination, err e)
go_on destination (ok next) rest = rest next

unfoldable copy_rows : List ℕ → ℕ → List ℕ → ℕ → ℕ → ℕ → ℕ → ℕ → ℕ → ℕ → Copied
unfolding copy_row row_start go_on
copy_rows source from_stride destination stride pixel_bytes row_bytes x y row zero =
    (destination, ok tt)
copy_rows source from_stride destination stride pixel_bytes row_bytes x y row (suc count) =
    go_on destination
      (copy_row source destination (row_start x y row from_stride pixel_bytes)
        (row_start x y row stride pixel_bytes) row_bytes)
      (λ next. copy_rows source from_stride next stride pixel_bytes row_bytes x y (row + 1) count)

-- From the bytes of a row on.
unfoldable copy_wide : List ℕ → ℕ → List ℕ → ℕ → PixelLayout → Rect → ℕ → ℕ → Option ℕ → Copied
unfolding copy_rows
copy_wide source from_stride destination stride layout r x y none = (destination, err overflowed)
copy_wide source from_stride destination stride layout r x y (some row_bytes) =
    copy_rows source from_stride destination stride layout.bytes_per_pixel row_bytes x y 0 r.height

unfoldable copy_at : List ℕ → ℕ → List ℕ → ℕ → PixelLayout → Rect → ℤ → ℤ → Copied
unfolding copy_wide
copy_at source from_stride destination stride layout r (pos x) (pos y) =
    copy_wide source from_stride destination stride layout r x y
      (checked_mul r.width layout.bytes_per_pixel)
copy_at source from_stride destination stride layout r x y = (destination, err overflowed)

unfoldable pub copy_rect : List ℕ → ℕ → List ℕ → ℕ → PixelLayout → Rect → Copied
unfolding copy_at
copy_rect source from_stride destination stride layout r =
    copy_at source from_stride destination stride layout r r.x r.y

-- Signed 64-bit results, where they fit.
unfoldable pub i64_fitting : ℤ → Option ℤ
i64_fitting (pos n) = if ltb n (2 ^ 63) then some (pos n) else none
i64_fitting (negsuc n) = if ltb n (2 ^ 63) then some (negsuc n) else none

unfoldable pub checked_origin : SurfaceKey → Point → Point → Result ComposeError (ℤ × ℤ)
unfolding i64_fitting
checked_origin surface position offset = do
  x ← ok_or (i64_fitting (position.x +ℤ offset.x)) (ComposeError.geometry_overflow surface)
  y ← ok_or (i64_fitting (position.y +ℤ offset.y)) (ComposeError.geometry_overflow surface)
  ok (x, y)

unfoldable pub clamp : ℤ → ℤ → ℤ → ℤ
clamp low high z = if ltb_ℤ z low then low else (if ltb_ℤ high z then high else z)

-- The visible part of an extent placed at an origin, in its own coordinates.
unfoldable pub span : ℤ → ℕ → ℕ → Option (ℤ × ℤ)
unfolding i64_fitting clamp
span origin extent limit = elim (i64_fitting (pos 0 -ℤ origin)) [
  | none ↦ none
  | some first ↦ elim (i64_fitting (pos limit -ℤ origin)) [
    | none ↦ none
    | some last ↦ some (clamp (pos 0) (pos extent) first, clamp (pos 0) (pos extent) last)
  ]
]

unfoldable pub u64_of : ℤ → Option ℕ
u64_of (pos n) = some n
u64_of (negsuc n) = none

-- `u64::try_from(z).checked_mul(n)`, and the sum of it with what is there.
unfoldable pub scaled : Option ℤ → ℕ → Option ℕ
unfolding u64_of
scaled none n = none
scaled (some z) n = elim (u64_of z) [ none ↦ none | some m ↦ checked_mul m n ]

unfoldable pub plus : Option ℕ → ℕ → Option ℕ
plus none n = none
plus (some m) n = checked_add m n

-- The rows from `row` on, `count` of them.
unfoldable pub blit_rows : SurfaceKey → List ℕ → List ℕ → ℤ → ℕ → ℕ → ℕ → ℕ → ℕ → ℤ → ℕ → Copied
unfolding go_on copy_range scaled plus i64_fitting
blit_rows surface source destination origin_y from_stride stride row_bytes from_x x row zero =
    (destination, ok tt)
blit_rows surface source destination origin_y from_stride stride row_bytes from_x x row
      (suc count) =
    go_on destination
      (do
        a ←
            ok_or (plus (scaled (some row) from_stride) from_x)
              (ComposeError.geometry_overflow surface)
        b ←
            ok_or (plus (scaled (i64_fitting (origin_y +ℤ row)) stride) x)
              (ComposeError.geometry_overflow surface)
        copy_range source a destination b row_bytes)
      (λ next.
        blit_rows surface source next origin_y from_stride stride row_bytes from_x x (row +ℤ pos 1)
          count)

-- What is visible of a surface: the bytes of a row, the first of them in the surface and in the frame,
-- the first row and the number of them.
pub record Visible : Type 0 where
  pub row_bytes : ℕ
  pub source_x : ℕ
  pub destination_x : ℕ
  pub first_row : ℤ
  pub rows : ℕ

unfoldable pub count_of : ℤ → ℤ → ℕ
unfolding u64_of
count_of first last = elim (u64_of (last -ℤ first)) [ none ↦ 0 | some n ↦ n ]

unfoldable pub visible_part :
    SurfaceKey → Size → ℤ → ℤ → Size → ℕ → Result ComposeError (Option Visible)
unfolding span scaled i64_fitting count_of
visible_part surface size origin_x origin_y frame_size pixel_bytes = do
  xs ← ok_or (span origin_x size.width frame_size.width) (ComposeError.geometry_overflow surface)
  ys ← ok_or (span origin_y size.height frame_size.height) (ComposeError.geometry_overflow surface)
  (if leb_ℤ (xs.1) (xs.0) || leb_ℤ (ys.1) (ys.0) then ok none else (do
    row_bytes ←
        ok_or (scaled (some (xs.1 -ℤ xs.0)) pixel_bytes) (ComposeError.geometry_overflow surface)
    source_x ← ok_or (scaled (some (xs.0)) pixel_bytes) (ComposeError.geometry_overflow surface)
    destination_x ←
        ok_or (scaled (i64_fitting (origin_x +ℤ xs.0)) pixel_bytes)
          (ComposeError.geometry_overflow surface)
    ok (
        some (record {
          row_bytes = row_bytes;
          source_x = source_x;
          destination_x = destination_x;
          first_row = ys.0;
          rows = count_of (ys.0) (ys.1);
        }))))

unfoldable pub blit_part :
    SurfaceKey → List ℕ → ℤ → ℕ → Frame → Result ComposeError (Option Visible) → Copied
unfolding blit_rows
blit_part surface source origin_y from_stride frame (err e) = (frame.bytes, err e)
blit_part surface source origin_y from_stride frame (ok none) = (frame.bytes, ok tt)
blit_part surface source origin_y from_stride frame (ok (some v)) =
    blit_rows surface source frame.bytes origin_y from_stride frame.stride v.row_bytes v.source_x
      v.destination_x v.first_row v.rows

-- From the origin and, then, the bytes of a row of the surface.
unfoldable pub blit_wide : SurfaceKey → Size → List ℕ → Frame → ℤ × ℤ → Option ℕ → Copied
unfolding blit_part visible_part
blit_wide surface size source frame origin none =
    (frame.bytes, err (ComposeError.geometry_overflow surface))
blit_wide surface size source frame origin (some from_stride) =
    blit_part surface source (origin.1) from_stride frame
      (visible_part surface size (origin.0) (origin.1) frame.size frame.layout.bytes_per_pixel)

unfoldable pub blit_at : SurfaceKey → Size → List ℕ → Frame → Result ComposeError (ℤ × ℤ) → Copied
unfolding blit_wide
blit_at surface size source frame (err e) = (frame.bytes, err e)
blit_at surface size source frame (ok origin) =
    blit_wide surface size source frame origin (checked_mul size.width frame.layout.bytes_per_pixel)

-- The bytes of the frame with the visible part of the surface over them.
unfoldable pub blit_surface : SurfaceKey → Size → List ℕ → Point → Point → Frame → Copied
unfolding checked_origin blit_at
blit_surface surface size source position offset frame =
    blit_at surface size source frame (checked_origin surface position offset)
