-- ===== src/Software/Tests.antt =====
-- The theorems on buffers at concrete bytes.
use atria.Base.{ℕ, List}
use atria.Base.{◌≤◌, ◌≡◌, ◌+◌, ◌*◌, refl, length, ok, arith}
use atria.Compositor.Model.{BufferDescriptor, BufferTransport}
use atria.Software.Buffer.{
  PixelLayout, SoftwareBuffer, new_buffer, validate_descriptor, required_bytes, zeros,
}
use atria.Base.{[], ◌∷◌}
use atria.Base.Int.{pos, negsuc, ◌+ℤ◌, ◌-ℤ◌}
use atria.Compositor.Model.{SurfaceKey}
use atria.Software.Buffer.{Frame}
use atria.Software.Copy.{
  blit_surface, copied, copy_range, go_on, i64_fitting, checked_origin, clamp, span, visible_part,
  blit_rows, blit_part, blit_at, blit_wide, scaled, plus, u64_of, count_of,
}
use atria.Compositor.Model.{Rect}
use atria.Software.Copy.{copy_rect}
use atria.Base.{get_elem?, some}
use atria.Software.Copy.Drawing.{IsDrawable}
use atria.Software.Copy.Over.{blit_surface-over}
use atria.Software.Copy.Pixels.{row_at, IsDrawn, copy_rect-IsDrawn}
use atria.Software.Buffer.Rows.{new_buffer-rows}

-- Two rows of three pixels of two bytes, eight bytes apart.
abbrev two_rows : BufferDescriptor
two_rows = record {
  transport = BufferTransport.software_shm;
  size = record { width = 3; height = 2 };
  stride = 8;
  byte_len = 14;
}

abbrev two_bytes : PixelLayout
two_bytes = record { bytes_per_pixel = 2 }

abbrev two_rows_buffer : SoftwareBuffer
two_rows_buffer = record { descriptor = two_rows; layout = two_bytes; bytes = zeros 14 }

two_rows_accepted : new_buffer two_rows two_bytes (zeros 14) ≡ ok two_rows_buffer
unfolding new_buffer validate_descriptor required_bytes zeros
two_rows_accepted = refl

new_buffer-rows_example : 1 * 8 + (2 + 1) * 2 ≤ length (zeros 14)
new_buffer-rows_example =
    new_buffer-rows two_rows two_bytes (zeros 14) two_rows_buffer 2 1 two_rows_accepted
      (omega arith) (omega arith)

-- Three by two pixels of a byte each, and a surface of two by two on its right edge, half outside it.
abbrev small_frame : Frame
small_frame = record {
  size = record { width = 3; height = 2 };
  stride = 3;
  layout = record { bytes_per_pixel = 1 };
  bytes = 0 ∷ 0 ∷ 0 ∷ 0 ∷ 0 ∷ 0 ∷ [];
}

abbrev edge_surface : SurfaceKey
edge_surface = (0, 0)

edge_drawn :
    blit_surface edge_surface
      (record { width = 2; height = 2 })
      (7 ∷ 8 ∷ 9 ∷ 10 ∷ [])
      (record { x = pos 1; y = negsuc 0 })
      (record { x = pos 1; y = pos 1 })
      small_frame
    ≡ (0 ∷ 0 ∷ 7 ∷ 0 ∷ 0 ∷ 9 ∷ [], ok tt)
unfolding blit_surface blit_at blit_wide blit_part blit_rows visible_part span clamp checked_origin
    i64_fitting go_on copy_range copied scaled plus u64_of count_of ◌+ℤ◌ ◌-ℤ◌
edge_drawn = refl

-- The last two pixels of the second of two rows, four bytes apart here and three there.
abbrev corner : Rect
corner = record { x = pos 1; y = pos 1; width = 2; height = 1 }

abbrev wide_bytes : List ℕ
wide_bytes = 1 ∷ 2 ∷ 3 ∷ 0 ∷ 4 ∷ 5 ∷ 6 ∷ 0 ∷ []

copy_rect-IsDrawn_example :
    let after =
      copy_rect wide_bytes 4 small_frame.bytes 3 (record { bytes_per_pixel = 1 }) corner in
    (after.1 ≡ ok tt)
    × IsDrawn wide_bytes (row_at 1 4 1 1) (row_at 1 3 1 1) 2 small_frame.bytes 0 1 after.0
copy_rect-IsDrawn_example =
    copy_rect-IsDrawn wide_bytes 4 small_frame.bytes 3 (record { bytes_per_pixel = 1 }) corner 1 1
      refl refl (omega arith) (omega arith) (omega arith) (omega arith) (omega arith)
      (λ j low high. omega arith) (λ j low high. omega arith)

edge-IsDrawable :
    IsDrawable
      (record { width = 2; height = 2 })
      (7 ∷ 8 ∷ 9 ∷ 10 ∷ [])
      (record { x = pos 1; y = negsuc 0 })
      (record { x = pos 1; y = pos 1 })
      small_frame
edge-IsDrawable = record {
  word = omega arith;
  tight = refl;
  whole = refl;
  image = refl;
  narrow = omega arith;
  short = omega arith;
  frame_narrow = omega arith;
  frame_short = omega arith;
  addressed = omega arith;
  image_addressed = omega arith;
  at_x = omega arith;
  at_y = omega arith;
  by_x = omega arith;
  by_y = omega arith;
}

-- The last pixel of the second row is the first of the surface's second row.
blit_surface-over_example :
    let after =
      blit_surface edge_surface
        (record { width = 2; height = 2 })
        (7 ∷ 8 ∷ 9 ∷ 10 ∷ [])
        (record { x = pos 1; y = negsuc 0 })
        (record { x = pos 1; y = pos 1 })
        small_frame in
    (after.1 ≡ ok tt) × (get_elem? after.0 5 ≡ some 9)
unfolding ◌+ℤ◌
blit_surface-over_example =
    blit_surface-over edge_surface (record { width = 2; height = 2 }) (7 ∷ 8 ∷ 9 ∷ 10 ∷ [])
      (record { x = pos 1; y = negsuc 0 }) (record { x = pos 1; y = pos 1 }) small_frame 2 1 0
      edge-IsDrawable (omega arith) (omega arith) (omega arith)
