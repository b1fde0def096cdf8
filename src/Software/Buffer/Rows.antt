-- ===== src/Software/Buffer/Rows.antt =====
-- That every pixel of a buffer lies in its bytes.
use atria.Base.{
  ℕ, ◌+◌, ◌-◌, ◌*◌, ◌≤◌, ◌<◌, ◌≡◌, not, ◌||◌, some, List, ltb, ◌==◌, length, ok, guard, ok_or,
  checked_mul, arith, bind-ok, guard-ok, ok_or-ok,
}
use atria.Compositor.Model.{BufferDescriptor, Size}
use atria.Software.Buffer.{
  ValidationError, PixelLayout, is_shm, required_bytes, validate_descriptor, SoftwareBuffer,
  new_buffer,
}

required-covers :
    (size : Size) (stride row required : ℕ)
    → required_bytes size stride row ≡ some required
    → required ≡ (size.height - 1) * stride + row
unfolding required_bytes
required-covers size stride row required h = ground (arith, h)

row-start : (y height stride : ℕ) → y < height → y * stride ≤ (height - 1) * stride
row-start y height stride below = grind (arith, below)

pixel-end : (x width bpp : ℕ) → x < width → (x + 1) * bpp ≤ width * bpp
pixel-end x width bpp inside = grind (arith, inside)

product : (a b c : ℕ) → checked_mul a b ≡ some c → c ≡ a * b
product a b c h = ground (arith, h)

-- What a descriptor that is accepted has: rows of that many bytes, inside the backing bytes.
validated :
    (d : BufferDescriptor) (layout : PixelLayout) (backing : ℕ)
    → validate_descriptor d layout backing ≡ ok tt
    → (row : ℕ) × (row ≡ d.size.width * layout.bytes_per_pixel)
      × ((d.size.height - 1) * d.stride + row ≤ backing)
unfolding validate_descriptor
validated d layout backing h =
    let (x, e, h) =
      bind-ok (guard (is_shm d.transport) (ValidationError.unsupported_transport d.transport)) _ tt
        h in
    let (x, e, h) =
      bind-ok
        (guard (not (d.size.width == 0 || d.size.height == 0)) ValidationError.zero_area_surface) _
        tt h in
    let (x, e, h) =
      bind-ok
        (guard (not (ltb d.stride d.size.width))
          (ValidationError.stride_smaller_than_width d.stride d.size.width))
        _ tt h in
    let (row, e1, h) =
      bind-ok
        (ok_or (checked_mul d.size.width layout.bytes_per_pixel)
          ValidationError.arithmetic_overflow)
        _ tt h in
    let (x, e2, h) =
      bind-ok
        (guard (not (ltb d.stride row))
          (ValidationError.stride_too_small_for_pixel_row d.stride row))
        _ tt h in
    let (required, e3, h) =
      bind-ok (ok_or (required_bytes d.size d.stride row) ValidationError.arithmetic_overflow) _ tt
        h in
    let (x, e4, h) =
      bind-ok
        (guard (not (ltb d.byte_len required))
          (ValidationError.buffer_too_small_for_declared_geometry d.byte_len required))
        _ tt h in
    let declared = guard-ok (not (ltb d.byte_len required)) _ tt e4 in
    let backed = guard-ok (not (ltb backing d.byte_len)) _ tt h in
    let all = required-covers d.size d.stride row required (
      ok_or-ok (required_bytes d.size d.stride row) ValidationError.arithmetic_overflow required
        e3) in
    (
      row,
      product d.size.width layout.bytes_per_pixel row (
          ok_or-ok (checked_mul d.size.width layout.bytes_per_pixel)
            ValidationError.arithmetic_overflow row e1),
      ground (arith, declared, backed, all),
    )

-- Every pixel of a buffer that `SoftwareBuffer::new` accepts, in any of its rows, ends inside the bytes
-- that came with it, whatever its descriptor says of their number.
pub new_buffer-rows :
    (d : BufferDescriptor) (layout : PixelLayout) (bytes : List ℕ) (b : SoftwareBuffer) (x y : ℕ)
    → new_buffer d layout bytes ≡ ok b
    → x < d.size.width
    → y < d.size.height
    → y * d.stride + (x + 1) * layout.bytes_per_pixel ≤ length bytes
unfolding new_buffer
new_buffer-rows d layout bytes b x y h inside below =
    let (u, e, rest) = bind-ok (validate_descriptor d layout (length bytes)) _ b h in
    let (row, wide, fits) = validated d layout (length bytes) e in
    let start = row-start y d.size.height d.stride below in
    let end = pixel-end x d.size.width layout.bytes_per_pixel inside in
    omega (arith, wide, fits, start, end)
