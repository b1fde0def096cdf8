-- ===== src/Software/Buffer.antt =====
-- atria-software-output/src/buffer.rs and frame.rs: buffers whose bytes are checked against their
-- descriptors, and the frame that is composed.
pub mod Rows
use atria.Base.{
  ℕ, zero, suc, ◌+◌, ◌-◌, ◌*◌, ◌^◌, Bool, true, false, not, ◌||◌, Option, none, some, List, [], ◌∷◌,
  ◌==◌, leb, ltb, if◌then◌else◌, length, Result, ok, err, ◌>>=◌, ◌>>◌, guard, ok_or, checked_add,
  checked_mul,
}
use atria.Base.Map.{Map, lookup, insert, remove, ℕ_key, pair_key}
use atria.Compositor.Model.{ConnectionId, ObjectId, Size, BufferTransport, BufferDescriptor}

-- The errors of this part of `ValidationError`.
pub data ValidationError : Type 0 where
  zero_bytes_per_pixel zero_area_surface arithmetic_overflow : ValidationError
  unsupported_transport : BufferTransport → ValidationError
  -- A stride, and the width or the bytes of a row.
  stride_smaller_than_width : ℕ → ℕ → ValidationError
  stride_too_small_for_pixel_row : ℕ → ℕ → ValidationError
  -- What there is, and what is required or declared.
  buffer_too_small_for_declared_geometry : ℕ → ℕ → ValidationError
  backing_store_too_small : ℕ → ℕ → ValidationError

pub record PixelLayout : Type 0 where
  pub bytes_per_pixel : ℕ

unfoldable pub new_layout : ℕ → Result ValidationError PixelLayout
new_layout n = do
  guard (not (n == 0)) ValidationError.zero_bytes_per_pixel
  ok (record { bytes_per_pixel = n })

is_shm : BufferTransport → Bool
is_shm BufferTransport.software_shm = true
is_shm _ = false

-- The bytes up to the end of the last row, whose end is that of its pixels.
unfoldable pub required_bytes : Size → ℕ → ℕ → Option ℕ
required_bytes size stride row = elim (checked_mul (size.height - 1) stride) [
  | none ↦ none
  | some prefix ↦ checked_add prefix row
]

unfoldable pub validate_descriptor :
    BufferDescriptor → PixelLayout → ℕ → Result ValidationError (Unit {0})
unfolding is_shm required_bytes
validate_descriptor d layout backing = do
  guard (is_shm d.transport) (ValidationError.unsupported_transport d.transport)
  guard (not (d.size.width == 0 || d.size.height == 0)) ValidationError.zero_area_surface
  guard (not (ltb d.stride d.size.width))
      (ValidationError.stride_smaller_than_width d.stride d.size.width)
  row ← ok_or (checked_mul d.size.width layout.bytes_per_pixel) ValidationError.arithmetic_overflow
  guard (not (ltb d.stride row)) (ValidationError.stride_too_small_for_pixel_row d.stride row)
  required ← ok_or (required_bytes d.size d.stride row) ValidationError.arithmetic_overflow
  guard (not (ltb d.byte_len required))
      (ValidationError.buffer_too_small_for_declared_geometry d.byte_len required)
  guard (not (ltb backing d.byte_len)) (ValidationError.backing_store_too_small backing d.byte_len)

pub record SoftwareBuffer : Type 0 where
  pub descriptor : BufferDescriptor
  pub layout : PixelLayout
  pub bytes : List ℕ

-- `SoftwareBuffer::new`.
unfoldable pub new_buffer :
    BufferDescriptor → PixelLayout → List ℕ → Result ValidationError SoftwareBuffer
unfolding validate_descriptor
new_buffer d layout bytes = do
  validate_descriptor d layout (length bytes)
  ok (record { descriptor = d; layout = layout; bytes = bytes })

abbrev pub BufferKey : Type 0
BufferKey = ConnectionId × ObjectId

abbrev pub BufferStore : Type 0
BufferStore = Map BufferKey SoftwareBuffer

-- `BufferStore::insert`, `remove` and `get`: the first two give what was there.
unfoldable pub store_insert :
    BufferKey → SoftwareBuffer → BufferStore → BufferStore × Option SoftwareBuffer
store_insert key b store = (insert key b store, lookup key store)

unfoldable pub store_remove : BufferKey → BufferStore → BufferStore × Option SoftwareBuffer
store_remove key store = (remove key store, lookup key store)

unfoldable pub store_get : BufferKey → BufferStore → Option SoftwareBuffer
store_get key store = lookup key store

pub record Frame : Type 0 where
  pub size : Size
  pub stride : ℕ
  pub layout : PixelLayout
  pub bytes : List ℕ

unfoldable pub zeros : ℕ → List ℕ
zeros zero = []
zeros (suc n) = 0 ∷ zeros n

-- `Frame::new`: a `usize` has 64 bits, and an allocation is at most half of that.
unfoldable pub new_frame : Size → PixelLayout → Result ValidationError Frame
unfolding zeros
new_frame size layout = do
  guard (not (size.width == 0 || size.height == 0)) ValidationError.zero_area_surface
  stride ← ok_or (checked_mul size.width layout.bytes_per_pixel) ValidationError.arithmetic_overflow
  byte_len ← ok_or (checked_mul stride size.height) ValidationError.arithmetic_overflow
  guard (ltb stride (2 ^ 32)) ValidationError.arithmetic_overflow
  guard (ltb byte_len (2 ^ 63)) ValidationError.arithmetic_overflow
  ok (record { size = size; stride = stride; layout = layout; bytes = zeros byte_len })

unfoldable pub clear : Frame → Frame
unfolding zeros
clear f = record f { bytes = zeros (length f.bytes) }
