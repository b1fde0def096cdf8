-- ===== src/Drm.antt =====
-- atria-drm/src/logic.rs: the choice of a mode, and the geometry of a scanout buffer. The rest of the
-- crate calls the kernel.
use atria.Base.{
  ℕ, ◌+◌, ◌*◌, ◌^◌, Bool, not, ◌&&◌, ◌||◌, Option, none, some, List, [], ◌∷◌, ◌==◌, ltb,
  if◌then◌else◌, Result, ok, err, ◌>>=◌, ◌>>◌, guard, ok_or, checked_mul, bit_and, bit_xor,
}

pub data DrmError : Type 0 where
  no_modes no_preferred_mode requested_mode_unavailable zero_dimension : DrmError
  arithmetic_overflow : DrmError
  -- What there is, and what is required.
  pitch_too_small buffer_too_small : ℕ → ℕ → DrmError
  unsupported_pixel_layout : ℕ → DrmError

pub data DrmFormat : Type 0 where
  c8 rgb565 rgb888 xrgb8888 : DrmFormat

-- Four letters, from the low byte.
unfoldable pub fourcc : DrmFormat → ℕ
fourcc DrmFormat.c8 = 0x43 + 256 * (0x38 + 256 * (0x20 + 256 * 0x20))
fourcc DrmFormat.rgb565 = 0x52 + 256 * (0x47 + 256 * (0x31 + 256 * 0x36))
fourcc DrmFormat.rgb888 = 0x52 + 256 * (0x47 + 256 * (0x32 + 256 * 0x34))
fourcc DrmFormat.xrgb8888 = 0x58 + 256 * (0x52 + 256 * (0x32 + 256 * 0x34))

pub record Mode : Type 0 where
  pub width : ℕ
  pub height : ℕ
  pub refresh_hz : ℕ
  pub mode_type : ℕ

unfoldable pub preferred : Mode → Bool
preferred m = not (bit_and m.mode_type 8 == 0)

pub data ModeSelection : Type 0 where
  most_preferred : ModeSelection
  exactly : ℕ → ℕ → ℕ → ModeSelection

-- The place of the first that passes.
unfoldable pub position : (Mode → Bool) → List Mode → Option ℕ
position p [] = none
position p (m ∷ ms) =
    let later = position p ms in
    if p m then some 0 else (elim later [ none ↦ none | some n ↦ some (n + 1) ])

unfoldable pub select_mode : List Mode → ModeSelection → Result DrmError ℕ
unfolding position preferred
select_mode [] selection = err DrmError.no_modes
select_mode (m ∷ ms) ModeSelection.most_preferred =
    ok_or (position preferred (m ∷ ms)) DrmError.no_preferred_mode
select_mode (m ∷ ms) (ModeSelection.exactly width height hz) =
    ok_or
      (position (λ mode. mode.width == width && mode.height == height && mode.refresh_hz == hz)
        (m ∷ ms))
      DrmError.requested_mode_unavailable

pub record BufferGeometry : Type 0 where
  pub row_bytes : ℕ
  pub size : ℕ

unfoldable pub buffer_geometry : ℕ → ℕ → ℕ → ℕ → ℕ → Result DrmError BufferGeometry
buffer_geometry width height bytes_per_pixel pitch buffer_size = do
  guard (not (width == 0 || height == 0)) DrmError.zero_dimension
  row ← ok_or (checked_mul width bytes_per_pixel) DrmError.arithmetic_overflow
  guard (not (ltb pitch row)) (DrmError.pitch_too_small pitch row)
  size ← ok_or (checked_mul pitch height) DrmError.arithmetic_overflow
  guard (not (ltb buffer_size size)) (DrmError.buffer_too_small buffer_size size)
  guard (ltb size (2 ^ 63)) DrmError.arithmetic_overflow
  ok (record { row_bytes = row; size = size })

unfoldable pub next_buffer_index : ℕ → ℕ
next_buffer_index scanning = bit_xor scanning 1

-- By the bytes of a pixel.
unfoldable pub drm_format : ℕ → Result DrmError DrmFormat
drm_format bytes =
    if bytes == 1
    then ok DrmFormat.c8
    else (if bytes == 2
        then ok DrmFormat.rgb565
        else (if bytes == 3
            then ok DrmFormat.rgb888
            else (if bytes == 4
                then ok DrmFormat.xrgb8888
                else err (DrmError.unsupported_pixel_layout bytes))))
