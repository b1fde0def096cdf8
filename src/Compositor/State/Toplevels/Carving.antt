-- ===== src/Compositor/State/Toplevels/Carving.antt =====
-- What `create_buffer` accepts.
use atria.Base.{
  ℕ, ◌+◌, ◌*◌, ◌≡◌, ◌≢◌, ◌≤◌, true, ◌&&◌, some, leb, ok, guard, ok_or, checked_add, arith,
}
use atria.Base.Map.{ℕ_key, pair_key}
use atria.Protocol.Capability.{Capability}
use atria.Compositor.Error.{StateError}
use atria.Compositor.Model.{
  ConnectionId, ObjectId, chord_key, Size, is_structurally_valid, pixel_format_is_known,
  SharedMemory,
}
use atria.Compositor.State.{CompositorState}
use atria.Compositor.State.Access.{require_capability, pool_memory}
use atria.Base.{bind-ok, guard-ok, ok_or-ok}
use atria.Compositor.Model.{within}
use atria.Compositor.State.Toplevels.{carved, saturating_mul, pool_kind, create_buffer}

carved-inside :
    (offset limit end : ℕ) (size : Size) (stride : ℕ)
    → is_structurally_valid (carved size stride) ≡ true
    → checked_add offset (carved size stride).byte_len ≡ some end
    → leb end limit ≡ true
    → (size.width ≢ 0) × (size.height ≢ 0) × (stride ≢ 0) × (offset + stride * size.height ≤ limit)
unfolding is_structurally_valid within carved saturating_mul
carved-inside offset limit end size stride valid sum fits =
    let area = stride * size.height in ground (arith, valid, sum, fits)

-- A buffer that `create_buffer` accepts has pixels and a stride, is of a known format, and lies
-- inside its pool, from its offset to the end of its last row, without any overflow.
pub create_buffer-inside :
    (s t : CompositorState) (c : ConnectionId) (id pool : ObjectId) (offset : ℕ) (size : Size)
    (stride format : ℕ)
    → create_buffer s c id pool offset size stride format ≡ ok t
    → (memory : SharedMemory) × (pool_memory s c pool ≡ some memory)
      × (pixel_format_is_known format ≡ true)
      × (size.width ≢ 0)
      × (size.height ≢ 0)
      × (stride ≢ 0)
      × (offset + stride * size.height ≤ memory.size)
unfolding create_buffer
create_buffer-inside s t c id pool offset size stride format h =
    let d = carved size stride in
    let invalid = StateError.invalid_state id in
    let (x, e, h) = bind-ok (require_capability s c id Capability.buffer_import) _ t h in
    let (memory, e1, h) = bind-ok (ok_or (pool_memory s c pool) (pool_kind s c pool)) _ t h in
    let (x, e2, h) =
      bind-ok (guard (is_structurally_valid d && pixel_format_is_known format) invalid) _ t h in
    let (end, e3, h) = bind-ok (ok_or (checked_add offset d.byte_len) invalid) _ t h in
    let (x, e4, h) = bind-ok (guard (leb end memory.size) invalid) _ t h in
    let valid = guard-ok (is_structurally_valid d && pixel_format_is_known format) invalid tt e2 in
    let (wide, high, strided, inside) =
      carved-inside offset memory.size end size stride (ground (arith, valid))
        (ok_or-ok (checked_add offset d.byte_len) invalid end e3)
        (guard-ok (leb end memory.size) invalid tt e4) in
    (
      memory,
      ok_or-ok (pool_memory s c pool) (pool_kind s c pool) memory e1,
      ground (arith, valid),
      wide,
      high,
      strided,
      inside,
    )
