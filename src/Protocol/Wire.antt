-- ===== src/Protocol/Wire.antt =====
-- atria-protocol/src/wire.rs: handle placeholders, headers and frames. A byte slice is a list of
-- numbers below 256; an output buffer that a call has written to is part of its result.
pub mod Primitive
pub mod HeaderLaws
pub mod FrameLaws
pub mod Canonical
use atria.Base.{
  ℕ, ◌+◌, ◌-◌, ◌%◌, ◌≡◌, List, Option, none, some, Result, ok, err, ◌>>=◌, ◌>>◌, guard, ok_or,
  checked_add, ltb, leb, ◌==◌, not, if◌then◌else◌, length,
}
use atria.Protocol.Interface.{HandleKind}
use atria.Protocol.Error.{EncodeError, DecodeError, truncated, trailing_bytes}
use atria.Protocol.Error.{message_too_small, buffer_too_small, invalid_handle_placeholder}
use atria.Protocol.Bytes.{
  u16_to_le_bytes, u32_to_le_bytes, u16_of_le_bytes, u32_of_le_bytes, get_range, copy_at,
}

abbrev pub header_size : ℕ
header_size = 12

abbrev pub max_message_size : ℕ
max_message_size = 65532

abbrev pub handle_placeholder_base : ℕ
handle_placeholder_base = 0xffff_ff00

-- A slot of the message's handle array, and what must be in it.
pub record HandleIndex : Type 0 where
  pub index : ℕ
  pub kind : HandleKind

unfoldable pub placeholder : HandleIndex → ℕ
placeholder h = handle_placeholder_base + h.index

-- The cast `as u8` keeps the low eight bits.
unfoldable pub from_placeholder : ℕ → HandleKind → Result DecodeError HandleIndex
from_placeholder value kind =
    if leb handle_placeholder_base value
    then ok (record { index = (value - handle_placeholder_base) % 256; kind = kind })
    else err (invalid_handle_placeholder value)

pub record Header : Type 0 where
  pub object_id : ℕ
  pub opcode : ℕ
  pub message_size : ℕ
  pub sequence_num : ℕ

-- A payload's header. `u16::try_from` cannot fail behind the test against the maximum.
unfoldable pub for_payload : ℕ → ℕ → ℕ → ℕ → Result EncodeError Header
for_payload object_id opcode sequence_num payload_size = do
  size ← ok_or (checked_add header_size payload_size) EncodeError.size_overflow
  guard (leb size max_message_size) (EncodeError.message_too_large size max_message_size)
  guard (size % 4 == 0) (EncodeError.misaligned_size size)
  guard (ltb size 65536) EncodeError.size_overflow
  ok (record {
    object_id = object_id;
    opcode = opcode;
    message_size = size;
    sequence_num = sequence_num;
  })

unfoldable pub read_u16_at : List ℕ → ℕ → Result DecodeError ℕ
read_u16_at input offset = do
  stop ← ok_or (checked_add offset 2) DecodeError.size_overflow
  bytes ← ok_or (get_range offset stop input) (truncated stop (length input))
  ok_or (u16_of_le_bytes bytes) (truncated stop (length input))

unfoldable pub read_u32_at : List ℕ → ℕ → Result DecodeError ℕ
read_u32_at input offset = do
  stop ← ok_or (checked_add offset 4) DecodeError.size_overflow
  bytes ← ok_or (get_range offset stop input) (truncated stop (length input))
  ok_or (u32_of_le_bytes bytes) (truncated stop (length input))

-- The buffer after the write.
unfoldable pub write_at : List ℕ → ℕ → List ℕ → Result EncodeError (List ℕ)
write_at output offset bytes = do
  stop ← ok_or (checked_add offset (length bytes)) EncodeError.size_overflow
  range ← ok_or (get_range offset stop output) (buffer_too_small stop (length output))
  ok (copy_at offset bytes output)

-- `Header::encode`.
unfoldable pub encode_header : Header → List ℕ → Result EncodeError (List ℕ)
encode_header h output = do
  guard (leb header_size (length output)) (buffer_too_small header_size (length output))
  output ← write_at output 0 (u32_to_le_bytes h.object_id)
  output ← write_at output 4 (u16_to_le_bytes h.opcode)
  output ← write_at output 6 (u16_to_le_bytes h.message_size)
  write_at output 8 (u32_to_le_bytes h.sequence_num)

-- `Header::decode`.
unfoldable pub decode_header : List ℕ → Result DecodeError Header
decode_header input = do
  guard (leb header_size (length input)) (truncated header_size (length input))
  object_id ← read_u32_at input 0
  opcode ← read_u16_at input 4
  message_size ← read_u16_at input 6
  sequence_num ← read_u32_at input 8
  ok (record {
    object_id = object_id;
    opcode = opcode;
    message_size = message_size;
    sequence_num = sequence_num;
  })

pub record Frame : Type 0 where
  pub header : Header
  pub payload : List ℕ

-- `Frame::decode`.
unfoldable pub decode_frame : List ℕ → Result DecodeError Frame
decode_frame packet = do
  header ← decode_header packet
  let declared = header.message_size
  guard (leb header_size declared) (message_too_small declared header_size)
  guard (leb declared max_message_size) (DecodeError.message_too_large declared max_message_size)
  guard (declared % 4 == 0) (DecodeError.misaligned_size declared)
  guard (leb declared (length packet)) (truncated declared (length packet))
  guard (leb (length packet) declared) (trailing_bytes declared (length packet))
  payload ← ok_or (get_range header_size declared packet) (truncated declared (length packet))
  ok (record { header = header; payload = payload })

-- The size of the packet, and the buffer that holds it.
unfoldable pub encode_frame : ℕ → ℕ → ℕ → List ℕ → List ℕ → Result EncodeError (ℕ × List ℕ)
encode_frame object_id opcode sequence_num payload output = do
  header ← for_payload object_id opcode sequence_num (length payload)
  let size = header.message_size
  guard (leb size (length output)) (buffer_too_small size (length output))
  output ← encode_header header output
  output ← write_at output header_size payload
  ok (size, output)
