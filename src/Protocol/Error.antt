-- ===== src/Protocol/Error.antt =====
-- atria-protocol/src/error.rs: the failures of encoding and decoding.
use atria.Base.{ℕ}
use atria.Protocol.Interface.{Interface, MessageKind}

pub data EncodeError : Type 0 where
  size_overflow : EncodeError
  message_too_large : ℕ → ℕ → EncodeError
  misaligned_size : ℕ → EncodeError
  buffer_too_small : ℕ → ℕ → EncodeError
  encoded_length_mismatch : ℕ → ℕ → EncodeError

pub data DecodeError : Type 0 where
  truncated : ℕ → ℕ → DecodeError
  message_too_small : ℕ → ℕ → DecodeError
  message_too_large : ℕ → ℕ → DecodeError
  misaligned_size : ℕ → DecodeError
  size_overflow : DecodeError
  trailing_bytes : ℕ → ℕ → DecodeError
  invalid_utf8 : DecodeError
  invalid_handle_placeholder : ℕ → DecodeError
  unknown_opcode : Interface → MessageKind → ℕ → DecodeError

-- The four categories that a protocol error falls into.
pub data ErrorCategory : Type 0 where
  protocol object resource compositor : ErrorCategory
