-- ===== src/Protocol/Wire/Canonical.antt =====
-- What `Frame::decode` of atria-protocol/src/wire.rs accepts: the encoded packets and no others.
use atria.Base.{
  ℕ, ◌+◌, ◌*◌, ◌%◌, ◌≤◌, ◌<◌, ◌≡◌, List, [], ◌∷◌, ◌++◌, ok, arith, length, take-length, All,
}
use atria.Protocol.Bytes.{u16_to_le_bytes, u32_to_le_bytes, get_range}
use atria.Protocol.Wire.{
  Header, Frame, max_message_size, read_u16_at, read_u32_at, decode_header, decode_frame,
}
use atria.Protocol.Wire.HeaderLaws.{header_bytes, Fits}

abbrev pub AreBytes : List ℕ → Type 0
AreBytes = All λ b. b < 256

u32_split :
    (a b c d : ℕ)
    → a < 256
    → b < 256
    → c < 256
    → d < 256
    → u32_to_le_bytes (a + b * 256 + c * 65536 + d * 16777216) ≡ a ∷ b ∷ c ∷ d ∷ []
u32_split a b c d ha hb hc hd = ground arith

u16_split : (a b : ℕ) → a < 256 → b < 256 → u16_to_le_bytes (a + b * 256) ≡ a ∷ b ∷ []
u16_split a b ha hb = ground arith

-- The header that twelve bytes hold.
abbrev header_of : ℕ → ℕ → ℕ → ℕ → ℕ → ℕ → ℕ → ℕ → ℕ → ℕ → ℕ → ℕ → Header
header_of a b c d e f g h i j k l = record {
  object_id = a + b * 256 + c * 65536 + d * 16777216;
  opcode = e + f * 256;
  message_size = g + h * 256;
  sequence_num = i + j * 256 + k * 65536 + l * 16777216;
}

decode_header-explicit :
    (a b c d e f g h i j k l : ℕ) (r : List ℕ)
    → decode_header (a ∷ b ∷ c ∷ d ∷ e ∷ f ∷ g ∷ h ∷ i ∷ j ∷ k ∷ l ∷ r)
      ≡ ok (header_of a b c d e f g h i j k l)
unfolding decode_header read_u32_at read_u16_at get_range
decode_header-explicit a b c d e f g h i j k l r = ground arith

-- Every packet that is accepted is the encoding of the frame that is returned, and meets the
-- bounds: whole words, at most 65532 bytes, as long as its header says.
pub decode_frame-canonical :
    (packet : List ℕ) (frame : Frame)
    → AreBytes packet
    → decode_frame packet ≡ ok frame
    → (packet ≡ header_bytes frame.header ++ frame.payload)
      × Fits frame.header
      × (frame.header.message_size ≡ length packet)
      × (length packet ≡ 12 + length frame.payload)
      × (length packet ≤ max_message_size)
      × (length packet % 4 ≡ 0)
unfolding decode_frame header_bytes get_range
decode_frame-canonical (a ∷ b ∷ c ∷ d ∷ e ∷ f ∷ g ∷ h ∷ i ∷ j ∷ k ∷ l ∷ r) frame v q = ground (
  arith,
  decode_header-explicit a b c d e f g h i j k l r,
  u32_split a b c d,
  u16_split e f,
  u16_split g h,
  u32_split i j k l,
  take-length r,
)
decode_frame-canonical _ frame v q = unfold decode_header in ground arith
