-- ===== src/Protocol/Wire/HeaderLaws.antt =====
-- A written range read back, and the twelve bytes of a header.
use atria.Base.{ℕ, ◌+◌, ◌<◌, ◌≡◌, refl, List, [], ◌∷◌, ◌++◌, ok, arith, length, word_end}
use atria.Protocol.Bytes.{
  u16_to_le_bytes, u32_to_le_bytes, get_range-append, copy_at-append, u16-round, u32-round,
}
use atria.Protocol.Wire.{Header, read_u16_at, read_u32_at, write_at, encode_header, decode_header}

pub write_at-append :
    (xs old bytes zs : List ℕ) (n : ℕ)
    → n ≡ length xs
    → length old ≡ length bytes
    → length xs + length bytes < word_end
    → write_at (xs ++ (old ++ zs)) n bytes ≡ ok (xs ++ (bytes ++ zs))
unfolding write_at
write_at-append xs old bytes zs n e f h = ground (
  arith,
  get_range-append xs old zs n (n + length bytes) e (omega arith),
  copy_at-append xs old bytes zs n e f,
)

pub read_u32_at-append :
    (xs zs : List ℕ) (n v : ℕ)
    → n ≡ length xs
    → n + 4 < word_end
    → v < 4294967296
    → read_u32_at (xs ++ (u32_to_le_bytes v ++ zs)) n ≡ ok v
unfolding read_u32_at
read_u32_at-append xs zs n v e h b =
    ground
      (arith, get_range-append xs (u32_to_le_bytes v) zs n (n + 4) e (omega arith), u32-round v b)

read_u16_at-append :
    (xs zs : List ℕ) (n v : ℕ)
    → n ≡ length xs
    → n + 2 < word_end
    → v < 65536
    → read_u16_at (xs ++ (u16_to_le_bytes v ++ zs)) n ≡ ok v
unfolding read_u16_at
read_u16_at-append xs zs n v e h b =
    ground
      (arith, get_range-append xs (u16_to_le_bytes v) zs n (n + 2) e (omega arith), u16-round v b)

-- The twelve bytes of a header.
unfoldable pub header_bytes : Header → List ℕ
header_bytes h =
    u32_to_le_bytes h.object_id
    ++ (u16_to_le_bytes h.opcode
        ++ (u16_to_le_bytes h.message_size ++ u32_to_le_bytes h.sequence_num))

-- The fields fit the words that carry them.
pub record Fits (h : Header) : Type 0 where
  pub object_id : h.object_id < 4294967296
  pub opcode : h.opcode < 65536
  pub message_size : h.message_size < 65536
  pub sequence_num : h.sequence_num < 4294967296

pub length-header_bytes : (h : Header) → length (header_bytes h) ≡ 12
unfolding header_bytes
length-header_bytes h = refl

pub encode_header-bytes :
    (h : Header) (old zs : List ℕ)
    → length old ≡ 12
    → encode_header h (old ++ zs) ≡ ok (header_bytes h ++ zs)
unfolding encode_header header_bytes
encode_header-bytes h (a ∷ b ∷ c ∷ d ∷ e ∷ f ∷ g ∷ k ∷ i ∷ j ∷ l ∷ m ∷ []) zs eq =
    let o = u32_to_le_bytes h.object_id in
    let p = u16_to_le_bytes h.opcode in
    let q = u16_to_le_bytes h.message_size in
    let s = u32_to_le_bytes h.sequence_num in
    let r1 : List ℕ = g ∷ k ∷ i ∷ j ∷ l ∷ m ∷ zs in
    let r2 : List ℕ = i ∷ j ∷ l ∷ m ∷ zs in
    ground (
      arith,
      write_at-append [] (a ∷ b ∷ c ∷ d ∷ []) o (e ∷ f ∷ r1) 0 refl refl (omega arith),
      write_at-append o (e ∷ f ∷ []) p r1 4 refl refl (omega arith),
      write_at-append (o ++ p) (g ∷ k ∷ []) q r2 6 refl refl (omega arith),
      write_at-append (o ++ (p ++ q)) (i ∷ j ∷ l ∷ m ∷ []) s zs 8 refl refl (omega arith),
    )
encode_header-bytes h _ zs eq = absurd (omega arith)

pub decode_header-bytes :
    (h : Header) (zs : List ℕ) → Fits h → decode_header (header_bytes h ++ zs) ≡ ok h
unfolding decode_header header_bytes
decode_header-bytes h zs v =
    let o = u32_to_le_bytes h.object_id in
    let p = u16_to_le_bytes h.opcode in
    let q = u16_to_le_bytes h.message_size in
    let s = u32_to_le_bytes h.sequence_num in
    ground (
      arith,
      read_u32_at-append [] (p ++ (q ++ (s ++ zs))) 0 h.object_id refl (omega arith) v.object_id,
      read_u16_at-append o (q ++ (s ++ zs)) 4 h.opcode refl (omega arith) v.opcode,
      read_u16_at-append (o ++ p) (s ++ zs) 6 h.message_size refl (omega arith) v.message_size,
      read_u32_at-append (o ++ (p ++ q)) zs 8 h.sequence_num refl (omega arith) v.sequence_num,
    )
