-- ===== src/Protocol/Wire/FrameLaws.antt =====
-- `encode_frame` and `Frame::decode` of atria-protocol/src/wire.rs, on every input.
use atria.Base.{
  ℕ, ◌+◌, ◌%◌, ◌≤◌, ◌<◌, ◌≡◌, refl, List, [], ◌++◌, some, ok, err, ◌>>=◌, arith, length, take, drop,
  length-append, append_assoc, word_end, take-append_length, append-nil, ◌==◌, ltb, if◌then◌else◌,
  length-drop, length-take, take-append-drop, drop-drop, subst, not,
}
use atria.Protocol.Error.{EncodeError}
use atria.Protocol.Bytes.{get_range, get_range-append}
use atria.Protocol.Wire.{
  Header, max_message_size, write_at, encode_header, decode_frame, encode_frame, for_payload,
}
use atria.Protocol.Wire.HeaderLaws.{
  header_bytes, Fits, encode_header-bytes, decode_header-bytes, length-header_bytes,
  write_at-append,
}

-- The header of a packet with this payload.
abbrev pub header_for : ℕ → ℕ → ℕ → List ℕ → Header
header_for object_id opcode sequence_num payload = record {
  object_id = object_id;
  opcode = opcode;
  message_size = 12 + length payload;
  sequence_num = sequence_num;
}

-- A header and a payload written over the front of a buffer.
write_packet :
    (h : Header) (payload old body zs : List ℕ)
    → length old ≡ 12
    → length body ≡ length payload
    → 12 + length payload < word_end
    → (encode_header h (old ++ (body ++ zs)) >>= λ out. write_at out 12 payload)
      ≡ ok (header_bytes h ++ (payload ++ zs))
write_packet h payload old body zs e f small = rw (encode_header-bytes h old (body ++ zs) e) (
    write_at-append (header_bytes h) body payload zs 12 (omega (arith, length-header_bytes h)) f
      (omega (arith, length-header_bytes h)))

-- A buffer in three parts: a header's room, a payload's room and the rest.
split_buffer :
    (n : ℕ) (output : List ℕ)
    → take 12 output ++ (take n (drop 12 output) ++ drop (12 + n) output) ≡ output
split_buffer n output =
    rw (← drop-drop n 12 output, take-append-drop n (drop 12 output)) (take-append-drop 12 output)

write_packet_at :
    (h : Header) (payload output : List ℕ)
    → 12 + length payload ≤ length output
    → 12 + length payload < word_end
    → (encode_header h output >>= λ out. write_at out 12 payload)
      ≡ ok (header_bytes h ++ (payload ++ drop (12 + length payload) output))
write_packet_at h payload output room small =
    subst
      (λ o.
        (encode_header h o >>= λ out. write_at out 12 payload)
        ≡ ok (header_bytes h ++ (payload ++ drop (12 + length payload) output)))
      (split_buffer (length payload) output)
      (write_packet h payload (take 12 output) (take (length payload) (drop 12 output))
        (drop (12 + length payload) output) (omega (arith, length-take 12 output))
        (omega (arith, length-take (length payload) (drop 12 output), length-drop 12 output)) small)

-- The bytes of a packet.
pub packet_bytes : ℕ → ℕ → ℕ → List ℕ → List ℕ
packet_bytes object_id opcode sequence_num payload =
    header_bytes (header_for object_id opcode sequence_num payload) ++ payload

-- The outcome of `encode_frame` on a payload that a `usize` can measure with its header: the first
-- of the three tests that fails names the error, and otherwise the packet fills the front of the
-- buffer and the bytes behind it stay.
pub encode_frame-total :
    (object_id opcode sequence_num : ℕ) (payload output : List ℕ)
    → 12 + length payload < word_end
    → let size = 12 + length payload in
      encode_frame object_id opcode sequence_num payload output ≡ (
        if ltb max_message_size size
        then err (EncodeError.message_too_large size max_message_size)
        else (if not (size % 4 == 0)
            then err (EncodeError.misaligned_size size)
            else (if ltb (length output) size
                then err (EncodeError.buffer_too_small size (length output))
                else ok (
                  size,
                  packet_bytes object_id opcode sequence_num payload ++ drop size output,
                ))))
unfolding encode_frame for_payload packet_bytes
encode_frame-total object_id opcode sequence_num payload output small = ground (
  arith,
  write_packet_at (header_for object_id opcode sequence_num payload) payload output,
  append_assoc (header_bytes (header_for object_id opcode sequence_num payload)) payload
      (drop (12 + length payload) output),
)

-- A packet of at most 65532 bytes, in whole words, is decoded to the frame that it encodes.
decode_frame-bytes :
    (h : Header) (payload : List ℕ)
    → Fits h
    → h.message_size ≡ 12 + length payload
    → h.message_size ≤ max_message_size
    → h.message_size % 4 ≡ 0
    → decode_frame (header_bytes h ++ payload) ≡ ok (record { header = h; payload = payload })
unfolding decode_frame
decode_frame-bytes h payload v e small whole =
    let framed : get_range 12 h.message_size (header_bytes h ++ payload) ≡ some payload =
      subst (λ r. get_range 12 h.message_size (header_bytes h ++ r) ≡ some payload)
        (append-nil payload)
        (get_range-append (header_bytes h) payload [] 12 h.message_size
          (omega (arith, length-header_bytes h)) (omega (arith, length-header_bytes h))) in
    ground (
      arith,
      decode_header-bytes h payload v,
      length-append (header_bytes h) payload,
      length-header_bytes h,
      framed,
    )

encode_frame-inv :
    (object_id opcode sequence_num : ℕ) (payload output : List ℕ) {size : ℕ} {written : List ℕ}
    → 12 + length payload < word_end
    → encode_frame object_id opcode sequence_num payload output ≡ ok (size, written)
    → (size ≡ 12 + length payload)
      × (12 + length payload ≤ max_message_size)
      × ((12 + length payload) % 4 ≡ 0)
      × (written
          ≡ packet_bytes object_id opcode sequence_num payload ++ drop (12 + length payload) output)
encode_frame-inv object_id opcode sequence_num payload output small e =
    ground (arith, encode_frame-total object_id opcode sequence_num payload output small)

take_packet :
    (object_id opcode sequence_num n : ℕ) (payload rest : List ℕ)
    → n ≡ 12 + length payload
    → take n (packet_bytes object_id opcode sequence_num payload ++ rest)
      ≡ packet_bytes object_id opcode sequence_num payload
unfolding packet_bytes
take_packet object_id opcode sequence_num n payload rest e =
    let h = header_for object_id opcode sequence_num payload in
    let counted : n ≡ length (header_bytes h ++ payload) =
      omega (arith, length-append (header_bytes h) payload, length-header_bytes h) in
    rw counted (take-append_length (header_bytes h ++ payload) rest)

-- What `encode_frame` writes, `Frame::decode` reads back: the header and the payload that it was
-- given, from exactly the bytes that it reports as written.
pub decode_frame-encode_frame :
    (object_id opcode sequence_num : ℕ) (payload output : List ℕ) {size : ℕ} {written : List ℕ}
    → object_id < 4294967296
    → opcode < 65536
    → sequence_num < 4294967296
    → 12 + length payload < word_end
    → encode_frame object_id opcode sequence_num payload output ≡ ok (size, written)
    → decode_frame (take size written)
      ≡ ok (record { header = header_for object_id opcode sequence_num payload; payload = payload })
unfolding packet_bytes
decode_frame-encode_frame object_id opcode sequence_num payload output {size} {written} ho hc hs
      small e =
    let (sized, bounded, whole, bytes) =
      encode_frame-inv object_id opcode sequence_num payload output small e in
    let h = header_for object_id opcode sequence_num payload in
    let v : Fits h = record {
      object_id = ho;
      opcode = hc;
      message_size = omega arith;
      sequence_num = hs;
    } in
    rw
      (
        bytes,
        take_packet object_id opcode sequence_num size payload (drop (12 + length payload) output)
            sized,
      )
      (decode_frame-bytes h payload v refl bounded whole)
