-- ===== src/Protocol/Wire/Primitive/RoundTrip.antt =====
-- Whatever the payload writer of atria-protocol/src/wire.rs writes, its reader reads back.
use atria.Base.{
  ℕ, ◌+◌, ◌≤◌, ◌<◌, ◌≡◌, ◌↔◌, refl, subst, List, ◌++◌, ok, arith, word_end, length, take, drop,
  append_assoc, length-take, take-append-drop, true,
}
use atria.Base.Int.{ℤ, IsI32, u32_of_i32, i32_of_u32-u32_of_i32, u32_of_i32-lt}
use atria.Protocol.Interface.{HandleKind}
use atria.Protocol.Bytes.{u32_to_le_bytes, u32-round}
use atria.Protocol.Wire.{HandleIndex, placeholder, from_placeholder}
use atria.Protocol.Wire.Primitive.{write_i32, write_string, read_i32, read_string, is_utf8}
use atria.Protocol.Wire.Primitive.Laws.{
  encoder_at, decoder_at, string_bytes, length-string_bytes, padding, three_parts,
  write_string-append, read_string-append, write-append, read-append,
}

-- A string of UTF-8 that a message has room for is written behind what the message holds, and is
-- read back from there, with reader and writer at the same place afterwards.
pub read_string-write_string :
    (front room s : List ℕ)
    → is_utf8 s ≡ true
    → length s < 4294967296
    → length front + length room < word_end
    → length (string_bytes s) ≤ length room
    → let rest = drop (length (string_bytes s)) room in
      let behind = front ++ string_bytes s in
      (write_string (encoder_at front room) s ≡ ok (encoder_at behind rest))
      × (read_string (decoder_at front (string_bytes s ++ rest)) ≡ ok (s, decoder_at behind rest))
read_string-write_string front room s valid small fits enough =
    let n = length (string_bytes s) in
    let (x, y, z, split, hx, hy, hz) =
      three_parts 4 (length s) (padding (length s)) (take n room)
        (omega (arith, length-take n room, length-string_bytes s)) in
    let whole : x ++ (y ++ (z ++ drop n room)) ≡ room =
      rw (← append_assoc y z (drop n room), ← append_assoc x (y ++ z) (drop n room), ← split)
        (take-append-drop n room) in
    (
      subst
          (λ r.
            write_string (encoder_at front r) s
            ≡ ok (encoder_at (front ++ string_bytes s) (drop n room)))
          whole (write_string-append front x y z (drop n room) s hx hy hz small (omega arith)),
      read_string-append front (drop n room) s valid small (omega arith),
    )

-- A signed word of 32 bits is read back with its sign.
pub read_i32-write_i32 :
    (front old rest : List ℕ) (value : ℤ)
    → IsI32 value
    → length old ≡ 4
    → length front + 4 < word_end
    → let bytes = u32_to_le_bytes (u32_of_i32 value) in
      let behind = front ++ bytes in
      (write_i32 (encoder_at front (old ++ rest)) value ≡ ok (encoder_at behind rest))
      × (read_i32 (decoder_at front (bytes ++ rest)) ≡ ok (value, decoder_at behind rest))
unfolding write_i32 read_i32
read_i32-write_i32 front old rest value v e small =
    let bytes = u32_to_le_bytes (u32_of_i32 value) in
    (
      write-append front old bytes rest e small,
      ground (
        arith,
        read-append front bytes rest 4 refl small,
        u32-round (u32_of_i32 value) (u32_of_i32-lt value v),
        i32_of_u32-u32_of_i32 value v,
      ),
    )

-- A number of 32 bits names a slot exactly when it is that slot's placeholder, and the slot's kind
-- is the one that the field asks for.
pub from_placeholder_iff :
    (value : ℕ) (kind : HandleKind) (slot : HandleIndex)
    → value < 4294967296
    → slot.index < 256
    → (from_placeholder value kind ≡ ok slot) ↔ ((placeholder slot ≡ value) × (slot.kind ≡ kind))
unfolding from_placeholder placeholder
from_placeholder_iff value kind slot h k = ground arith
