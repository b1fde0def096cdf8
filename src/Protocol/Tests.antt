-- ===== src/Protocol/Tests.antt =====
-- The theorems on the protocol at concrete messages.
use atria.Base.{
  ℕ, ◌≡◌, ◌↔◌, refl, ◌+◌, ◌<◌, ◌≤◌, ◌%◌, List, [], ◌∷◌, ◌++◌, none, some, true, false, not, ◌&&◌,
  ◌||◌, ok, arith, length, take, drop,
}
use atria.Base.Int.{negsuc, u32_of_i32}
use atria.Base.Bits.{bit-pow}
use atria.Protocol.Interface.{Interface, MessageKind, Operation, spec, HandleKind}
use atria.Protocol.Operations.{decode_operation, decode_operation_iff}
use atria.Protocol.Bytes.{u32_to_le_bytes, get_range}
use atria.Protocol.Wire.{
  placeholder, from_placeholder, decode_frame, decode_header, read_u32_at, read_u16_at,
  encode_frame, max_message_size,
}
use atria.Protocol.Wire.HeaderLaws.{header_bytes, Fits}
use atria.Protocol.Wire.FrameLaws.{
  header_for, packet_bytes, encode_frame-total, decode_frame-encode_frame,
}
use atria.Protocol.Wire.Canonical.{AreBytes, decode_frame-canonical}
use atria.Protocol.Wire.Primitive.{
  padded_size, is_utf8, write_string, read_string, write_i32, read_i32,
}
use atria.Protocol.Wire.Primitive.Laws.{
  padded_size-total, encoder_at, decoder_at, string_bytes, padding,
}
use atria.Protocol.Wire.Primitive.RoundTrip.{
  read_string-write_string, read_i32-write_i32, from_placeholder_iff,
}
use atria.Protocol.Capability.{
  Capability, CapabilitySet, empty, contains, with_capability, without_capability, intersection,
  satisfies, default_grants,
}
use atria.Protocol.Capability.SetLaws.{same, contains-operations, IsBuilt, satisfies_iff}
use atria.Protocol.Version.{VersionRange, overlap, Offers, overlap-Offers, overlap-none_iff}

abbrev two_words : List ℕ
two_words = 1 ∷ 2 ∷ 3 ∷ 4 ∷ []

abbrev buffer : List ℕ
buffer = 9 ∷ 9 ∷ 9 ∷ 9 ∷ 9 ∷ 9 ∷ 9 ∷ 9 ∷ 9 ∷ 9 ∷ 9 ∷ 9 ∷ 9 ∷ 9 ∷ 9 ∷ 9 ∷ 7 ∷ []

abbrev packet : List ℕ
packet = 5 ∷ 0 ∷ 0 ∷ 0 ∷ 2 ∷ 0 ∷ 16 ∷ 0 ∷ 8 ∷ 0 ∷ 0 ∷ 0 ∷ 1 ∷ 2 ∷ 3 ∷ 4 ∷ []

abbrev packet_5 : List ℕ
packet_5 = packet_bytes 5 2 8 two_words

encoded : encode_frame 5 2 8 two_words buffer ≡ ok (16, packet_5 ++ 7 ∷ [])
encoded = encode_frame-total 5 2 8 two_words buffer (omega arith)

decoded :
    decode_frame packet ≡ ok (record { header = header_for 5 2 8 two_words; payload = two_words })
unfolding decode_frame decode_header read_u32_at get_range read_u16_at
decoded = refl

packet-AreBytes : AreBytes packet
packet-AreBytes = ground arith

abbrev versions : ℕ → ℕ → VersionRange
versions a b = record { minimum = a; maximum = b }

overlapping : overlap (versions 1 3) (versions 2 5) ≡ some (versions 2 3)
unfolding overlap
overlapping = refl

decode_operation_iff_example :
    (decode_operation Interface.surface MessageKind.method 1 ≡ ok Operation.surface_attach) ↔ (
      ((spec Operation.surface_attach).interface ≡ Interface.surface)
      × ((spec Operation.surface_attach).kind ≡ MessageKind.method)
      × ((spec Operation.surface_attach).opcode ≡ 1))
decode_operation_iff_example =
    decode_operation_iff Interface.surface MessageKind.method 1 Operation.surface_attach

encode_frame-total_example : encode_frame 5 2 8 two_words buffer ≡ ok (16, packet_5 ++ 7 ∷ [])
encode_frame-total_example = encode_frame-total 5 2 8 two_words buffer (omega arith)

decode_frame-encode_frame_example :
    decode_frame (take 16 (packet_5 ++ 7 ∷ []))
    ≡ ok (record { header = header_for 5 2 8 two_words; payload = two_words })
decode_frame-encode_frame_example =
    decode_frame-encode_frame 5 2 8 two_words buffer {size = 16} {written = packet_5 ++ 7 ∷ []}
      (omega arith) (omega arith) (omega arith) (omega arith) encoded

decode_frame-canonical_example :
    (packet ≡ header_bytes (header_for 5 2 8 two_words) ++ two_words)
    × Fits (header_for 5 2 8 two_words)
    × (16 ≡ length packet)
    × (length packet ≡ 12 + length two_words)
    × (length packet ≤ max_message_size)
    × (length packet % 4 ≡ 0)
decode_frame-canonical_example =
    decode_frame-canonical packet
      (record { header = header_for 5 2 8 two_words; payload = two_words }) packet-AreBytes decoded

padded_size-total_example : (p : ℕ) × (padded_size 6 ≡ some p) × (p % 4 ≡ 0) × (6 ≤ p) × (p < 6 + 4)
padded_size-total_example = padded_size-total 6 (omega arith)

from_placeholder_iff_example :
    (from_placeholder 0xffff_ff03 HandleKind.fence
      ≡ ok (record { index = 3; kind = HandleKind.fence }))
    ↔ ((placeholder (record { index = 3; kind = HandleKind.fence }) ≡ 0xffff_ff03)
        × (HandleKind.fence ≡ HandleKind.fence))
from_placeholder_iff_example =
    from_placeholder_iff 0xffff_ff03 HandleKind.fence
      (record { index = 3; kind = HandleKind.fence }) (omega arith) (omega arith)

-- "hé", in a buffer with a word in front and a byte behind.
abbrev accented : List ℕ
accented = 104 ∷ 195 ∷ 169 ∷ []

abbrev room : List ℕ
room = 0 ∷ 0 ∷ 0 ∷ 0 ∷ 0 ∷ 0 ∷ 0 ∷ 0 ∷ 7 ∷ []

accented-valid : is_utf8 accented ≡ true
unfolding is_utf8
accented-valid = refl

accented-fits : length (string_bytes accented) ≤ length room
unfolding string_bytes padding
accented-fits = omega arith

read_string-write_string_example :
    let rest = drop (length (string_bytes accented)) room in
    let behind = two_words ++ string_bytes accented in
    (write_string (encoder_at two_words room) accented ≡ ok (encoder_at behind rest))
    × (read_string (decoder_at two_words (string_bytes accented ++ rest))
        ≡ ok (accented, decoder_at behind rest))
read_string-write_string_example =
    read_string-write_string two_words room accented accented-valid (omega arith) (omega arith)
      accented-fits

read_i32-write_i32_example :
    let bytes = u32_to_le_bytes (u32_of_i32 (negsuc 6)) in
    let behind = two_words ++ bytes in
    (write_i32 (encoder_at two_words ((0 ∷ 0 ∷ 0 ∷ 0 ∷ []) ++ 7 ∷ [])) (negsuc 6)
      ≡ ok (encoder_at behind (7 ∷ [])))
    × (read_i32 (decoder_at two_words (bytes ++ 7 ∷ []))
        ≡ ok (negsuc 6, decoder_at behind (7 ∷ [])))
read_i32-write_i32_example =
    read_i32-write_i32 two_words (0 ∷ 0 ∷ 0 ∷ 0 ∷ []) (7 ∷ []) (negsuc 6) (omega arith, omega arith)
      refl (omega arith)

abbrev with_fence : CapabilitySet
with_fence = record { bits = 19 }

contains-operations_example :
    (contains empty Capability.buffer_import ≡ false)
    × (contains (with_capability with_fence Capability.buffer_import) Capability.buffer_import
        ≡ same Capability.buffer_import Capability.buffer_import
          || contains with_fence Capability.buffer_import)
    × (contains (without_capability with_fence Capability.buffer_import) Capability.buffer_import
        ≡ not (same Capability.buffer_import Capability.buffer_import)
          && contains with_fence Capability.buffer_import)
    × (contains (intersection with_fence default_grants) Capability.buffer_import
        ≡ contains with_fence Capability.buffer_import
          && contains default_grants Capability.buffer_import)
    × (contains default_grants Capability.buffer_import
        ≡ same Capability.surface_create Capability.buffer_import
          || same Capability.buffer_import Capability.buffer_import)
contains-operations_example =
    contains-operations with_fence default_grants Capability.buffer_import Capability.buffer_import

abbrev only_surfaces : CapabilitySet
only_surfaces = record { bits = 1 }

only_surfaces-IsBuilt : IsBuilt only_surfaces
only_surfaces-IsBuilt k h = ground (arith, bit-pow k 0)

satisfies_iff_example :
    (satisfies with_fence only_surfaces ≡ true)
    ↔ ((c : Capability) → contains only_surfaces c ≡ true → contains with_fence c ≡ true)
satisfies_iff_example = satisfies_iff with_fence only_surfaces only_surfaces-IsBuilt

overlap-Offers_example :
    Offers (versions 2 3) 2 ↔ (Offers (versions 1 3) 2 × Offers (versions 2 5) 2)
overlap-Offers_example = overlap-Offers (versions 1 3) (versions 2 5) (versions 2 3) 2 overlapping

overlap-none_iff_example :
    (overlap (versions 1 2) (versions 3 5) ≡ none)
    ↔ ((v : ℕ) → Offers (versions 1 2) v → ¬ Offers (versions 3 5) v)
overlap-none_iff_example = overlap-none_iff (versions 1 2) (versions 3 5)
