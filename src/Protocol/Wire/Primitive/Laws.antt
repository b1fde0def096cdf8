-- ===== src/Protocol/Wire/Primitive/Laws.antt =====
-- Round trips of the primitive codecs, at any place of a message.
use atria.Base.{
  ◌/◌, ℕ, ◌+◌, ◌-◌, ◌*◌, ◌%◌, ◌≤◌, ◌<◌, ◌≡◌, refl, ap, List, [], ◌++◌, some, ok, arith, word_end,
  length, take, drop, replicate, length-append, length-replicate, append_assoc, length-take,
  length-drop, take-append-drop, true,
}
use atria.Protocol.Bytes.{u32_to_le_bytes, get_range-append, copy_at-append, u32-round}
use atria.Protocol.Wire.Primitive.{
  Encoder, Decoder, padded_size, write, write_u32, write_string, read, read_u32, read_string,
  is_utf8,
}

-- `padded_size` is the least multiple of four that is not below a length.
pub padded_size-least : (n p : ℕ) → padded_size n ≡ some p → (p % 4 ≡ 0) × (n ≤ p) × (p < n + 4)
unfolding padded_size
padded_size-least n p h = ground arith

-- A length whose padding a `usize` can count has a padded size, the least multiple of four that is
-- not below the length.
pub padded_size-total :
    (n : ℕ)
    → n + 3 < word_end
    → (p : ℕ) × (padded_size n ≡ some p) × (p % 4 ≡ 0) × (n ≤ p) × (p < n + 4)
unfolding padded_size
padded_size-total n small = ((n + 3) / 4 * 4, ground arith, omega arith, omega arith, omega arith)

-- The encoder stands behind `front`, with `room` to fill.
abbrev pub encoder_at : List ℕ → List ℕ → Encoder
encoder_at front room = record { output = front ++ room; position = length front }

-- The decoder stands behind `front`, with `rest` to read.
abbrev pub decoder_at : List ℕ → List ℕ → Decoder
decoder_at front rest = record { input = front ++ rest; position = length front }

pub write-append :
    (front old bytes zs : List ℕ)
    → length old ≡ length bytes
    → length front + length bytes < word_end
    → write (encoder_at front (old ++ zs)) bytes ≡ ok (encoder_at (front ++ bytes) zs)
unfolding write
write-append front old bytes zs e small = ground (
  arith,
  get_range-append front old zs (length front) (length front + length bytes) refl (omega arith),
  copy_at-append front old bytes zs (length front) refl e,
  append_assoc front bytes zs,
  length-append front bytes,
)

pub read-append :
    (front bytes rest : List ℕ) (n : ℕ)
    → n ≡ length bytes
    → length front + length bytes < word_end
    → read (decoder_at front (bytes ++ rest)) n ≡ ok (bytes, decoder_at (front ++ bytes) rest)
unfolding read
read-append front bytes rest n e small = ground (
  arith,
  get_range-append front bytes rest (length front) (length front + n) refl (omega arith),
  append_assoc front bytes rest,
  length-append front bytes,
)

-- A string on the wire: its length, its bytes, and zeros up to a multiple of four.
unfoldable pub padding : ℕ → ℕ
padding n = (4 - n % 4) % 4

unfoldable pub string_bytes : List ℕ → List ℕ
unfolding padding
string_bytes s = u32_to_le_bytes (length s) ++ (s ++ replicate (padding (length s)) 0)

pub length-string_bytes : (s : List ℕ) → length (string_bytes s) ≡ 4 + length s + padding (length s)
unfolding string_bytes
length-string_bytes s = omega (
  arith,
  length-append s (replicate (padding (length s)) 0),
  length-replicate {A = ℕ} (padding (length s)) 0,
)

padded_size-padding : (n : ℕ) → n + 4 < word_end → padded_size n ≡ some (n + padding n)
unfolding padded_size padding
padded_size-padding n h = ground arith

padding_back : (n : ℕ) → n + padding n - n ≡ padding n
padding_back n = omega arith

-- A list of known length in three parts.
pub three_parts :
    (a b c : ℕ) (xs : List ℕ)
    → length xs ≡ a + (b + c)
    → (x y z : List ℕ) × (xs ≡ x ++ (y ++ z)) × (length x ≡ a) × (length y ≡ b) × (length z ≡ c)
three_parts a b c xs h = (
  take a xs,
  take b (drop a xs),
  drop b (drop a xs),
  rw (take-append-drop b (drop a xs), take-append-drop a xs) refl,
  omega (arith, length-take a xs),
  omega (arith, length-take b (drop a xs), length-drop a xs),
  omega (arith, length-drop b (drop a xs), length-drop a xs),
)

pub write_string-append :
    (front x y z zs s : List ℕ)
    → length x ≡ 4
    → length y ≡ length s
    → length z ≡ padding (length s)
    → length s < 4294967296
    → length front + length (string_bytes s) < word_end
    → write_string (encoder_at front (x ++ (y ++ (z ++ zs)))) s
      ≡ ok (encoder_at (front ++ string_bytes s) zs)
unfolding write_string write_u32 string_bytes
write_string-append front x y z zs s hx hy hz small room =
    let head = u32_to_le_bytes (length s) in
    let zeros : List ℕ = replicate (padding (length s)) 0 in
    let behind = front ++ head in
    ground (
      arith,
      length-string_bytes s,
      length-append front head,
      length-append behind s,
      length-replicate {A = ℕ} (padding (length s)) 0,
      padded_size-padding (length s),
      ap (λ (n : ℕ). replicate {A = ℕ} n 0) (padding_back (length s)),
      write-append front x head (y ++ (z ++ zs)) hx (omega (arith, length-string_bytes s)),
      write-append behind y s (z ++ zs) hy
          (omega (arith, length-string_bytes s, length-append front head)),
      write-append (behind ++ s) z zeros zs
          (omega (arith, length-replicate {A = ℕ} (padding (length s)) 0))
          (omega (
            arith,
            length-string_bytes s,
            length-append front head,
            length-append behind s,
            length-replicate {A = ℕ} (padding (length s)) 0,
          )),
      append_assoc front head s,
      append_assoc front (head ++ s) zeros,
    )

-- Every string of UTF-8 that is written is read back, wherever it stands in a message, and reader
-- and writer then stand at the same place.
pub read_string-append :
    (front rest s : List ℕ)
    → is_utf8 s ≡ true
    → length s < 4294967296
    → length front + length (string_bytes s) < word_end
    → read_string (decoder_at front (string_bytes s ++ rest))
      ≡ ok (s, decoder_at (front ++ string_bytes s) rest)
unfolding read_string read_u32 string_bytes
read_string-append front rest s valid small room =
    let head = u32_to_le_bytes (length s) in
    let zeros : List ℕ = replicate (padding (length s)) 0 in
    let body = s ++ zeros in
    let behind = front ++ head in
    ground (
      arith,
      length-string_bytes s,
      length-append front head,
      length-append s zeros,
      length-replicate {A = ℕ} (padding (length s)) 0,
      padded_size-padding (length s),
      u32-round (length s) small,
      append_assoc head body rest,
      append_assoc front head body,
      read-append front head (body ++ rest) 4 refl (omega (arith, length-string_bytes s)),
      read-append behind body rest (length s + padding (length s))
          (omega (arith, length-append s zeros, length-replicate {A = ℕ} (padding (length s)) 0))
          (omega (
            arith,
            length-string_bytes s,
            length-append front head,
            length-append s zeros,
            length-replicate {A = ℕ} (padding (length s)) 0,
          )),
      get_range-append [] s zeros 0 (length s) refl (omega arith),
    )
