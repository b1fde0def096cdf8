-- ===== src/Protocol/Wire/Primitive.antt =====
-- The payload writer and reader of atria-protocol/src/wire.rs. A call that fails ends the message:
-- its callers pass the error on, so the state that it leaves behind is not part of the result.
pub mod Laws
pub mod RoundTrip
use atria.Base.{
  ℕ, ◌+◌, ◌-◌, ◌*◌, ◌/◌, ◌%◌, List, [], ◌∷◌, Option, none, some, Bool, true, false, ◌&&◌, ◌||◌,
  Result, ok, err, ◌>>=◌, ◌>>◌, guard, ok_or, checked_add, ltb, leb, ◌==◌, if◌then◌else◌, length,
  replicate,
}
use atria.Base.Int.{ℤ, u32_of_i32, i32_of_u32}
use atria.Protocol.Interface.{HandleKind}
use atria.Protocol.Error.{
  EncodeError, DecodeError, truncated, trailing_bytes, buffer_too_small, invalid_utf8,
}
use atria.Protocol.Bytes.{u32_to_le_bytes, u32_of_le_bytes, get_range, copy_at}
use atria.Protocol.Wire.{HandleIndex, placeholder, from_placeholder}

-- `length.checked_add(padding)`.
unfoldable pub padded_size : ℕ → Option ℕ
padded_size length =
    let remainder = length % 4 in checked_add length (if remainder == 0 then 0 else 4 - remainder)

pub record Encoder : Type 0 where
  pub output : List ℕ
  pub position : ℕ

unfoldable pub write : Encoder → List ℕ → Result EncodeError Encoder
write e bytes = do
  stop ← ok_or (checked_add e.position (length bytes)) EncodeError.size_overflow
  range ← ok_or (get_range e.position stop e.output) (buffer_too_small stop (length e.output))
  ok (record { output = copy_at e.position bytes e.output; position = stop })

unfoldable pub write_u32 : Encoder → ℕ → Result EncodeError Encoder
write_u32 e value = write e (u32_to_le_bytes value)

unfoldable pub write_i32 : Encoder → ℤ → Result EncodeError Encoder
write_i32 e value = write e (u32_to_le_bytes (u32_of_i32 value))

unfoldable pub write_handle : Encoder → HandleIndex → Result EncodeError Encoder
write_handle e handle = write_u32 e (placeholder handle)

unfoldable pub write_array_len : Encoder → ℕ → Result EncodeError Encoder
write_array_len e count = write_u32 e count

-- A string is the list of its bytes.
unfoldable pub write_string : Encoder → List ℕ → Result EncodeError Encoder
write_string e value = do
  guard (ltb (length value) 4294967296) EncodeError.size_overflow
  padded ← ok_or (padded_size (length value)) EncodeError.size_overflow
  e ← write_u32 e (length value)
  e ← write e value
  write e (replicate (padded - length value) 0)

pub record Decoder : Type 0 where
  pub input : List ℕ
  pub position : ℕ

unfoldable pub read : Decoder → ℕ → Result DecodeError (List ℕ × Decoder)
read d count = do
  stop ← ok_or (checked_add d.position count) DecodeError.size_overflow
  value ← ok_or (get_range d.position stop d.input) (truncated stop (length d.input))
  ok (value, record d { position = stop })

unfoldable pub read_u32 : Decoder → Result DecodeError (ℕ × Decoder)
read_u32 d = do
  (bytes, d) ← read d 4
  value ← ok_or (u32_of_le_bytes bytes) (truncated 4 (length bytes))
  ok (value, d)

unfoldable pub read_i32 : Decoder → Result DecodeError (ℤ × Decoder)
read_i32 d = do
  (bytes, d) ← read d 4
  value ← ok_or (u32_of_le_bytes bytes) (truncated 4 (length bytes))
  ok (i32_of_u32 value, d)

unfoldable pub read_handle : Decoder → HandleKind → Result DecodeError (HandleIndex × Decoder)
read_handle d kind = do
  (value, d) ← read_u32 d
  handle ← from_placeholder value kind
  ok (handle, d)

unfoldable pub read_array_len : Decoder → Result DecodeError (ℕ × Decoder)
read_array_len d = read_u32 d

-- What is due behind a byte of UTF-8: how many continuation bytes, and the bounds of the next one.
pub record Due : Type 0 where
  pub count : ℕ
  pub low : ℕ
  pub high : ℕ

-- The bounds on a second byte shut out overlong forms, surrogates and values past U+10FFFF.
due_behind : ℕ → Due
due_behind b =
    if ltb b 0x80
    then record { count = 0; low = 0x80; high = 0xbf }
    else (if ltb b 0xe0
        then record { count = 1; low = 0x80; high = 0xbf }
        else (if b == 0xe0
            then record { count = 2; low = 0xa0; high = 0xbf }
            else (if b == 0xed
                then record { count = 2; low = 0x80; high = 0x9f }
                else (if ltb b 0xf0
                    then record { count = 2; low = 0x80; high = 0xbf }
                    else (if b == 0xf0
                        then record { count = 3; low = 0x90; high = 0xbf }
                        else (if b == 0xf4
                            then record { count = 3; low = 0x80; high = 0x8f }
                            else record { count = 3; low = 0x80; high = 0xbf }))))))

-- May `b` stand where `due` is due?
utf8_accepts : Due → ℕ → Bool
utf8_accepts due b =
    if due.count == 0
    then ltb b 0x80 || leb 0xc2 b && leb b 0xf4
    else leb due.low b && leb b due.high

utf8_next : Due → ℕ → Due
unfolding due_behind
utf8_next due b =
    if due.count == 0
    then due_behind b
    else record { count = due.count - 1; low = 0x80; high = 0xbf }

utf8_from : Due → List ℕ → Bool
unfolding utf8_accepts utf8_next
utf8_from due [] = due.count == 0
utf8_from due (b ∷ bs) = utf8_accepts due b && utf8_from (utf8_next due b) bs

-- `str::from_utf8` of the language, as a test.
unfoldable pub is_utf8 : List ℕ → Bool
unfolding utf8_from
is_utf8 bytes = utf8_from (record { count = 0; low = 0x80; high = 0xbf }) bytes

unfoldable pub read_string : Decoder → Result DecodeError (List ℕ × Decoder)
read_string d = do
  (length_u32, d) ← read_u32 d
  padded ← ok_or (padded_size length_u32) DecodeError.size_overflow
  (bytes, d) ← read d padded
  value ← ok_or (get_range 0 length_u32 bytes) (truncated length_u32 (length bytes))
  guard (is_utf8 value) invalid_utf8
  ok (value, d)

unfoldable pub finish : Decoder → Result DecodeError (Unit {0})
finish d = guard (d.position == length d.input) (trailing_bytes d.position (length d.input))
