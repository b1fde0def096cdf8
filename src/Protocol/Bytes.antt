-- ===== src/Protocol/Bytes.antt =====
-- Bytes of a slice: little-endian words, ranges and writes into a range, as the slice methods
-- `get`, `get_mut` and `copy_from_slice` and the integer methods of the language define them.
use atria.Base.{
  ℕ, ◌+◌, ◌-◌, ◌*◌, ◌/◌, ◌%◌, ◌<◌, ◌≡◌, List, [], ◌∷◌, ◌++◌, Option, none, some, ◌&&◌, arith, leb,
  if◌then◌else◌, length, take, drop, length-append, take-append_length, drop-append_length,
  append_assoc, ap,
}

-- `u16::to_le_bytes` and `u32::to_le_bytes`.
abbrev pub u16_to_le_bytes : ℕ → List ℕ
u16_to_le_bytes v = v % 256 ∷ (v / 256) % 256 ∷ []

abbrev pub u32_to_le_bytes : ℕ → List ℕ
u32_to_le_bytes v = v % 256 ∷ (v / 256) % 256 ∷ (v / 65536) % 256 ∷ (v / 16777216) % 256 ∷ []

-- `<[u8; 2]>::try_from` and `u16::from_le_bytes`, one after the other; so for four bytes.
abbrev pub u16_of_le_bytes : List ℕ → Option ℕ
u16_of_le_bytes (a ∷ b ∷ []) = some (a + b * 256)
u16_of_le_bytes _ = none

abbrev pub u32_of_le_bytes : List ℕ → Option ℕ
u32_of_le_bytes (a ∷ b ∷ c ∷ d ∷ []) = some (a + b * 256 + c * 65536 + d * 16777216)
u32_of_le_bytes _ = none

-- `slice.get(start..end)`.
unfoldable pub get_range {ℓ} : {A : Type ℓ} → ℕ → ℕ → List A → Option (List A)
get_range start end xs =
    if leb start end && leb end (length xs) then some (take (end - start) (drop start xs)) else none

-- `slice.get_mut(start..end)` and a copy of `bytes`, which has the range's length, into it.
unfoldable pub copy_at {ℓ} : {A : Type ℓ} → ℕ → List A → List A → List A
copy_at start bytes xs = take start xs ++ (bytes ++ drop (start + length bytes) xs)

pub u16-round : (v : ℕ) → v < 65536 → u16_of_le_bytes (u16_to_le_bytes v) ≡ some v
u16-round v h = ap some (omega arith)

pub u32-round : (v : ℕ) → v < 4294967296 → u32_of_le_bytes (u32_to_le_bytes v) ≡ some v
u32-round v h = ap some (omega arith)

-- The range behind `xs` that `ys` fills.
pub get_range-append :
    (xs ys zs : List ℕ) (n m : ℕ)
    → n ≡ length xs
    → m ≡ length xs + length ys
    → get_range n m (xs ++ (ys ++ zs)) ≡ some ys
unfolding get_range
get_range-append xs ys zs n m e f =
    rw (e, f, drop-append_length xs (ys ++ zs))
      (ground (
        arith,
        length-append xs (ys ++ zs),
        length-append ys zs,
        ap (λ (k : ℕ). take k (ys ++ zs)) counted,
        take-append_length ys zs,
      ))
  where
    counted : length xs + length ys - length xs ≡ length ys
    counted = omega arith

pub copy_at-append :
    (xs old bytes zs : List ℕ) (n : ℕ)
    → n ≡ length xs
    → length old ≡ length bytes
    → copy_at n bytes (xs ++ (old ++ zs)) ≡ xs ++ (bytes ++ zs)
unfolding copy_at
copy_at-append xs old bytes zs n e f =
    rw (e, take-append_length xs (old ++ zs)) (ap (λ (r : List ℕ). xs ++ (bytes ++ r)) dropped)
  where
    counted : length xs + length bytes ≡ length (xs ++ old)
    counted = omega (arith, length-append xs old)

    dropped : drop (length xs + length bytes) (xs ++ (old ++ zs)) ≡ zs
    dropped = rw (counted, ← append_assoc xs old zs) (drop-append_length (xs ++ old) zs)
