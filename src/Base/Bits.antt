-- ===== src/Base/Bits.antt =====
-- The bits of a native number under `&`, `|` and `!`, at every width.
use Prim.Native.Nat.{
  ℕ, zero, suc, ◌+◌, ◌-◌, ◌*◌, ◌/◌, ◌%◌, ◌^◌, ◌≤◌, ◌<◌, min, max, bit_and, bit_or, digits,
  bit_and-bitwise, bit_or-bitwise,
}
use mathlib.Core.Path.{◌≡◌, refl, ap}
use mathlib.Core.Logic.{◌↔◌, ◌⊎◌, inl, inr}
use native.Mathlib.Omega.{arith}
use native.Mathlib.Nat.{pow-suc}
use atria.Base.Tests.{◌==◌, if◌then◌else◌}

-- More fuel than the left number changes nothing.
digits_steady :
    (keep_right : ℕ → ℕ) (op : ℕ → ℕ → ℕ) (a b n m : ℕ)
    → a ≤ n
    → a ≤ m
    → digits keep_right op n a b ≡ digits keep_right op m a b
digits_steady keep_right op zero b zero zero p q = refl
digits_steady keep_right op zero b zero (suc m) p q = refl
digits_steady keep_right op zero b (suc n) zero p q = refl
digits_steady keep_right op zero b (suc n) (suc m) p q = refl
digits_steady keep_right op (suc a) b zero m p q = absurd (omega arith)
digits_steady keep_right op (suc a) b (suc n) zero p q = absurd (omega arith)
digits_steady keep_right op (suc a) b (suc n) (suc m) p q =
    ap (λ (r : ℕ). r * 2 + op (suc a % 2) (b % 2))
      (digits_steady keep_right op (suc a / 2) (b / 2) n m (omega arith) (omega arith))

-- The lowest digit of `&` and `|`, and the number above it.
bit_and_low : (a b : ℕ) → bit_and a b ≡ bit_and (a / 2) (b / 2) * 2 + min (a % 2) (b % 2)
bit_and_low zero b = omega (arith, bit_and-bitwise 0 b, bit_and-bitwise 0 (b / 2))
bit_and_low (suc a) b = omega (
  arith,
  bit_and-bitwise (suc a) b,
  bit_and-bitwise (suc a / 2) (b / 2),
  digits_steady (λ x. 0) min (suc a / 2) (b / 2) a (suc a / 2) (omega arith) (omega arith),
)

bit_or_low : (a b : ℕ) → bit_or a b ≡ bit_or (a / 2) (b / 2) * 2 + max (a % 2) (b % 2)
bit_or_low zero b = omega (arith, bit_or-bitwise 0 b, bit_or-bitwise 0 (b / 2))
bit_or_low (suc a) b = omega (
  arith,
  bit_or-bitwise (suc a) b,
  bit_or-bitwise (suc a / 2) (b / 2),
  digits_steady (λ x. x) max (suc a / 2) (b / 2) a (suc a / 2) (omega arith) (omega arith),
)

-- Bit `k` of a number, 0 or 1.
pub bit : ℕ → ℕ → ℕ
bit zero a = a % 2
bit (suc k) a = bit k (a / 2)

pub bit-le : (k a : ℕ) → bit k a ≤ 1
unfolding bit
bit-le zero a = omega arith
bit-le (suc k) a = bit-le k (a / 2)

pub bit-bit_and : (k a b : ℕ) → bit k (bit_and a b) ≡ min (bit k a) (bit k b)
unfolding bit
bit-bit_and zero a b = omega (arith, bit_and_low a b)
bit-bit_and (suc k) a b =
    let e : bit_and a b / 2 ≡ bit_and (a / 2) (b / 2) = omega (arith, bit_and_low a b) in
    rw e (bit-bit_and k (a / 2) (b / 2))

pub bit-bit_or : (k a b : ℕ) → bit k (bit_or a b) ≡ max (bit k a) (bit k b)
unfolding bit
bit-bit_or zero a b = omega (arith, bit_or_low a b)
bit-bit_or (suc k) a b =
    let e : bit_or a b / 2 ≡ bit_or (a / 2) (b / 2) = omega (arith, bit_or_low a b) in
    rw e (bit-bit_or k (a / 2) (b / 2))

pub bit-zero : (k : ℕ) → bit k 0 ≡ 0
unfolding bit
bit-zero zero = refl
bit-zero (suc k) = bit-zero k

half_pow : (j : ℕ) → 2 ^ suc j / 2 ≡ 2 ^ j
half_pow j = omega (arith, pow-suc 2 j)

-- `1 << j` has bit `j` alone.
pub bit-pow : (k j : ℕ) → bit k (2 ^ j) ≡ (if k == j then 1 else 0)
unfolding bit
bit-pow zero zero = refl
bit-pow zero (suc j) = ground (arith, pow-suc 2 j)
bit-pow (suc k) zero = ground (arith, bit-zero k)
bit-pow (suc k) (suc j) = rw half_pow (ground (arith, bit-pow k j))

-- `!a` on `n` bits turns every bit over.
pub bit-complement : (n k a : ℕ) → k < n → a < 2 ^ n → bit k (2 ^ n - 1 - a) ≡ 1 - bit k a
unfolding bit
bit-complement zero k a h f = absurd (omega arith)
bit-complement (suc n) zero a h f = omega (arith, pow-suc 2 n)
bit-complement (suc n) (suc k) a h f =
    let e : (2 ^ suc n - 1 - a) / 2 ≡ 2 ^ n - 1 - a / 2 = omega (arith, pow-suc 2 n) in
    rw e (bit-complement n k (a / 2) (omega arith) (omega (arith, pow-suc 2 n)))

-- Numbers with the same bits are the same.
bits_agree : (n a b : ℕ) → a < 2 ^ n → b < 2 ^ n → ((k : ℕ) → bit k a ≡ bit k b) → a ≡ b
unfolding bit
bits_agree zero a b h f same = omega arith
bits_agree (suc n) a b h f same = omega (
  arith,
  same 0,
  bits_agree n (a / 2) (b / 2) (omega (arith, pow-suc 2 n)) (omega (arith, pow-suc 2 n))
      (λ k. same (suc k)),
)

lt-pow : (a : ℕ) → a < 2 ^ a
lt-pow zero = omega arith
lt-pow (suc a) = omega (arith, pow-suc 2 a, lt-pow a)

pow_mono : (a b : ℕ) → a ≤ b → 2 ^ a ≤ 2 ^ b
pow_mono a zero h = let e : a ≡ 0 = omega arith in rw e (omega arith)
pow_mono a (suc b) h = elim (le_or a b h) [
  | inl e ↦ rw e (omega arith)
  | inr l ↦ omega (arith, pow-suc 2 b, pow_mono a b l)
]
  where
    le_or : (a b : ℕ) → a ≤ suc b → (a ≡ suc b) ⊎ (a ≤ b)
    le_or a b h = grind arith

pub eq_of_bits : (a b : ℕ) → ((k : ℕ) → bit k a ≡ bit k b) → a ≡ b
eq_of_bits a b same =
    bits_agree (a + b) a b (omega (arith, lt-pow a, pow_mono a (a + b) (omega arith)))
      (omega (arith, lt-pow b, pow_mono b (a + b) (omega arith))) same

-- `a & (1 << j)` is not zero exactly when bit `j` of `a` is set.
pub bit_and-pow_iff : (a j : ℕ) → (bit_and a (2 ^ j) ≡ 0) ↔ (bit j a ≡ 0)
bit_and-pow_iff a j = (
  λ e. ground (arith, ap (bit j) e, bit-zero j, bit-bit_and j a (2 ^ j), bit-pow j j, bit-le j a),
  λ e. eq_of_bits (bit_and a (2 ^ j)) 0 (λ k. none_set k e),
)
  where
    none_set : (k : ℕ) → bit j a ≡ 0 → bit k (bit_and a (2 ^ j)) ≡ bit k 0
    none_set k e = ground (arith, bit-zero k, bit-bit_and k a (2 ^ j), bit-pow k j, bit-le k a)
