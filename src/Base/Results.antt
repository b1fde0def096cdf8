-- ===== src/Base/Results.antt =====
-- Rust's `Result`, the `?` operator as a bind, and checked arithmetic on 64-bit words.
use Prim.Native.Nat.{ℕ, ◌+◌, ◌*◌, ◌^◌}
use mathlib.Core.Path.{◌≡◌, refl, ap}
use mathlib.Core.Logic.{◌⊎◌, inl, inr}
use mathlib.Core.Bool.{Bool, true, false}
use mathlib.Core.Option.{Option, none, some}
use native.Mathlib.Omega.{arith}
use atria.Base.Tests.{ltb, if◌then◌else◌}

pub data Result {ℓ κ} (E : Type κ) (A : Type ℓ) : Type (ℓ ⊔ κ) where
  ok : A → Result E A
  err : E → Result E A

infixl 5 ◌>>=◌ ◌>>◌
abbrev pub ◌>>=◌ {ℓ κ μ} :
    {E : Type κ} {A : Type ℓ} {B : Type μ} → Result E A → (A → Result E B) → Result E B
ok a >>= f = f a
err e >>= f = err e

abbrev pub ◌>>◌ {κ μ} : {E : Type κ} {B : Type μ} → Result E (Unit {0}) → Result E B → Result E B
m >> k = m >>= λ _. k

-- `Option::ok_or`.
abbrev pub ok_or {ℓ κ} : {E : Type κ} {A : Type ℓ} → Option A → E → Result E A
ok_or none e = err e
ok_or (some a) e = ok a

-- `if !condition { return Err(e) }`.
abbrev pub guard {κ} : {E : Type κ} → Bool → E → Result E (Unit {0})
guard true e = ok tt
guard false e = err e

-- `Result::is_ok`.
abbrev pub is_ok {ℓ κ} : {E : Type κ} {A : Type ℓ} → Result E A → Bool
is_ok (ok a) = true
is_ok (err e) = false

pub Result-cases {ℓ κ} :
    {E : Type κ} {A : Type ℓ} (r : Result E A) → ((a : A) × (r ≡ ok a)) ⊎ ((e : E) × (r ≡ err e))
Result-cases (ok a) = inl (a, refl)
Result-cases (err e) = inr (e, refl)

-- `usize` and `u64` have 64 bits.
abbrev pub word_end : ℕ
word_end = 2 ^ 64

abbrev pub checked_add : ℕ → ℕ → Option ℕ
checked_add a b = if ltb (a + b) word_end then some (a + b) else none

abbrev pub checked_mul : ℕ → ℕ → Option ℕ
checked_mul a b = if ltb (a * b) word_end then some (a * b) else none

-- A chain that succeeds has succeeded up to its rest.
pub bind-ok {ℓ κ μ} :
    {E : Type κ} {A : Type ℓ} {B : Type μ} (r : Result E A) (f : A → Result E B) (b : B)
    → (r >>= f) ≡ ok b
    → (a : A) × (r ≡ ok a) × (f a ≡ ok b)
bind-ok (ok a) f b h = (a, refl, h)
bind-ok (err e) f b h = ground (arith, h)

pub guard-ok {κ} : {E : Type κ} (b : Bool) (e : E) (x : Unit {0}) → guard b e ≡ ok x → b ≡ true
guard-ok true e x h = refl
guard-ok false e x h = ground (arith, h)

pub ok_or-ok {ℓ κ} :
    {E : Type κ} {A : Type ℓ} (o : Option A) (e : E) (a : A) → ok_or o e ≡ ok a → o ≡ some a
ok_or-ok none e a h = ground (arith, h)
ok_or-ok (some b) e a h = ground (arith, h)

abbrev pub ok_else {ℓ κ} : {E : Type κ} {A : Type ℓ} → A → Result E A → A
ok_else a (ok b) = b
ok_else a (err e) = a

pub ok-equal {ℓ κ} :
    {E : Type κ} {A : Type ℓ} (a b : A) → ◌≡◌ {A = Result E A} (ok a) (ok b) → a ≡ b
ok-equal a b h = ap (ok_else a) h
