-- ===== src/Base/Bits.antt =====
-- Laws of `^` and `&` at variables. The native operations stand for a recursion on binary digits;
-- one equation for the lowest digit is proved first, and the laws follow by halving.
use Prim.Native.Nat.{
  ℕ, zero, suc, ◌+◌, ◌-◌, ◌*◌, ◌/◌, ◌%◌, ◌^◌, ◌≤◌, ◌<◌, min, max, bit_and, bit_or, bit_xor, digits,
  differ, bit_xor-bitwise, bit_and-bitwise, bit_or-bitwise,
}
use mathlib.Core.Path.{◌≡◌, refl, ap}
use native.Mathlib.Omega.{arith}
use native.Mathlib.Nat.{pow-suc, one-le-pow, div-div-eq-div-mul, mul_comm}

-- The fuel of `digits` does not matter once it covers the first number.
module _ (z : ℕ → ℕ) (f : ℕ → ℕ → ℕ) where
  digits-zero : (n b : ℕ) → digits z f n zero b ≡ z b
  digits-zero zero b = refl
  digits-zero (suc n) b = refl

  enough : (n m a b : ℕ) → a ≤ n → a ≤ m → digits z f n a b ≡ digits z f m a b
  enough n m zero b p q = rw (digits-zero n b, digits-zero m b)
  enough zero m (suc a) b p q = absurd (omega arith)
  enough (suc n) zero (suc a) b p q = absurd (omega arith)
  enough (suc n) (suc m) (suc a) b p q =
      rw (enough n m (suc a / 2) (b / 2) (omega arith) (omega arith))

-- One binary digit of an exclusive or.
digit : (x y : ℕ) → x < 2 → y < 2 → differ x y ≡ (x + y) % 2
digit zero y p q = omega arith
digit (suc zero) zero p q = refl
digit (suc zero) (suc zero) p q = refl
digit (suc zero) (suc (suc y)) p q = absurd (omega arith)
digit (suc (suc x)) y p q = absurd (omega arith)

pub zero-bit_xor : (b : ℕ) → bit_xor 0 b ≡ b
zero-bit_xor b = bit_xor-bitwise 0 b

pub bit_xor_step : (a b : ℕ) → bit_xor a b ≡ bit_xor (a / 2) (b / 2) * 2 + (a % 2 + b % 2) % 2
bit_xor_step zero b = omega (arith, zero-bit_xor b, zero-bit_xor (b / 2))
bit_xor_step (suc a) b = omega (
  arith,
  bit_xor-bitwise (suc a) b,
  bit_xor-bitwise (suc a / 2) (b / 2),
  enough (λ y. y) differ a (suc a / 2) (suc a / 2) (b / 2) (omega arith) (omega arith),
  digit (suc a % 2) (b % 2) (omega arith) (omega arith),
)

bit_xor_cancel_below : (n a b : ℕ) → a ≤ n → b ≤ n → bit_xor (bit_xor a b) b ≡ a
bit_xor_cancel_below zero zero zero p q = refl
bit_xor_cancel_below zero zero (suc b) p q = absurd (omega arith)
bit_xor_cancel_below zero (suc a) b p q = absurd (omega arith)
bit_xor_cancel_below (suc n) a b p q = ground (
  arith,
  bit_xor_step (bit_xor a b) b,
  bit_xor_step a b,
  bit_xor_cancel_below n (a / 2) (b / 2) (omega arith) (omega arith),
)

-- `x ^ m ^ m` is `x`.
pub bit_xor_cancel : (a b : ℕ) → bit_xor (bit_xor a b) b ≡ a
bit_xor_cancel a b = bit_xor_cancel_below (a + b) a b (omega arith) (omega arith)

bit_xor_comm_below : (n a b : ℕ) → a ≤ n → b ≤ n → bit_xor a b ≡ bit_xor b a
bit_xor_comm_below zero zero zero p q = refl
bit_xor_comm_below zero zero (suc b) p q = absurd (omega arith)
bit_xor_comm_below zero (suc a) b p q = absurd (omega arith)
bit_xor_comm_below (suc n) a b p q = omega (
  arith,
  bit_xor_step a b,
  bit_xor_step b a,
  bit_xor_comm_below n (a / 2) (b / 2) (omega arith) (omega arith),
)

pub bit_xor_comm : (a b : ℕ) → bit_xor a b ≡ bit_xor b a
bit_xor_comm a b = bit_xor_comm_below (a + b) a b (omega arith) (omega arith)

pub bit_xor-zero : (a : ℕ) → bit_xor a 0 ≡ a
bit_xor-zero a = omega (arith, bit_xor_comm a 0, zero-bit_xor a)

pub bit_xor_self : (a : ℕ) → bit_xor a a ≡ 0
bit_xor_self a = ground (arith, bit_xor_cancel 0 a, zero-bit_xor a)

-- Words of k bits stay words of k bits.
pub bit_xor-lt : (k a b : ℕ) → a < 2 ^ k → b < 2 ^ k → bit_xor a b < 2 ^ k
bit_xor-lt zero zero b p q = omega (arith, zero-bit_xor b)
bit_xor-lt zero (suc a) b p q = absurd (omega arith)
bit_xor-lt (suc k) a b p q = omega (
  arith,
  pow-suc 2 k,
  bit_xor_step a b,
  bit_xor-lt k (a / 2) (b / 2) (omega (arith, pow-suc 2 k)) (omega (arith, pow-suc 2 k)),
)

-- One binary digit of a conjunction.
pub bit_and_step : (m k : ℕ) → bit_and m k ≡ min (m % 2) (k % 2) + 2 * bit_and (m / 2) (k / 2)
bit_and_step zero k = omega (arith, bit_and-bitwise 0 (k / 2), bit_and-bitwise 0 k)
bit_and_step (suc m) k =
    let halves : ℕ = suc m / 2 in
    omega (
      arith,
      enough (λ y. 0) min m halves halves (k / 2) (omega arith) (omega arith),
      bit_and-bitwise halves (k / 2),
      bit_and-bitwise (suc m) k,
    )

bit_and-zero_below : (n a : ℕ) → a ≤ n → bit_and a 0 ≡ 0
bit_and-zero_below n zero h = refl
bit_and-zero_below zero (suc a) h = absurd (omega arith)
bit_and-zero_below (suc n) (suc a) h =
    omega (arith, bit_and_step (suc a) 0, bit_and-zero_below n (suc a / 2) (omega arith))

pub bit_and-zero : (a : ℕ) → bit_and a 0 ≡ 0
bit_and-zero a = bit_and-zero_below a a (omega arith)

-- A number with its quotient and remainder by 2^k in hand.
bit_and_parts : (k q r : ℕ) → r < 2 ^ k → bit_and (q * 2 ^ k + r) (2 ^ k - 1) ≡ r
bit_and_parts zero q r h = omega (arith, bit_and-zero (q * 1 + r))
bit_and_parts (suc k) q r h = ground (
  arith,
  bit_and_step (q * 2 ^ suc k + r) (2 ^ suc k - 1),
  pow-suc 2 k,
  one-le-pow k 2,
  ap (λ (t : ℕ). q * t) (pow-suc 2 k),
  bit_and_parts k q (r / 2) (omega (arith, pow-suc 2 k)),
)

-- `x & (2^k - 1)` is the remainder by `2^k`.
pub bit_and_mask : (k a : ℕ) → bit_and a (2 ^ k - 1) ≡ a % 2 ^ k
bit_and_mask k a = ground (arith, one-le-pow k 2, bit_and_parts k (a / 2 ^ k) (a % 2 ^ k))

zero-bit_or : (b : ℕ) → bit_or 0 b ≡ b
zero-bit_or b = bit_or-bitwise 0 b

pub bit_or_step : (a b : ℕ) → bit_or a b ≡ bit_or (a / 2) (b / 2) * 2 + max (a % 2) (b % 2)
bit_or_step zero b = omega (arith, zero-bit_or b, zero-bit_or (b / 2))
bit_or_step (suc a) b = omega (
  arith,
  bit_or-bitwise (suc a) b,
  bit_or-bitwise (suc a / 2) (b / 2),
  enough (λ y. y) max a (suc a / 2) (suc a / 2) (b / 2) (omega arith) (omega arith),
)

-- `(q << k) | r` is a sum where `r` fits k bits.
bit_or-zero_below : (n a : ℕ) → a ≤ n → bit_or a 0 ≡ a
bit_or-zero_below n zero h = refl
bit_or-zero_below zero (suc a) h = absurd (omega arith)
bit_or-zero_below (suc n) (suc a) h =
    omega (arith, bit_or_step (suc a) 0, bit_or-zero_below n (suc a / 2) (omega arith))

pub bit_or_shifted : (k q r : ℕ) → r < 2 ^ k → bit_or (q * 2 ^ k) r ≡ q * 2 ^ k + r
bit_or_shifted zero q r h = ground (arith, bit_or-zero_below q q (omega arith))
bit_or_shifted (suc k) q r h = ground (
  arith,
  bit_or_step (q * 2 ^ suc k) r,
  ap (λ (t : ℕ). q * t) (pow-suc 2 k),
  bit_or_shifted k q (r / 2) (omega (arith, pow-suc 2 k)),
)

div_halve : (k a : ℕ) → a / 2 ^ suc k ≡ a / 2 / 2 ^ k
div_halve k a = rw (pow-suc 2 k, div-div-eq-div-mul a 2 (2 ^ k), mul_comm 2 (2 ^ k))

mod_double : (p a : ℕ) → 0 < p → a % (2 * p) ≡ a / 2 % p * 2 + a % 2
mod_double p a h = grind arith

mod_halve : (k a : ℕ) → a % 2 ^ suc k ≡ a / 2 % 2 ^ k * 2 + a % 2
mod_halve k a =
    rw (pow-suc 2 k, mul_comm (2 ^ k) 2) (mod_double (2 ^ k) a (omega (arith, one-le-pow k 2)))

bit_xor_halve : (a b : ℕ) → bit_xor a b / 2 ≡ bit_xor (a / 2) (b / 2)
bit_xor_halve a b = omega (arith, bit_xor_step a b)

-- High and low parts of an exclusive or.
pub bit_xor-div : (k a b : ℕ) → bit_xor a b / 2 ^ k ≡ bit_xor (a / 2 ^ k) (b / 2 ^ k)
bit_xor-div zero a b = ground arith
bit_xor-div (suc k) a b =
    rw (div_halve k (bit_xor a b), div_halve k a, div_halve k b, bit_xor_halve a b)
      (bit_xor-div k (a / 2) (b / 2))

pub bit_xor-mod : (k a b : ℕ) → bit_xor a b % 2 ^ k ≡ bit_xor (a % 2 ^ k) (b % 2 ^ k)
bit_xor-mod zero a b = ground arith
bit_xor-mod (suc k) a b = ground (
  arith,
  mod_halve k (bit_xor a b),
  mod_halve k a,
  mod_halve k b,
  bit_xor_step a b,
  bit_xor_halve a b,
  bit_xor_step (a % 2 ^ suc k) (b % 2 ^ suc k),
  bit_xor-mod k (a / 2) (b / 2),
)
