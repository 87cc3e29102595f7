-- ===== src/Base/Bits.antt =====
-- Masks, shifts and disjoint `|` on native numbers, at every width.
use Prim.Native.Nat.{
  ℕ, zero, suc, ◌+◌, ◌-◌, ◌*◌, ◌/◌, ◌%◌, ◌^◌, ◌≤◌, ◌<◌, min, max, bit_and, bit_or, digits,
  bit_and-bitwise, bit_or-bitwise,
}
use mathlib.Core.Path.{◌≡◌, refl, ap, subst, ◌∙◌}
use native.Mathlib.Nat.{
  zero-add, suc-add, pow-suc, pow-succ', one-le-pow, div-div-eq-div-mul, mod-add-div',
}
use native.Mathlib.Omega.{arith}

-- One round of fuel more than enough makes no difference to the digit recursion, nor do `d`.
module _ (z : ℕ → ℕ) (f : ℕ → ℕ → ℕ) where
  digits_one_more : (a k b : ℕ) → a ≤ k → digits z f (suc k) a b ≡ digits z f k a b
  digits_one_more zero zero b h = refl
  digits_one_more zero (suc k) b h = refl
  digits_one_more (suc a) zero b h = absurd (omega arith)
  digits_one_more (suc a) (suc k) b h =
      omega (arith, digits_one_more (suc a / 2) k (b / 2) (omega arith))

  digits_more : (d a k b : ℕ) → a ≤ k → digits z f (d + k) a b ≡ digits z f k a b
  digits_more zero a k b h = rw zero-add
  digits_more (suc d) a k b h =
      rw (suc-add) (digits_one_more a (d + k) b (omega arith) ∙ digits_more d a k b h)

  -- The fuel that a digit step leaves, `a`, against the fuel of the halved argument.
  digits_halved : (a b : ℕ) → digits z f a (suc a / 2) b ≡ digits z f (suc a / 2) (suc a / 2) b
  digits_halved a b =
      subst (λ n. digits z f n (suc a / 2) b ≡ digits z f (suc a / 2) (suc a / 2) b)
        (let e : a - suc a / 2 + suc a / 2 ≡ a = omega arith in e)
        (digits_more (a - suc a / 2) (suc a / 2) (suc a / 2) b (omega arith))

-- The lowest digit of `a | b`, and the rest.
pub bit_or-halves : (a b : ℕ) → bit_or a b ≡ bit_or (a / 2) (b / 2) * 2 + max (a % 2) (b % 2)
bit_or-halves zero b = omega (arith, bit_or-bitwise 0 b, bit_or-bitwise 0 (b / 2))
bit_or-halves (suc a) b = omega (
  arith,
  bit_or-bitwise (suc a) b,
  digits_halved (λ y. y) max a (b / 2),
  bit_or-bitwise (suc a / 2) (b / 2),
)

-- The lowest digit of `a & b`, and the rest.
pub bit_and-halves : (a b : ℕ) → bit_and a b ≡ bit_and (a / 2) (b / 2) * 2 + min (a % 2) (b % 2)
bit_and-halves zero b = omega (arith, bit_and-bitwise 0 b, bit_and-bitwise 0 (b / 2))
bit_and-halves (suc a) b = omega (
  arith,
  bit_and-bitwise (suc a) b,
  digits_halved (λ y. 0) min a (b / 2),
  bit_and-bitwise (suc a / 2) (b / 2),
)

pub zero-bit_or : (b : ℕ) → bit_or 0 b ≡ b
zero-bit_or b = bit_or-bitwise 0 b

zero-bit_and : (b : ℕ) → bit_and 0 b ≡ 0
zero-bit_and b = bit_and-bitwise 0 b

bit_and-zero_upto : (k a : ℕ) → a ≤ k → bit_and a 0 ≡ 0
bit_and-zero_upto k zero h = zero-bit_and 0
bit_and-zero_upto zero (suc a) h = absurd (omega arith)
bit_and-zero_upto (suc k) (suc a) h =
    omega (arith, bit_and-halves (suc a) 0, bit_and-zero_upto k (suc a / 2) (omega arith))

pub bit_and-zero : (a : ℕ) → bit_and a 0 ≡ 0
bit_and-zero a = bit_and-zero_upto a a (omega arith)

mul-pow-suc : (q k : ℕ) → q * 2 ^ suc k ≡ 2 * (q * 2 ^ k)
mul-pow-suc q k = omega (arith, ap (λ (t : ℕ). q * t) (pow-suc 2 k))

-- `r | (q << k)` is a sum where `r` has at most `k` bits.
pub bit_or-shifted : (k r q : ℕ) → r < 2 ^ k → bit_or r (q * 2 ^ k) ≡ r + q * 2 ^ k
bit_or-shifted zero r q h =
    rw (let e : r ≡ 0 = omega arith in e) (omega (arith, zero-bit_or (q * 2 ^ 0)))
bit_or-shifted (suc k) r q h = ground (
  arith,
  pow-suc 2 k,
  mul-pow-suc q k,
  bit_or-halves r (q * 2 ^ suc k),
  bit_or-shifted k (r / 2) q (omega (arith, pow-suc 2 k)),
)

div-pow-suc : (k a : ℕ) → a / 2 ^ suc k ≡ a / 2 / 2 ^ k
div-pow-suc k a = rw (pow-succ', div-div-eq-div-mul)

mod-pow-suc : (k a : ℕ) → a % 2 ^ suc k ≡ a / 2 % 2 ^ k * 2 + a % 2
mod-pow-suc k a = omega (
  arith,
  mod-add-div' a (2 ^ suc k),
  mod-add-div' (a / 2) (2 ^ k),
  ap (λ (q : ℕ). q * 2 ^ suc k) (div-pow-suc k a),
  mul-pow-suc (a / 2 / 2 ^ k) k,
)

-- A mask of the `k` low bits is the remainder.
pub bit_and-low_mask : (k a : ℕ) → bit_and a (2 ^ k - 1) ≡ a % 2 ^ k
bit_and-low_mask zero a = ground (arith, bit_and-zero a)
bit_and-low_mask (suc k) a = ground (
  arith,
  pow-suc 2 k,
  one-le-pow k 2,
  mod-pow-suc k a,
  bit_and-halves a (2 ^ suc k - 1),
  bit_and-low_mask k (a / 2),
)

-- A mask of bit `k` alone.
pub bit_and-pow : (k a : ℕ) → bit_and a (2 ^ k) ≡ a / 2 ^ k % 2 * 2 ^ k
bit_and-pow zero a = omega (arith, bit_and-halves a 1, bit_and-zero (a / 2))
bit_and-pow (suc k) a = ground (
  arith,
  pow-suc 2 k,
  div-pow-suc k a,
  mul-pow-suc (a / 2 / 2 ^ k % 2) k,
  bit_and-halves a (2 ^ suc k),
  bit_and-pow k (a / 2),
)
