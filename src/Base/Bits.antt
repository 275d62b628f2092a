-- ===== src/Base/Bits.antt =====
-- Single bits of `&` and `|`, as arithmetic.
mod Step
pub mod Shift
pub mod Flag
pub mod Low
pub mod Page
use Step.{or_digit, and_digit}
use Prim.Native.Nat.{
  ℕ, zero, suc, ◌+◌, ◌-◌, ◌*◌, ◌/◌, ◌%◌, ◌^◌, ◌≤◌, ◌<◌, min, max, bit_and, bit_or,
}
use mathlib.Core.Path.{◌≡◌, refl, ap, ◌∙◌}
use native.Mathlib.Nat.{pow-suc, one-le-pow}
use native.Mathlib.Omega.{arith}

-- bit `k` of `x`, 0 or 1
abbrev pub bit : ℕ → ℕ → ℕ
bit zero x = x % 2
bit (suc k) x = bit k (x / 2)

pub bit-le : (k x : ℕ) → bit k x ≤ 1
bit-le zero x = omega arith
bit-le (suc k) x = bit-le k (x / 2)

pub bit-bit_or : (k a b : ℕ) → bit k (bit_or a b) ≡ max (bit k a) (bit k b)
bit-bit_or zero a b = omega (arith, or_digit a b)
bit-bit_or (suc k) a b = ap (bit k) (half (or_digit a b)) ∙ bit-bit_or k (a / 2) (b / 2)
  where
    half :
        bit_or a b ≡ max (a % 2) (b % 2) + 2 * bit_or (a / 2) (b / 2)
        → bit_or a b / 2 ≡ bit_or (a / 2) (b / 2)
    half e = omega arith

pub bit-bit_and : (k a b : ℕ) → bit k (bit_and a b) ≡ min (bit k a) (bit k b)
bit-bit_and zero a b = omega (arith, and_digit a b)
bit-bit_and (suc k) a b = ap (bit k) (half (and_digit a b)) ∙ bit-bit_and k (a / 2) (b / 2)
  where
    half :
        bit_and a b ≡ min (a % 2) (b % 2) + 2 * bit_and (a / 2) (b / 2)
        → bit_and a b / 2 ≡ bit_and (a / 2) (b / 2)
    half e = omega arith
