-- ===== src/Base/Bits/Low.antt =====
-- The low bits of a word: conversion to 32 bits, and a flag that is set.
use native.Mathlib.Nat.{pow-suc}
use Prim.Native.Nat.{ℕ, zero, suc, ◌+◌, ◌-◌, ◌*◌, ◌/◌, ◌%◌, ◌^◌, ◌≤◌, ◌<◌, bit_and, bit_or}
use mathlib.Core.Path.{◌≡◌, refl, sym, ap, ◌∙◌}
use mathlib.Core.Logic.{◌≢◌}
use native.Mathlib.Omega.{arith}
use rock.Base.Bits.{bit, bit-le, bit-bit_and}
use rock.Base.Bits.Step.{or_digit, and_digit}
use rock.Base.Bits.Shift.{double, ones, bit_and-zero, bit_and_split, bit_and-bound}
use rock.Base.Words.{sign_extend}

pub int-bit_and : (x : ℕ) → x % 2 ^ 32 ≡ bit_and x (ones 32)
int-bit_and x = omega (arith, bit_and_split 32 x, bit_and-bound 32 x)

bit-ones : (k w : ℕ) → k < w → bit k (ones w) ≡ 1
bit-ones zero zero h = absurd (omega arith)
bit-ones zero (suc w) h = omega arith
bit-ones (suc k) zero h = absurd (omega arith)
bit-ones (suc k) (suc w) h = ap (bit k) rest ∙ bit-ones k w (omega arith)
  where
    rest : ones (suc w) / 2 ≡ ones w
    rest = omega arith

-- A conversion to an `int` keeps the low 32 bits, and so does one back.
pub bit-int : (k x : ℕ) → k < 32 → bit k (x % 2 ^ 32) ≡ bit k x
bit-int k x h =
    ap (bit k) (int-bit_and x)
    ∙ omega (arith, bit-bit_and k x (ones 32), bit-ones k 32 h, bit-le k x)

pub bit-sign_extend : (k x : ℕ) → x < 2 ^ 32 → k < 32 → bit k (sign_extend x) ≡ bit k x
bit-sign_extend k x b h = sym (bit-int k (sign_extend x) h) ∙ ap (bit k) back
  where
    back : sign_extend x % 2 ^ 32 ≡ x
    back = ground arith

double-half_two : (j m : ℕ) → double (suc j) m / 2 ≡ double j m
double-half_two j m = omega arith

bit-zero : (k : ℕ) → bit k 0 ≡ 0
bit-zero zero = refl
bit-zero (suc k) = bit-zero k

double-pow : (k : ℕ) → double k 1 ≡ 2 ^ k
double-pow zero = refl
double-pow (suc k) = omega (arith, double-pow k, pow-suc 2 k)

bit-double_self : (k : ℕ) → bit k (double k 1) ≡ 1
bit-double_self zero = refl
bit-double_self (suc k) = ap (bit k) (double-half_two k 1) ∙ bit-double_self k

bit-double_ne : (k j : ℕ) → k ≢ j → bit k (double j 1) ≡ 0
bit-double_ne zero zero h = absurd (h refl)
bit-double_ne zero (suc j) h = omega arith
bit-double_ne (suc k) zero h = bit-zero k
bit-double_ne (suc k) (suc j) h =
    ap (bit k) (double-half_two j 1) ∙ bit-double_ne k j (λ e. h (ap suc e))

pub bit-pow_self : (k : ℕ) → bit k (2 ^ k) ≡ 1
bit-pow_self k = ap (bit k) (sym (double-pow k)) ∙ bit-double_self k

pub bit-pow_ne : (k j : ℕ) → k ≢ j → bit k (2 ^ j) ≡ 0
bit-pow_ne k j h = ap (bit k) (sym (double-pow j)) ∙ bit-double_ne k j h

-- What is set above bit `k` does not show below it.
or_low : (k a m : ℕ) → bit_and (bit_or a (double k m)) (ones k) ≡ bit_and a (ones k)
or_low zero a m = bit_and-zero (bit_or a m) ∙ sym (bit_and-zero a)
or_low (suc k) a m = omega (
  arith,
  and_digit whole (ones (suc k)),
  and_digit a (ones (suc k)),
  ap (bit_and (whole / 2)) rest,
  ap (bit_and (a / 2)) rest,
  ap (λ t. bit_and t (ones k)) above,
  or_low k (a / 2) m,
  or_digit a (double (suc k) m),
)
  where
    whole : ℕ
    whole = bit_or a (double (suc k) m)

    rest : ones (suc k) / 2 ≡ ones k
    rest = omega arith

    two : double (suc k) m / 2 ≡ double k m
    two = omega arith

    above : whole / 2 ≡ bit_or (a / 2) (double k m)
    above = omega (arith, or_digit a (double (suc k) m), ap (bit_or (a / 2)) two)

pow_high : (s : ℕ) → 2 ^ (32 + s) ≡ 2 ^ 32 * 2 ^ s
pow_high zero = refl
pow_high (suc s) = ap (λ t. 2 ^ t) e ∙ omega (arith, pow-suc 2 (32 + s), pow_high s, pow-suc 2 s)
  where
    e : 32 + suc s ≡ suc (32 + s)
    e = omega arith

pub int-or_high : (x n : ℕ) → 32 ≤ n → bit_or x (2 ^ n) % 2 ^ 32 ≡ x % 2 ^ 32
int-or_high x n h =
    ap (λ t. bit_or x t % 2 ^ 32) shape
    ∙ int-bit_and (bit_or x (double 32 (2 ^ (n - 32))))
    ∙ or_low 32 x (2 ^ (n - 32))
    ∙ sym (int-bit_and x)
  where
    shape : 2 ^ n ≡ double 32 (2 ^ (n - 32))
    shape = ap (λ t. 2 ^ t) (omega arith) ∙ pow_high (n - 32) ∙ omega arith
