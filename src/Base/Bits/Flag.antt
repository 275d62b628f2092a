-- ===== src/Base/Bits/Flag.antt =====
-- The test of a flag `x & (1 << k)`, and a conversion to 32 bits.
use native.Mathlib.Nat.{pow-suc, one-le-pow}
use Prim.Native.Nat.{ℕ, zero, suc, ◌*◌, ◌^◌, bit_and}
use mathlib.Core.Path.{◌≡◌}
use mathlib.Core.Logic.{◌≢◌, ◌⊎◌, inl, inr}
use mathlib.Core.Bool.{true, false}
use native.Mathlib.Omega.{arith}
use rock.Base.Tests.{◌==◌}
use rock.Base.Bits.{bit, bit-le}
use rock.Base.Bits.Shift.{double, bit_and-flag}

double_pow : (k b : ℕ) → double k b ≡ 2 ^ k * b
double_pow zero b = omega arith
double_pow (suc k) b = grind (arith, double_pow k b, pow-suc 2 k)

pub bit_and-pow : (k x : ℕ) → bit_and x (2 ^ k) ≡ 2 ^ k * bit k x
bit_and-pow k x = grind (arith, bit_and-flag k x, double_pow k 1, double_pow k (bit k x))

pub bit_cases : (k x : ℕ) → (bit k x ≡ 0) ⊎ (bit k x ≡ 1)
bit_cases k x = ground (arith, bit-le k x)

flag_none : (k x : ℕ) → bit k x ≡ 0 → bit_and x (2 ^ k) ≡ 0
flag_none k x e = grind (arith, bit_and-pow k x)

flag_some : (k x : ℕ) → bit k x ≡ 1 → bit_and x (2 ^ k) ≢ 0
flag_some k x e zero_flag =
    absurd (grind (arith, bit_and-pow k x, one-le-pow k 2 (omega arith), zero_flag))

pub test_of_clear : (k x : ℕ) → bit k x ≡ 0 → (bit_and x (2 ^ k) == 0) ≡ true
test_of_clear k x e = ground (arith, flag_none k x e)

pub test_of_set : (k x : ℕ) → bit k x ≡ 1 → (bit_and x (2 ^ k) == 0) ≡ false
test_of_set k x e = ground (arith, flag_some k x e)

pub bit_of_set : (k x : ℕ) → (bit_and x (2 ^ k) == 0) ≡ false → bit k x ≡ 1
bit_of_set k x h = elim (bit_cases k x) [
  | inl e ↦ absurd (ground (arith, flag_none k x e))
  | inr e ↦ e
]

pub bit_of_clear : (k x : ℕ) → (bit_and x (2 ^ k) == 0) ≡ true → bit k x ≡ 0
bit_of_clear k x h = elim (bit_cases k x) [
  | inl e ↦ e
  | inr e ↦ absurd (flag_some k x e (ground arith))
]
