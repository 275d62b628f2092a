-- ===== src/Base/Bits/Shift.antt =====
-- `&` with a shifted mask, and `|` above a shift. `half k` and `double k` are the shifts by `k`.
use Prim.Native.Nat.{ℕ, zero, suc, ◌+◌, ◌*◌, ◌/◌, ◌%◌, ◌^◌, ◌≤◌, ◌<◌, bit_and, bit_or}
use mathlib.Core.Path.{◌≡◌, refl, ap, ◌∙◌}
use native.Mathlib.Nat.{pow-suc}
use native.Mathlib.Omega.{arith}
use rock.Base.Bits.{bit}
use rock.Base.Bits.Step.{or_digit, and_digit}

abbrev pub half : ℕ → ℕ → ℕ
half zero x = x
half (suc k) x = half k (x / 2)

abbrev pub double : ℕ → ℕ → ℕ
double zero x = x
double (suc k) x = 2 * double k x

abbrev pub ones : ℕ → ℕ
ones zero = 0
ones (suc k) = 1 + 2 * ones k

-- equations by a bound on the number
and-zero_below : (n a : ℕ) → a ≤ n → bit_and a 0 ≡ 0
and-zero_below zero a h = rw (none h)
  where
    none : a ≤ 0 → a ≡ 0
    none h' = omega arith
and-zero_below (suc n) a h = omega (arith, and_digit a 0, and-zero_below n (a / 2) (omega arith))

pub bit_and-zero : (a : ℕ) → bit_and a 0 ≡ 0
bit_and-zero a = and-zero_below a a (omega arith)

or-zero_below : (n a : ℕ) → a ≤ n → bit_or a 0 ≡ a
or-zero_below zero a h = rw (none h)
  where
    none : a ≤ 0 → a ≡ 0
    none h' = omega arith
or-zero_below (suc n) a h = omega (arith, or_digit a 0, or-zero_below n (a / 2) (omega arith))

pub bit_or-zero : (a : ℕ) → bit_or a 0 ≡ a
bit_or-zero a = or-zero_below a a (omega arith)

pub bit_and-ones : (k a : ℕ) → a < 2 ^ k → bit_and a (ones k) ≡ a
bit_and-ones zero a h = bit_and-zero a ∙ omega arith
bit_and-ones (suc k) a h = omega (
  arith,
  and_digit a (ones (suc k)),
  ap (bit_and (a / 2)) rest,
  bit_and-ones k (a / 2) (omega (arith, pow-suc 2 k)),
)
  where
    rest : ones (suc k) / 2 ≡ ones k
    rest = omega arith

pub bit_and-bound : (k a : ℕ) → bit_and a (ones k) < 2 ^ k
bit_and-bound zero a = omega (arith, bit_and-zero a)
bit_and-bound (suc k) a = omega (
  arith,
  and_digit a (ones (suc k)),
  ap (bit_and (a / 2)) rest,
  bit_and-bound k (a / 2),
  pow-suc 2 k,
)
  where
    rest : ones (suc k) / 2 ≡ ones k
    rest = omega arith

-- A number is its low bits and the rest.
pub bit_and_split : (k x : ℕ) → x ≡ bit_and x (ones k) + double k (half k x)
bit_and_split zero x = omega (arith, bit_and-zero x)
bit_and_split (suc k) x =
    omega (arith, and_digit x (ones (suc k)), ap (bit_and (x / 2)) rest, bit_and_split k (x / 2))
  where
    rest : ones (suc k) / 2 ≡ ones k
    rest = omega arith

bit_and-twice : (x m : ℕ) → bit_and x (2 * m) ≡ 2 * bit_and (x / 2) m
bit_and-twice x m = omega (arith, and_digit x (2 * m), ap (bit_and (x / 2)) rest)
  where
    rest : 2 * m / 2 ≡ m
    rest = omega arith

pub bit_and-double : (k x m : ℕ) → bit_and x (double k m) ≡ double k (bit_and (half k x) m)
bit_and-double zero x m = refl
bit_and-double (suc k) x m =
    bit_and-twice x (double k m) ∙ ap (λ t. 2 * t) (bit_and-double k (x / 2) m)

pub bit_and-one : (x : ℕ) → bit_and x 1 ≡ x % 2
bit_and-one x = omega (arith, and_digit x 1, bit_and-zero (x / 2))

-- `x & (1 << k)` is bit `k` in its place.
pub bit_and-flag : (k x : ℕ) → bit_and x (double k 1) ≡ double k (bit k x)
bit_and-flag zero x = bit_and-one x
bit_and-flag (suc k) x = bit_and-twice x (double k 1) ∙ ap (λ t. 2 * t) (bit_and-flag k (x / 2))

or_half : (a b : ℕ) → bit_or a b / 2 ≡ bit_or (a / 2) (b / 2)
or_half a b = omega (arith, or_digit a b)

and_half : (a b : ℕ) → bit_and a b / 2 ≡ bit_and (a / 2) (b / 2)
and_half a b = omega (arith, and_digit a b)

pub half-bit_or : (k a b : ℕ) → half k (bit_or a b) ≡ bit_or (half k a) (half k b)
half-bit_or zero a b = refl
half-bit_or (suc k) a b = ap (half k) (or_half a b) ∙ half-bit_or k (a / 2) (b / 2)

pub half-bit_and : (k a b : ℕ) → half k (bit_and a b) ≡ bit_and (half k a) (half k b)
half-bit_and zero a b = refl
half-bit_and (suc k) a b = ap (half k) (and_half a b) ∙ half-bit_and k (a / 2) (b / 2)
