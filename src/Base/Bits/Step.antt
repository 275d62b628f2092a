-- ===== src/Base/Bits/Step.antt =====
-- The lowest binary digit of `&` and `|`. The libraries define both by a digit recursion on fuel;
-- the fuel is dropped here.
use Prim.Native.Nat.{ℕ, zero, suc, ◌+◌, ◌-◌, ◌*◌, ◌/◌, ◌%◌, ◌≤◌, min, max, digits, bitwise}
use Prim.Native.Nat.{bit_and, bit_or, bit_and-bitwise, bit_or-bitwise}
use mathlib.Core.Path.{◌≡◌, refl, sym, ap, ◌∙◌}
use native.Mathlib.Omega.{arith}

module _ (rest : ℕ → ℕ) (digit : ℕ → ℕ → ℕ) where
  -- what is left when the first number has run out does not depend on the fuel
  digits-zero : (fuel b : ℕ) → digits rest digit fuel 0 b ≡ digits rest digit 0 0 b
  digits-zero zero b = refl
  digits-zero (suc fuel) b = refl

  -- one more unit of fuel than the first number needs changes nothing
  digits-more :
      (fuel a b : ℕ) → a ≤ fuel → digits rest digit (suc fuel) a b ≡ digits rest digit fuel a b
  digits-more fuel zero b enough = digits-zero (suc fuel) b ∙ sym (digits-zero fuel b)
  digits-more zero (suc a) b enough = absurd (omega arith)
  digits-more (suc fuel) (suc a) b enough = rw (digits-more fuel (suc a / 2) (b / 2) (omega arith))

  digits-add : (spare a b : ℕ) → digits rest digit (spare + a) a b ≡ digits rest digit a a b
  digits-add zero a b = rw (empty a)
    where
      empty : (n : ℕ) → 0 + n ≡ n
      empty n = omega arith
  digits-add (suc spare) a b =
      rw (carry a) (digits-more (spare + a) a b (omega arith) ∙ digits-add spare a b)
    where
      carry : (n : ℕ) → suc spare + n ≡ suc (spare + n)
      carry n = omega arith

  lowest :
      (a b : ℕ)
      → bitwise rest digit (suc a) b
        ≡ digit (suc a % 2) (b % 2) + 2 * bitwise rest digit (suc a / 2) (b / 2)
  lowest a b = omega (
    arith,
    ap (λ n. digits rest digit n (suc a / 2) (b / 2)) fits
        ∙ digits-add (a - suc a / 2) (suc a / 2) (b / 2),
  )
    where
      fits : a ≡ a - suc a / 2 + suc a / 2
      fits = omega arith

-- the digit laws, lowest digit first
pub and_digit : (x y : ℕ) → bit_and x y ≡ min (x % 2) (y % 2) + 2 * bit_and (x / 2) (y / 2)
and_digit zero y = omega (arith, bit_and-bitwise 0 y, bit_and-bitwise 0 (y / 2))
and_digit (suc x) y = simp bit_and-bitwise (lowest (λ left. 0) min x y)

pub or_digit : (x y : ℕ) → bit_or x y ≡ max (x % 2) (y % 2) + 2 * bit_or (x / 2) (y / 2)
or_digit zero y = omega (arith, bit_or-bitwise 0 y, bit_or-bitwise 0 (y / 2))
or_digit (suc x) y = simp bit_or-bitwise (lowest (λ left. left) max x y)
