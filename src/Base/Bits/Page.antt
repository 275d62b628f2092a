-- ===== src/Base/Bits/Page.antt =====
-- The masks of a page.
use Prim.Native.Nat.{ℕ, ◌*◌, ◌/◌, ◌%◌, ◌-◌, ◌^◌, ◌<◌, bit_and}
use mathlib.Core.Path.{◌≡◌, ◌∙◌}
use native.Mathlib.Omega.{arith}
use rock.Base.Bits.Shift.{half, ones, bit_and-ones, bit_and_split, bit_and-bound, bit_and-double}

half-page : (x : ℕ) → half 12 x ≡ x / 4096
half-page x = omega arith

pub bit_and-offset : (x : ℕ) → bit_and x 4095 ≡ x % 4096
bit_and-offset x = omega (arith, bit_and_split 12 x, bit_and-bound 12 x)

pub bit_and-floor : (x : ℕ) → x < 2 ^ 64 → bit_and x (2 ^ 64 - 4096) ≡ 4096 * (x / 4096)
bit_and-floor x h =
    let low : bit_and (half 12 x) (ones 52) ≡ half 12 x =
      bit_and-ones 52 (half 12 x) (omega arith) in
    bit_and-double 12 x (ones 52) ∙ rw low (omega arith)

pub bit_and-floor16 : (x : ℕ) → x < 2 ^ 64 → bit_and x (2 ^ 64 - 16) ≡ 16 * (x / 16)
bit_and-floor16 x h =
    let low : bit_and (half 4 x) (ones 60) ≡ half 4 x = bit_and-ones 60 (half 4 x) (omega arith) in
    bit_and-double 4 x (ones 60) ∙ rw low (omega arith)
