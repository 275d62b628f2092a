-- ===== src/Base/Words.antt =====
-- Unsigned 64-bit arithmetic with its wrap-around.
use Prim.Native.Nat.{ℕ, zero, suc, ◌/◌, ◌+◌, ◌-◌, ◌*◌, ◌%◌, ◌^◌}
use mathlib.Core.Bool.{Bool}
use mathlib.Core.List.{List, [], ◌∷◌}
use rock.Base.Tests.{ltb, if◌then◌else◌}

abbrev pub add64 : ℕ → ℕ → ℕ
add64 a b = (a + b) % 2 ^ 64

abbrev pub sub64 : ℕ → ℕ → ℕ
sub64 a b = (a + 2 ^ 64 - b) % 2 ^ 64

abbrev pub mul64 : ℕ → ℕ → ℕ
mul64 a b = (a * b) % 2 ^ 64

-- -1 as a `uint64_t`
abbrev pub minus_one : ℕ
minus_one = 2 ^ 64 - 1

-- An `int` is its 32 bits: its conversion to 64 bits, and its order.
abbrev pub sign_extend : ℕ → ℕ
sign_extend x = if ltb x (2 ^ 31) then x else x + (2 ^ 64 - 2 ^ 32)

abbrev pub int_lt : ℕ → ℕ → Bool
int_lt a b = ltb ((a + 2 ^ 31) % 2 ^ 32) ((b + 2 ^ 31) % 2 ^ 32)

-- -1 as an `int`
abbrev pub minus_one_int : ℕ
minus_one_int = 2 ^ 32 - 1

-- kernel/arch/x86/cpu.h: `PAGE_SIZE`
abbrev pub page_size : ℕ
page_size = 0x1000

-- the little-endian bytes of a number of that many bytes
abbrev pub bytes_of : ℕ → ℕ → List ℕ
bytes_of zero x = []
bytes_of (suc n) x = x % 256 ∷ bytes_of n (x / 256)
