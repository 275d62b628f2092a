-- ===== src/Fayt.antt =====
-- kernel/fayt, the support library, is a git submodule whose sources are not in the repository.
-- Its macros and containers enter the model as records of operations with documented laws.
pub mod Models
pub mod Tables
use rock.Base.{ℕ, ◌+◌, ◌*◌, ◌%◌, ◌^◌, ◌≤◌, ◌<◌, ◌≡◌, ◌⊎◌, Bool, true, false, ◌==◌, if◌then◌else◌}

-- fayt/bitmap.h: BIT_TEST, BIT_SET and BIT_CLEAR on a byte array.
pub record BitOps : Type 1 where
  pub Bits : Type 0
  pub bit_test : Bits → ℕ → Bool
  pub bit_set : Bits → ℕ → Bits
  pub bit_clear : Bits → ℕ → Bits
  pub test-set :
      (b : Bits) (i j : ℕ) → bit_test (bit_set b i) j ≡ (if i == j then true else bit_test b j)
  pub test-clear :
      (b : Bits) (i j : ℕ) → bit_test (bit_clear b i) j ≡ (if i == j then false else bit_test b j)

-- DIV_ROUNDUP and ALIGN_UP, which round as long as they do not wrap.
pub record Rounding : Type 0 where
  pub div_roundup : ℕ → ℕ → ℕ
  pub align_up : ℕ → ℕ → ℕ
  pub div_roundup_bounds :
      (a b : ℕ) → 0 < b → a + b < 2 ^ 64 → (a ≤ div_roundup a b * b) × (div_roundup a b * b < a + b)
  pub align_up_bounds :
      (a b : ℕ) → 0 < b → a + b < 2 ^ 64 → (a ≤ align_up a b) × (align_up a b < a + b)
  pub align_up-mod : (a b : ℕ) → 0 < b → a + b < 2 ^ 64 → align_up a b % b ≡ 0

-- `memset64` of fayt/string.h on the machine's memory, which is read a `uint64_t` at a time.
pub record MemOps : Type 1 where
  pub Mem : Type 0
  pub load64 : Mem → ℕ → ℕ
  pub store64 : Mem → ℕ → ℕ → Mem
  pub memset64 : Mem → ℕ → ℕ → ℕ → Mem
  pub load-store :
      (m : Mem) (p v q : ℕ)
      → p % 8 ≡ 0
      → q % 8 ≡ 0
      → load64 (store64 m p v) q ≡ (if p == q then v else load64 m q)
  pub load-memset_inside :
      (m : Mem) (p v n k : ℕ) → k < n → load64 (memset64 m p v n) (p + 8 * k) ≡ v
  pub load-memset_outside :
      (m : Mem) (p v n q : ℕ)
      → (q + 8 ≤ p) ⊎ (p + 8 * n ≤ q)
      → load64 (memset64 m p v n) q ≡ load64 m q
