-- ===== src/Syscall/Dispatch.antt =====
-- Every call is refused, faults, or is that of its handler.
use native.Mathlib.Decide.{dec_lt}
use rock.Base.{
  sign_extend, ℕ, zero, suc, ◌%◌, ◌^◌, ◌≤◌, ◌<◌, ◌≡◌, refl, bit_and, true, false, Option, none,
  some, List, [], ◌∷◌, map, ◌==◌, if◌then◌else◌, ◌⊎◌, inl, inr, leb, length, get_elem?, minus_one,
  Run, ok, fault, Bool-cases, arith, bit,
}
use rock.Base.Bits.Flag.{bit_of_set, bit_of_clear}
use rock.Syscall.{Handler, handlers, Machine, syscall_handler}

entry_there :
    {A : Type 0} (xs : List A) (i : ℕ)
    → i < length xs
    → (x : A) × (get_elem? xs i ≡ some x) × (get_elem? (map some xs) i ≡ some (some x))
entry_there [] i h = absurd (omega arith)
entry_there (x ∷ xs) zero h = (x, refl, refl)
entry_there (x ∷ xs) (suc i) h = entry_there xs i (omega arith)

Option-cases : {A : Type 0} (o : Option A) → (o ≡ none) ⊎ ((x : A) × (o ≡ some x))
Option-cases none = inl refl
Option-cases (some x) = inr (x, refl)

same_result : (e : ℕ) → (if e == 0 then (if e == 0 then 0 else e) else e) ≡ e
same_result e = ground arith

module _ (W : Type 0) (handler : Handler → Machine W → ℕ × Machine W) where
  -- the four ways in which a call ends
  pub data Outcome (rax : ℕ) (m : Machine W) : Run (ℕ × Machine W) → Type 0 where
    unknown : 8 ≤ rax % 2 ^ 32 → Outcome rax m (ok (minus_one, record m { error = 0 }))
    no_context : rax % 2 ^ 32 < 8 → m.sysperm ≡ none → Outcome rax m fault
    denied :
        (perm : ℕ)
        → rax % 2 ^ 32 < 8
        → m.sysperm ≡ some perm
        → bit (rax % 2 ^ 32) perm ≡ 1
        → Outcome rax m (ok (minus_one, record m { error = 0 }))
    called :
        (perm : ℕ) (h : Handler)
        → rax % 2 ^ 32 < 8
        → m.sysperm ≡ some perm
        → bit (rax % 2 ^ 32) perm ≡ 0
        → get_elem? handlers (rax % 2 ^ 32) ≡ some h
        → Outcome rax m (
            ok (
              sign_extend (handler h m).0,
              record (handler h m).1 { error = sign_extend (handler h m).0 },
            ))

  beyond : (rax : ℕ) → 8 ≤ rax % 2 ^ 32 → leb 8 (sign_extend (rax % 2 ^ 32)) ≡ true
  beyond rax h = ground arith

  within : (rax : ℕ) → rax % 2 ^ 32 < 8 → leb 8 (sign_extend (rax % 2 ^ 32)) ≡ false
  within rax h = ground arith

  Outcome-near :
      (rax error : ℕ) (sysperm : Option ℕ) (rest : W)
      → rax % 2 ^ 32 < 8
      → let m : Machine W = record { error = error; sysperm = sysperm; rest = rest } in
        Outcome rax m (syscall_handler W handler rax m)
  unfolding syscall_handler
  Outcome-near rax error none rest near =
      rw (syscall_handler, within rax near) (no_context near refl)
  Outcome-near rax error (some perm) rest near =
      elim (Bool-cases (bit_and perm (2 ^ (rax % 2 ^ 32)) == 0)) [
        | inr set ↦
            rw (syscall_handler, within rax near, set)
              (denied perm near refl (bit_of_set _ perm set))
        | inl clear ↦
            let (h, listed, there) = entry_there handlers (rax % 2 ^ 32) near in
            rw (syscall_handler, within rax near, clear, there, same_result)
              (called perm h near refl (bit_of_clear _ perm clear) listed)
      ]

  -- Every system call ends in one of four ways. It returns -1 with the error cleared where the low 32
  -- bits of `rax` are no index of the table, a negative int included, or where the bit of that index
  -- is set in the context's permissions; it panics with no context; else the handler that the table
  -- names runs, and its result is returned and kept as the error, sign-extended.
  pub syscall_handler-Outcome :
      (rax : ℕ) (m : Machine W) → Outcome rax m (syscall_handler W handler rax m)
  unfolding syscall_handler
  syscall_handler-Outcome rax m = elim (dec_lt (rax % 2 ^ 32) 8) [
    | no far ↦ rw (syscall_handler, beyond rax (omega arith)) (unknown (omega arith))
    | yes near ↦ Outcome-near rax m.error m.sysperm m.rest near
  ]
