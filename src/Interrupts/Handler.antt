-- ===== src/Interrupts/Handler.antt =====
-- kernel/arch/x86/idt.c: isr_handler_main, which the stubs of isr.asm call.
-- Of a core the model has whether the GS base is the kernel's, which `swapgs` exchanges, the lock
-- on the output and the number of ends of interrupt written; `rest` is all else. A handler gets the
-- registers and may change them. portal_resolve_fault is a parameter; what is printed is left out.
use rock.Base.{
  ℕ, ◌+◌, bit_and, Bool, not, none, some, List, ltb, ◌==◌, if◌then◌else◌, get_elem?, Run, ok, fault,
  deadlock, ◌>>=◌,
}
use rock.Interrupts.{Vector}

pub record Registers : Type 0 where
  pub r15 : ℕ
  pub r14 : ℕ
  pub r13 : ℕ
  pub r12 : ℕ
  pub r11 : ℕ
  pub r10 : ℕ
  pub r9 : ℕ
  pub r8 : ℕ
  pub rsi : ℕ
  pub rdi : ℕ
  pub rbp : ℕ
  pub rdx : ℕ
  pub rcx : ℕ
  pub rbx : ℕ
  pub rax : ℕ
  pub isr_number : ℕ
  pub error_code : ℕ
  pub rip : ℕ
  pub cs : ℕ
  pub rflags : ℕ
  pub rsp : ℕ
  pub ss : ℕ

-- registers that are all 0
abbrev pub zero_registers : Registers
zero_registers = record {
  r15 = 0;
  r14 = 0;
  r13 = 0;
  r12 = 0;
  r11 = 0;
  r10 = 0;
  r9 = 0;
  r8 = 0;
  rsi = 0;
  rdi = 0;
  rbp = 0;
  rdx = 0;
  rcx = 0;
  rbx = 0;
  rax = 0;
  isr_number = 0;
  error_code = 0;
  rip = 0;
  cs = 0;
  rflags = 0;
  rsp = 0;
  ss = 0;
}

pub record Core (W : Type 0) : Type 0 where
  pub kernel_gs : Bool
  pub exception_lock : Bool
  pub ends : ℕ
  pub cr2 : ℕ
  pub rest : W

-- the handler returns to the stub, or stops the core for good
pub data Handled (W : Type 0) : Type 0 where
  returned : Registers → Core W → Handled W
  halted : Core W → Handled W

-- `regs->cs & 0x3`
abbrev pub from_user : Registers → Bool
from_user regs = not (bit_and regs.cs 0x3 == 0)

module _ (W : Type 0) where
  -- `handler(regs, ptr)`
  abbrev pub VectorHandler : Type 0
  VectorHandler = Registers → ℕ → Core W → Run (Registers × Core W)

  abbrev pub swapgs : Core W → Core W
  swapgs c = record c { kernel_gs = not c.kernel_gs }

  module _ (resolve_fault : ℕ → ℕ → Core W → Run (ℕ × Core W)) where
    -- from `done` on
    unfoldable pub done : Registers → Core W → Handled W
    done regs c =
        let left = if from_user regs then swapgs c else c in
        returned regs (record left { ends = left.ends + 1 })

    -- the report of an exception, after which the core halts
    unfoldable pub report : Core W → Run (Handled W)
    report c = if c.exception_lock then deadlock else ok (halted c)

    unfoldable pub handle_exception : Registers → Core W → Run (Handled W)
    handle_exception regs c =
        if regs.isr_number == 0xe
        then (resolve_fault c.cr2 regs.error_code c >>= λ r.
            if r.0 == 0 then ok (done regs r.1) else report r.1)
        else report c

    unfoldable pub handle_vector :
        List (Vector VectorHandler) → Registers → Core W → Run (Handled W)
    handle_vector vectors regs c = elim (get_elem? vectors regs.isr_number) [
      | none ↦ fault
      | some v ↦ elim v.handler [
        | none ↦ ok (done regs c)
        | some handler ↦ handler regs v.ptr c >>= λ r. ok (done r.0 r.1)
      ]
    ]

    unfoldable pub isr_handler_main :
        List (Vector VectorHandler) → Registers → Core W → Run (Handled W)
    isr_handler_main vectors regs c =
        let entered = if from_user regs then swapgs c else c in
        if ltb regs.isr_number 32
        then handle_exception regs entered
        else handle_vector vectors regs entered
