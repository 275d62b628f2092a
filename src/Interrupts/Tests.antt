-- ===== src/Interrupts/Tests.antt =====
-- A table of three vectors of which the first two are taken, and one descriptor.
use rock.Base.{
  Leaves, Leaves-ok, subst, true, false, ok, ◌+◌, ◌*◌, ℕ, zero, suc, ◌%◌, ◌^◌, ◌≡◌, ◌≢◌, refl, ◌⊎◌,
  none, some, List, [], ◌∷◌, length, get_elem?, arith,
}
use rock.Interrupts.{IdtDescriptor, set_idt_descriptor, Vector, alloc_vector_from, idt_alloc_vector}
use rock.Interrupts.Descriptors.{offset_of, set_idt_descriptor_lem}
use rock.Interrupts.Init.{idt_init}
use rock.Interrupts.Gates.{Gate, idt_init-Gate}
use rock.Interrupts.Handler.{Registers, Core, VectorHandler, isr_handler_main}
use rock.Interrupts.Handling.{Fits, isr_handler_main-Fits}
use rock.Interrupts.Vectors.{Takes, Full, idt_alloc_vector_outcome}

abbrev taken : Vector Unit
taken = record { handler = none; ptr = 0; reserved = 1 }

abbrev vectors : List (Vector Unit)
vectors = taken ∷ taken ∷ record { handler = none; ptr = 0; reserved = 0 } ∷ []

idt_alloc_vector_outcome_example :
    Takes tt 7 0 vectors (idt_alloc_vector tt 7 vectors)
    ⊎ Full tt 7 vectors (idt_alloc_vector tt 7 vectors)
idt_alloc_vector_outcome_example = idt_alloc_vector_outcome tt 7 vectors

takes_third : (idt_alloc_vector tt 7 vectors).0 ≡ 2
unfolding idt_alloc_vector alloc_vector_from
takes_third = refl

abbrev empty_idt : ℕ → List IdtDescriptor
empty_idt zero = []
empty_idt (suc n) =
    record {
      offset_low = 0;
      cs = 0;
      ist = 0;
      attributes = 0;
      offset_mid = 0;
      offset_high = 0;
      reserved_word = 0;
    }
    ∷ empty_idt n

length-empty_idt : (n : ℕ) → length (empty_idt n) ≡ n
length-empty_idt zero = refl
length-empty_idt (suc n) = omega (arith, length-empty_idt n)

set_idt_descriptor_lem_example :
    ((d : IdtDescriptor) × (get_elem?
          (set_idt_descriptor (empty_idt 256) 0x28 0 0x8e 0xffffffff80001234 14)
          14
        ≡ some d)
      × (offset_of d ≡ 0xffffffff80001234)
      × (d.cs ≡ 0x28 % 2 ^ 16)
      × (d.attributes ≡ 0x8e % 2 ^ 8))
    × ((j : ℕ)
        → j ≢ 14
        → get_elem? (set_idt_descriptor (empty_idt 256) 0x28 0 0x8e 0xffffffff80001234 14) j
          ≡ get_elem? (empty_idt 256) j)
set_idt_descriptor_lem_example =
    set_idt_descriptor_lem (empty_idt 256) 0x28 0 0x8e 0xffffffff80001234 14 (length-empty_idt 256)
      (omega arith) (omega arith)

abbrev free_vectors : ℕ → List (Vector Unit)
free_vectors zero = []
free_vectors (suc n) = record { handler = none; ptr = 0; reserved = 0 } ∷ free_vectors n

length-free_vectors : (n : ℕ) → length (free_vectors n) ≡ n
length-free_vectors zero = refl
length-free_vectors (suc n) = omega (arith, length-free_vectors n)

abbrev stub : ℕ → ℕ
stub i = (0xffffffff80000000 + 16 * i) % 2 ^ 64

idt_init-Gate_example :
    Gate (get_elem? (idt_init stub tt 0x9000 (free_vectors 256) (empty_idt 256)).1 14) (stub 14)
idt_init-Gate_example =
    idt_init-Gate stub (λ i. omega arith) tt 0x9000 (free_vectors 256) (empty_idt 256) 14
      (length-empty_idt 256) (omega arith)

-- registers of kernel code at vector 32
abbrev at_timer : Registers
at_timer = record {
  r15 = 0;
  r14 = 0;
  r13 = 0;
  r12 = 0;
  r11 = 0;
  r10 = 0;
  r9 = 0;
  r8 = 0;
  rsi = 0;
  rdi = 0;
  rbp = 0;
  rdx = 0;
  rcx = 0;
  rbx = 0;
  rax = 0;
  isr_number = 32;
  error_code = 0;
  rip = 0xffffffff80001000;
  cs = 0x28;
  rflags = 0x202;
  rsp = 0xffffffff90000000;
  ss = 0x30;
}

abbrev core : Core Unit
core = record { kernel_gs = true; exception_lock = false; ends = 0; cr2 = 0; rest = tt }

-- a switch to a context of user code
abbrev switch : VectorHandler Unit
switch = λ regs ptr c. ok (record regs { cs = 0x43; rip = 0x400000 }, c)

abbrev timer_vectors : ℕ → List (Vector (VectorHandler Unit))
timer_vectors zero = record { handler = some switch; ptr = 0; reserved = 1 } ∷ []
timer_vectors (suc n) = record { handler = none; ptr = 0; reserved = 1 } ∷ timer_vectors n

timer_handlers :
    (n i : ℕ) (v : Vector (VectorHandler Unit)) (h : VectorHandler Unit)
    → get_elem? (timer_vectors n) i ≡ some v
    → v.handler ≡ some h
    → (regs : Registers) (ptr : ℕ) (c : Core Unit) → c.kernel_gs ≡ true
    → Leaves (h regs ptr c) (λ r. r.1.kernel_gs ≡ true)
timer_handlers zero zero v h e e' regs ptr c k =
    let same : switch ≡ h = cc in
    subst (λ f. Leaves (f regs ptr c) (λ r. r.1.kernel_gs ≡ true)) same (Leaves-ok k)
timer_handlers zero (suc i) v h e e' regs ptr c k = absurd cc
timer_handlers (suc n) zero v h e e' regs ptr c k = absurd cc
timer_handlers (suc n) (suc i) v h e e' regs ptr c k = timer_handlers n i v h e e' regs ptr c k

isr_handler_main-Fits_example :
    Leaves (isr_handler_main Unit (λ a e c. ok (0, c)) (timer_vectors 32) at_timer core) Fits
isr_handler_main-Fits_example =
    isr_handler_main-Fits Unit (λ a e c. ok (0, c)) (timer_vectors 32) (λ a e c k. Leaves-ok k)
      (timer_handlers 32) at_timer core refl
