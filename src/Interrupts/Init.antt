-- ===== src/Interrupts/Init.antt =====
-- kernel/arch/x86/idt.c: idt_init. The stubs of isr.asm are a parameter, as is where the table is.
use rock.Base.{ℕ, zero, suc, ◌+◌, ◌-◌, ◌*◌, none, some, List, get_elem?, set}
use rock.Interrupts.{Vector, IdtDescriptor, set_idt_descriptor}

-- what `lidt` loads
pub record Idtr : Type 0 where
  pub limit : ℕ
  pub offset : ℕ

module _ {H : Type 0} where
  -- `interrupt_vectors[i]` changed, which is within the table
  abbrev pub at_vector : List (Vector H) → ℕ → (Vector H → Vector H) → List (Vector H)
  at_vector vectors i f = elim (get_elem? vectors i) [
    | none ↦ vectors
    | some v ↦ set vectors i (f v)
  ]

  -- the loop that reserves `left` vectors from the `i`-th on
  unfoldable pub reserve : ℕ → ℕ → List (Vector H) → List (Vector H)
  reserve zero i vectors = vectors
  reserve (suc left) i vectors =
      reserve left (i + 1) (at_vector vectors i (λ v. record v { reserved = 1 }))

  -- the vectors after idt_init
  unfoldable pub init_vectors : H → List (Vector H) → List (Vector H)
  init_vectors reschedule vectors =
      at_vector (reserve 48 0 vectors) 32 (λ v. record v { handler = some reschedule; ptr = 0 })

module _ (isr : ℕ → ℕ) where
  -- the calls `set_idt_descriptor(0x28, 0, 0x8e, isr<i>, i)`, `left` of them from `i` on
  unfoldable pub describe : ℕ → ℕ → List IdtDescriptor → List IdtDescriptor
  describe zero i idt = idt
  describe (suc left) i idt = describe left (i + 1) (set_idt_descriptor idt 0x28 0 0x8e (isr i) i)

  unfoldable pub idt_init :
      {H : Type 0}
      → H
      → ℕ
      → List (Vector H)
      → List IdtDescriptor
      → List (Vector H) × List IdtDescriptor × Idtr
  idt_init reschedule idt_address vectors idt = (
    init_vectors reschedule vectors,
    describe 256 0 idt,
    record { limit = 256 * 16 - 1; offset = idt_address },
  )
