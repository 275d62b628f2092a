-- ===== src/Interrupts.antt =====
-- kernel/arch/x86/idt.c: the descriptors of the table and the vectors that drivers take. Init has
-- idt_init and Handler isr_handler_main.
-- A handler is an argument of the model.
pub mod Vectors
pub mod Descriptors
pub mod Handler
pub mod Init
pub mod Handling
pub mod Start
pub mod Gates
mod Tests
use rock.Base.{
  minus_one_int, ℕ, ◌+◌, ◌-◌, ◌/◌, ◌%◌, ◌^◌, bit_and, Option, some, List, [], ◌∷◌, set, ◌==◌,
  if◌then◌else◌,
}

pub record IdtDescriptor : Type 0 where
  pub offset_low : ℕ
  pub cs : ℕ
  pub ist : ℕ
  pub attributes : ℕ
  pub offset_mid : ℕ
  pub offset_high : ℕ
  pub reserved_word : ℕ

pub record Vector (H : Type 0) : Type 0 where
  pub handler : Option H
  pub ptr : ℕ
  pub reserved : ℕ

-- the fields of a descriptor, each cut to its width
pub idt_descriptor : ℕ → ℕ → ℕ → ℕ → IdtDescriptor
idt_descriptor cs ist attributes offset = record {
  offset_low = bit_and offset 0xffff;
  cs = cs % 2 ^ 16;
  ist = ist % 2 ^ 8;
  attributes = attributes % 2 ^ 8;
  offset_mid = bit_and (offset / 2 ^ 16) 0xffff;
  offset_high = bit_and (offset / 2 ^ 32) 0xffffffff;
  reserved_word = 0;
}

unfoldable pub set_idt_descriptor : List IdtDescriptor → ℕ → ℕ → ℕ → ℕ → ℕ → List IdtDescriptor
set_idt_descriptor idt cs ist attributes offset index =
    set idt (index % 2 ^ 8) (idt_descriptor cs ist attributes offset)

module _ {H : Type 0} (handler : H) (ptr : ℕ) where
  -- the loop, with the vectors from `i` on
  pub alloc_vector_from : ℕ → List (Vector H) → ℕ × List (Vector H)
  alloc_vector_from i [] = (minus_one_int, [])
  alloc_vector_from i (v ∷ vs) =
      let rest = alloc_vector_from (i + 1) vs in
      if v.reserved == 0
      then (i, record { handler = some handler; ptr = ptr; reserved = 1 } ∷ vs)
      else (rest.0, v ∷ rest.1)

  pub idt_alloc_vector : List (Vector H) → ℕ × List (Vector H)
  idt_alloc_vector interrupt_vectors = alloc_vector_from 0 interrupt_vectors
