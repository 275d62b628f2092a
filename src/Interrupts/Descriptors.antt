-- ===== src/Interrupts/Descriptors.antt =====
-- A descriptor holds the whole address of its handler.
use rock.Base.{
  ℕ, ◌+◌, ◌*◌, ◌/◌, ◌%◌, ◌^◌, ◌<◌, ◌≡◌, refl, ap, ◌∙◌, some, List, length, set, get_elem?,
  get_elem?-set_self, get_elem?-set_ne, ◌≢◌, arith,
}
use rock.Base.Bits.Shift.{bit_and-ones, bit_and_split}
use rock.Interrupts.{IdtDescriptor, idt_descriptor, set_idt_descriptor}

-- the address that the processor jumps to
abbrev pub offset_of : IdtDescriptor → ℕ
offset_of d = d.offset_low + d.offset_mid * 2 ^ 16 + d.offset_high * 2 ^ 32

idt_descriptor-offset :
    (cs ist attributes offset : ℕ)
    → offset < 2 ^ 64
    → offset_of (idt_descriptor cs ist attributes offset) ≡ offset
unfolding idt_descriptor
idt_descriptor-offset cs ist attributes offset h = omega (
  arith,
  bit_and_split 16 offset,
  bit_and_split 16 (offset / 2 ^ 16),
  bit_and-ones 32 (offset / 2 ^ 32) (omega arith),
)

-- After set_idt_descriptor with a 64-bit handler address, the entry of the vector leads to that
-- address with the selector and the attributes given, and the entries of other vectors are as before.
pub set_idt_descriptor_lem :
    (idt : List IdtDescriptor) (cs ist attributes offset index : ℕ)
    → length idt ≡ 256
    → index < 256
    → offset < 2 ^ 64
    → ((d : IdtDescriptor) × (get_elem?
            (set_idt_descriptor idt cs ist attributes offset index)
            index
          ≡ some d)
        × (offset_of d ≡ offset)
        × (d.cs ≡ cs % 2 ^ 16)
        × (d.attributes ≡ attributes % 2 ^ 8))
      × ((j : ℕ)
          → j ≢ index
          → get_elem? (set_idt_descriptor idt cs ist attributes offset index) j ≡ get_elem? idt j)
unfolding set_idt_descriptor idt_descriptor
set_idt_descriptor_lem idt cs ist attributes offset index len low wide =
    let same : index % 2 ^ 8 ≡ index = omega arith in
    (
      (
        idt_descriptor cs ist attributes offset,
        ap (λ k. get_elem? (set idt k (idt_descriptor cs ist attributes offset)) index) same
            ∙ get_elem?-set_self idt index _ (omega arith),
        idt_descriptor-offset cs ist attributes offset wide,
        refl,
        refl,
      ),
      λ j ne. get_elem?-set_ne idt (index % 2 ^ 8) j _ (λ e. ne (omega arith)),
    )
