-- ===== src/Interrupts/Gates.antt =====
-- The table of descriptors after idt_init.
use rock.Base.{
  ℕ, zero, suc, ◌+◌, ◌%◌, ◌^◌, ◌<◌, ◌≤◌, ◌≡◌, refl, sym, ap, ◌∙◌, inl, inr, Option, some, List,
  length, get_elem?, length-set, ◌==◌, Bool-cases, arith,
}
use rock.Interrupts.{Vector, IdtDescriptor, set_idt_descriptor}
use rock.Interrupts.Descriptors.{offset_of, set_idt_descriptor_lem}
use rock.Interrupts.Init.{describe, idt_init}

-- the entry leads to the address, in the kernel's code segment, as an interrupt gate
pub record Gate (entry : Option IdtDescriptor) (address : ℕ) : Type 0 where
  pub descriptor : IdtDescriptor
  pub there : entry ≡ some descriptor
  pub leads : offset_of descriptor ≡ address
  pub segment : descriptor.cs ≡ 0x28
  pub gate : descriptor.attributes ≡ 0x8e

module _ (isr : ℕ → ℕ) (wide : (i : ℕ) → isr i < 2 ^ 64) where
  length-set_idt :
      (idt : List IdtDescriptor) (i : ℕ)
      → length (set_idt_descriptor idt 0x28 0 0x8e (isr i) i) ≡ length idt
  unfolding set_idt_descriptor
  length-set_idt idt i = length-set idt (i % 2 ^ 8) _

  describe-outside :
      (left i : ℕ) (idt : List IdtDescriptor) (j : ℕ)
      → length idt ≡ 256
      → i + left ≤ 256
      → j < i
      → get_elem? (describe isr left i idt) j ≡ get_elem? idt j
  unfolding describe
  describe-outside zero i idt j len fits out = refl
  describe-outside (suc left) i idt j len fits out =
      describe-outside left (i + 1) (set_idt_descriptor idt 0x28 0 0x8e (isr i) i) j
        (length-set_idt idt i ∙ len) (omega arith) (omega arith)
      ∙ (set_idt_descriptor_lem idt 0x28 0 0x8e (isr i) i len (omega arith) (wide i)).1 j
          (omega arith)

  describe-Gate :
      (left i : ℕ) (idt : List IdtDescriptor) (j : ℕ)
      → length idt ≡ 256
      → i + left ≤ 256
      → i ≤ j
      → j < i + left
      → Gate (get_elem? (describe isr left i idt) j) (isr j)
  unfolding describe
  describe-Gate zero i idt j len fits lo hi = absurd (omega arith)
  describe-Gate (suc left) i idt j len fits lo hi =
      let next = set_idt_descriptor idt 0x28 0 0x8e (isr i) i in
      elim (Bool-cases (i == j)) [
        | inl at ↦
            let same : i ≡ j = ground (arith, at) in
            let ((d, there, leads, segment, gate), others) =
              set_idt_descriptor_lem idt 0x28 0 0x8e (isr i) i len (omega arith) (wide i) in
            record {
              descriptor = d;
              there =
                  describe-outside left (i + 1) next j (length-set_idt idt i ∙ len) (omega arith)
                    (omega arith)
                  ∙ ap (get_elem? next) (sym same)
                  ∙ there;
              leads = leads ∙ ap isr same;
              segment = segment;
              gate = gate;
            }
        | inr past ↦
            describe-Gate left (i + 1) next j (length-set_idt idt i ∙ len) (omega arith)
              (ground (arith, past)) (omega arith)
      ]

  -- After idt_init on a table of 256 entries, with stubs at 64-bit addresses, the entry of each
  -- vector is an interrupt gate that leads to the stub of that number in segment 0x28.
  pub idt_init-Gate :
      {H : Type 0} (reschedule : H) (idt_address : ℕ) (vs : List (Vector H))
      (idt : List IdtDescriptor) (j : ℕ)
      → length idt ≡ 256
      → j < 256
      → Gate (get_elem? (idt_init isr reschedule idt_address vs idt).1 j) (isr j)
  unfolding idt_init
  idt_init-Gate reschedule idt_address vs idt j len low =
      describe-Gate 256 0 idt j len (omega arith) (omega arith) low
