-- ===== src/Apic/Entries.antt =====
-- kernel/arch/x86/apic.c: one entry of the MADT, and what the switch does with it.
use rock.Base.{
  ℕ, ◌+◌, ◌^◌, ◌<◌, ◌≤◌, ◌≡◌, refl, ap, ◌∙◌, List, [], ◌∷◌, ◌++◌, length, ok, bytes_of, arith,
}
use rock.Apic.{MadtEnt0, MadtEnt1, MadtEnt2, MadtEnt4, MadtEnt5, MadtLists, push_entry}
use rock.Apic.Bytes.{read-part, read-start, number_of_one, number_of_two, number_of_four}

-- an entry of the table; `other` is one of a type above 5, which the code passes over
pub data Entry : Type 0 where
  ent0 : MadtEnt0 → Entry
  ent1 : MadtEnt1 → Entry
  ent2 : MadtEnt2 → Entry
  ent4 : MadtEnt4 → Entry
  ent5 : MadtEnt5 → Entry
  other : ℕ → List ℕ → Entry

abbrev pub kind_of : Entry → ℕ
kind_of (ent0 e) = 0
kind_of (ent1 e) = 1
kind_of (ent2 e) = 2
kind_of (ent4 e) = 4
kind_of (ent5 e) = 5
kind_of (other kind bytes) = kind

-- what stands behind the type and the size
abbrev pub payload : Entry → List ℕ
payload (ent0 e) = bytes_of 1 e.acpi_id ++ bytes_of 1 e.apic_id ++ bytes_of 4 e.flags
payload (ent1 e) =
    bytes_of 1 e.ioapic_id
    ++ bytes_of 1 e.reserved
    ++ bytes_of 4 e.ioapic_addr
    ++ bytes_of 4 e.gsi_base
payload (ent2 e) =
    bytes_of 1 e.bus_src ++ bytes_of 1 e.irq_src ++ bytes_of 4 e.gsi ++ bytes_of 2 e.flags
payload (ent4 e) = bytes_of 1 e.acpi_id ++ bytes_of 2 e.flags ++ bytes_of 1 e.lint
payload (ent5 e) = bytes_of 2 e.reserved ++ bytes_of 1 e.lapic_override
payload (other kind bytes) = bytes

abbrev pub encode : Entry → List ℕ
encode e = kind_of e ∷ (length (payload e) + 2) ∷ payload e

abbrev pub encode_all : List Entry → List ℕ
encode_all [] = []
encode_all (e ∷ es) = encode e ++ encode_all es

-- the field is within its bytes
abbrev pub Fits : Entry → Type 0
Fits (ent0 e) = (e.acpi_id < 256) × (e.apic_id < 256) × (e.flags < 2 ^ 32)
Fits (ent1 e) =
    (e.ioapic_id < 256) × (e.reserved < 256) × (e.ioapic_addr < 2 ^ 32) × (e.gsi_base < 2 ^ 32)
Fits (ent2 e) = (e.bus_src < 256) × (e.irq_src < 256) × (e.gsi < 2 ^ 32) × (e.flags < 2 ^ 16)
Fits (ent4 e) = (e.acpi_id < 256) × (e.flags < 2 ^ 16) × (e.lint < 256)
Fits (ent5 e) = (e.reserved < 2 ^ 16) × (e.lapic_override < 256)
Fits (other kind bytes) = (6 ≤ kind) × (kind < 256) × (length bytes < 254)

abbrev pub AllFit : List Entry → Type 0
AllFit [] = Unit
AllFit (e ∷ es) = Fits e × AllFit es

-- the lists with one more entry
abbrev pub add_entry : Entry → MadtLists → MadtLists
add_entry (ent0 e) l = record l { ent0 = l.ent0 ++ e ∷ [] }
add_entry (ent1 e) l = record l { ent1 = l.ent1 ++ e ∷ [] }
add_entry (ent2 e) l = record l { ent2 = l.ent2 ++ e ∷ [] }
add_entry (ent4 e) l = record l { ent4 = l.ent4 ++ e ∷ [] }
add_entry (ent5 e) l = record l { ent5 = l.ent5 ++ e ∷ [] }
add_entry (other kind bytes) l = l

abbrev pub add_all : List Entry → MadtLists → MadtLists
add_all [] l = l
add_all (e ∷ es) l = add_all es (add_entry e l)

module _ (xs ys : List ℕ) where
  push-ent0 :
      (e : MadtEnt0) (l : MadtLists)
      → Fits (ent0 e)
      → push_entry (xs ++ (payload (ent0 e) ++ ys)) 0 (length xs) l ≡ ok (add_entry (ent0 e) l)
  unfolding push_entry
  push-ent0 e l (f0, f1, f2) =
      let p = payload (ent0 e) in
      let r0 = read-start xs ys p 1 (omega arith) ∙ ap ok (number_of_one e.acpi_id f0) in
      let r1 = read-part xs p ys 1 1 (omega arith) ∙ ap ok (number_of_one e.apic_id f1) in
      let r2 = read-part xs p ys 2 4 (omega arith) ∙ ap ok (number_of_four e.flags f2) in
      rw (r0, r1, r2) refl

  push-ent1 :
      (e : MadtEnt1) (l : MadtLists)
      → Fits (ent1 e)
      → push_entry (xs ++ (payload (ent1 e) ++ ys)) 1 (length xs) l ≡ ok (add_entry (ent1 e) l)
  unfolding push_entry
  push-ent1 e l (f0, f1, f2, f3) =
      let p = payload (ent1 e) in
      let r0 = read-start xs ys p 1 (omega arith) ∙ ap ok (number_of_one e.ioapic_id f0) in
      let r1 = read-part xs p ys 1 1 (omega arith) ∙ ap ok (number_of_one e.reserved f1) in
      let r2 = read-part xs p ys 2 4 (omega arith) ∙ ap ok (number_of_four e.ioapic_addr f2) in
      let r3 = read-part xs p ys 6 4 (omega arith) ∙ ap ok (number_of_four e.gsi_base f3) in
      rw (r0, r1, r2, r3) refl

  push-ent2 :
      (e : MadtEnt2) (l : MadtLists)
      → Fits (ent2 e)
      → push_entry (xs ++ (payload (ent2 e) ++ ys)) 2 (length xs) l ≡ ok (add_entry (ent2 e) l)
  unfolding push_entry
  push-ent2 e l (f0, f1, f2, f3) =
      let p = payload (ent2 e) in
      let r0 = read-start xs ys p 1 (omega arith) ∙ ap ok (number_of_one e.bus_src f0) in
      let r1 = read-part xs p ys 1 1 (omega arith) ∙ ap ok (number_of_one e.irq_src f1) in
      let r2 = read-part xs p ys 2 4 (omega arith) ∙ ap ok (number_of_four e.gsi f2) in
      let r3 = read-part xs p ys 6 2 (omega arith) ∙ ap ok (number_of_two e.flags f3) in
      rw (r0, r1, r2, r3) refl

  push-ent4 :
      (e : MadtEnt4) (l : MadtLists)
      → Fits (ent4 e)
      → push_entry (xs ++ (payload (ent4 e) ++ ys)) 4 (length xs) l ≡ ok (add_entry (ent4 e) l)
  unfolding push_entry
  push-ent4 e l (f0, f1, f2) =
      let p = payload (ent4 e) in
      let r0 = read-start xs ys p 1 (omega arith) ∙ ap ok (number_of_one e.acpi_id f0) in
      let r1 = read-part xs p ys 1 2 (omega arith) ∙ ap ok (number_of_two e.flags f1) in
      let r2 = read-part xs p ys 3 1 (omega arith) ∙ ap ok (number_of_one e.lint f2) in
      rw (r0, r1, r2) refl

  push-ent5 :
      (e : MadtEnt5) (l : MadtLists)
      → Fits (ent5 e)
      → push_entry (xs ++ (payload (ent5 e) ++ ys)) 5 (length xs) l ≡ ok (add_entry (ent5 e) l)
  unfolding push_entry
  push-ent5 e l (f0, f1) =
      let p = payload (ent5 e) in
      let r0 = read-start xs ys p 2 (omega arith) ∙ ap ok (number_of_two e.reserved f0) in
      let r1 = read-part xs p ys 2 1 (omega arith) ∙ ap ok (number_of_one e.lapic_override f1) in
      rw (r0, r1) refl

  push-other :
      (kind : ℕ) (bytes : List ℕ) (l : MadtLists)
      → 6 ≤ kind
      → push_entry (xs ++ (bytes ++ ys)) kind (length xs) l ≡ ok l
  unfolding push_entry
  push-other kind bytes l h = ground (arith, h)

  pub push-encode :
      (e : Entry) (l : MadtLists)
      → Fits e
      → push_entry (xs ++ (payload e ++ ys)) (kind_of e) (length xs) l ≡ ok (add_entry e l)
  push-encode (ent0 e) l f = push-ent0 e l f
  push-encode (ent1 e) l f = push-ent1 e l f
  push-encode (ent2 e) l f = push-ent2 e l f
  push-encode (ent4 e) l f = push-ent4 e l f
  push-encode (ent5 e) l f = push-ent5 e l f
  push-encode (other kind bytes) l (f0, f1, f2) = push-other kind bytes l f0
